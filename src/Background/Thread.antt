-- ===== src/Background/Thread.antt =====
-- src/ExpirationSweeper.cpp and src/SnapshotScheduler.cpp: `start`, `stop` and the end of the loop, which are the
-- same in both. One thread at a time calls `start` and `stop`; the background thread moves at any moment.
use redis_like_in_memory_dat.Base.{
  ℕ, ◌≡◌, Option, none, some, Bool, true, false, ◌==◌, if◌then◌else◌,
}

-- The thread: not joinable, in its loop, or past the return.
pub data Thread : Type 0 where
  absent looping returned : Thread

pub record BackgroundThread : Type 0 where
  pub is_running : Bool
  pub stop_requested : Bool
  pub thread : Thread

abbrev pub idle : BackgroundThread
idle = record { is_running = false; stop_requested = false; thread = absent }

-- `thread_ = std::thread(…)`; `none`: over a thread that has not been joined, which ends the program.
unfoldable pub launch : Thread → BackgroundThread → Option BackgroundThread
launch absent b = some (record b { thread = looping })
launch _ b = none

unfoldable pub start : BackgroundThread → Option BackgroundThread
unfolding launch
start b =
    if b.is_running
    then some b
    else launch b.thread (record b { is_running = true; stop_requested = false })

-- `start` of the scheduler; no interval is none to wait for.
unfoldable pub start_every : ℕ → BackgroundThread → Option BackgroundThread
unfolding start
start_every interval b = if interval == 0 then some b else start b

-- What `stop` does before it joins.
abbrev pub request_stop : BackgroundThread → BackgroundThread
request_stop b = record b { stop_requested = true }

-- The join, and what follows it in `stop`; `none` while it waits.
unfoldable pub join : Thread → BackgroundThread → Option BackgroundThread
join looping b = none
join _ b = some (record b { is_running = false; thread = absent })

-- The loop tests the flag after its wait.
unfoldable pub leave_loop : Bool → Thread → BackgroundThread → BackgroundThread
leave_loop true looping b = record b { thread = returned }
leave_loop _ _ b = b

-- The states that the object passes through; true between the request of `stop` and its join.
pub data Owned : BackgroundThread → Bool → Type 0 where
  created : Owned idle false
  starts : {b b' : BackgroundThread} → Owned b false → start b ≡ some b' → Owned b' false
  requests : {b : BackgroundThread} → Owned b false → Owned (request_stop b) true
  joins : {b b' : BackgroundThread} → Owned b true → join b.thread b ≡ some b' → Owned b' false
  loops :
      {b : BackgroundThread} {asked : Bool}
      → Owned b asked
      → Owned (leave_loop b.stop_requested b.thread b) asked
