-- ===== src/Background/Lifecycle.antt =====
-- A background thread from its creation on.
use redis_like_in_memory_dat.Base.{◌≡◌, refl, Option, none, some, Bool, true, false}
use mathlib.Core.Path.{subst}
use redis_like_in_memory_dat.Background.Thread.{
  absent, looping, returned, BackgroundThread, launch, start, request_stop, join, leave_loop, Owned,
  created, starts, requests, joins, loops,
}

-- No thread, or one in its loop that has not been asked to stop, or one that has been.
data Regular : BackgroundThread → Bool → Type 0 where
  resting :
      (s : Bool)
      → Regular (record { is_running = false; stop_requested = s; thread = absent }) false
  resting_asked :
      Regular (record { is_running = false; stop_requested = true; thread = absent }) true
  working : Regular (record { is_running = true; stop_requested = false; thread = looping }) false
  asked_to_stop :
      Regular (record { is_running = true; stop_requested = true; thread = looping }) true
  stopped : Regular (record { is_running = true; stop_requested = true; thread = returned }) true

abbrev After : Option BackgroundThread → Type 0
After none = Unit {0}
After (some b) = Regular b false

start-After : {b : BackgroundThread} → Regular b false → After (start b)
unfolding start launch
start-After (resting s) = working
start-After working = working

join-After : {b : BackgroundThread} → Regular b true → After (join b.thread b)
unfolding join
join-After resting_asked = resting true
join-After asked_to_stop = tt
join-After stopped = resting true

requests-Regular : {b : BackgroundThread} → Regular b false → Regular (request_stop b) true
requests-Regular (resting s) = resting_asked
requests-Regular working = asked_to_stop

loops-Regular :
    {b : BackgroundThread} {asked : Bool}
    → Regular b asked
    → Regular (leave_loop b.stop_requested b.thread b) asked
unfolding leave_loop
loops-Regular (resting true) = resting true
loops-Regular (resting false) = resting false
loops-Regular resting_asked = resting_asked
loops-Regular working = working
loops-Regular asked_to_stop = stopped
loops-Regular stopped = stopped

Owned-Regular : {b : BackgroundThread} {asked : Bool} → Owned b asked → Regular b asked
Owned-Regular created = resting false
Owned-Regular (starts {b} {b'} o e) = subst After e (start-After (Owned-Regular o))
Owned-Regular (requests o) = requests-Regular (Owned-Regular o)
Owned-Regular (joins {b} {b'} o e) = subst After e (join-After (Owned-Regular o))
Owned-Regular (loops o) = loops-Regular (Owned-Regular o)

-- Whatever the thread and its owner have done, in any interleaving, `start` never puts a thread over one that has
-- not been joined: after it there is a thread in its loop, not asked to stop.
pub start_lem :
    {b : BackgroundThread}
    → Owned b false
    → start b ≡ some (record { is_running = true; stop_requested = false; thread = looping })
unfolding start launch
start_lem {b} o = started b (Owned-Regular o)
  where
    started :
        (b : BackgroundThread)
        → Regular b false
        → start b ≡ some (record { is_running = true; stop_requested = false; thread = looping })
    started _ (resting s) = refl
    started _ working = refl

-- Whenever `stop` has asked, one test of the flag by the loop is enough for its join: it returns, and then there
-- is no thread and the object is not running.
pub stop_ends :
    {b : BackgroundThread}
    → Owned b true
    → join (leave_loop b.stop_requested b.thread b).thread (leave_loop b.stop_requested b.thread b)
      ≡ some (record { is_running = false; stop_requested = true; thread = absent })
unfolding join leave_loop
stop_ends {b} o = ended b (Owned-Regular o)
  where
    ended :
        (b : BackgroundThread)
        → Regular b true
        → join
            (leave_loop b.stop_requested b.thread b).thread
            (leave_loop b.stop_requested b.thread b)
          ≡ some (record { is_running = false; stop_requested = true; thread = absent })
    ended _ resting_asked = refl
    ended _ asked_to_stop = refl
    ended _ stopped = refl
