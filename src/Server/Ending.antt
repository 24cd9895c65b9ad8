-- ===== src/Server/Ending.antt =====
-- src/Server.cpp: the end of `run`, from the end of its loop on, among the workers of the pool, their connections
-- and the two background threads, each of which moves at any moment.
use redis_like_in_memory_dat.Base.{
  ℕ, ◌≡◌, List, [], ◌∷◌, ◌++◌, Option, none, some, Bool, true, false, if◌then◌else◌, get_or, length,
}
use mathlib.Core.Option
use redis_like_in_memory_dat.Background.Thread.{
  looping, BackgroundThread, request_stop, join, leave_loop,
}
use redis_like_in_memory_dat.Server.Registry.{
  serving, closed, Connection, new_connection, Connections, Act, accepts, clears, shuts_down,
  registers, tests, finishes, closes_fd, act, listening,
}
use redis_like_in_memory_dat.ThreadPool.Pool.{
  Worker, waiting, running, returned, ThreadPool, make_pool, try_submit, stop, advance,
}

-- Where `run` is: in its loop; past it; past `shutdownActiveConnections`, in the joins of the pool; in the `stop`
-- of the sweeper, then in that of the scheduler; or past its return.
pub data Stage : Type 0 where
  accepting interrupting draining stopping_sweeper stopping_scheduler finished : Stage

-- A task of the pool is a connection, by its place among those that have been accepted.
pub record Run : Type 0 where
  pub stage : Stage
  pub connections : Connections
  pub pool : ThreadPool ℕ
  pub sweeper : Option BackgroundThread
  pub scheduler : Option BackgroundThread

-- A background thread that `start` has started, if the server has one.
abbrev pub thread_if : Bool → Option BackgroundThread
thread_if true = some (record { is_running = true; stop_requested = false; thread = looping })
thread_if false = none

-- `run` begins, after `start`.
abbrev pub run_from : ℕ → ℕ → Bool → Bool → Run
run_from thread_count max_queued is_sweeping is_saving = record {
  stage = accepting;
  connections = listening;
  pool = make_pool thread_count max_queued;
  sweeper = thread_if is_sweeping;
  scheduler = thread_if is_saving;
}

unfoldable pub all_returned : List (Worker ℕ) → Bool
all_returned [] = true
all_returned (returned ∷ ws) = all_returned ws
all_returned (_ ∷ ws) = false

abbrev pub left : BackgroundThread → BackgroundThread
left b = leave_loop b.stop_requested b.thread b

-- The join of a thread, if there is one; `none` while it waits.
unfoldable pub join_if : Option BackgroundThread → Option (Option BackgroundThread)
join_if none = some none
join_if (some b) = elim (join b.thread b) [ none ↦ none | some b' ↦ some (some b') ]

abbrev pub past_sweeper : Run → Option (Option BackgroundThread) → Option Run
past_sweeper r none = none
past_sweeper r (some b) = some (record r {
  stage = stopping_scheduler;
  sweeper = b;
  scheduler = Option.map request_stop r.scheduler;
})

abbrev pub past_scheduler : Run → Option (Option BackgroundThread) → Option Run
past_scheduler r none = none
past_scheduler r (some b) = some (record r { stage = finished; scheduler = b })

-- The next step of `run`; `none` while it waits, and past its return.
unfoldable pub go_on : Stage → Run → Option Run
unfolding all_returned join_if act
go_on accepting r = some (record r { stage = interrupting; connections = act clears r.connections })
go_on interrupting r =
    some (record r {
      stage = draining;
      connections = act shuts_down r.connections;
      pool = stop r.pool;
    })
go_on draining r =
    if all_returned r.pool.workers
    then some (record r { stage = stopping_sweeper; sweeper = Option.map request_stop r.sweeper })
    else none
go_on stopping_sweeper r = past_sweeper r (join_if r.sweeper)
go_on stopping_scheduler r = past_scheduler r (join_if r.scheduler)
go_on finished r = none

-- The connection that a step of `serveConnection` is of.
abbrev pub served_by : Act → Option ℕ
served_by accepts = none
served_by clears = none
served_by shuts_down = none
served_by (registers c) = some c
served_by (tests c) = some c
served_by (finishes c) = some c
served_by (closes_fd c) = some c

unfoldable pub connection_at : Connections → ℕ → Connection
connection_at s c = get_or s.connections c new_connection

-- A task ends past the `close` of its connection.
abbrev pub MayMove : Connections → Worker ℕ → Type 0
MayMove s (running c) = (connection_at s c).phase ≡ closed
MayMove s _ = Unit {0}

-- A worker that has nothing to do until another thread or a client acts: it waits for a task and there is none, it is
-- parked in the `recv` of a connection that nothing has shut down, or it has returned.
abbrev pub IsParked : Run → ℕ → Worker ℕ → Type 0
IsParked r i waiting = advance false i r.pool ≡ none
IsParked r i (running c) =
    ((connection_at r.connections c).phase ≡ serving)
    × ((connection_at r.connections c).is_interrupted ≡ false)
IsParked r i returned = Unit {0}

-- The states that a run passes through, with the connections that the pool has accepted and those that its
-- workers have begun to serve. A connection moves in the worker that has it, which is through with it past the
-- `close`; `stop` comes at any moment.
pub data Runs : Run → List ℕ → List ℕ → Type 0 where
  begins :
      (thread_count max_queued : ℕ) (is_sweeping is_saving : Bool)
      → Runs (run_from thread_count max_queued is_sweeping is_saving) [] []
  submits :
      {r : Run} {taken begun : List ℕ}
      → Runs r taken begun
      → r.stage ≡ accepting
      → (p : ThreadPool ℕ) → try_submit (length r.connections.connections) r.pool ≡ (p, true)
      → Runs
          (record r { pool = p; connections = act accepts r.connections })
          (taken ++ length r.connections.connections ∷ [])
          begun
  is_busy :
      {r : Run} {taken begun : List ℕ}
      → Runs r taken begun
      → r.stage ≡ accepting
      → (p : ThreadPool ℕ) → try_submit (length r.connections.connections) r.pool ≡ (p, false)
      → Runs (record r { pool = p }) taken begun
  works :
      {r : Run} {taken begun : List ℕ}
      → Runs r taken begun
      → (i : ℕ) → MayMove r.connections (get_or r.pool.workers i returned)
      → (p : ThreadPool ℕ) (more : List ℕ) → advance false i r.pool ≡ some (p, more)
      → Runs (record r { pool = p }) taken (begun ++ more)
  serves :
      {r : Run} {taken begun : List ℕ}
      → Runs r taken begun
      → (i c : ℕ) → get_or r.pool.workers i returned ≡ running c
      → (a : Act) → served_by a ≡ some c
      → Runs (record r { connections = act a r.connections }) taken begun
  stop_called :
      {r : Run} {taken begun : List ℕ}
      → Runs r taken begun
      → Runs (record r { connections = act clears r.connections }) taken begun
  sweeper_leaves :
      {r : Run} {taken begun : List ℕ}
      → Runs r taken begun
      → Runs (record r { sweeper = Option.map left r.sweeper }) taken begun
  scheduler_leaves :
      {r : Run} {taken begun : List ℕ}
      → Runs r taken begun
      → Runs (record r { scheduler = Option.map left r.scheduler }) taken begun
  goes_on :
      {r r' : Run} {taken begun : List ℕ}
      → Runs r taken begun
      → go_on r.stage r ≡ some r'
      → Runs r' taken begun
