-- ===== src/Tests/Runs.antt =====
-- A run whose one connection is interrupted and that ends, and a background thread that is started twice.
use redis_like_in_memory_dat.Base.{ℕ, ◌≡◌, refl, List, [], ◌∷◌, some, true, false, get_or}
use mathlib.Core.Option
use redis_like_in_memory_dat.Background.Lifecycle.{start_lem}
use redis_like_in_memory_dat.Background.Thread.{Thread, Owned, start, launch, join, leave_loop}
use redis_like_in_memory_dat.Server.ClosedOnce.{Each}
use redis_like_in_memory_dat.Server.Ended.{IsClosed, run_ended}
use redis_like_in_memory_dat.Server.Ending
use redis_like_in_memory_dat.Server.Ending.{Run, Runs, Stage, go_on}
use redis_like_in_memory_dat.Server.Registry.{
  accepts, clears, shuts_down, registers, tests, finishes, closes_fd, register, test_running,
  finish, close_connection, interrupt, act, acts, listening,
}
use redis_like_in_memory_dat.Server.Threads.{Gone}
use redis_like_in_memory_dat.ThreadPool.Pool.{
  Worker, advance, advance_from, take_task, try_submit, make_pool,
}

abbrev begun : Run
begun = Ending.run_from 1 0 true true

abbrev first : List ℕ
first = 0 ∷ []

-- One connection is accepted, and its worker waits for a request.
served-Runs :
    Runs
      (record begun {
        connections = acts (accepts ∷ registers 0 ∷ tests 0 ∷ []) listening;
        pool = record begun.pool { workers = Worker.running 0 ∷ [] };
      })
      first
      first
unfolding make_pool try_submit advance advance_from take_task acts
served-Runs =
    Runs.serves
      (Runs.serves
        (Runs.works (Runs.submits (Runs.begins 1 0 true true) refl _ refl) 0 tt _ first refl) 0 0
        refl (registers 0) refl)
      0 0 refl (tests 0) refl

-- The loop of `run` has ended and has shut the connection down, whose worker is through with it and has returned.
abbrev drained : Run
drained = record begun {
  stage = Stage.draining;
  connections =
      acts
        (accepts
          ∷ registers 0
          ∷ tests 0
          ∷ clears
          ∷ clears
          ∷ shuts_down
          ∷ finishes 0
          ∷ closes_fd 0
          ∷ [])
        listening;
  pool = record begun.pool { workers = Worker.returned ∷ []; stopping = true };
}

drained-Runs : Runs drained first first
unfolding Ending.go_on make_pool advance advance_from take_task acts Ending.connection_at act
    register test_running finish close_connection interrupt
drained-Runs =
    let shut = Runs.goes_on (Runs.goes_on (Runs.stop_called served-Runs) refl) refl in
    let through =
      Runs.serves (Runs.serves shut 0 0 refl (finishes 0) refl) 0 0 refl (closes_fd 0) refl in
    Runs.works (Runs.works through 0 refl _ [] refl) 0 tt _ [] refl

-- Both background threads have left their loops, and `run` has returned.
abbrev ended : Run
ended = record drained {
  stage = Stage.finished;
  sweeper = some (record { is_running = false; stop_requested = true; thread = Thread.absent });
  scheduler = some (record { is_running = false; stop_requested = true; thread = Thread.absent });
}

ended-Runs : Runs ended first first
unfolding Ending.go_on Ending.all_returned Ending.join_if make_pool join leave_loop
ended-Runs =
    Runs.goes_on
      (Runs.scheduler_leaves
        (Runs.goes_on (Runs.sweeper_leaves (Runs.goes_on drained-Runs refl)) refl))
      refl

run_ended_example :
    (first ≡ first)
    × (ended.pool.tasks ≡ [])
    × ((i : ℕ) → get_or ended.pool.workers i Worker.returned ≡ Worker.returned)
    × (ended.connections.is_shut_down ≡ true)
    × Each IsClosed ended.connections.connections
    × Gone ended.sweeper
    × Gone ended.scheduler
run_ended_example = run_ended ended-Runs refl

-- Started and stopped.
stopped_once :
    Owned (record { is_running = false; stop_requested = true; thread = Thread.absent }) false
unfolding start launch join leave_loop
stopped_once = Owned.joins (Owned.loops (Owned.requests (Owned.starts Owned.created refl))) refl

start_lem_example :
    start (record { is_running = false; stop_requested = true; thread = Thread.absent })
    ≡ some (record { is_running = true; stop_requested = false; thread = Thread.looping })
start_lem_example = start_lem stopped_once
