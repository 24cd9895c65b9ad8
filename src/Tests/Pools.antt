-- ===== src/Tests/Pools.antt =====
-- A pool of one worker.
use redis_like_in_memory_dat.Base.{
  ℕ, zero, suc, ◌<◌, ◌≡◌, refl, List, [], ◌∷◌, ◌++◌, some, none, true, false, get_or,
}
use redis_like_in_memory_dat.ThreadPool.Drained.{steps_left, advance-steps_left, shutdown-drained}
use redis_like_in_memory_dat.ThreadPool.Pool.{
  waiting, running, returned, ThreadPool, make_pool, try_submit, take_task, advance_from, advance,
  Reach, created, accepted, stopped, advanced,
}
use redis_like_in_memory_dat.ThreadPool.Reached.{Reach-fifo}

-- The pool after a task, after its worker has begun it and ended it, and after the worker has returned.
abbrev queued : ThreadPool ℕ
queued = record {
  tasks = 7 ∷ [];
  workers = waiting ∷ [];
  max_queued_tasks = 2;
  stopping = false;
  task_exceptions = 0;
}

abbrev accepted_tasks : List ℕ
accepted_tasks = 7 ∷ []

abbrev busy : ThreadPool ℕ
busy = record queued { tasks = []; workers = running 7 ∷ [] }

abbrev over : ThreadPool ℕ
over = record queued { tasks = []; workers = returned ∷ []; stopping = true }

begins : advance false 0 queued ≡ some (busy, 7 ∷ [])
unfolding advance advance_from take_task
begins = refl

queued-Reach : Reach queued (7 ∷ []) []
unfolding make_pool try_submit
queued-Reach = accepted (created 0 2) 7 refl

busy-Reach : Reach busy (7 ∷ []) (7 ∷ [])
busy-Reach = advanced queued-Reach false 0 begins

over-Reach : Reach over (7 ∷ []) (7 ∷ [])
unfolding advance advance_from take_task
over-Reach =
    let idle : Reach (record busy { workers = waiting ∷ [] }) (7 ∷ []) (7 ∷ []) =
      advanced busy-Reach false 0 refl in
    advanced (stopped idle) false 0 refl

over_stuck : (i : ℕ) → advance false i over ≡ none
unfolding advance advance_from
over_stuck zero = refl
over_stuck (suc i) = refl

Reach-fifo_example : accepted_tasks ≡ (7 ∷ []) ++ busy.tasks
Reach-fifo_example = Reach-fifo busy-Reach

advance-steps_left_example : steps_left busy < steps_left queued
advance-steps_left_example = advance-steps_left false 0 queued busy (7 ∷ []) begins

shutdown-drained_example :
    ((i : ℕ) → get_or over.workers i returned ≡ returned)
    × (over.tasks ≡ [])
    × (accepted_tasks ≡ 7 ∷ [])
shutdown-drained_example = shutdown-drained over-Reach refl over_stuck
