-- ===== src/ThreadPool/Pool.antt =====
-- The state of a `ThreadPool`, and what its mutex makes one step: a `trySubmit`, the flag that `shutdown`
-- sets, and the steps of a worker. A wakeup has no effect but to let a worker test its condition, which it
-- may do at any time here.
use redis_like_in_memory_dat.Base.{
  ℕ, suc, ◌≡◌, List, [], ◌∷◌, ◌++◌, Option, none, some, Bool, true, false, ◌==◌, leb, not, ◌&&◌,
  if◌then◌else◌, length, replicate, get_or, set,
}

-- Where a worker is in `workerLoop`: at the wait, in a task, or past the return.
pub data Worker {ℓ} (A : Type ℓ) : Type ℓ where
  waiting : Worker A
  running : A → Worker A
  returned : Worker A

pub record ThreadPool {ℓ} (A : Type ℓ) : Type ℓ where
  pub tasks : List A
  pub workers : List (Worker A)
  pub max_queued_tasks : ℕ
  pub stopping : Bool
  pub task_exceptions : ℕ

abbrev pub unbounded_queue : ℕ
unbounded_queue = 0

module _ {ℓ} {A : Type ℓ} where
  -- `ThreadPool(threadCount, maxQueuedTasks)`
  unfoldable pub make_pool : ℕ → ℕ → ThreadPool A
  make_pool thread_count max_queued_tasks = record {
    tasks = [];
    workers = replicate (if thread_count == 0 then 1 else thread_count) waiting;
    max_queued_tasks = max_queued_tasks;
    stopping = false;
    task_exceptions = 0;
  }

  unfoldable pub try_submit : A → ThreadPool A → ThreadPool A × Bool
  try_submit task p =
      if p.stopping
      then (p, false)
      else if not (p.max_queued_tasks == unbounded_queue) && leb p.max_queued_tasks (length p.tasks)
      then (p, false)
      else (record p { tasks = p.tasks ++ task ∷ [] }, true)

  -- What `shutdown` does before it waits for the workers to return.
  abbrev pub stop : ThreadPool A → ThreadPool A
  stop p = record p { stopping = true }

  -- The worker `i` has the lock, given the flag and the queue: it takes the first task, returns, or waits on.
  unfoldable pub take_task : ℕ → ThreadPool A → Bool → List A → Option (ThreadPool A × List A)
  take_task i p stopping (task ∷ tasks) =
      some (record p { workers = set p.workers i (running task); tasks = tasks }, task ∷ [])
  take_task i p true [] = some (record p { workers = set p.workers i returned }, [])
  take_task i p false [] = none

  -- A step of the worker `i` from where it is. A task that ends has thrown or not.
  unfoldable pub advance_from : Bool → ℕ → ThreadPool A → Worker A → Option (ThreadPool A × List A)
  unfolding take_task
  advance_from thrown i p returned = none
  advance_from thrown i p waiting = take_task i p p.stopping p.tasks
  advance_from true i p (running task) =
      some (
        record p { workers = set p.workers i waiting; task_exceptions = suc p.task_exceptions },
        [],
      )
  advance_from false i p (running task) = some (record p { workers = set p.workers i waiting }, [])

  -- The step with the tasks that it begins; `none` if the worker has no step.
  unfoldable pub advance : Bool → ℕ → ThreadPool A → Option (ThreadPool A × List A)
  unfolding advance_from
  advance thrown i p = advance_from thrown i p (get_or p.workers i returned)

  -- The states that a pool passes through, with the tasks that it has accepted, and those that it has begun.
  pub data Reach : ThreadPool A → List A → List A → Type ℓ where
    created :
        (thread_count max_queued_tasks : ℕ) → Reach (make_pool thread_count max_queued_tasks) [] []
    accepted :
        {p p' : ThreadPool A} {taken begun : List A}
        → Reach p taken begun
        → (task : A) → try_submit task p ≡ (p', true)
        → Reach p' (taken ++ task ∷ []) begun
    refused :
        {p p' : ThreadPool A} {taken begun : List A}
        → Reach p taken begun
        → (task : A) → try_submit task p ≡ (p', false)
        → Reach p' taken begun
    stopped :
        {p : ThreadPool A} {taken begun : List A} → Reach p taken begun → Reach (stop p) taken begun
    advanced :
        {p p' : ThreadPool A} {taken begun more : List A}
        → Reach p taken begun
        → (thrown : Bool) (i : ℕ) → advance thrown i p ≡ some (p', more)
        → Reach p' taken (begun ++ more)
