-- ===== src/ThreadPool/Reached.antt =====
-- What every state of a pool keeps.
use redis_like_in_memory_dat.Base.{
  ℕ, zero, suc, ◌≤◌, ◌<◌, ◌≡◌, ◌⊎◌, inl, inr, refl, sym, ap, ◌∙◌, arith, List, [], ◌∷◌, ◌++◌,
  Option, none, some, Bool, true, false, ◌==◌, leb, not, ◌&&◌, if◌then◌else◌, length, get_or, set,
  append_assoc, append-nil, length-append,
}
use mathlib.Core.Path.{subst}
use redis_like_in_memory_dat.ThreadPool.Pool.{
  Worker, waiting, running, returned, ThreadPool, make_pool, try_submit, take_task, advance_from,
  advance, Reach, created, accepted, refused, stopped, advanced,
}

room : (m n : ℕ) → (not (m == 0) && leb m n) ≡ false → (m ≡ 0) ⊎ (n < m)
room zero n h = inl refl
room (suc m) n h = inr (ground (arith, h))

module _ {ℓ} {A : Type ℓ} where
  -- The steps of a worker, with what it was at before.
  pub data Moved (p : ThreadPool A) (i : ℕ) : ThreadPool A → List A → Type ℓ where
    begins :
        (task : A) (tasks : List A)
        → get_or p.workers i returned ≡ waiting
        → p.tasks ≡ task ∷ tasks
        → Moved p i
            (record p { workers = set p.workers i (running task); tasks = tasks })
            (task ∷ [])
    returns :
        get_or p.workers i returned ≡ waiting
        → p.tasks ≡ []
        → p.stopping ≡ true
        → Moved p i (record p { workers = set p.workers i returned }) []
    ends :
        (task : A) (n : ℕ)
        → get_or p.workers i returned ≡ running task
        → Moved p i (record p { workers = set p.workers i waiting; task_exceptions = n }) []

  unfoldable MovedTo : ThreadPool A → ℕ → Option (ThreadPool A × List A) → Type ℓ
  MovedTo p i none = Unit
  MovedTo p i (some (p', more)) = Moved p i p' more

  take_task-MovedTo :
      (i : ℕ) (p : ThreadPool A) (b : Bool) (tasks : List A)
      → get_or p.workers i returned ≡ waiting
      → p.stopping ≡ b
      → p.tasks ≡ tasks
      → MovedTo p i (take_task i p b tasks)
  unfolding take_task MovedTo
  take_task-MovedTo i p b (task ∷ tasks) at e e' = begins task tasks at e'
  take_task-MovedTo i p true [] at e e' = returns at e' e
  take_task-MovedTo i p false [] at e e' = tt

  advance_from-MovedTo :
      (thrown : Bool) (i : ℕ) (p : ThreadPool A) (worker : Worker A)
      → get_or p.workers i returned ≡ worker
      → MovedTo p i (advance_from thrown i p worker)
  unfolding advance_from MovedTo
  advance_from-MovedTo thrown i p returned at = tt
  advance_from-MovedTo thrown i p waiting at = take_task-MovedTo i p p.stopping p.tasks at refl refl
  advance_from-MovedTo true i p (running task) at = ends task (suc p.task_exceptions) at
  advance_from-MovedTo false i p (running task) at = ends task p.task_exceptions at

  pub advance-Moved :
      (thrown : Bool) (i : ℕ) (p p' : ThreadPool A) (more : List A)
      → advance thrown i p ≡ some (p', more)
      → Moved p i p' more
  unfolding advance MovedTo
  advance-Moved thrown i p p' more h =
      subst (MovedTo p i) h (advance_from-MovedTo thrown i p (get_or p.workers i returned) refl)

  pub data Submitted (task : A) (p : ThreadPool A) : ThreadPool A → Bool → Type ℓ where
    takes :
        p.stopping ≡ false
        → (p.max_queued_tasks ≡ 0) ⊎ (length p.tasks < p.max_queued_tasks)
        → Submitted task p (record p { tasks = p.tasks ++ task ∷ [] }) true
    refuses : Submitted task p p false

  abbrev SubmittedTo : A → ThreadPool A → ThreadPool A × Bool → Type ℓ
  SubmittedTo task p (p', b) = Submitted task p p' b

  choice-SubmittedTo :
      (task : A) (p : ThreadPool A) (stops full : Bool)
      → p.stopping ≡ stops
      → (not (p.max_queued_tasks == 0) && leb p.max_queued_tasks (length p.tasks)) ≡ full
      → SubmittedTo task p (
          if stops
          then (p, false)
          else if full
          then (p, false)
          else (record p { tasks = p.tasks ++ task ∷ [] }, true))
  choice-SubmittedTo task p true full e f = refuses
  choice-SubmittedTo task p false true e f = refuses
  choice-SubmittedTo task p false false e f = takes e (room p.max_queued_tasks (length p.tasks) f)

  try_submit-SubmittedTo : (task : A) (p : ThreadPool A) → SubmittedTo task p (try_submit task p)
  unfolding try_submit
  try_submit-SubmittedTo task p =
      choice-SubmittedTo task p p.stopping
        (not (p.max_queued_tasks == 0) && leb p.max_queued_tasks (length p.tasks)) refl refl

  pub try_submit-Submitted :
      (task : A) (p p' : ThreadPool A) (b : Bool)
      → try_submit task p ≡ (p', b)
      → Submitted task p p' b
  try_submit-Submitted task p p' b h = subst (SubmittedTo task p) h (try_submit-SubmittedTo task p)

  Submitted-fifo :
      (task : A) (p p' : ThreadPool A) (b : Bool)
      → Submitted task p p' b
      → p'.tasks ≡ p.tasks ++ (if b then task ∷ [] else [])
  Submitted-fifo task p p' b (takes goes free) = refl
  Submitted-fifo task p p' b refuses = sym (append-nil p.tasks)

  Moved-fifo :
      (p p' : ThreadPool A) (i : ℕ) (more : List A) → Moved p i p' more → p.tasks ≡ more ++ p'.tasks
  Moved-fifo p p' i more (begins task tasks at e) = e
  Moved-fifo p p' i more (returns at e stops) = refl
  Moved-fifo p p' i more (ends task n at) = refl

  -- Every task that a pool has accepted has been begun or is in the queue, in the order in which they were
  -- accepted: none is lost, none is begun twice, and none overtakes another.
  pub Reach-fifo :
      {p : ThreadPool A} {taken begun : List A} → Reach p taken begun → taken ≡ begun ++ p.tasks
  unfolding make_pool
  Reach-fifo (created n m) = refl
  Reach-fifo (accepted {p} {p'} {taken} {begun} r task h) =
      ap (λ ts. ts ++ task ∷ []) (Reach-fifo r)
      ∙ append_assoc begun p.tasks (task ∷ [])
      ∙ ap (◌++◌ begun)
          (sym (Submitted-fifo task p p' true (try_submit-Submitted task p p' true h)))
  Reach-fifo (refused {p} {p'} {taken} {begun} r task h) =
      Reach-fifo r
      ∙ ap (◌++◌ begun) (
          sym (append-nil p.tasks)
          ∙ sym (Submitted-fifo task p p' false (try_submit-Submitted task p p' false h)))
  Reach-fifo (stopped r) = Reach-fifo r
  Reach-fifo (advanced {p} {p'} {taken} {begun} {more} r thrown i h) =
      Reach-fifo r
      ∙ ap (◌++◌ begun) (Moved-fifo p p' i more (advance-Moved thrown i p p' more h))
      ∙ sym (append_assoc begun more p'.tasks)

  IsBounded : ThreadPool A → Type 0
  IsBounded p = (p.max_queued_tasks ≡ 0) ⊎ (length p.tasks ≤ p.max_queued_tasks)

  Submitted-IsBounded :
      (task : A) (p p' : ThreadPool A) (b : Bool)
      → Submitted task p p' b
      → IsBounded p
      → IsBounded p'
  unfolding IsBounded
  Submitted-IsBounded task p p' b (takes goes (inl e)) h = inl e
  Submitted-IsBounded task p p' b (takes goes (inr k)) h =
      inr (omega (arith, k, length-append p.tasks (task ∷ [])))
  Submitted-IsBounded task p p' b refuses h = h

  Moved-IsBounded :
      (p p' : ThreadPool A) (i : ℕ) (more : List A) → Moved p i p' more → IsBounded p → IsBounded p'
  unfolding IsBounded
  Moved-IsBounded p p' i more (begins task tasks at e) (inl k) = inl k
  Moved-IsBounded p p' i more (begins task tasks at e) (inr k) = inr (omega (arith, k, ap length e))
  Moved-IsBounded p p' i more (returns at e stops) h = h
  Moved-IsBounded p p' i more (ends task n at) h = h

  -- The queue of a pool with a bound is never longer than the bound.
  Reach-bounded :
      {p : ThreadPool A} {taken begun : List A}
      → Reach p taken begun
      → (p.max_queued_tasks ≡ 0) ⊎ (length p.tasks ≤ p.max_queued_tasks)
  unfolding make_pool IsBounded
  Reach-bounded (created n m) = inr (omega arith)
  Reach-bounded (accepted {p} {p'} r task h) =
      Submitted-IsBounded task p p' true (try_submit-Submitted task p p' true h) (Reach-bounded r)
  Reach-bounded (refused {p} {p'} r task h) =
      Submitted-IsBounded task p p' false (try_submit-Submitted task p p' false h) (Reach-bounded r)
  Reach-bounded (stopped r) = Reach-bounded r
  Reach-bounded (advanced {p} {p'} {taken} {begun} {more} r thrown i h) =
      Moved-IsBounded p p' i more (advance-Moved thrown i p p' more h) (Reach-bounded r)
