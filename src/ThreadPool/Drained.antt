-- ===== src/ThreadPool/Drained.antt =====
-- A pool that is shut down runs what it has accepted.
use redis_like_in_memory_dat.Base.{
  ℕ, zero, suc, ◌+◌, ◌*◌, ◌<◌, ◌≡◌, ◌≢◌, inl, inr, refl, sym, ap, ◌∙◌, arith, List, [], ◌∷◌, ◌++◌,
  none, some, Bool, true, false, ◌==◌, if◌then◌else◌, length, get_or, set, append-nil, length-set,
  length-replicate, get_or-replicate, get_or-set, Bool-cases,
}
use redis_like_in_memory_dat.ThreadPool.Pool.{
  Worker, waiting, running, returned, ThreadPool, make_pool, take_task, advance_from, advance,
  Reach, created, accepted, refused, stopped, advanced,
}
use redis_like_in_memory_dat.ThreadPool.Reached.{
  Moved, begins, returns, ends, advance-Moved, Submitted, takes, refuses, try_submit-Submitted,
  Reach-fifo,
}

module _ {ℓ} {A : Type ℓ} where
  -- The steps that a worker has to go, when no task is left.
  abbrev weight : Worker A → ℕ
  weight waiting = 1
  weight (running task) = 2
  weight returned = 0

  abbrev weights : List (Worker A) → ℕ
  weights [] = 0
  weights (w ∷ ws) = weight w + weights ws

  -- The steps that the workers have to go.
  unfoldable pub steps_left : ThreadPool A → ℕ
  steps_left p = length p.tasks * 2 + weights p.workers

  weights-set :
      (ws : List (Worker A)) (i : ℕ) (w : Worker A)
      → get_or ws i returned ≢ returned
      → weights (set ws i w) + weight (get_or ws i returned) ≡ weights ws + weight w
  weights-set [] i w h = absurd (h refl)
  weights-set (v ∷ ws) zero w h = omega arith
  weights-set (v ∷ ws) (suc i) w h = omega (arith, weights-set ws i w h)

  at_work :
      (ws : List (Worker A)) (i : ℕ) (v w : Worker A)
      → get_or ws i returned ≡ v
      → v ≢ returned
      → weights (set ws i w) + weight v ≡ weights ws + weight w
  at_work ws i v w at h = omega (arith, weights-set ws i w (λ e. h (sym at ∙ e)), ap weight at)

  Moved-lt :
      (p p' : ThreadPool A) (i : ℕ) (more : List A)
      → Moved p i p' more
      → steps_left p' < steps_left p
  unfolding steps_left
  Moved-lt p p' i more (begins task tasks at e) =
      let h = at_work p.workers i waiting (running task) at (λ e. cc) in
      omega (arith, h, ap length e)
  Moved-lt p p' i more (returns at e stops) =
      let h = at_work p.workers i waiting returned at (λ e. cc) in omega (arith, h)
  Moved-lt p p' i more (ends task n at) =
      let h = at_work p.workers i (running task) waiting at (λ e. cc) in omega (arith, h)

  -- Every step of a worker leaves the workers fewer steps to go: without new tasks, all of them come to the
  -- wait or to their return.
  pub advance-steps_left :
      (thrown : Bool) (i : ℕ) (p p' : ThreadPool A) (more : List A)
      → advance thrown i p ≡ some (p', more)
      → steps_left p' < steps_left p
  advance-steps_left thrown i p p' more h =
      Moved-lt p p' i more (advance-Moved thrown i p p' more h)

  -- What every state keeps of the workers: there is one, and none returns before the pool is stopped and its
  -- queue is empty.
  record IsServed (p : ThreadPool A) : Type ℓ where
    some_worker : 0 < length p.workers
    late : (i : ℕ) → get_or p.workers i waiting ≡ returned → (p.stopping ≡ true) × (p.tasks ≡ [])

  lt_of_get_or :
      (ws : List (Worker A)) (i : ℕ) (v : Worker A)
      → get_or ws i returned ≡ v
      → v ≢ returned
      → i < length ws
  lt_of_get_or [] i v at h = absurd (h (sym at))
  lt_of_get_or (w ∷ ws) zero v at h = omega arith
  lt_of_get_or (w ∷ ws) (suc i) v at h = omega (arith, lt_of_get_or ws i v at h)

  -- A write of a worker that has not returned leaves those that have.
  returned-set :
      (ws : List (Worker A)) (i j : ℕ) (v w : Worker A)
      → get_or ws i returned ≡ v
      → v ≢ returned
      → w ≢ returned
      → get_or (set ws i w) j waiting ≡ returned
      → get_or ws j waiting ≡ returned
  returned-set ws i j v w at h k e =
      let written = get_or-set ws i j w waiting (lt_of_get_or ws i v at h) in
      elim (Bool-cases (i == j)) [
        | inl same ↦
            absurd (k (ap (λ b. if b then w else get_or ws j waiting) (sym same) ∙ sym written ∙ e))
        | inr other ↦ ap (λ b. if b then w else get_or ws j waiting) (sym other) ∙ sym written ∙ e
      ]

  Moved-IsServed :
      (p p' : ThreadPool A) (i : ℕ) (more : List A) → Moved p i p' more → IsServed p → IsServed p'
  Moved-IsServed p p' i more (begins task tasks at e) s = record {
    some_worker = omega (arith, s.some_worker, length-set p.workers i (running task));
    late = λ j h.
        let (stops, empty) =
          s.late j (returned-set p.workers i j waiting (running task) at (λ e. cc) (λ e. cc) h) in
        let no : task ∷ tasks ≡ [] = sym e ∙ empty in cc;
  }
  Moved-IsServed p p' i more (returns at e stops) s = record {
    some_worker = omega (arith, s.some_worker, length-set p.workers i returned);
    late = λ j h. (stops, e);
  }
  Moved-IsServed p p' i more (ends task n at) s = record {
    some_worker = omega (arith, s.some_worker, length-set p.workers i waiting);
    late = λ j h.
        s.late j (returned-set p.workers i j (running task) waiting at (λ e. cc) (λ e. cc) h);
  }

  Submitted-IsServed :
      (task : A) (p p' : ThreadPool A) (b : Bool) → Submitted task p p' b → IsServed p → IsServed p'
  Submitted-IsServed task p p' b (takes goes room) s = record {
    some_worker = s.some_worker;
    late = λ j h. let no : false ≡ true = sym goes ∙ (s.late j h).0 in cc;
  }
  Submitted-IsServed task p p' b refuses s = s

  make_pool-IsServed : (n m : ℕ) → IsServed (make_pool {A = A} n m)
  unfolding make_pool
  make_pool-IsServed n m =
      let idle : Worker A = waiting in
      let count = if n == 0 then 1 else n in
      record {
        some_worker = ground (arith, length-replicate count idle);
        late = λ j h. let no : idle ≡ returned = sym (get_or-replicate count j idle) ∙ h in cc;
      }

  Reach-IsServed : {p : ThreadPool A} {taken begun : List A} → Reach p taken begun → IsServed p
  Reach-IsServed (created n m) = make_pool-IsServed n m
  Reach-IsServed (accepted {p} {p'} r task h) =
      Submitted-IsServed task p p' true (try_submit-Submitted task p p' true h) (Reach-IsServed r)
  Reach-IsServed (refused {p} {p'} r task h) =
      Submitted-IsServed task p p' false (try_submit-Submitted task p p' false h) (Reach-IsServed r)
  Reach-IsServed (stopped r) =
      let s = Reach-IsServed r in
      record { some_worker = s.some_worker; late = λ j h. (refl, (s.late j h).1) }
  Reach-IsServed (advanced {p} {p'} {taken} {begun} {more} r thrown i h) =
      Moved-IsServed p p' i more (advance-Moved thrown i p p' more h) (Reach-IsServed r)

  stuck_task :
      (i : ℕ) (p : ThreadPool A) (b : Bool) (tasks : List A)
      → b ≡ true
      → take_task i p b tasks ≢ none
  unfolding take_task
  stuck_task i p b (task ∷ tasks) e h = cc
  stuck_task i p true [] e h = cc
  stuck_task i p false [] e h = cc

  stuck_worker :
      (i : ℕ) (p : ThreadPool A) (worker : Worker A)
      → p.stopping ≡ true
      → advance_from false i p worker ≡ none
      → worker ≡ returned
  unfolding advance_from
  stuck_worker i p returned e h = refl
  stuck_worker i p waiting e h = absurd (stuck_task i p p.stopping p.tasks e h)
  stuck_worker i p (running task) e h = cc

  first_worker : (ws : List (Worker A)) → 0 < length ws → get_or ws 0 waiting ≡ get_or ws 0 returned
  first_worker [] h = absurd (omega arith)
  first_worker (w ∷ ws) h = refl

  -- A pool that has been stopped, and of which no worker has a step left: every worker has returned, so
  -- that `shutdown` returns, the queue is empty, and every task that was accepted has been begun.
  pub shutdown-drained :
      {p : ThreadPool A} {taken begun : List A}
      → Reach p taken begun
      → p.stopping ≡ true
      → ((i : ℕ) → advance false i p ≡ none)
      → ((i : ℕ) → get_or p.workers i returned ≡ returned) × (p.tasks ≡ []) × (taken ≡ begun)
  unfolding advance
  shutdown-drained {p} {taken} {begun} r stops stuck =
      let s = Reach-IsServed r in
      let all_returned : (i : ℕ) → get_or p.workers i returned ≡ returned =
        λ i. stuck_worker i p (get_or p.workers i returned) stops (stuck i) in
      let (e, empty) = s.late 0 (first_worker p.workers s.some_worker ∙ all_returned 0) in
      (all_returned, empty, Reach-fifo r ∙ ap (◌++◌ begun) empty ∙ append-nil begun)
