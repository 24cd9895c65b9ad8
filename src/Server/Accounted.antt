-- ===== src/Server/Accounted.antt =====
-- Where each connection is that a run has accepted.
use redis_like_in_memory_dat.Base.{
  ℕ, zero, suc, ◌<◌, ◌≡◌, ◌≢◌, ◌⊎◌, inl, inr, refl, sym, ap, ◌∙◌, arith, List, [], ◌∷◌, ◌++◌,
  Option, none, some, Bool, true, false, length, get_or, set, Bool-cases,
}
use mathlib.Core.Path.{subst}
use redis_like_in_memory_dat.Background.Thread.{BackgroundThread}
use redis_like_in_memory_dat.Server.Ending.{
  Stage, accepting, interrupting, draining, stopping_sweeper, stopping_scheduler, finished, Run,
  all_returned, join_if, past_sweeper, past_scheduler, go_on, Runs, begins, submits, is_busy, works,
  serves, stop_called, sweeper_leaves, scheduler_leaves, goes_on, connection_at, MayMove, served_by,
}
use redis_like_in_memory_dat.Server.Lasting.{act-closed, length-act, length-accepts}
use redis_like_in_memory_dat.Server.Registry.{
  closed, Connections, Act, accepts, clears, shuts_down, act,
}
use redis_like_in_memory_dat.ThreadPool.Pool.{Worker, waiting, running, returned, ThreadPool}
use redis_like_in_memory_dat.ThreadPool.Reached.{
  Moved, begins, returns, ends, advance-Moved, Submitted, takes, refuses, try_submit-Submitted,
}

abbrev Has : ℕ → List ℕ → Type 0
Has c [] = true ≡ false
Has c (x ∷ xs) = (c ≡ x) ⊎ Has c xs

-- A connection is in the queue, or a worker has it, or its worker is through with it.
pub data Place (p : ThreadPool ℕ) (s : Connections) (c : ℕ) : Type 0 where
  in_queue : Has c p.tasks → Place p s c
  in_worker : (i : ℕ) → get_or p.workers i returned ≡ running c → Place p s c
  through : (connection_at s c).phase ≡ closed → Place p s c

Has-left : (c : ℕ) (xs ys : List ℕ) → Has c xs → Has c (xs ++ ys)
Has-left c [] ys h = cc
Has-left c (x ∷ xs) ys (inl e) = inl e
Has-left c (x ∷ xs) ys (inr h) = inr (Has-left c xs ys h)

Has-last : (c : ℕ) (xs : List ℕ) → Has c (xs ++ c ∷ [])
Has-last c [] = inl refl
Has-last c (x ∷ xs) = inr (Has-last c xs)

set_here :
    (ws : List (Worker ℕ)) (i : ℕ) (v : Worker ℕ)
    → get_or ws i returned ≡ waiting
    → get_or (set ws i v) i returned ≡ v
set_here [] i v h = let no : returned ≡ waiting = h in cc
set_here (w ∷ ws) zero v h = refl
set_here (w ∷ ws) (suc i) v h = set_here ws i v h

set_else :
    (ws : List (Worker ℕ)) (i j : ℕ) (v : Worker ℕ)
    → (i ≡ j) ⊎ (get_or (set ws i v) j returned ≡ get_or ws j returned)
set_else [] i j v = inr refl
set_else (w ∷ ws) zero zero v = inl refl
set_else (w ∷ ws) zero (suc j) v = inr refl
set_else (w ∷ ws) (suc i) zero v = inr refl
set_else (w ∷ ws) (suc i) (suc j) v = elim (set_else ws i j v) [
  | inl e ↦ inl (ap suc e)
  | inr e ↦ inr e
]

works-Place :
    {p p' : ThreadPool ℕ} {i : ℕ} {more : List ℕ} (s : Connections)
    → Moved p i p' more
    → MayMove s (get_or p.workers i returned)
    → (c : ℕ) → Place p s c
    → Place p' s c
works-Place {p} {p'} {i} s (begins task tasks at e) may c (in_queue h) = elim (subst (Has c) e h) [
  | inl same ↦ in_worker i (set_here p.workers i (running task) at ∙ ap running (sym same))
  | inr later ↦ in_queue later
]
works-Place {p} {p'} {i} s (begins task tasks at e) may c (in_worker j k) =
    elim (set_else p.workers i j (running task)) [
      | inl same ↦
          let no : waiting ≡ running c = sym at ∙ ap (λ x. get_or p.workers x returned) same ∙ k in
          cc
      | inr q ↦ in_worker j (q ∙ k)
    ]
works-Place s (begins task tasks at e) may c (through h) = through h
works-Place s (returns at e stops) may c (in_queue h) =
    let no : true ≡ false = subst (Has c) e h in cc
works-Place {p} {p'} {i} s (returns at e stops) may c (in_worker j k) =
    elim (set_else p.workers i j returned) [
      | inl same ↦
          let no : waiting ≡ running c = sym at ∙ ap (λ x. get_or p.workers x returned) same ∙ k in
          cc
      | inr q ↦ in_worker j (q ∙ k)
    ]
works-Place s (returns at e stops) may c (through h) = through h
works-Place s (ends task n at) may c (in_queue h) = in_queue h
works-Place {p} {p'} {i} s (ends task n at) may c (in_worker j k) =
    elim (set_else p.workers i j waiting) [
      | inl same ↦
          let twice : running task ≡ running c =
            sym at ∙ ap (λ x. get_or p.workers x returned) same ∙ k in
          through (subst (MayMove s) (at ∙ twice) may)
      | inr q ↦ in_worker j (q ∙ k)
    ]
works-Place s (ends task n at) may c (through h) = through h

-- What a step of `run` keeps of the places.
record Same (r r' : Run) : Type 0 where
  tasks : r'.pool.tasks ≡ r.pool.tasks
  workers : r'.pool.workers ≡ r.pool.workers
  count : length r'.connections.connections ≡ length r.connections.connections
  closed_on :
      (c : ℕ)
      → (connection_at r.connections c).phase ≡ closed
      → (connection_at r'.connections c).phase ≡ closed

abbrev SameBy : Run → Option Run → Type 0
SameBy r none = Unit {0}
SameBy r (some r') = Same r r'

go_on-Same : (stage : Stage) (r : Run) → SameBy r (go_on stage r)
unfolding go_on
go_on-Same accepting r = record {
  tasks = refl;
  workers = refl;
  count = length-act clears r.connections (λ e. cc);
  closed_on = act-closed clears r.connections;
}
go_on-Same interrupting r = record {
  tasks = refl;
  workers = refl;
  count = length-act shuts_down r.connections (λ e. cc);
  closed_on = act-closed shuts_down r.connections;
}
go_on-Same draining r = elim (Bool-cases (all_returned r.pool.workers)) [
  | inl done ↦ rw done (record { tasks = refl; workers = refl; count = refl; closed_on = λ c h. h })
  | inr busy ↦ rw busy tt
]
go_on-Same stopping_sweeper r = past_sweeper-Same (join_if r.sweeper)
  where
    past_sweeper-Same : (o : Option (Option BackgroundThread)) → SameBy r (past_sweeper r o)
    past_sweeper-Same none = tt
    past_sweeper-Same (some o) = record {
      tasks = refl;
      workers = refl;
      count = refl;
      closed_on = λ c h. h;
    }
go_on-Same stopping_scheduler r = past_scheduler-Same (join_if r.scheduler)
  where
    past_scheduler-Same : (o : Option (Option BackgroundThread)) → SameBy r (past_scheduler r o)
    past_scheduler-Same none = tt
    past_scheduler-Same (some o) = record {
      tasks = refl;
      workers = refl;
      count = refl;
      closed_on = λ c h. h;
    }
go_on-Same finished r = tt

Same-Place :
    {r r' : Run} {c : ℕ} → Same r r' → Place r.pool r.connections c → Place r'.pool r'.connections c
Same-Place {r} {r'} {c} k (in_queue h) = in_queue (subst (Has c) (sym k.tasks) h)
Same-Place {r} {r'} {c} k (in_worker i h) =
    in_worker i (ap (λ ws. get_or ws i returned) k.workers ∙ h)
Same-Place {r} {r'} {c} k (through h) = through (k.closed_on c h)

act-Place :
    (a : Act) (p : ThreadPool ℕ) (s : Connections) (c : ℕ) → Place p s c → Place p (act a s) c
act-Place a p s c (in_queue h) = in_queue h
act-Place a p s c (in_worker i h) = in_worker i h
act-Place a p s c (through h) = through (act-closed a s c h)

submits-Place :
    {p p' : ThreadPool ℕ} {b : Bool} {fd : ℕ} (s : Connections)
    → Submitted fd p p' b
    → (c : ℕ) → Place p s c
    → Place p' s c
submits-Place {p} {p'} {b} {fd} s (takes goes room) c (in_queue h) =
    in_queue (Has-left c p.tasks (fd ∷ []) h)
submits-Place s (takes goes room) c (in_worker i h) = in_worker i h
submits-Place s (takes goes room) c (through h) = through h
submits-Place s refuses c h = h

submits-last :
    {p p' : ThreadPool ℕ} {fd : ℕ} (s : Connections)
    → (b : Bool) → b ≡ true
    → Submitted fd p p' b
    → Place p' s fd
submits-last {p} {p'} {fd} s true e (takes goes room) = in_queue (Has-last fd p.tasks)
submits-last s false e refuses = cc

-- Every connection that a run has accepted has its place.
pub Runs-Place :
    {r : Run} {taken begun : List ℕ}
    → Runs r taken begun
    → (c : ℕ) → c < length r.connections.connections
    → Place r.pool r.connections c
Runs-Place (begins n m b d) c less = absurd (omega (arith, less))
Runs-Place (submits {r} {taken} {begun} h at p e) c less =
    let last = length r.connections.connections in
    let sub = try_submit-Submitted last r.pool p true e in
    elim (le_or c last (omega (arith, less, length-accepts r.connections))) [
      | inl before ↦
          act-Place accepts p r.connections c
            (submits-Place r.connections sub c (Runs-Place h c before))
      | inr same ↦
          subst (Place p (act accepts r.connections)) (sym same)
            (submits-last (act accepts r.connections) true refl sub)
    ]
  where
    le_or : (c n : ℕ) → c < suc n → (c < n) ⊎ (c ≡ n)
    le_or c n h = ground (arith, h)
Runs-Place (is_busy {r} {taken} {begun} h at p e) c less =
    submits-Place r.connections
      (try_submit-Submitted (length r.connections.connections) r.pool p false e) c
      (Runs-Place h c less)
Runs-Place (works {r} {taken} {begun} h i may p more e) c less =
    works-Place r.connections (advance-Moved false i r.pool p more e) may c (Runs-Place h c less)
Runs-Place (serves {r} {taken} {begun} h i d at a of) c less =
    let other : a ≢ accepts = λ same. let no : none ≡ some d = ap served_by (sym same) ∙ of in cc in
    act-Place a r.pool r.connections c
      (Runs-Place h c (omega (arith, less, length-act a r.connections other)))
Runs-Place (stop_called {r} {taken} {begun} h) c less =
    act-Place clears r.pool r.connections c
      (Runs-Place h c (omega (arith, less, length-act clears r.connections (λ e. cc))))
Runs-Place (sweeper_leaves {r} {taken} {begun} h) c less = Runs-Place h c less
Runs-Place (scheduler_leaves {r} {taken} {begun} h) c less = Runs-Place h c less
Runs-Place (goes_on {r} {r'} {taken} {begun} h e) c less =
    let k : Same r r' = subst (SameBy r) e (go_on-Same r.stage r) in
    Same-Place k (Runs-Place h c (omega (arith, less, k.count)))

-- When the queue is empty and the workers have returned, every worker is through with its connection.
pub ended-closed :
    (p : ThreadPool ℕ) (s : Connections) (c : ℕ)
    → Place p s c
    → p.tasks ≡ []
    → ((i : ℕ) → get_or p.workers i returned ≡ returned)
    → (connection_at s c).phase ≡ closed
ended-closed p s c (in_queue h) e w = let no : true ≡ false = subst (Has c) e h in cc
ended-closed p s c (in_worker i h) e w = let no : returned ≡ running c = sym (w i) ∙ h in cc
ended-closed p s c (through h) e w = h
