-- ===== src/Server/Kept.antt =====
-- What the pool, the connections and the threads keep through every state of a run.
use redis_like_in_memory_dat.Base.{
  ℕ, ◌≡◌, refl, sym, ap, ◌∙◌, List, [], ◌∷◌, ◌++◌, Option, none, some, true, false, Bool-cases, inl,
  inr, length,
}
use mathlib.Core.Path.{subst}
use redis_like_in_memory_dat.Background.Thread.{BackgroundThread}
use redis_like_in_memory_dat.Server.Ending.{
  Stage, accepting, interrupting, draining, stopping_sweeper, stopping_scheduler, finished, Run,
  all_returned, join_if, past_sweeper, past_scheduler, go_on, Runs, begins, submits, is_busy, works,
  serves, stop_called, sweeper_leaves, scheduler_leaves, goes_on,
}
use redis_like_in_memory_dat.Server.Registry.{
  Connections, Act, accepts, clears, shuts_down, act, acts, listening,
}
use redis_like_in_memory_dat.Server.Stages.{
  Late, aside, Aside-Late, all_returned-stuck, Moved-stopping, Submitted-same, act-shut,
  acts-append,
}
use redis_like_in_memory_dat.Server.Threads.{
  thread_if-AtWork, request-Asked, left-Keeps, Keeps-refl, Joined, join_if-Joined,
}
use redis_like_in_memory_dat.ThreadPool.Pool.{Reach, created, accepted, refused, stopped, advanced}
use redis_like_in_memory_dat.ThreadPool.Reached.{begins, advance-Moved, try_submit-Submitted}

-- What every state of a run keeps.
pub record Kept (r : Run) (taken begun : List ℕ) : Type 0 where
  pub pool : Reach r.pool taken begun
  pub acted : (steps : List Act) × (r.connections ≡ acts steps listening)
  pub late : Late r.stage r

abbrev acted_on :
    (a : Act) (s : Connections)
    → (steps : List Act) × (s ≡ acts steps listening)
    → (steps : List Act) × (act a s ≡ acts steps listening)
acted_on a s (steps, e) = (steps ++ a ∷ [], ap (act a) e ∙ sym (acts-append steps a listening))

abbrev KeptBy : List ℕ → List ℕ → Option Run → Type 0
KeptBy taken begun none = Unit {0}
KeptBy taken begun (some r) = Kept r taken begun

go_on-Kept :
    (stage : Stage) (r : Run) (taken begun : List ℕ)
    → Reach r.pool taken begun
    → ((steps : List Act) × (r.connections ≡ acts steps listening))
    → Late stage r
    → KeptBy taken begun (go_on stage r)
unfolding go_on act
go_on-Kept accepting r taken begun p steps l = record {
  pool = p;
  acted = acted_on clears r.connections steps;
  late = l;
}
go_on-Kept interrupting r taken begun p steps (s, c) = record {
  pool = stopped p;
  acted = acted_on shuts_down r.connections steps;
  late = (refl, refl, s, c);
}
go_on-Kept draining r taken begun p steps (stops, shut, s, c) =
    elim (Bool-cases (all_returned r.pool.workers)) [
      | inl done ↦
          rw done
            (record { pool = p; acted = steps; late = (stops, shut, done, request-Asked s, c) })
      | inr busy ↦ rw busy tt
    ]
go_on-Kept stopping_sweeper r taken begun p steps (stops, shut, w, s, c) =
    past_sweeper-Kept (join_if r.sweeper) (join_if-Joined s)
  where
    past_sweeper-Kept :
        (o : Option (Option BackgroundThread)) → Joined o → KeptBy taken begun (past_sweeper r o)
    past_sweeper-Kept none j = tt
    past_sweeper-Kept (some o) j = record {
      pool = p;
      acted = steps;
      late = (stops, shut, w, j, request-Asked c);
    }
go_on-Kept stopping_scheduler r taken begun p steps (stops, shut, w, s, c) =
    past_scheduler-Kept (join_if r.scheduler) (join_if-Joined c)
  where
    past_scheduler-Kept :
        (o : Option (Option BackgroundThread)) → Joined o → KeptBy taken begun (past_scheduler r o)
    past_scheduler-Kept none j = tt
    past_scheduler-Kept (some o) j = record {
      pool = p;
      acted = steps;
      late = (stops, shut, w, s, j);
    }
go_on-Kept finished r taken begun p steps l = tt

pub Runs-Kept : {r : Run} {taken begun : List ℕ} → Runs r taken begun → Kept r taken begun
Runs-Kept (begins n m b c) = record {
  pool = created n m;
  acted = ([], unfold acts in refl);
  late = (thread_if-AtWork b, thread_if-AtWork c);
}
Runs-Kept (submits {r} {taken} {begun} h at p e) =
    let k = Runs-Kept h in
    let fd = length r.connections.connections in
    let (f, w) = Submitted-same (try_submit-Submitted fd r.pool p true e) in
    record {
      pool = accepted k.pool fd e;
      acted = acted_on accepts r.connections k.acted;
      late =
          Aside-Late r.stage r _
            (aside (λ s. f ∙ s) (act-shut accepts r.connections) (λ d. ap all_returned w ∙ d)
              (Keeps-refl r.sweeper) (Keeps-refl r.scheduler))
            k.late;
    }
Runs-Kept (is_busy {r} {taken} {begun} h at p e) =
    let k = Runs-Kept h in
    let fd = length r.connections.connections in
    let (f, w) = Submitted-same (try_submit-Submitted fd r.pool p false e) in
    record {
      pool = refused k.pool fd e;
      acted = k.acted;
      late =
          Aside-Late r.stage r _
            (aside (λ s. f ∙ s) (λ s. s) (λ d. ap all_returned w ∙ d) (Keeps-refl r.sweeper)
              (Keeps-refl r.scheduler))
            k.late;
    }
Runs-Kept (works {r} {taken} {begun} h i may p more e) =
    let k = Runs-Kept h in
    record {
      pool = advanced k.pool false i e;
      acted = k.acted;
      late =
          Aside-Late r.stage r _
            (aside (λ s. Moved-stopping (advance-Moved false i r.pool p more e) ∙ s) (λ s. s)
              (λ d. let no = all_returned-stuck false r.pool i d in cc) (Keeps-refl r.sweeper)
              (Keeps-refl r.scheduler))
            k.late;
    }
Runs-Kept (serves {r} {taken} {begun} h i c at a of) =
    let k = Runs-Kept h in
    record {
      pool = k.pool;
      acted = acted_on a r.connections k.acted;
      late =
          Aside-Late r.stage r _
            (aside (λ s. s) (act-shut a r.connections) (λ d. d) (Keeps-refl r.sweeper)
              (Keeps-refl r.scheduler))
            k.late;
    }
Runs-Kept (stop_called {r} {taken} {begun} h) =
    let k = Runs-Kept h in
    record {
      pool = k.pool;
      acted = acted_on clears r.connections k.acted;
      late =
          Aside-Late r.stage r _
            (aside (λ s. s) (act-shut clears r.connections) (λ d. d) (Keeps-refl r.sweeper)
              (Keeps-refl r.scheduler))
            k.late;
    }
Runs-Kept (sweeper_leaves {r} {taken} {begun} h) =
    let k = Runs-Kept h in
    record {
      pool = k.pool;
      acted = k.acted;
      late =
          Aside-Late r.stage r _
            (aside (λ s. s) (λ s. s) (λ d. d) (left-Keeps r.sweeper) (Keeps-refl r.scheduler))
            k.late;
    }
Runs-Kept (scheduler_leaves {r} {taken} {begun} h) =
    let k = Runs-Kept h in
    record {
      pool = k.pool;
      acted = k.acted;
      late =
          Aside-Late r.stage r _
            (aside (λ s. s) (λ s. s) (λ d. d) (Keeps-refl r.sweeper) (left-Keeps r.scheduler))
            k.late;
    }
Runs-Kept (goes_on {r} {r'} {taken} {begun} h e) =
    let k = Runs-Kept h in
    subst (KeptBy taken begun) e (go_on-Kept r.stage r taken begun k.pool k.acted k.late)
