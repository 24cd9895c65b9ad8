-- ===== src/Server/Stages.antt =====
-- What holds at each stage of a run, and what the steps of its other parts leave of it.
use redis_like_in_memory_dat.Base.{
  ℕ, zero, suc, ◌≡◌, refl, ap, List, [], ◌∷◌, ◌++◌, none, Bool, true, get_or,
}
use redis_like_in_memory_dat.Server.Ending.{
  Stage, accepting, interrupting, draining, stopping_sweeper, stopping_scheduler, finished, Run,
  all_returned, begins,
}
use redis_like_in_memory_dat.Server.Registry.{
  Connections, Act, accepts, clears, shuts_down, registers, tests, finishes, closes_fd, act, acts,
}
use redis_like_in_memory_dat.Server.Threads.{AtWork, Asked, Gone, Keeps}
use redis_like_in_memory_dat.ThreadPool.Pool.{
  Worker, waiting, running, returned, ThreadPool, advance_from, advance,
}
use redis_like_in_memory_dat.ThreadPool.Reached.{
  Moved, begins, returns, ends, Submitted, takes, refuses,
}

-- What holds at each stage of the run.
abbrev pub Late : Stage → Run → Type 0
Late accepting r = AtWork r.sweeper × AtWork r.scheduler
Late interrupting r = AtWork r.sweeper × AtWork r.scheduler
Late draining r =
    (r.pool.stopping ≡ true)
    × (r.connections.is_shut_down ≡ true)
    × AtWork r.sweeper
    × AtWork r.scheduler
Late stopping_sweeper r =
    (r.pool.stopping ≡ true)
    × (r.connections.is_shut_down ≡ true)
    × (all_returned r.pool.workers ≡ true)
    × Asked r.sweeper
    × AtWork r.scheduler
Late stopping_scheduler r =
    (r.pool.stopping ≡ true)
    × (r.connections.is_shut_down ≡ true)
    × (all_returned r.pool.workers ≡ true)
    × Gone r.sweeper
    × Asked r.scheduler
Late finished r =
    (r.pool.stopping ≡ true)
    × (r.connections.is_shut_down ≡ true)
    × (all_returned r.pool.workers ≡ true)
    × Gone r.sweeper
    × Gone r.scheduler

-- A step of another part than `run`.
pub record Aside (r r' : Run) : Type 0 where
  pub stops : r.pool.stopping ≡ true → r'.pool.stopping ≡ true
  pub shut : r.connections.is_shut_down ≡ true → r'.connections.is_shut_down ≡ true
  pub workers : all_returned r.pool.workers ≡ true → all_returned r'.pool.workers ≡ true
  pub sweeper : Keeps r.sweeper r'.sweeper
  pub scheduler : Keeps r.scheduler r'.scheduler

pub aside :
    {r r' : Run}
    → (r.pool.stopping ≡ true → r'.pool.stopping ≡ true)
    → (r.connections.is_shut_down ≡ true → r'.connections.is_shut_down ≡ true)
    → (all_returned r.pool.workers ≡ true → all_returned r'.pool.workers ≡ true)
    → Keeps r.sweeper r'.sweeper
    → Keeps r.scheduler r'.scheduler
    → Aside r r'
aside stops shut workers sweeper scheduler = record {
  stops = stops;
  shut = shut;
  workers = workers;
  sweeper = sweeper;
  scheduler = scheduler;
}

pub Aside-Late : (stage : Stage) (r r' : Run) → Aside r r' → Late stage r → Late stage r'
Aside-Late accepting r r' a (s, c) = (a.sweeper.works_on s, a.scheduler.works_on c)
Aside-Late interrupting r r' a (s, c) = (a.sweeper.works_on s, a.scheduler.works_on c)
Aside-Late draining r r' a (p, h, s, c) =
    (a.stops p, a.shut h, a.sweeper.works_on s, a.scheduler.works_on c)
Aside-Late stopping_sweeper r r' a (p, h, w, s, c) =
    (a.stops p, a.shut h, a.workers w, a.sweeper.asked_on s, a.scheduler.works_on c)
Aside-Late stopping_scheduler r r' a (p, h, w, s, c) =
    (a.stops p, a.shut h, a.workers w, a.sweeper.gone_on s, a.scheduler.asked_on c)
Aside-Late finished r r' a (p, h, w, s, c) =
    (a.stops p, a.shut h, a.workers w, a.sweeper.gone_on s, a.scheduler.gone_on c)

pub all_returned-get :
    (ws : List (Worker ℕ)) (i : ℕ) → all_returned ws ≡ true → get_or ws i returned ≡ returned
unfolding all_returned
all_returned-get [] i h = refl
all_returned-get (returned ∷ ws) zero h = refl
all_returned-get (returned ∷ ws) (suc i) h = all_returned-get ws i h
all_returned-get (waiting ∷ ws) i h = cc
all_returned-get (running task ∷ ws) i h = cc

pub get-all_returned :
    (ws : List (Worker ℕ)) → ((i : ℕ) → get_or ws i returned ≡ returned) → all_returned ws ≡ true
unfolding all_returned
get-all_returned [] h = refl
get-all_returned (returned ∷ ws) h = get-all_returned ws (λ i. h (suc i))
get-all_returned (waiting ∷ ws) h = let no : waiting ≡ returned = h 0 in cc
get-all_returned (running task ∷ ws) h = let no : running task ≡ returned = h 0 in cc

-- A worker that has returned has no step.
pub all_returned-stuck :
    (thrown : Bool) (p : ThreadPool ℕ) (i : ℕ)
    → all_returned p.workers ≡ true
    → advance thrown i p ≡ none
unfolding advance advance_from
all_returned-stuck thrown p i h = ap (advance_from thrown i p) (all_returned-get p.workers i h)

pub Moved-stopping :
    {p p' : ThreadPool ℕ} {i : ℕ} {more : List ℕ} → Moved p i p' more → p'.stopping ≡ p.stopping
Moved-stopping (begins task tasks at e) = refl
Moved-stopping (returns at e stops) = refl
Moved-stopping (ends task n at) = refl

pub Submitted-same :
    {p p' : ThreadPool ℕ} {fd : ℕ} {b : Bool}
    → Submitted fd p p' b
    → (p'.stopping ≡ p.stopping) × (p'.workers ≡ p.workers)
Submitted-same (takes goes room) = (refl, refl)
Submitted-same refuses = (refl, refl)

pub act-shut : (a : Act) (s : Connections) → s.is_shut_down ≡ true → (act a s).is_shut_down ≡ true
unfolding act
act-shut accepts s h = rw h refl
act-shut clears s h = h
act-shut shuts_down s h = refl
act-shut (registers i) s h = h
act-shut (tests i) s h = h
act-shut (finishes i) s h = h
act-shut (closes_fd i) s h = h

pub acts-append :
    (steps : List Act) (a : Act) (s : Connections) → acts (steps ++ a ∷ []) s ≡ act a (acts steps s)
unfolding acts
acts-append [] a s = refl
acts-append (b ∷ steps) a s = acts-append steps a (act b s)
