-- ===== src/Server/Ended.antt =====
-- What holds when `run` returns, and that it does not wait for ever.
use redis_like_in_memory_dat.Base.{
  ℕ, ◌≡◌, refl, sym, List, [], ◌∷◌, true, false, get_or, Bool-cases, inl, inr, length, zero, suc,
  arith, Bool, ◌<◌,
}
use mathlib.Core.Option
use mathlib.Core.Path.{subst}
use redis_like_in_memory_dat.Server.Accounted.{Runs-Place, ended-closed}
use redis_like_in_memory_dat.Server.ClosedOnce.{Each, no_connection, and_each, IsKept, acts-IsKept}
use redis_like_in_memory_dat.Server.Ending.{finished, Run, left, Runs, connection_at}
use redis_like_in_memory_dat.Server.Registry.{
  closed, Connection, new_connection, Connections, Act, acts, listening,
}
use redis_like_in_memory_dat.Server.Stages.{Late, all_returned-stuck}
use redis_like_in_memory_dat.Server.Threads.{Gone}
use redis_like_in_memory_dat.ThreadPool.Drained.{shutdown-drained}
use redis_like_in_memory_dat.ThreadPool.Pool.{returned}
use redis_like_in_memory_dat.Server.Kept.{Runs-Kept}

acted-Each :
    (s : Connections)
    → (steps : List Act) × (s ≡ acts steps listening)
    → Each (IsKept s.is_shut_down) s.connections
acted-Each s (steps, e) =
    subst (λ (x : Connections). Each (IsKept x.is_shut_down) x.connections) (sym e)
      (acts-IsKept steps)

Each-at :
    {P : Connection → Type 0} {cs : List Connection}
    → Each P cs
    → P new_connection
    → (c : ℕ) → P (get_or cs c new_connection)
Each-at no_connection h c = h
Each-at (and_each p ps) h zero = p
Each-at (and_each p ps) h (suc c) = Each-at ps h c

new-IsKept : IsKept true new_connection
new-IsKept = record {
  open_if_active = λ e. refl;
  closed_once = omega arith;
  closed_at_end = λ e. cc;
  woken = λ e f. cc;
}

-- The worker of a connection is through with it: it is not in the set, and has been closed exactly once.
abbrev pub IsClosed : Connection → Type 0
IsClosed c = (c.phase ≡ closed) × (c.is_active ≡ false) × (c.closes ≡ 1)

Each-from :
    {P : Connection → Type 0} (cs : List Connection)
    → ((c : ℕ) → c < length cs → P (get_or cs c new_connection))
    → Each P cs
Each-from [] h = no_connection
Each-from (x ∷ cs) h =
    and_each (h 0 (omega arith)) (Each-from cs (λ c less. h (suc c) (omega (arith, less))))

IsKept-IsClosed : (b : Bool) (c : Connection) → IsKept b c → c.phase ≡ closed → IsClosed c
IsKept-IsClosed b c k e = elim (Bool-cases c.is_active) [
  | inl active ↦ absurd (omega (arith, k.open_if_active active, k.closed_at_end e))
  | inr left ↦ (e, left, k.closed_at_end e)
]

run-IsClosed :
    {r : Run} {taken begun : List ℕ}
    → Runs r taken begun
    → r.connections.is_shut_down ≡ true
    → Each (IsKept r.connections.is_shut_down) r.connections.connections
    → r.pool.tasks ≡ []
    → ((i : ℕ) → get_or r.pool.workers i returned ≡ returned)
    → Each IsClosed r.connections.connections
unfolding connection_at
run-IsClosed {r} {taken} {begun} h shut each empty all =
    Each-from r.connections.connections (λ c less.
      IsKept-IsClosed true (get_or r.connections.connections c new_connection)
        (Each-at (subst (λ b. Each (IsKept b) r.connections.connections) shut each) new-IsKept c)
        (ended-closed r.pool r.connections c (Runs-Place h c less) empty all))

-- Once `run` has returned, in whatever order the workers, the connections, `stop` and the background threads have
-- moved: the pool has begun every connection that it accepted, its queue is empty and all its workers have
-- returned; `shutdownActiveConnections` has run, and the worker of every accepted connection is through with it, so
-- that it is no longer in the set and has been closed exactly once; and neither background thread is left.
pub run_ended :
    {r : Run} {taken begun : List ℕ}
    → Runs r taken begun
    → r.stage ≡ finished
    → (taken ≡ begun)
      × (r.pool.tasks ≡ [])
      × ((i : ℕ) → get_or r.pool.workers i returned ≡ returned)
      × (r.connections.is_shut_down ≡ true)
      × Each IsClosed r.connections.connections
      × Gone r.sweeper
      × Gone r.scheduler
run_ended {r} {taken} {begun} h e =
    let k = Runs-Kept h in
    let (stops, shut, w, s, c) = subst (λ stage. Late stage r) e k.late in
    let (all, empty, same) =
      shutdown-drained k.pool stops (λ i. all_returned-stuck false r.pool i w) in
    let each = acted-Each r.connections k.acted in
    (same, empty, all, shut, run-IsClosed h shut each empty all, s, c)
