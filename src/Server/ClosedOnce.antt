-- ===== src/Server/ClosedOnce.antt =====
-- What every interleaving keeps of a connection.
use redis_like_in_memory_dat.Base.{
  ℕ, zero, suc, ◌≤◌, ◌≡◌, refl, sym, ap, ◌∙◌, arith, List, [], ◌∷◌, ◌++◌, map, Bool, true, false,
  if◌then◌else◌,
}
use redis_like_in_memory_dat.Server.Registry.{
  Phase, queued, registered, serving, leaving, closed, Connection, new_connection, register,
  test_running, finish, close_connection, interrupt, Connections, Act, accepts, clears, shuts_down,
  registers, tests, finishes, closes_fd, change, act, acts, listening,
}

-- A connection that is in the set has not been closed, so no `shutdown` meets a descriptor that may be
-- another's; it is closed once at most, and has been when its worker is past it; and one that is served after
-- the shutdown has been interrupted.
pub record IsKept (shut_down : Bool) (c : Connection) : Type 0 where
  pub open_if_active : c.is_active ≡ true → c.closes ≡ 0
  pub closed_once : c.closes ≤ 1
  pub closed_at_end : c.phase ≡ closed → c.closes ≡ 1
  pub woken : shut_down ≡ true → c.phase ≡ serving → c.is_interrupted ≡ true

pub data Each (P : Connection → Type 0) : List Connection → Type 0 where
  no_connection : Each P []
  and_each : {c : Connection} {cs : List Connection} → P c → Each P cs → Each P (c ∷ cs)

-- The set and the number of closes by the phase.
abbrev in_set : Phase → Bool
in_set queued = false
in_set registered = true
in_set serving = true
in_set leaving = true
in_set closed = false

abbrev closes_by : Phase → ℕ
closes_by closed = 1
closes_by _ = 0

record IsRegular (shut_down : Bool) (c : Connection) : Type 0 where
  active : c.is_active ≡ in_set c.phase
  count : c.closes ≡ closes_by c.phase
  interrupted : shut_down ≡ true → c.phase ≡ serving → c.is_interrupted ≡ true

in_set-closes_by : (p : Phase) → in_set p ≡ true → closes_by p ≡ 0
in_set-closes_by queued h = refl
in_set-closes_by registered h = refl
in_set-closes_by serving h = refl
in_set-closes_by leaving h = refl
in_set-closes_by closed h = cc

closes_by-le : (p : Phase) → closes_by p ≤ 1
closes_by-le closed = omega arith
closes_by-le _ = omega arith

IsRegular-IsKept : (b : Bool) (c : Connection) → IsRegular b c → IsKept b c
IsRegular-IsKept b c r = record {
  open_if_active = λ h. r.count ∙ in_set-closes_by c.phase (sym r.active ∙ h);
  closed_once = omega (arith, r.count, closes_by-le c.phase);
  closed_at_end = λ h. r.count ∙ ap closes_by h;
  woken = r.interrupted;
}

register-IsRegular :
    (b : Bool) (p : Phase) (c : Connection)
    → c.phase ≡ p
    → IsRegular b c
    → IsRegular b (register p c)
unfolding register
register-IsRegular b queued c e r = record {
  active = refl;
  count = r.count ∙ ap closes_by e;
  interrupted = λ h k. cc;
}
register-IsRegular b registered c e r = r
register-IsRegular b serving c e r = r
register-IsRegular b leaving c e r = r
register-IsRegular b closed c e r = r

test_running-IsRegular :
    (b : Bool) (p : Phase) (running : Bool) (c : Connection)
    → (b ≡ true → running ≡ false)
    → c.phase ≡ p
    → IsRegular b c
    → IsRegular b (test_running p running c)
unfolding test_running
test_running-IsRegular b registered true c f e r = record {
  active = r.active ∙ ap in_set e;
  count = r.count ∙ ap closes_by e;
  interrupted = λ h k. let no : true ≡ false = f h in cc;
}
test_running-IsRegular b registered false c f e r = record {
  active = r.active ∙ ap in_set e;
  count = r.count ∙ ap closes_by e;
  interrupted = λ h k. cc;
}
test_running-IsRegular b queued running c f e r = r
test_running-IsRegular b serving running c f e r = r
test_running-IsRegular b leaving running c f e r = r
test_running-IsRegular b closed running c f e r = r

finish-IsRegular :
    (b : Bool) (p : Phase) (c : Connection) → c.phase ≡ p → IsRegular b c → IsRegular b (finish p c)
unfolding finish
finish-IsRegular b serving c e r = record {
  active = r.active ∙ ap in_set e;
  count = r.count ∙ ap closes_by e;
  interrupted = λ h k. cc;
}
finish-IsRegular b queued c e r = r
finish-IsRegular b registered c e r = r
finish-IsRegular b leaving c e r = r
finish-IsRegular b closed c e r = r

close_connection-IsRegular :
    (b : Bool) (p : Phase) (c : Connection)
    → c.phase ≡ p
    → IsRegular b c
    → IsRegular b (close_connection p c)
unfolding close_connection
close_connection-IsRegular b leaving c e r = record {
  active = refl;
  count = ap suc (r.count ∙ ap closes_by e);
  interrupted = λ h k. cc;
}
close_connection-IsRegular b queued c e r = r
close_connection-IsRegular b registered c e r = r
close_connection-IsRegular b serving c e r = r
close_connection-IsRegular b closed c e r = r

interrupt-IsRegular :
    (b a : Bool) (c : Connection) → c.is_active ≡ a → IsRegular b c → IsRegular true (interrupt a c)
unfolding interrupt
interrupt-IsRegular b true c e r = record {
  active = r.active;
  count = r.count;
  interrupted = λ h k. refl;
}
interrupt-IsRegular b false c e r = record {
  active = r.active;
  count = r.count;
  interrupted = λ h k. let no : false ≡ true = sym e ∙ r.active ∙ ap in_set k in cc;
}

Each-change :
    (P : Connection → Type 0) (f : Connection → Connection) (i : ℕ) (cs : List Connection)
    → ((c : Connection) → P c → P (f c))
    → Each P cs
    → Each P (change f i cs)
Each-change P f i [] h e = e
Each-change P f zero (c ∷ cs) h (and_each p e) = and_each (h c p) e
Each-change P f (suc i) (c ∷ cs) h (and_each p e) = and_each p (Each-change P f i cs h e)

Each-map :
    (P Q : Connection → Type 0) (f : Connection → Connection) (cs : List Connection)
    → ((c : Connection) → P c → Q (f c))
    → Each P cs
    → Each Q (map f cs)
Each-map P Q f [] h no_connection = no_connection
Each-map P Q f (c ∷ cs) h (and_each p e) = and_each (h c p) (Each-map P Q f cs h e)

Each-imp :
    (P Q : Connection → Type 0) (cs : List Connection)
    → ((c : Connection) → P c → Q c)
    → Each P cs
    → Each Q cs
Each-imp P Q [] h no_connection = no_connection
Each-imp P Q (c ∷ cs) h (and_each p e) = and_each (h c p) (Each-imp P Q cs h e)

Each-append :
    (P : Connection → Type 0) (cs : List Connection) (c : Connection)
    → Each P cs
    → P c
    → Each P (cs ++ c ∷ [])
Each-append P [] c no_connection p = and_each p no_connection
Each-append P (d ∷ cs) c (and_each q e) p = and_each q (Each-append P cs c e p)

record IsOrderly (s : Connections) : Type 0 where
  cleared : s.is_shut_down ≡ true → s.is_running ≡ false
  each : Each (IsRegular s.is_shut_down) s.connections

accept-IsOrderly :
    (b : Bool) (s : Connections)
    → s.is_shut_down ≡ b
    → IsOrderly s
    → IsOrderly (if b then s else record s { connections = s.connections ++ new_connection ∷ [] })
accept-IsOrderly true s e o = o
accept-IsOrderly false s e o = record {
  cleared = o.cleared;
  each =
      Each-append (IsRegular s.is_shut_down) s.connections new_connection o.each
        (record { active = refl; count = refl; interrupted = λ h k. cc });
}

act-IsOrderly : (a : Act) (s : Connections) → IsOrderly s → IsOrderly (act a s)
unfolding act
act-IsOrderly accepts s o = accept-IsOrderly s.is_shut_down s refl o
act-IsOrderly clears s o = record { cleared = λ h. refl; each = o.each }
act-IsOrderly shuts_down s o = record {
  cleared = λ h. refl;
  each =
      Each-map (IsRegular s.is_shut_down) (IsRegular true) (λ c. interrupt c.is_active c)
        s.connections (λ c r. interrupt-IsRegular s.is_shut_down c.is_active c refl r) o.each;
}
act-IsOrderly (registers i) s o = record {
  cleared = o.cleared;
  each =
      Each-change (IsRegular s.is_shut_down) (λ c. register c.phase c) i s.connections
        (λ c r. register-IsRegular s.is_shut_down c.phase c refl r) o.each;
}
act-IsOrderly (tests i) s o = record {
  cleared = o.cleared;
  each =
      Each-change (IsRegular s.is_shut_down) (λ c. test_running c.phase s.is_running c) i
        s.connections
        (λ c r. test_running-IsRegular s.is_shut_down c.phase s.is_running c o.cleared refl r)
        o.each;
}
act-IsOrderly (finishes i) s o = record {
  cleared = o.cleared;
  each =
      Each-change (IsRegular s.is_shut_down) (λ c. finish c.phase c) i s.connections
        (λ c r. finish-IsRegular s.is_shut_down c.phase c refl r) o.each;
}
act-IsOrderly (closes_fd i) s o = record {
  cleared = o.cleared;
  each =
      Each-change (IsRegular s.is_shut_down) (λ c. close_connection c.phase c) i s.connections
        (λ c r. close_connection-IsRegular s.is_shut_down c.phase c refl r) o.each;
}

acts-IsOrderly : (steps : List Act) (s : Connections) → IsOrderly s → IsOrderly (acts steps s)
unfolding acts
acts-IsOrderly [] s o = o
acts-IsOrderly (a ∷ steps) s o = acts-IsOrderly steps (act a s) (act-IsOrderly a s o)

-- In whatever order the workers, the accept loop and the end of `run` take their steps, for every connection:
-- while it is in the set its descriptor has not been closed, so `shutdown` is never called on a closed
-- descriptor; it is closed at most once, and exactly once when its worker has left `serveConnection`; and
-- after the connections have been shut down, one that is in `handleConnection` has been interrupted.
pub acts-IsKept :
    (steps : List Act)
    → Each (IsKept (acts steps listening).is_shut_down) (acts steps listening).connections
acts-IsKept steps =
    let o = acts-IsOrderly steps listening (record { cleared = λ h. cc; each = no_connection }) in
    Each-imp (IsRegular (acts steps listening).is_shut_down)
      (IsKept (acts steps listening).is_shut_down) (acts steps listening).connections
      (λ c r. IsRegular-IsKept (acts steps listening).is_shut_down c r) o.each
