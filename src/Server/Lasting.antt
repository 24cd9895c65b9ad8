-- ===== src/Server/Lasting.antt =====
-- What the steps of the connections keep: a connection that is closed stays closed, and none is forgotten.
use redis_like_in_memory_dat.Base.{
  ℕ, zero, suc, ◌≤◌, ◌≡◌, ◌≢◌, inl, inr, refl, sym, ap, ◌∙◌, arith, List, [], ◌∷◌, ◌++◌, Bool, true,
  false, length, get_or, map, length-append, Bool-cases,
}
use mathlib.Core.Path.{subst}
use redis_like_in_memory_dat.Server.Ending.{connection_at}
use redis_like_in_memory_dat.Server.Registry.{
  closed, Connection, new_connection, register, test_running, finish, close_connection, interrupt,
  Connections, Act, accepts, clears, shuts_down, registers, tests, finishes, closes_fd, change, act,
}

-- What a connection that is closed stays through.
Lasts : (Connection → Connection) → Type 0
Lasts f = (c : Connection) → c.phase ≡ closed → (f c).phase ≡ closed

change-closed :
    (f : Connection → Connection)
    → Lasts f
    → (i c : ℕ) (cs : List Connection) → (get_or cs c new_connection).phase ≡ closed
    → (get_or (change f i cs) c new_connection).phase ≡ closed
unfolding Lasts
change-closed f k i c [] h = h
change-closed f k zero zero (x ∷ cs) h = k x h
change-closed f k zero (suc c) (x ∷ cs) h = h
change-closed f k (suc i) zero (x ∷ cs) h = h
change-closed f k (suc i) (suc c) (x ∷ cs) h = change-closed f k i c cs h

length-change :
    (f : Connection → Connection) (i : ℕ) (cs : List Connection)
    → length (change f i cs) ≡ length cs
length-change f i [] = refl
length-change f zero (x ∷ cs) = refl
length-change f (suc i) (x ∷ cs) = ap suc (length-change f i cs)

interrupt-phase : (b : Bool) (c : Connection) → (interrupt b c).phase ≡ c.phase
unfolding interrupt
interrupt-phase true c = refl
interrupt-phase false c = refl

map-closed :
    (c : ℕ) (cs : List Connection)
    → (get_or cs c new_connection).phase ≡ closed
    → (get_or (map (λ x. interrupt x.is_active x) cs) c new_connection).phase ≡ closed
map-closed c [] h = h
map-closed zero (x ∷ cs) h = interrupt-phase x.is_active x ∙ h
map-closed (suc c) (x ∷ cs) h = map-closed c cs h

length-map : (cs : List Connection) → length (map (λ x. interrupt x.is_active x) cs) ≡ length cs
length-map [] = refl
length-map (x ∷ cs) = ap suc (length-map cs)

get-append :
    (c : ℕ) (cs : List Connection)
    → get_or (cs ++ new_connection ∷ []) c new_connection ≡ get_or cs c new_connection
get-append zero [] = refl
get-append (suc c) [] = refl
get-append zero (x ∷ cs) = refl
get-append (suc c) (x ∷ cs) = get-append c cs

pub act-closed :
    (a : Act) (s : Connections) (c : ℕ)
    → (connection_at s c).phase ≡ closed
    → (connection_at (act a s) c).phase ≡ closed
unfolding connection_at act register test_running finish close_connection Lasts
act-closed accepts s c h = elim (Bool-cases s.is_shut_down) [
  | inl shut ↦ rw shut h
  | inr taken ↦ rw taken (ap (λ (x : Connection). x.phase) (get-append c s.connections) ∙ h)
]
act-closed clears s c h = h
act-closed shuts_down s c h = map-closed c s.connections h
act-closed (registers i) s c h =
    change-closed _ (λ x e. subst (λ p. (register p x).phase ≡ closed) (sym e) e) i c s.connections
      h
act-closed (tests i) s c h =
    change-closed _ (λ x e. subst (λ p. (test_running p s.is_running x).phase ≡ closed) (sym e) e) i
      c s.connections h
act-closed (finishes i) s c h =
    change-closed _ (λ x e. subst (λ p. (finish p x).phase ≡ closed) (sym e) e) i c s.connections h
act-closed (closes_fd i) s c h =
    change-closed _ (λ x e. subst (λ p. (close_connection p x).phase ≡ closed) (sym e) e) i c
      s.connections h

pub length-act :
    (a : Act) (s : Connections) → a ≢ accepts → length (act a s).connections ≡ length s.connections
unfolding act
length-act accepts s h = absurd (h refl)
length-act clears s h = refl
length-act shuts_down s h = length-map s.connections
length-act (registers i) s h = length-change _ i s.connections
length-act (tests i) s h = length-change _ i s.connections
length-act (finishes i) s h = length-change _ i s.connections
length-act (closes_fd i) s h = length-change _ i s.connections

pub length-accepts :
    (s : Connections) → length (act accepts s).connections ≤ suc (length s.connections)
unfolding act
length-accepts s = elim (Bool-cases s.is_shut_down) [
  | inl shut ↦ rw shut (omega arith)
  | inr taken ↦ rw taken (omega (arith, length-append s.connections (new_connection ∷ [])))
]
