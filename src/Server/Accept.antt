-- ===== src/Server/Accept.antt =====
-- src/Server.cpp: the loop of `run`. `trySubmit` and the refusal are parameters, as the workers move
-- between the turns.
use redis_like_in_memory_dat.Base.{
  ℕ, ◌+◌, ◌≡◌, arith, List, [], ◌∷◌, ◌++◌, Bool, true, false, ◌==◌, if◌then◌else◌, Bool-cases, inl,
  inr,
}

-- `accept`: a descriptor; `EINTR`, `ECONNABORTED`, `EMFILE` or `ENFILE`; or another error.
pub data Accepted : Type 0 where
  client : ℕ → Accepted
  transient : Accepted
  fatal : Accepted

-- A turn of the loop: `running_` is false; `poll` fails, with `EINTR` or not; or it tells whether the pipe
-- and the listening socket are ready.
pub data Turn : Type 0 where
  cleared : Turn
  poll_interrupted : Turn
  poll_failed : Turn
  woken : Bool → Bool → Accepted → Turn

-- The connections that the loop has handed to the pool, and those that it has refused and closed.
pub record Handed : Type 0 where
  pub submitted : List ℕ
  pub refused : List ℕ

module _ {W : Type 0} (submits : ℕ → W → W × Bool) where
  unfoldable pub hand_off : ℕ → W → Handed → W × Handed
  hand_off fd w h =
      let (w', taken) = submits fd w in
      (
        w',
        (if taken
            then record h { submitted = h.submitted ++ fd ∷ [] }
            else record h { refused = h.refused ++ fd ∷ [] }),
      )

  -- True if the loop has ended.
  unfoldable pub accept_loop : List Turn → W → Handed → W × Handed × Bool
  unfolding hand_off
  accept_loop [] w h = (w, h, false)
  accept_loop (cleared ∷ turns) w h = (w, h, true)
  accept_loop (poll_interrupted ∷ turns) w h = accept_loop turns w h
  accept_loop (poll_failed ∷ turns) w h = (w, h, true)
  accept_loop (woken true ready accepted ∷ turns) w h = (w, h, true)
  accept_loop (woken false false accepted ∷ turns) w h = accept_loop turns w h
  accept_loop (woken false true transient ∷ turns) w h = accept_loop turns w h
  accept_loop (woken false true fatal ∷ turns) w h = (w, h, true)
  accept_loop (woken false true (client fd) ∷ turns) w h =
      let (w', h') = hand_off fd w h in accept_loop turns w' h'

-- The connections that `accept` returns before the loop ends.
unfoldable pub connected : List Turn → List ℕ
connected [] = []
connected (poll_interrupted ∷ turns) = connected turns
connected (woken false false accepted ∷ turns) = connected turns
connected (woken false true transient ∷ turns) = connected turns
connected (woken false true (client fd) ∷ turns) = fd ∷ connected turns
connected (_ ∷ turns) = []

unfoldable pub count_of : ℕ → List ℕ → ℕ
count_of fd [] = 0
count_of fd (n ∷ ns) = (if n == fd then 1 else 0) + count_of fd ns

count_of-append :
    (fd : ℕ) (ns ms : List ℕ) → count_of fd (ns ++ ms) ≡ count_of fd ns + count_of fd ms
unfolding count_of
count_of-append fd [] ms = omega arith
count_of-append fd (n ∷ ns) ms = omega (arith, count_of-append fd ns ms)

module _ {W : Type 0} (submits : ℕ → W → W × Bool) where
  -- How often a connection has been handed to the pool or refused.
  abbrev times : ℕ → Handed → ℕ
  times fd h = count_of fd h.submitted + count_of fd h.refused

  hand_off-times :
      (fd n : ℕ) (w : W) (h : Handed)
      → times fd (hand_off submits n w h).1 ≡ times fd h + count_of fd (n ∷ [])
  unfolding hand_off
  hand_off-times fd n w h = elim (Bool-cases (submits n w).1) [
    | inl taken ↦ rw taken (omega (arith, count_of-append fd h.submitted (n ∷ [])))
    | inr full ↦ rw full (omega (arith, count_of-append fd h.refused (n ∷ [])))
  ]

  -- Every connection that `accept` returned before the loop ended has been handed to the pool or refused, once
  -- for each time that it was returned.
  accept_loop-times :
      (turns : List Turn) (w : W) (h : Handed) (fd : ℕ)
      → count_of fd (accept_loop submits turns w h).1.submitted
          + count_of fd (accept_loop submits turns w h).1.refused
        ≡ count_of fd h.submitted + count_of fd h.refused + count_of fd (connected turns)
  unfolding accept_loop connected count_of
  accept_loop-times [] w h fd = omega arith
  accept_loop-times (cleared ∷ turns) w h fd = omega arith
  accept_loop-times (poll_interrupted ∷ turns) w h fd = accept_loop-times turns w h fd
  accept_loop-times (poll_failed ∷ turns) w h fd = omega arith
  accept_loop-times (woken true ready accepted ∷ turns) w h fd = omega arith
  accept_loop-times (woken false false accepted ∷ turns) w h fd = accept_loop-times turns w h fd
  accept_loop-times (woken false true transient ∷ turns) w h fd = accept_loop-times turns w h fd
  accept_loop-times (woken false true fatal ∷ turns) w h fd = omega arith
  accept_loop-times (woken false true (client n) ∷ turns) w h fd =
      let (w', h') = hand_off submits n w h in
      omega (arith, accept_loop-times turns w' h' fd, hand_off-times fd n w h)
