-- ===== src/Persistence/Revived.antt =====
-- What a load makes of the entries that a snapshot was written from: described by the moments at which they lapse,
-- and not by the encoder or the decoder.
use redis_like_in_memory_dat.Base.{
  ℕ, suc, ◌+◌, ◌-◌, ◌*◌, ◌/◌, ◌^◌, ◌≤◌, ◌<◌, ◌≡◌, refl, arith, Bytes, List, [], ◌∷◌, Option, none,
  some, true, false, leb, ◌==◌, Bool-cases, inl, inr, zero,
}
use native.Mathlib.Nat.{div-le_self, lt-div-mul-add, div-mul-le_self}
use redis_like_in_memory_dat.Entry.{Entry, make_entry, is_expired_at}
use redis_like_in_memory_dat.Persistence.Clocks.{
  Reading, lapsed, moment, ticks_of_milli, to_wall_clock_millis, from_wall_clock_millis,
}
use redis_like_in_memory_dat.Persistence.Deadline.{wall, moment-ahead}
use redis_like_in_memory_dat.Persistence.Decode.{ok, revive}
use redis_like_in_memory_dat.Persistence.Encode.{expires_at}

-- An entry without a deadline comes back as it is. One with a deadline comes back with the key and the value, and
-- on the system clock with the same deadline, less than a millisecond earlier at most; or it is dropped, if the
-- deadline had passed or was less than a millisecond ahead.
pub data Revived (tick : ℕ) (saved loaded : Reading) (e : Entry) : Option Entry → Type 0 where
  lasting : e.expiration ≡ none → Revived tick saved loaded e (some e)
  dated :
      (t restored : ℕ)
      → e.expiration ≡ some t
      → wall tick loaded restored ≤ moment tick saved t
      → moment tick saved t < wall tick loaded restored + ticks_of_milli tick
      → Revived tick saved loaded e (some (record e { expiration = some restored }))
  dropped :
      (t : ℕ)
      → e.expiration ≡ some t
      → moment tick saved t < loaded.system + ticks_of_milli tick
      → Revived tick saved loaded e none

-- Entry by entry, in their order, each under the readings of its own.
pub data AllRevived (tick : ℕ) (saved loaded : ℕ → Reading)
    : ℕ → List Entry → List Entry → Type 0 where
  all_done : (i : ℕ) → AllRevived tick saved loaded i [] []
  and_kept :
      {i : ℕ} {e e' : Entry} {es es' : List Entry}
      → Revived tick (saved i) (loaded i) e (some e')
      → AllRevived tick saved loaded (suc i) es es'
      → AllRevived tick saved loaded i (e ∷ es) (e' ∷ es')
  and_dropped :
      {i : ℕ} {e : Entry} {es es' : List Entry}
      → Revived tick (saved i) (loaded i) e none
      → AllRevived tick saved loaded (suc i) es es'
      → AllRevived tick saved loaded i (e ∷ es) es'

-- The clocks of 64 bits hold a deadline when it is saved and when it is loaded, and it is not in the first millisecond
-- after the epoch, which the format takes for none.
pub record IsDatable (tick : ℕ) (saved loaded : Reading) (t : ℕ) : Type 0 where
  pub after_epoch : ticks_of_milli tick ≤ moment tick saved t
  pub wall_fits : moment tick saved t < 2 ^ 63
  pub clock_fits : loaded.steady + (moment tick saved t - loaded.system) * tick < 2 ^ 63

abbrev pub AllDatable : ℕ → (ℕ → Reading) → (ℕ → Reading) → ℕ → List Entry → Type 0
AllDatable tick saved loaded i [] = Unit {0}
AllDatable tick saved loaded i (e ∷ es) =
    ((t : ℕ) → e.expiration ≡ some t → IsDatable tick (saved i) (loaded i) t)
    × AllDatable tick saved loaded (suc i) es

some_millis : (m ticks at : ℕ) → at < m * ticks + ticks → ticks ≤ at → (m == 0) ≡ false
some_millis zero ticks at h k = absurd (omega (arith, h, k))
some_millis (suc m) ticks at h k = ground arith

gone :
    (tick at : ℕ) (loaded : Reading)
    → at < 2 ^ 63
    → leb (at / ticks_of_milli tick * ticks_of_milli tick) loaded.system ≡ true
    → from_wall_clock_millis tick loaded (at / ticks_of_milli tick) ≡ lapsed
unfolding from_wall_clock_millis
gone tick at loaded small over =
    let fewer = div-le_self at (ticks_of_milli tick) in
    let below = div-mul-le_self at (ticks_of_milli tick) in
    let positive : leb (2 ^ 63) (at / ticks_of_milli tick) ≡ false = ground (arith, small, fewer) in
    let held : leb (2 ^ 63) (at / ticks_of_milli tick * ticks_of_milli tick) ≡ false =
      ground (arith, small, below) in
    rw (positive, held, over) refl

module _ (tick now : ℕ) (saved loaded : Reading) (pos : 0 < tick) (least : 0 < ticks_of_milli tick)
    (before : now ≤ loaded.steady) (key value : Bytes) where
  revive-dated :
      (t : ℕ)
      → IsDatable tick saved loaded t
      → (o : Option Entry) × (revive tick now loaded key value (to_wall_clock_millis tick saved t)
          ≡ ok o)
        × Revived tick saved loaded (record { key = key; value = value; expiration = some t }) o
  unfolding revive to_wall_clock_millis is_expired_at
  revive-dated t d =
      let at = moment tick saved t in
      let ticks = ticks_of_milli tick in
      let above = lt-div-mul-add {a = at} {b = ticks} least in
      let below = div-mul-le_self at ticks in
      let fewer = div-le_self at ticks in
      let dated_one : (at / ticks == 0) ≡ false =
        some_millis (at / ticks) ticks at above d.after_epoch in
      elim (Bool-cases (leb (at / ticks * ticks) loaded.system)) [
        | inl over ↦
            let past = gone tick at loaded (omega (arith, d.wall_fits)) over in
            (none, rw (dated_one, past) refl, dropped t refl (ground (arith, over, above)))
        | inr left ↦
            let (restored, runs, low, high, after) =
              moment-ahead tick at loaded pos least d.wall_fits d.clock_fits
                (ground (arith, left)) in
            let alive : leb restored now ≡ false = ground (arith, after, before) in
            (
              some (record { key = key; value = value; expiration = some restored }),
              rw (dated_one, runs, alive) refl,
              dated t restored refl low high,
            )
      ]

  pub revive-Revived :
      (x : Option ℕ)
      → ((t : ℕ) → x ≡ some t → IsDatable tick saved loaded t)
      → (o : Option Entry) × (revive tick now loaded key value (expires_at tick saved x) ≡ ok o)
        × Revived tick saved loaded (record { key = key; value = value; expiration = x }) o
  unfolding revive
  revive-Revived none d = (some (make_entry key value), refl, lasting refl)
  revive-Revived (some t) d = revive-dated t (d t refl)
