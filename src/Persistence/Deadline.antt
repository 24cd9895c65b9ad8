-- ===== src/Persistence/Deadline.antt =====
-- A deadline through a snapshot: the moment on the system clock at which an entry lapses.
use redis_like_in_memory_dat.Base.{
  ℕ, ◌+◌, ◌-◌, ◌*◌, ◌/◌, ◌^◌, ◌≤◌, ◌<◌, ◌≡◌, refl, ap, ◌∙◌, arith, leb, true, false,
}
use native.Mathlib.Nat.{
  div-le_self, div-mul-le_self, lt-div-mul-add, mul-div_cancel, add-sub_cancel_left,
  mul-le-mul_right, mul-pos,
}
use redis_like_in_memory_dat.Persistence.Clocks.{
  Reading, ahead, ticks_of_milli, to_wall_clock_millis, from_wall_clock_millis,
}

-- The tick of the system clock at which a deadline of the steady clock falls.
unfoldable pub wall : ℕ → Reading → ℕ → ℕ
wall tick r expiry = r.system + (expiry - r.steady) / tick

-- A moment that a whole number of milliseconds keeps ahead of the system clock.
pub moment-ahead :
    (tick at : ℕ) (loaded : Reading)
    → 0 < tick
    → 0 < ticks_of_milli tick
    → at < 2 ^ 63
    → loaded.steady + (at - loaded.system) * tick < 2 ^ 63
    → loaded.system < at / ticks_of_milli tick * ticks_of_milli tick
    → (restored : ℕ) × (from_wall_clock_millis tick loaded (at / ticks_of_milli tick)
        ≡ ahead restored)
      × (wall tick loaded restored ≤ at)
      × (at < wall tick loaded restored + ticks_of_milli tick)
      × (loaded.steady < restored)
unfolding wall from_wall_clock_millis
moment-ahead tick at loaded pos least small fits before =
    let millis = at / ticks_of_milli tick in
    let whole = millis * ticks_of_milli tick in
    let below = div-mul-le_self at (ticks_of_milli tick) in
    let above = lt-div-mul-add {a = at} {b = ticks_of_milli tick} least in
    let fewer = div-le_self at (ticks_of_milli tick) in
    let back : (loaded.steady + (whole - loaded.system) * tick - loaded.steady) / tick
        ≡ whole - loaded.system =
      ap (λ d. d / tick) (add-sub_cancel_left loaded.steady ((whole - loaded.system) * tick))
      ∙ mul-div_cancel (whole - loaded.system) pos in
    let less : whole - loaded.system ≤ at - loaded.system = omega (arith, below) in
    let product : (whole - loaded.system) * tick ≤ (at - loaded.system) * tick =
      mul-le-mul_right tick less in
    let some_left : 0 < (whole - loaded.system) * tick = mul-pos (omega (arith, before)) pos in
    let positive : leb (2 ^ 63) millis ≡ false = ground (arith, small, fewer) in
    let held : leb (2 ^ 63) whole ≡ false = ground (arith, small, below) in
    let later : leb whole loaded.system ≡ false = ground (arith, before) in
    let fine : leb (2 ^ 63) (loaded.steady + (whole - loaded.system) * tick) ≡ false =
      ground (arith, fits, product) in
    (
      loaded.steady + (whole - loaded.system) * tick,
      rw (positive, held, later, fine) refl,
      rw back (omega (arith, below, above, before)),
      rw back (omega (arith, below, above, before)),
      omega (arith, some_left),
    )

-- A deadline that is ahead when it is saved, and has a millisecond left when it is loaded, and that the clocks of
-- 64 bits hold then, is restored: on the system clock the restored deadline is not later than the saved one, and less
-- than a millisecond earlier, whatever the steady clocks of the two processes show.
pub to_wall_clock_millis-restored :
    (tick expiry : ℕ) (saved loaded : Reading)
    → 0 < tick
    → 0 < ticks_of_milli tick
    → saved.steady ≤ expiry
    → wall tick saved expiry < 2 ^ 63
    → loaded.steady + (wall tick saved expiry - loaded.system) * tick < 2 ^ 63
    → loaded.system + ticks_of_milli tick ≤ wall tick saved expiry
    → (restored : ℕ) × (from_wall_clock_millis tick loaded (to_wall_clock_millis tick saved expiry)
        ≡ ahead restored)
      × (wall tick loaded restored ≤ wall tick saved expiry)
      × (wall tick saved expiry < wall tick loaded restored + ticks_of_milli tick)
unfolding to_wall_clock_millis wall
to_wall_clock_millis-restored tick expiry saved loaded pos least soon small fits left =
    let at = wall tick saved expiry in
    let e : leb saved.steady expiry ≡ true = ground (arith, soon) in
    let above = lt-div-mul-add {a = at} {b = ticks_of_milli tick} least in
    let (restored, runs, low, high, after) =
      moment-ahead tick at loaded pos least small fits (omega (arith, above, left)) in
    (restored, rw e runs, low, high)
