-- ===== src/HashTable/Target.antt =====
-- The number of buckets that `resize` settles on.
use native.Mathlib.Nat.{pow-suc}
use redis_like_in_memory_dat.Base.{
  ℕ, zero, suc, ◌-◌, ◌*◌, ◌/◌, ◌^◌, ◌≤◌, ◌<◌, ◌≡◌, ap, false, arith, inl, inr, Bool-cases, mul64,
  leb, Option, none, some, refl, true, ◌∙◌,
}
use redis_like_in_memory_dat.Base.Bits.{bit_or-lt}
use redis_like_in_memory_dat.HashTable.Hash.{smear, round_up_to_power_of_two}
use redis_like_in_memory_dat.HashTable.Table.{
  HashTable, overloaded, raise_target, resize, resize_to, settle,
}

raise_step :
    (fuel size target twice : ℕ)
    → overloaded size target ≡ true
    → mul64 target 2 ≡ twice
    → raise_target (suc fuel) size target ≡ raise_target fuel size twice
unfolding raise_target
raise_step fuel size target twice more e = rw more (ap (raise_target fuel size) e)

-- The loop of `resize` ends by its test and not by its fuel: from a target between 1 and 2⁶², with fewer
-- than 2⁶⁰ entries and enough doublings for the entries, it stops at a target that is not overloaded,
-- not zero, and at most 2⁶².
pub raise_target_enough :
    (fuel size target : ℕ)
    → 1 ≤ target
    → size < 2 ^ 60
    → target ≤ 2 ^ 62
    → size * 4 ≤ target * 2 ^ fuel * 3
    → (settles : ℕ) × (raise_target (suc fuel) size target ≡ some settles)
      × (overloaded size settles ≡ false)
      × (1 ≤ settles)
      × (settles ≤ 2 ^ 62)
unfolding raise_target
raise_target_enough zero size target p s t h =
    let done : overloaded size target ≡ false = ground (arith, h) in
    (target, rw done refl, done, p, t)
raise_target_enough (suc f) size target p s t h = elim (Bool-cases (overloaded size target)) [
  | inl more ↦
      let small : target * 3 < size * 4 = ground arith in
      let e : mul64 target 2 ≡ target * 2 = omega arith in
      let step : size * 4 ≤ target * 2 * 2 ^ f * 3 =
        omega (arith, h, ap (λ (k : ℕ). target * k) (pow-suc 2 f)) in
      let (settles, runs, clear, some_bucket, few) =
        raise_target_enough f size (target * 2) (omega arith) s (omega arith) step in
      (settles, raise_step (suc f) size target (target * 2) more e ∙ runs, clear, some_bucket, few)
  | inr done ↦ (target, rw (done, raise_target) refl, done, p, t)
]

smear-lt : (n s : ℕ) → n < 2 ^ 62 → smear n s < 2 ^ 62
smear-lt n s h = bit_or-lt 62 n (n / 2 ^ s) h (omega arith)

-- The rounding of a count that fits in memory neither wraps nor comes out as zero.
round_up_bounds :
    (n : ℕ) → n ≤ 2 ^ 62 → (1 ≤ round_up_to_power_of_two n) × (round_up_to_power_of_two n ≤ 2 ^ 62)
unfolding round_up_to_power_of_two
round_up_bounds n h = elim (Bool-cases (leb n 1)) [
  | inl small ↦ rw small (omega arith)
  | inr big ↦ rw big (
      omega (
        arith,
        smear-lt _ 32 (
            smear-lt _ 16 (
              smear-lt _ 8 (smear-lt _ 4 (smear-lt _ 2 (smear-lt (n - 1) 1 (ground (arith, h))))))),
      ))
]

-- The number of buckets of a loop that has ended.
abbrev pub settled : Option ℕ → ℕ
settled none = 0
settled (some target) = target

-- The number of buckets that `resize` settles on.
abbrev pub target_of : ℕ → HashTable → ℕ
target_of n t = settled (raise_target 64 t.size (round_up_to_power_of_two n))

pub target_of_bounds :
    (n : ℕ) (t : HashTable)
    → n ≤ 2 ^ 62
    → t.size < 2 ^ 60
    → (overloaded t.size (target_of n t) ≡ false)
      × (1 ≤ target_of n t)
      × (target_of n t ≤ 2 ^ 62)
      × (resize n t ≡ resize_to (target_of n t) t)
unfolding resize settle
target_of_bounds n t h s =
    let (low, high) = round_up_bounds n h in
    let (settles, runs, clear, some_bucket, few) =
      raise_target_enough 63 t.size (round_up_to_power_of_two n) low s high (omega arith) in
    rw runs (clear, some_bucket, few, refl)
