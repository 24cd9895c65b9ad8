-- ===== src/HashTable/Narrow.antt =====
-- How many buckets a write leaves: the array stays small as long as the entries are few.
use redis_like_in_memory_dat.Base.{
  ℕ, zero, suc, ◌-◌, ◌*◌, ◌/◌, ◌^◌, ◌≤◌, ◌<◌, ◌≡◌, ◌∙◌, Bytes, [], Option, length, length-set,
  replicate, length-replicate, arith, inl, inr, Bool-cases, Option-cases, mul64, leb, ◌==◌, none,
  some, refl,
}
use redis_like_in_memory_dat.Base.Bits.{bit_or-lt}
use redis_like_in_memory_dat.HashTable.Chain.{Chain}
use redis_like_in_memory_dat.HashTable.Hash.{smear, round_up_to_power_of_two}
use redis_like_in_memory_dat.HashTable.Sums.{length-relink_all}
use redis_like_in_memory_dat.HashTable.Target.{settled}
use redis_like_in_memory_dat.HashTable.Table.{
  settle, HashTable, Sizes, home, find_in, overloaded, raise_target, resize, resize_to,
  grow_if_needed, ensure_buckets, overwrite, insert_new, put, set_expiration,
}

-- At most 2⁵⁸ buckets.
abbrev pub Narrow : HashTable → Type 0
Narrow t = length t.buckets ≤ 2 ^ 58

smear-lt : (n s : ℕ) → n < 2 ^ 58 → smear n s < 2 ^ 58
smear-lt n s h = bit_or-lt 58 n (n / 2 ^ s) h (omega arith)

pub round_up-le : (n : ℕ) → n ≤ 2 ^ 58 → round_up_to_power_of_two n ≤ 2 ^ 58
unfolding round_up_to_power_of_two
round_up-le n h = elim (Bool-cases (leb n 1)) [
  | inl small ↦ rw small (omega arith)
  | inr big ↦ rw big (
      omega (
        arith,
        smear-lt _ 32 (
            smear-lt _ 16 (
              smear-lt _ 8 (smear-lt _ 4 (smear-lt _ 2 (smear-lt (n - 1) 1 (ground (arith, h))))))),
      ))
]

-- A target is doubled only while it is below 2⁵⁷.
raise_target-le :
    (fuel size target : ℕ)
    → size ≤ 2 ^ 56
    → target ≤ 2 ^ 58
    → settled (raise_target fuel size target) ≤ 2 ^ 58
unfolding raise_target
raise_target-le zero size target s h = omega arith
raise_target-le (suc f) size target s h = elim (Bool-cases (overloaded size target)) [
  | inl more ↦
      let small : target * 3 < size * 4 = ground arith in
      let e : mul64 target 2 ≡ target * 2 = omega arith in
      rw (more, e) (raise_target-le f size (target * 2) s (omega arith))
  | inr done ↦ rw done h
]

length-resize_to : (target : ℕ) (t : HashTable) → length (resize_to target t).buckets ≡ target
unfolding resize_to
length-resize_to target t = elim (Bool-cases (target == length t.buckets)) [
  | inl same ↦ rw same (ground (arith, same))
  | inr other ↦
      rw other
        (length-relink_all t.buckets (replicate target []) ∙ length-replicate {A = Chain} target [])
]

length-settle : (o : Option ℕ) (t : HashTable) → length (settle o t).buckets ≡ settled o
unfolding settle
length-settle none t = refl
length-settle (some target) t = length-resize_to target t

grow-Narrow : (t : HashTable) → t.size ≤ 2 ^ 56 → Narrow t → Narrow (grow_if_needed t)
unfolding grow_if_needed resize
grow-Narrow t s h = elim (Bool-cases (overloaded t.size (length t.buckets))) [
  | inl more ↦
      let small : length t.buckets * 3 < t.size * 4 = ground arith in
      let twice : mul64 (length t.buckets) 2 ≤ 2 ^ 58 = omega arith in
      let target = raise_target 64 t.size (round_up_to_power_of_two (mul64 (length t.buckets) 2)) in
      let le : settled target ≤ 2 ^ 58 = raise_target-le 64 t.size _ s (round_up-le _ twice) in
      rw more (omega (arith, le, length-settle target t))
  | inr done ↦ rw done h
]

ensure-Narrow : (t : HashTable) → Narrow t → Narrow (ensure_buckets t)
unfolding ensure_buckets
ensure-Narrow t h = elim (Bool-cases (length t.buckets == 0)) [
  | inl empty ↦ rw empty (omega arith)
  | inr some_left ↦ rw some_left h
]

size-ensure : (t : HashTable) → (ensure_buckets t).size ≡ t.size
unfolding ensure_buckets
size-ensure t = ground arith

-- A write to a table of fewer than 2⁵⁶ entries and at most 2⁵⁸ buckets leaves at most 2⁵⁸ buckets.
pub put-Narrow :
    (sz : Sizes) (key value : Bytes) (t : HashTable)
    → t.size < 2 ^ 56
    → Narrow t
    → Narrow (put sz key value t).0
unfolding put overwrite insert_new
put-Narrow sz key value t s h =
    let t' = ensure_buckets t in
    elim (Option-cases (find_in t'.buckets key)) [
      | inl absent ↦
          let wide = insert_new sz key value t' in
          rw (absent, put)
            (grow-Narrow wide (omega (arith, s, size-ensure t))
              (omega (arith, ensure-Narrow t h, length-set t'.buckets (home t'.buckets key))))
      | inr (n, found) ↦
          rw (found, put)
            (omega (arith, ensure-Narrow t h, length-set t'.buckets (home t'.buckets key)))
    ]

pub set_expiration-Narrow :
    (key : Bytes) (e : Option ℕ) (t : HashTable) → Narrow t → Narrow (set_expiration key e t)
unfolding set_expiration
set_expiration-Narrow key e t h = elim (Option-cases (find_in t.buckets key)) [
  | inl absent ↦ rw (absent, set_expiration) h
  | inr (n, found) ↦
      rw (found, set_expiration) (omega (arith, h, length-set t.buckets (home t.buckets key)))
]
