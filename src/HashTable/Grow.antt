-- ===== src/HashTable/Grow.antt =====
-- `growIfNeeded`, `resize` and the first allocation of buckets: the nodes stay, their chains change.
use redis_like_in_memory_dat.Base.{
  ℕ, ◌^◌, ◌≤◌, ◌<◌, ◌≡◌, refl, sym, ap, ◌∙◌, Bytes, List, [], ◌∷◌, none, false, ◌==◌, ==_iff,
  length, replicate, arith, inl, inr, Bool-cases, mul64,
}
use redis_like_in_memory_dat.HashTable.Buckets.{total, IsPlaced}
use redis_like_in_memory_dat.HashTable.Chain.{Node, Chain, find_node}
use redis_like_in_memory_dat.HashTable.Sums.{IsSum, total-replicate}
use redis_like_in_memory_dat.HashTable.Relink.{replicate-IsPlaced, find_in-replicate}
use redis_like_in_memory_dat.HashTable.Resize.{
  resize_to-IsPlaced, find_in-resize_to, total-resize_to, length-resize_to,
}
use redis_like_in_memory_dat.HashTable.Target.{target_of, target_of_bounds}
use redis_like_in_memory_dat.HashTable.Table.{
  HashTable, find_in, overloaded, resize, resize_to, grow_if_needed, ensure_buckets,
}
use redis_like_in_memory_dat.HashTable.Valid.{
  IsValid, count_addr, bytes_of, count_addr-IsSum, bytes_of-IsSum, length-IsSum,
}

-- The table is small enough for the memory of a 64-bit machine: no counter wraps, and the bucket
-- array can double.
pub record Fits (t : HashTable) : Type 0 where
  pub few : total length t.buckets < 2 ^ 59
  pub narrow : length t.buckets ≤ 2 ^ 60

-- Other buckets with the same nodes.
record SameNodes (bs bs' : List Chain) : Type 1 where
  placed : IsPlaced bs'
  sums : (f : Chain → ℕ) (g : Node → ℕ) → IsSum f g → total f bs' ≡ total f bs

rebucket-IsValid :
    (t : HashTable) (xs : List ℕ) (bs : List Chain)
    → IsValid t xs
    → SameNodes t.buckets bs
    → IsValid (record t { buckets = bs }) xs
rebucket-IsValid t xs bs v s = record {
  placed = s.placed;
  counted = omega (arith, v.counted, s.sums length _ length-IsSum);
  weighed = omega (arith, v.weighed, s.sums bytes_of _ bytes_of-IsSum);
  threaded = v.threaded;
  listed = λ a. omega (arith, v.listed a, s.sums (count_addr a) _ (count_addr-IsSum a));
  sized = v.sized ∙ sym (s.sums length _ length-IsSum);
  unused = λ a h. omega (arith, v.unused a h, s.sums (count_addr a) _ (count_addr-IsSum a));
}

resize_to-shape :
    (target : ℕ) (t : HashTable)
    → resize_to target t ≡ record t { buckets = (resize_to target t).buckets }
unfolding resize_to
resize_to-shape target t = elim (Bool-cases (target == length t.buckets)) [
  | inl same ↦ rw same
  | inr other ↦ rw other
]

module _ (n : ℕ) (t : HashTable) (xs : List ℕ) (v : IsValid t xs) (h : n ≤ 2 ^ 62)
    (s : t.size < 2 ^ 60) where
  -- `resize` to at most 2⁶² buckets keeps the invariant of a valid table of fewer than 2⁶⁰ entries, with
  -- the same recency list.
  resize-IsValid : IsValid (resize n t) xs
  resize-IsValid =
      let low = (target_of_bounds n t h s).1 in
      rw ((target_of_bounds n t h s).3, resize_to-shape (target_of n t) t)
        (rebucket-IsValid t xs (resize_to (target_of n t) t).buckets v (record {
          placed = resize_to-IsPlaced (target_of n t) t v.placed low;
          sums = λ f g sum. total-resize_to (target_of n t) t v.placed low f g sum;
        }))

  -- `resize` to at most 2⁶² buckets loses no key of a valid table of fewer than 2⁶⁰ entries: every key
  -- finds the node that it found before.
  pub find_in-resize : (q : Bytes) → find_in (resize n t).buckets q ≡ find_in t.buckets q
  find_in-resize q =
      ap (λ r. find_in r.buckets q) (target_of_bounds n t h s).3
      ∙ find_in-resize_to (target_of n t) t v.placed (target_of_bounds n t h s).1 q

  length-resize : length (resize n t).buckets ≡ target_of n t
  length-resize =
      ap (λ r. length r.buckets) (target_of_bounds n t h s).3
      ∙ length-resize_to (target_of n t) t v.placed (target_of_bounds n t h s).1

module _ (t : HashTable) (xs : List ℕ) (v : IsValid t xs) (size_small : t.size < 2 ^ 60)
    (narrow : length t.buckets ≤ 2 ^ 61) where
  double_small : mul64 (length t.buckets) 2 ≤ 2 ^ 62
  double_small = omega (arith, narrow)

  pub grow-IsValid : IsValid (grow_if_needed t) xs
  unfolding grow_if_needed
  grow-IsValid = elim (Bool-cases (overloaded t.size (length t.buckets))) [
    | inl more ↦
        rw more (resize-IsValid (mul64 (length t.buckets) 2) t xs v double_small size_small)
    | inr done ↦ rw done v
  ]

  pub find_in-grow : (q : Bytes) → find_in (grow_if_needed t).buckets q ≡ find_in t.buckets q
  unfolding grow_if_needed
  find_in-grow q = elim (Bool-cases (overloaded t.size (length t.buckets))) [
    | inl more ↦
        rw more (find_in-resize (mul64 (length t.buckets) 2) t xs v double_small size_small q)
    | inr done ↦ rw done
  ]

  -- After `growIfNeeded` on a valid table of fewer than 2⁶⁰ entries and at most 2⁶¹ buckets, the load is
  -- at most three quarters.
  pub grow_load : overloaded t.size (length (grow_if_needed t).buckets) ≡ false
  unfolding grow_if_needed
  grow_load = elim (Bool-cases (overloaded t.size (length t.buckets))) [
    | inl more ↦
        rw (more, length-resize (mul64 (length t.buckets) 2) t xs v double_small size_small)
          ((target_of_bounds (mul64 (length t.buckets) 2) t double_small size_small).0)
    | inr done ↦ rw done done
  ]

no_buckets : (bs : List Chain) → length bs ≡ 0 → bs ≡ []
no_buckets [] h = refl
no_buckets (c ∷ cs) h = absurd (omega arith)

pub find_in-none : (bs : List Chain) (q : Bytes) → length bs ≡ 0 → find_in bs q ≡ none
unfolding find_in find_node
find_in-none [] q h = refl
find_in-none (c ∷ cs) q h = absurd (omega arith)

module _ (t : HashTable) (xs : List ℕ) (v : IsValid t xs) where
  allocated : length t.buckets ≡ 0 → SameNodes t.buckets (replicate 16 [])
  unfolding total
  allocated e = record {
    placed = replicate-IsPlaced 16;
    sums = λ f g sum. total-replicate f g sum 16 ∙ sym (ap (total f) (no_buckets t.buckets e));
  }

  pub ensure-IsValid : IsValid (ensure_buckets t) xs
  unfolding ensure_buckets
  ensure-IsValid = elim (Bool-cases (length t.buckets == 0)) [
    | inl empty ↦ rw empty (
        rebucket-IsValid t xs (replicate 16 []) v
          (allocated ((==_iff (length t.buckets) 0).0 empty)))
    | inr some_left ↦ rw some_left v
  ]

  pub ensure_roomy : 0 < length (ensure_buckets t).buckets
  unfolding ensure_buckets
  ensure_roomy = ground arith

  pub ensure_narrow : length t.buckets ≤ 2 ^ 60 → length (ensure_buckets t).buckets ≤ 2 ^ 60
  unfolding ensure_buckets
  ensure_narrow h = elim (Bool-cases (length t.buckets == 0)) [
    | inl empty ↦ rw empty (omega arith)
    | inr some_left ↦ rw some_left h
  ]

  pub find_in-ensure : (q : Bytes) → find_in (ensure_buckets t).buckets q ≡ find_in t.buckets q
  unfolding ensure_buckets
  find_in-ensure q = elim (Bool-cases (length t.buckets == 0)) [
    | inl empty ↦ rw empty (
        find_in-replicate 16 q
        ∙ sym (find_in-none t.buckets q ((==_iff (length t.buckets) 0).0 empty)))
    | inr some_left ↦ rw some_left
  ]
