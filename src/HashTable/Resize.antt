-- ===== src/HashTable/Resize.antt =====
-- `resize` moves every node to the bucket of its key and changes nothing that a reader sees.
use redis_like_in_memory_dat.Base.{
  ℕ, ◌≤◌, ◌≡◌, sym, ap, ◌∙◌, Bytes, List, [], ◌==◌, length, replicate, length-replicate, arith, inl,
  inr, Bool-cases,
}
use redis_like_in_memory_dat.HashTable.Buckets.{total, count_key, IsPlaced}
use redis_like_in_memory_dat.HashTable.Chain.{Node, Chain}
use redis_like_in_memory_dat.HashTable.Table.{HashTable, find_in, relink_all, resize_to}
use redis_like_in_memory_dat.HashTable.Sums.{
  IsSum, total-replicate, total-relink_all, length-relink_all,
}
use redis_like_in_memory_dat.HashTable.Relink.{
  or_else, find_all, count_key-IsSum, or_else-none, find_in-find_all, relink_all_lem,
  replicate-IsPlaced, find_in-replicate,
}

module _ (target : ℕ) (t : HashTable) (valid : IsPlaced t.buckets) (h : 1 ≤ target) where
  fresh : List Chain
  fresh = replicate target []

  relinked :
      IsPlaced (relink_all t.buckets fresh)
      × ((q : Bytes) → find_in (relink_all t.buckets fresh) q ≡ find_in t.buckets q)
  unfolding fresh
  relinked =
      let (v, reads) =
        relink_all_lem t.buckets (replicate target [])
          (rw (length-replicate {A = Chain} target []) h) (replicate-IsPlaced target)
          (λ q.
            omega (
              arith,
              valid.unique q,
              total-replicate (count_key q) _ (count_key-IsSum q) target,
            )) in
      (
        v,
        λ q.
            reads q
            ∙ ap (or_else (find_all q t.buckets)) (find_in-replicate target q)
            ∙ or_else-none (find_all q t.buckets)
            ∙ sym (find_in-find_all q t.buckets valid),
      )

  pub resize_to-IsPlaced : IsPlaced (resize_to target t).buckets
  unfolding resize_to fresh
  resize_to-IsPlaced = elim (Bool-cases (target == length t.buckets)) [
    | inl same ↦ rw same valid
    | inr other ↦ rw other relinked.0
  ]

  pub find_in-resize_to : (q : Bytes) → find_in (resize_to target t).buckets q ≡ find_in t.buckets q
  unfolding resize_to fresh
  find_in-resize_to q = elim (Bool-cases (target == length t.buckets)) [
    | inl same ↦ rw same
    | inr other ↦ rw other (relinked.1 q)
  ]

  pub total-resize_to :
      (f : Chain → ℕ) (g : Node → ℕ)
      → IsSum f g
      → total f (resize_to target t).buckets ≡ total f t.buckets
  unfolding resize_to
  total-resize_to f g sum = elim (Bool-cases (target == length t.buckets)) [
    | inl same ↦ rw same
    | inr other ↦ rw other (
        omega (
          arith,
          total-relink_all f g sum t.buckets (replicate target [])
              (rw (length-replicate {A = Chain} target []) h),
          total-replicate f g sum target,
        ))
  ]

  pub length-resize_to : length (resize_to target t).buckets ≡ target
  unfolding resize_to
  length-resize_to = elim (Bool-cases (target == length t.buckets)) [
    | inl same ↦ rw same (ground arith)
    | inr other ↦
        rw other (
          length-relink_all t.buckets (replicate target [])
          ∙ length-replicate {A = Chain} target [])
  ]
