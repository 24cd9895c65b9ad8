-- ===== src/HashTable/Sums.antt =====
-- Sums over the nodes of a table, which relinking the nodes keeps.
use redis_like_in_memory_dat.Base.{
  ℕ, zero, suc, ◌+◌, ◌<◌, ◌≡◌, refl, ◌∙◌, List, [], ◌∷◌, length, get_or, set, replicate, length-set,
  arith,
}
use redis_like_in_memory_dat.HashTable.Buckets.{total, total-set}
use redis_like_in_memory_dat.HashTable.Chain.{Node, Chain}
use redis_like_in_memory_dat.HashTable.Hash.{bucket_index-lt}
use redis_like_in_memory_dat.HashTable.Table.{home, relink_chain, relink_all}

-- What adds up along chains, such as a count or a number of bytes.
pub record IsSum (f : Chain → ℕ) (g : Node → ℕ) : Type 0 where
  pub at_nil : f [] ≡ 0
  pub at_cons : (n : Node) (c : Chain) → f (n ∷ c) ≡ g n + f c

module _ (f : Chain → ℕ) (g : Node → ℕ) (sum : IsSum f g) where
  pub total-replicate : (n : ℕ) → total f (replicate n []) ≡ 0
  unfolding total
  total-replicate zero = refl
  total-replicate (suc n) = omega (arith, total-replicate n, sum.at_nil)

  -- A sum over all nodes does not change when nodes are relinked.
  pub total-relink_chain :
      (c : Chain) (fresh : List Chain)
      → 0 < length fresh
      → total f (relink_chain c fresh) ≡ f c + total f fresh
  unfolding relink_chain
  total-relink_chain [] fresh h = omega (arith, sum.at_nil)
  total-relink_chain (n ∷ c) fresh h =
      let i = home fresh n.entry.key in
      let lt = bucket_index-lt (length fresh) n.entry.key h in
      omega (
        arith,
        total-relink_chain c (set fresh i (n ∷ get_or fresh i []))
            (rw (length-set fresh i (n ∷ get_or fresh i [])) h),
        total-set f fresh i (n ∷ get_or fresh i []) lt,
        sum.at_cons n c,
        sum.at_cons n (get_or fresh i []),
      )

pub length-relink_chain :
    (c : Chain) (fresh : List Chain) → length (relink_chain c fresh) ≡ length fresh
unfolding relink_chain
length-relink_chain [] fresh = refl
length-relink_chain (n ∷ c) fresh =
    let i = home fresh n.entry.key in
    length-relink_chain c (set fresh i (n ∷ get_or fresh i []))
    ∙ length-set fresh i (n ∷ get_or fresh i [])

module _ (f : Chain → ℕ) (g : Node → ℕ) (sum : IsSum f g) where
  pub total-relink_all :
      (bs fresh : List Chain)
      → 0 < length fresh
      → total f (relink_all bs fresh) ≡ total f bs + total f fresh
  unfolding relink_all total
  total-relink_all [] fresh h = omega arith
  total-relink_all (c ∷ cs) fresh h = omega (
    arith,
    total-relink_all cs (relink_chain c fresh) (rw (length-relink_chain c fresh) h),
    total-relink_chain f g sum c fresh h,
  )

pub length-relink_all : (bs fresh : List Chain) → length (relink_all bs fresh) ≡ length fresh
unfolding relink_all
length-relink_all [] fresh = refl
length-relink_all (c ∷ cs) fresh =
    length-relink_all cs (relink_chain c fresh) ∙ length-relink_chain c fresh
