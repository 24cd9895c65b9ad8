-- ===== src/HashTable/Valid.antt =====
-- The invariant of a table whose recency list holds the addresses `xs`, most recently used first,
-- and how sums over the nodes follow a change of one chain.
use redis_like_in_memory_dat.Base.{
  ℕ, ◌+◌, ◌%◌, ◌≤◌, ◌<◌, ◌≡◌, refl, ap, Bytes, str_eq, List, [], ◌∷◌, some, if◌then◌else◌, ◌==◌,
  length, get_or, set, word, arith, inl, inr, Bool-cases,
}
use redis_like_in_memory_dat.HashTable.Buckets.{total, total-set, IsPlaced}
use redis_like_in_memory_dat.HashTable.Home.{delete}
use redis_like_in_memory_dat.HashTable.Chain.{Node, Chain, find_node, assign}
use redis_like_in_memory_dat.HashTable.Hash.{bucket_index-lt}
use redis_like_in_memory_dat.HashTable.Recency.Shape.{count, Holds}
use redis_like_in_memory_dat.HashTable.Sums.{IsSum}
use redis_like_in_memory_dat.HashTable.Table.{HashTable, home, find_in}

unfoldable pub count_addr : ℕ → Chain → ℕ
count_addr a [] = 0
count_addr a (n ∷ c) = (if a == n.addr then 1 else 0) + count_addr a c

unfoldable pub bytes_of : Chain → ℕ
bytes_of [] = 0
bytes_of (n ∷ c) = n.footprint + bytes_of c

-- The counters are those of the nodes, up to the width of a word; the recency list has each address
-- as often as the buckets have it; the allocator has not given out an address at `next_addr` or above.
pub record IsValid (t : HashTable) (xs : List ℕ) : Type 0 where
  pub placed : IsPlaced t.buckets
  pub counted : t.size ≡ total length t.buckets % word
  pub weighed : t.entry_bytes ≡ total bytes_of t.buckets % word
  pub threaded : Holds t.recency xs
  pub listed : (a : ℕ) → count a xs ≡ total (count_addr a) t.buckets
  pub sized : length xs ≡ total length t.buckets
  pub unused : (a : ℕ) → t.next_addr ≤ a → total (count_addr a) t.buckets ≡ 0

pub count_addr-IsSum : (a : ℕ) → IsSum (count_addr a) (λ n. if a == n.addr then 1 else 0)
unfolding count_addr
count_addr-IsSum a = record { at_nil = refl; at_cons = λ n c. refl }

pub bytes_of-IsSum : IsSum bytes_of (λ n. n.footprint)
unfolding bytes_of
bytes_of-IsSum = record { at_nil = refl; at_cons = λ n c. refl }

pub length-IsSum : IsSum length (λ n. 1)
length-IsSum = record { at_nil = refl; at_cons = λ n c. omega arith }

module _ (f : Chain → ℕ) (g : Node → ℕ) (sum : IsSum f g) where
  sum-assign :
      (key : Bytes) (v n : Node) (c : Chain)
      → find_node key c ≡ some n
      → f (assign key v c) + g n ≡ f c + g v
  unfolding find_node assign
  sum-assign key v n [] h = cc
  sum-assign key v n (m ∷ c) h = elim (Bool-cases (str_eq m.entry.key key)) [
    | inl same ↦
        let e : m ≡ n = ground arith in
        rw same (omega (arith, sum.at_cons v c, sum.at_cons m c, ap g e))
    | inr other ↦ rw other (
        omega (
          arith,
          sum.at_cons m c,
          sum.at_cons m (assign key v c),
          sum-assign key v n c (ground arith),
        ))
  ]

  sum-delete :
      (key : Bytes) (n : Node) (c : Chain) → find_node key c ≡ some n → f (delete key c) + g n ≡ f c
  unfolding find_node delete
  sum-delete key n [] h = cc
  sum-delete key n (m ∷ c) h = elim (Bool-cases (str_eq m.entry.key key)) [
    | inl same ↦ let e : m ≡ n = ground arith in rw same (omega (arith, sum.at_cons m c, ap g e))
    | inr other ↦ rw other (
        omega
          (arith, sum.at_cons m c, sum.at_cons m (delete key c), sum-delete key n c (ground arith)))
  ]

  module _ (bs : List Chain) (key : Bytes) (roomy : 0 < length bs) where
    at_home :
        (c : Chain)
        → total f (set bs (home bs key) c) + f (get_or bs (home bs key) []) ≡ total f bs + f c
    at_home c = total-set f bs (home bs key) c (bucket_index-lt (length bs) key roomy)

    pub total-insert :
        (n : Node)
        → total f (set bs (home bs key) (n ∷ get_or bs (home bs key) [])) ≡ g n + total f bs
    total-insert n = omega (
      arith,
      at_home (n ∷ get_or bs (home bs key) []),
      sum.at_cons n (get_or bs (home bs key) []),
    )

    module _ (n : Node) (found : find_in bs key ≡ some n) where
      pub total-assign :
          (v : Node)
          → total f (set bs (home bs key) (assign key v (get_or bs (home bs key) []))) + g n
            ≡ total f bs + g v
      unfolding find_in
      total-assign v = omega (
        arith,
        at_home (assign key v (get_or bs (home bs key) [])),
        sum-assign key v n (get_or bs (home bs key) []) found,
      )

      pub total-delete :
          total f (set bs (home bs key) (delete key (get_or bs (home bs key) []))) + g n
          ≡ total f bs
      unfolding find_in
      total-delete = omega (
        arith,
        at_home (delete key (get_or bs (home bs key) [])),
        sum-delete key n (get_or bs (home bs key) []) found,
      )
