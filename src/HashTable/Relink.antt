-- ===== src/HashTable/Relink.antt =====
-- Relinking every node into fresh buckets: a search for a key finds what a search over all chains found.
use redis_like_in_memory_dat.Base.{
  ℕ, zero, suc, ◌+◌, ◌≤◌, ◌<◌, ◌≡◌, refl, sym, ap, ◌∙◌, Bytes, str_eq, str_eq_refl, ◌⊎◌, List, [],
  ◌∷◌, Option, none, some, if◌then◌else◌, ◌==◌, length, get_or, set, replicate, length-set,
  get_or-replicate, arith, inl, inr, Bool-cases, ==_iff,
}
use redis_like_in_memory_dat.HashTable.Buckets.{
  total, total-set, count_key, IsPlaced, find_node-none, cons-Rewrites,
}
use redis_like_in_memory_dat.HashTable.Home.{set-home-IsPlaced, find_in-set-home}
use redis_like_in_memory_dat.HashTable.Chain.{Node, Chain, find_node}
use redis_like_in_memory_dat.HashTable.Hash.{bucket_index-lt}
use redis_like_in_memory_dat.HashTable.Table.{home, find_in, relink_chain, relink_all}
use redis_like_in_memory_dat.HashTable.Sums.{
  IsSum, total-replicate, total-relink_chain, length-relink_chain,
}

abbrev pub or_else : Option Node → Option Node → Option Node
or_else (some n) o = some n
or_else none o = o

-- The first node with the key, over all buckets in turn.
unfoldable pub find_all : Bytes → List Chain → Option Node
find_all q [] = none
find_all q (c ∷ cs) = or_else (find_node q c) (find_all q cs)

pub count_key-IsSum : (q : Bytes) → IsSum (count_key q) (λ n. if str_eq n.entry.key q then 1 else 0)
unfolding count_key
count_key-IsSum q = record { at_nil = refl; at_cons = λ n c. ground arith }

own : (n : Node) (c : Chain) → 1 ≤ count_key n.entry.key (n ∷ c)
unfolding count_key
own n c = rw (str_eq_refl n.entry.key) (omega arith)

abbrev Apart : Chain → List Chain → Type 0
Apart c fresh = (q : Bytes) → count_key q c + total (count_key q) fresh ≤ 1

relink_chain_lem :
    (c : Chain) (fresh : List Chain)
    → 0 < length fresh
    → IsPlaced fresh
    → Apart c fresh
    → IsPlaced (relink_chain c fresh)
      × ((q : Bytes) → find_in (relink_chain c fresh) q ≡ or_else (find_node q c) (find_in fresh q))
unfolding relink_chain find_node
relink_chain_lem [] fresh h v d = (v, λ q. refl)
relink_chain_lem (n ∷ c) fresh h v d =
    let lt = bucket_index-lt (length fresh) key h in
    let absent : find_node key (get_or fresh i []) ≡ none =
      find_node-none key (get_or fresh i []) (omega (arith, d key, own n c, v.placed key)) in
    let written = cons-Rewrites key n (get_or fresh i []) refl absent in
    let v' = set-home-IsPlaced fresh key (some n) (n ∷ get_or fresh i []) v h written in
    let apart : Apart c fresh' = λ q. omega (
      arith,
      d q,
      total-set (count_key q) fresh i (n ∷ get_or fresh i []) lt,
      (count_key-IsSum q).at_cons n c,
      (count_key-IsSum q).at_cons n (get_or fresh i []),
    ) in
    let roomy : 0 < length fresh' = rw (length-set fresh i (n ∷ get_or fresh i [])) h in
    let (placed, reads) = relink_chain_lem c fresh' roomy v' apart in
    (
      placed,
      λ q.
          reads q
          ∙ ap (or_else (find_node q c))
              (find_in-set-home fresh key (some n) (n ∷ get_or fresh i []) v h written q)
          ∙ pushed q,
    )
  where
    key : Bytes
    key = n.entry.key

    i : ℕ
    i = home fresh key

    fresh' : List Chain
    fresh' = set fresh i (n ∷ get_or fresh i [])

    pushed :
        (q : Bytes)
        → or_else (find_node q c) (if str_eq key q then some n else find_in fresh q)
          ≡ or_else (if str_eq key q then some n else find_node q c) (find_in fresh q)
    pushed q = elim (Bool-cases (str_eq key q)) [
      | inl same ↦ rw (
        same,
        find_node-none q c (omega (arith, d q, rw same at ((count_key-IsSum q).at_cons n c))),
      )
      | inr other ↦ rw other
    ]

count_key-le-total :
    (q : Bytes) (bs : List Chain) (i : ℕ) → count_key q (get_or bs i []) ≤ total (count_key q) bs
unfolding total count_key
count_key-le-total q [] i = omega arith
count_key-le-total q (b ∷ bs) zero = omega arith
count_key-le-total q (b ∷ bs) (suc i) = omega (arith, count_key-le-total q bs i)

find_all-none : (q : Bytes) (bs : List Chain) → total (count_key q) bs ≡ 0 → find_all q bs ≡ none
unfolding total find_all
find_all-none q [] h = refl
find_all-none q (b ∷ bs) h =
    rw (find_node-none q b (omega arith)) (find_all-none q bs (omega arith))

pub or_else-none : (o : Option Node) → or_else o none ≡ o
or_else-none none = refl
or_else-none (some n) = refl

-- Where all the nodes of a key are in one chain, the search over all chains is the search there.
find_all-home :
    (q : Bytes) (bs : List Chain) (i : ℕ)
    → total (count_key q) bs ≡ count_key q (get_or bs i [])
    → find_all q bs ≡ find_node q (get_or bs i [])
unfolding total find_all find_node count_key
find_all-home q [] i h = refl
find_all-home q (b ∷ bs) zero h =
    rw (find_all-none q bs (omega arith)) (or_else-none (find_node q b))
find_all-home q (b ∷ bs) (suc i) h =
    rw (find_node-none q b (omega (arith, h, count_key-le-total q bs i)))
      (find_all-home q bs i (omega (arith, h, count_key-le-total q bs i)))

pub find_in-find_all : (q : Bytes) (bs : List Chain) → IsPlaced bs → find_in bs q ≡ find_all q bs
unfolding find_in
find_in-find_all q bs v = sym (find_all-home q bs (home bs q) (v.placed q))

pub relink_all_lem :
    (bs fresh : List Chain)
    → 0 < length fresh
    → IsPlaced fresh
    → ((q : Bytes) → total (count_key q) bs + total (count_key q) fresh ≤ 1)
    → IsPlaced (relink_all bs fresh)
      × ((q : Bytes) → find_in (relink_all bs fresh) q ≡ or_else (find_all q bs) (find_in fresh q))
unfolding relink_all find_all total
relink_all_lem [] fresh h v d = (v, λ q. refl)
relink_all_lem (c ∷ cs) fresh h v d =
    let (v', reads) = relink_chain_lem c fresh h v (λ q. omega (arith, d q)) in
    let apart : (q : Bytes)
        → total (count_key q) cs + total (count_key q) (relink_chain c fresh) ≤ 1 =
      λ q. omega (arith, d q, total-relink_chain (count_key q) _ (count_key-IsSum q) c fresh h) in
    let (v'', reads') =
      relink_all_lem cs (relink_chain c fresh) (rw (length-relink_chain c fresh) h) v' apart in
    (
      v'',
      λ q.
          reads' q
          ∙ ap (or_else (find_all q cs)) (reads q)
          ∙ swap (find_all q cs) (find_node q c) (find_in fresh q) (exclusive q),
    )
  where
    exclusive : (q : Bytes) → (find_node q c ≡ none) ⊎ (find_all q cs ≡ none)
    exclusive q = elim (Bool-cases (0 == count_key q c)) [
      | inl zero' ↦ inl (find_node-none q c (sym ((==_iff 0 _).0 zero')))
      | inr more ↦ inr (find_all-none q cs (ground (arith, d q)))
    ]

    swap :
        (a b o : Option Node)
        → (b ≡ none) ⊎ (a ≡ none)
        → or_else a (or_else b o) ≡ or_else (or_else b a) o
    swap none none o e = refl
    swap none (some n) o e = refl
    swap (some m) none o e = refl
    swap (some m) (some n) o (inl e) = cc
    swap (some m) (some n) o (inr e) = cc

pub replicate-IsPlaced : (n : ℕ) → IsPlaced (replicate n [])
unfolding count_key
replicate-IsPlaced n = record {
  placed = λ q.
      total-replicate (count_key q) _ (count_key-IsSum q) n
      ∙ sym (ap (count_key q) (get_or-replicate n (home (replicate n []) q) []));
  unique = λ q. omega (arith, total-replicate (count_key q) _ (count_key-IsSum q) n);
}

pub find_in-replicate : (n : ℕ) (q : Bytes) → find_in (replicate n []) q ≡ none
find_in-replicate n q =
    find_in-find_all q (replicate n []) (replicate-IsPlaced n)
    ∙ find_all-none q (replicate n []) (total-replicate (count_key q) _ (count_key-IsSum q) n)
