-- ===== src/HashTable/Home.antt =====
-- One chain rewritten in its bucket, and what `splice` leaves of a chain.
use redis_like_in_memory_dat.Base.{
  ◌+◌, ◌≤◌, ◌<◌, ◌≡◌, refl, sym, ap, ◌∙◌, Bytes, str_eq, str_eq_iff, List, [], ◌∷◌, Option, none,
  some, true, false, if◌then◌else◌, ◌==◌, ==_iff, length, get_or, set, get_or-set, length-set,
  arith, inl, inr, Bool-cases,
}
use redis_like_in_memory_dat.HashTable.Chain.{Node, Chain, find_node, splice}
use redis_like_in_memory_dat.HashTable.Hash.{bucket_index-lt}
use redis_like_in_memory_dat.HashTable.Table.{home, find_in}
use redis_like_in_memory_dat.HashTable.Buckets.{
  total, total-set, count_key, IsPlaced, found, Rewrites, find_node-none,
}

-- The chain that `splice` leaves.
unfoldable pub delete : Bytes → Chain → Chain
delete key [] = []
delete key (n ∷ c) = if str_eq n.entry.key key then c else n ∷ delete key c

abbrev pub paired : Option Node → Chain → Option (Node × Chain)
paired none c = none
paired (some v) c = some (v, c)

-- `splice` fails exactly when the key is absent, and takes out the node that `find_node` sees.
pub splice-paired :
    (key : Bytes) (c : Chain) → splice key c ≡ paired (find_node key c) (delete key c)
unfolding splice find_node delete
splice-paired key [] = refl
splice-paired key (n ∷ c) = ground (arith, splice-paired key c)

delete-counts :
    (key q : Bytes) (v : Node) (c : Chain)
    → find_node key c ≡ some v
    → count_key q (delete key c) + (if str_eq key q then 1 else 0) ≡ count_key q c
unfolding delete count_key find_node
delete-counts key q v [] h = cc
delete-counts key q v (n ∷ c) h =
    ground (arith, str_eq_iff n.entry.key key, str_eq_iff key q, delete-counts key q v c)

delete-finds :
    (key q : Bytes) (c : Chain) → str_eq key q ≡ false → find_node q (delete key c) ≡ find_node q c
unfolding delete find_node
delete-finds key q [] h = refl
delete-finds key q (n ∷ c) h = ground (
  arith,
  str_eq_iff n.entry.key key,
  str_eq_iff key q,
  str_eq_iff n.entry.key q,
  delete-finds key q c,
)

pub delete-Rewrites :
    (key : Bytes) (v : Node) (c : Chain)
    → find_node key c ≡ some v
    → count_key key c ≤ 1
    → Rewrites key none c (delete key c)
delete-Rewrites key v c h k = record {
  counts = λ q. elim (Bool-cases (str_eq key q)) [
    | inl same ↦
        let e = (str_eq_iff key q).0 same in
        rw same
          (omega (arith, k, rw same at (delete-counts key q v c h), ap (λ x. count_key x c) e))
    | inr other ↦ rw other (omega (arith, rw other at (delete-counts key q v c h)))
  ];
  finds = λ q. elim (Bool-cases (str_eq key q)) [
    | inl same ↦
        let e = (str_eq_iff key q).0 same in
        rw same (
          find_node-none q (delete key c)
            (omega (arith, k, rw same at (delete-counts key q v c h), ap (λ x. count_key x c) e)))
    | inr other ↦ rw other (delete-finds key q c other)
  ];
}

-- A chain rewritten in its home bucket: the table keeps its shape, and reads as the old one but at
-- the key.
module _ (bs : List Chain) (key : Bytes) (m : Option Node) (c' : Chain) (valid : IsPlaced bs)
    (roomy : 0 < length bs) (rewrites : Rewrites key m (get_or bs (home bs key) []) c') where
  set-home-total :
      (q : Bytes)
      → total (count_key q) (set bs (home bs key) c')
        ≡ (if str_eq key q then found m else total (count_key q) bs)
  set-home-total q =
      let lt = bucket_index-lt (length bs) key roomy in
      elim (Bool-cases (str_eq key q)) [
        | inl same ↦ rw same (
            omega (
              arith,
              total-set (count_key q) bs (home bs key) c' lt,
              valid.placed q,
              ap (λ k. count_key q (get_or bs (home bs k) [])) ((str_eq_iff key q).0 same),
              rw same at (rewrites.counts q),
            ))
        | inr other ↦ rw other (
            omega (
              arith,
              total-set (count_key q) bs (home bs key) c' lt,
              rw other at (rewrites.counts q),
            ))
      ]

  set-home-home :
      (q : Bytes)
      → get_or (set bs (home bs key) c') (home (set bs (home bs key) c') q) []
        ≡ (if home bs key == home bs q then c' else get_or bs (home bs q) [])
  set-home-home q =
      rw (length-set bs (home bs key) c')
        (get_or-set bs (home bs key) (home bs q) c' [] (bucket_index-lt (length bs) key roomy))

  at_home : (q : Bytes) → str_eq key q ≡ true → home bs key ≡ home bs q
  at_home q h = ap (home bs) ((str_eq_iff key q).0 h)

  set-home-placed :
      (q : Bytes)
      → total (count_key q) (set bs (home bs key) c')
        ≡ count_key q (if home bs key == home bs q then c' else get_or bs (home bs q) [])
  set-home-placed q = elim (Bool-cases (home bs key == home bs q)) [
    | inl same ↦
        let e = (==_iff (home bs key) (home bs q)).0 same in
        rw (same, set-home-total q, rewrites.counts q)
          (ap (λ k. if str_eq key q then found m else k)
            (valid.placed q ∙ ap (λ i. count_key q (get_or bs i [])) (sym e)))
    | inr other ↦
        let ne : str_eq key q ≡ false = ground (arith, at_home q) in
        rw (other, set-home-total q, ne) (valid.placed q)
  ]

  pub set-home-IsPlaced : IsPlaced (set bs (home bs key) c')
  set-home-IsPlaced = record {
    placed = λ q. set-home-placed q ∙ ap (count_key q) (sym (set-home-home q));
    unique = λ q. rw (set-home-total q) (ground (arith, valid.unique q));
  }

  pub find_in-set-home :
      (q : Bytes) → find_in (set bs (home bs key) c') q ≡ (if str_eq key q then m else find_in bs q)
  unfolding find_in
  find_in-set-home q = elim (Bool-cases (home bs key == home bs q)) [
    | inl same ↦
        let e = (==_iff (home bs key) (home bs q)).0 same in
        ap (find_node q) (set-home-home q)
        ∙ rw same (
            rewrites.finds q ∙ ap (λ i. if str_eq key q then m else find_node q (get_or bs i [])) e)
    | inr other ↦
        let ne : str_eq key q ≡ false = ground (arith, at_home q) in
        ap (find_node q) (set-home-home q) ∙ rw (other, ne)
  ]
