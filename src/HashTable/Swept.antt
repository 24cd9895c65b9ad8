-- ===== src/HashTable/Swept.antt =====
-- What `removeIf` leaves of a table.
use redis_like_in_memory_dat.Base.{
  ℕ, zero, suc, ◌+◌, ◌%◌, ◌≤◌, ◌<◌, ◌≡◌, refl, ap, ◌∙◌, arith, min, Bytes, str_eq, List, [], ◌∷◌,
  Option, none, some, Bool, if◌then◌else◌, ◌==◌, ◌||◌, add64, length, get_or, set, get_or-set,
  length-set, Bool-cases, inl, inr,
}
use native.Mathlib.Nat.{mod-lt}
use redis_like_in_memory_dat.Entry.{Entry}
use redis_like_in_memory_dat.HashTable.Buckets.{
  total, total-set, get_or-le-total, count_key, find_node-none,
}
use redis_like_in_memory_dat.HashTable.Chain.{Node, Chain, find_node}
use redis_like_in_memory_dat.HashTable.Sweep.{sweep_chain, sweep_bucket, sweep_from, remove_if}
use redis_like_in_memory_dat.HashTable.Table.{HashTable, home, find_in, release}

-- Each key is in one node at most.
abbrev pub Unique : List Chain → Type 0
Unique bs = (q : Bytes) → total (count_key q) bs ≤ 1

-- A node that the predicate is false of.
abbrev pub shown : (Entry → Bool) → Option Node → Option Node
shown p none = none
shown p (some n) = if p n.entry then none else some n

shown_twice : (p : Entry → Bool) (o : Option Node) → shown p (shown p o) ≡ shown p o
shown_twice p none = refl
shown_twice p (some n) = elim (Bool-cases (p n.entry)) [
  | inl gone ↦ rw gone refl
  | inr kept ↦ rw (kept, kept) refl
]

unfoldable pub kept : (Entry → Bool) → Chain → Chain
kept p [] = []
kept p (n ∷ c) = let rest = kept p c in if p n.entry then rest else n ∷ rest

pub record Sweeps (p : Entry → Bool) (c : Chain) (t : HashTable) (r : Chain × HashTable × ℕ)
    : Type 0 where
  pub chain : r.0 ≡ kept p c
  pub buckets : r.1.buckets ≡ t.buckets
  pub removed : length r.0 + r.2 ≡ length c

pub sweep_chain-Sweeps :
    (p : Entry → Bool) (c : Chain) (t : HashTable) → Sweeps p c t (sweep_chain p c t)
unfolding sweep_chain kept
sweep_chain-Sweeps p [] t = record { chain = refl; buckets = refl; removed = omega arith }
sweep_chain-Sweeps p (n ∷ c) t = elim (Bool-cases (p n.entry)) [
  | inl gone ↦
      let s = sweep_chain-Sweeps p c (release n t) in
      rw (gone, sweep_chain)
        (record {
          chain = rw gone s.chain;
          buckets = s.buckets ∙ (unfold release in refl);
          removed = omega (arith, s.removed);
        })
  | inr stays ↦
      let s = sweep_chain-Sweeps p c t in
      rw (stays, sweep_chain)
        (record {
          chain = rw stays (ap (◌∷◌ n) s.chain);
          buckets = s.buckets;
          removed = omega (arith, s.removed);
        })
]

pub count_key-kept-le :
    (p : Entry → Bool) (q : Bytes) (c : Chain) → count_key q (kept p c) ≤ count_key q c
unfolding kept count_key
count_key-kept-le p q [] = omega arith
count_key-kept-le p q (n ∷ c) = elim (Bool-cases (p n.entry)) [
  | inl gone ↦ rw gone (ground (arith, count_key-kept-le p q c))
  | inr stays ↦ rw stays (ground (arith, count_key-kept-le p q c))
]

find_node-kept :
    (p : Entry → Bool) (q : Bytes) (c : Chain)
    → count_key q c ≤ 1
    → find_node q (kept p c) ≡ shown p (find_node q c)
unfolding kept count_key find_node
find_node-kept p q [] h = refl
find_node-kept p q (n ∷ c) h = elim (Bool-cases (str_eq n.entry.key q)) [
  | inl same ↦ elim (Bool-cases (p n.entry)) [
    | inl gone ↦
        rw (same, gone)
          (find_node-none q (kept p c) (ground (arith, h, same, count_key-kept-le p q c)))
    | inr stays ↦ rw (stays, same, stays) refl
  ]
  | inr other ↦
      let rest = find_node-kept p q c (ground (arith, h, other)) in
      elim (Bool-cases (p n.entry)) [
        | inl gone ↦ rw (gone, other) rest
        | inr stays ↦ rw (stays, other) rest
      ]
]

-- What a walk over some buckets keeps: the number of buckets, that the keys are unique, the readers' view of
-- the nodes that the predicate is false of, and the count.
pub record IsSwept (p : Entry → Bool) (bs bs' : List Chain) (k : ℕ) : Type 0 where
  pub as_long : length bs' ≡ length bs
  pub still_unique : Unique bs'
  pub shows : (q : Bytes) → shown p (find_in bs' q) ≡ shown p (find_in bs q)
  pub counts : total length bs' + k ≡ total length bs
  pub fewer : (q : Bytes) → total (count_key q) bs' ≤ total (count_key q) bs

find_in-set-kept :
    (p : Entry → Bool) (bs : List Chain) (i : ℕ) (q : Bytes)
    → i < length bs
    → Unique bs
    → shown p (find_in (set bs i (kept p (get_or bs i []))) q) ≡ shown p (find_in bs q)
unfolding find_in
find_in-set-kept p bs i q h u =
    let chain = get_or bs i [] in
    let one : count_key q chain ≤ 1 = omega (arith, get_or-le-total (count_key q) bs i h, u q) in
    let written = get_or-set bs i (home bs q) (kept p chain) [] h in
    elim (Bool-cases (i == home bs q)) [
      | inl here ↦
          let e : i ≡ home bs q = ground (arith, here) in
          rw (length-set bs i (kept p chain), written, here, find_node-kept p q chain one)
            (shown_twice p (find_node q chain) ∙ ap (λ j. shown p (find_node q (get_or bs j []))) e)
      | inr elsewhere ↦ rw (length-set bs i (kept p chain), written, elsewhere) refl
    ]

pub sweep_bucket-IsSwept :
    (p : Entry → Bool) (i : ℕ) (t : HashTable)
    → i < length t.buckets
    → Unique t.buckets
    → IsSwept p t.buckets (sweep_bucket p i t).0.buckets (sweep_bucket p i t).1
unfolding sweep_bucket
sweep_bucket-IsSwept p i t h u =
    let bs = t.buckets in
    let chain = get_or bs i [] in
    let s = sweep_chain-Sweeps p chain t in
    let e : set (sweep_chain p chain t).1.buckets i (sweep_chain p chain t).0
        ≡ set bs i (kept p chain) =
      ap (λ cs. set cs i (sweep_chain p chain t).0) s.buckets ∙ ap (set bs i) s.chain in
    rw e (record {
      as_long = length-set bs i (kept p chain);
      still_unique = λ q. omega (
        arith,
        u q,
        total-set (count_key q) bs i (kept p chain) h,
        count_key-kept-le p q chain,
        get_or-le-total (count_key q) bs i h,
      );
      shows = λ q. find_in-set-kept p bs i q h u;
      counts = omega (arith, total-set length bs i (kept p chain) h, s.removed, ap length s.chain);
      fewer = λ q.
          omega (arith, total-set (count_key q) bs i (kept p chain) h, count_key-kept-le p q chain);
    })

IsSwept-trans :
    (p : Entry → Bool) (bs cs ds : List Chain) (k l : ℕ)
    → IsSwept p bs cs k
    → IsSwept p cs ds l
    → IsSwept p bs ds (k + l)
IsSwept-trans p bs cs ds k l s s' = record {
  as_long = s'.as_long ∙ s.as_long;
  still_unique = s'.still_unique;
  shows = λ q. s'.shows q ∙ s.shows q;
  counts = omega (arith, s.counts, s'.counts);
  fewer = λ q. omega (arith, s.fewer q, s'.fewer q);
}

sweep_from-IsSwept :
    (p : Entry → Bool) (first offset rounds : ℕ) (t : HashTable)
    → 0 < length t.buckets
    → Unique t.buckets
    → IsSwept p t.buckets
        (sweep_from p first offset rounds t).0.buckets
        (sweep_from p first offset rounds t).1
unfolding sweep_from
sweep_from-IsSwept p first offset zero t h u = record {
  as_long = refl;
  still_unique = u;
  shows = λ q. refl;
  counts = omega arith;
  fewer = λ q. omega arith;
}
sweep_from-IsSwept p first offset (suc rounds) t h u =
    let i = add64 first offset % length t.buckets in
    let s = sweep_bucket-IsSwept p i t (mod-lt (add64 first offset) h) u in
    IsSwept-trans p t.buckets (sweep_bucket p i t).0.buckets
      (sweep_from p first (suc offset) rounds (sweep_bucket p i t).0).0.buckets
      (sweep_bucket p i t).1 (sweep_from p first (suc offset) rounds (sweep_bucket p i t).0).1 s
      (sweep_from-IsSwept p first (suc offset) rounds (sweep_bucket p i t).0
        (omega (arith, s.as_long, h)) s.still_unique)

-- `removeIf` on a table in which each key is in one node at most: its buckets stay as many, its keys unique and no new ones;
-- every key finds what it found, but for nodes that the predicate holds of; and it counts the nodes that
-- are gone.
pub remove_if-IsSwept :
    (first buckets_to_scan : ℕ) (p : Entry → Bool) (t : HashTable)
    → Unique t.buckets
    → IsSwept p t.buckets
        (remove_if first buckets_to_scan p t).0.buckets
        (remove_if first buckets_to_scan p t).1
unfolding remove_if
remove_if-IsSwept first n p t u = elim (Bool-cases (length t.buckets == 0 || n == 0)) [
  | inl nothing ↦
      rw (nothing, remove_if)
        (record {
          as_long = refl;
          still_unique = u;
          shows = λ q. refl;
          counts = omega arith;
          fewer = λ q. omega arith;
        })
  | inr some_bucket ↦
      rw (some_bucket, remove_if)
        (sweep_from-IsSwept p first 0 (min n (length t.buckets)) t (ground (arith, some_bucket)) u)
]
