-- ===== src/HashTable/Evict.antt =====
-- `evictOldest` follows the raw pointer `lruTail_`, which never dangles, and removes the entry that
-- has gone unused for longest.
use redis_like_in_memory_dat.Base.{
  ℕ, ◌≤◌, ◌≡◌, refl, sym, ap, ◌∙◌, Bytes, str_eq, str_eq_refl, List, [], ◌∷◌, Option, none, some,
  if◌then◌else◌, ◌==◌, ==_iff, length, arith, inl, inr, Bool-cases, Option-cases,
}
use redis_like_in_memory_dat.HashTable.Buckets.{total, count_key, find_node-none}
use redis_like_in_memory_dat.HashTable.Chain.{Node, Chain, find_node, node_in, node_at}
use redis_like_in_memory_dat.HashTable.Put.{entry_of, find-entry_of}
use redis_like_in_memory_dat.HashTable.Recency.{Links}
use redis_like_in_memory_dat.HashTable.Recency.Shape.{count, erase, Linked, Holds}
use redis_like_in_memory_dat.HashTable.Remove.{
  without, remove-IsValid, length-remove, find_in-remove, find-remove,
}
use redis_like_in_memory_dat.HashTable.Relink.{find_all, find_in-find_all}
use redis_like_in_memory_dat.HashTable.Sweep.{key_at, least_recent_key, evict_oldest}
use redis_like_in_memory_dat.HashTable.Table.{HashTable, find_in, find, remove}
use redis_like_in_memory_dat.HashTable.Valid.{IsValid, count_addr}

abbrev pub last : List ℕ → Option ℕ
last [] = none
last (x ∷ []) = some x
last (x ∷ y ∷ ys) = last (y ∷ ys)

tail-last :
    (l : ℕ → Links) (p : Option ℕ) (x : ℕ) (xs : List ℕ) (t : Option ℕ)
    → Linked l p (x ∷ xs) t
    → t ≡ last (x ∷ xs)
tail-last l p x [] t (h₁, h₂, h₃) = h₃
tail-last l p x (y ∷ ys) t (h₁, h₂, h₃) = tail-last l (some x) y ys t h₃

count-last : (xs : List ℕ) (a : ℕ) → last xs ≡ some a → 1 ≤ count a xs
unfolding count
count-last [] a h = cc
count-last (x ∷ []) a h = ground arith
count-last (x ∷ y ∷ ys) a h = ground (arith, count-last (y ∷ ys) a h)

-- An address that is in use leads to its node.
node_in-some :
    (a : ℕ) (c : Chain) → 1 ≤ count_addr a c → (n : Node) × (node_in a c ≡ some n) × (n.addr ≡ a)
unfolding count_addr node_in
node_in-some a [] h = absurd (omega arith)
node_in-some a (m ∷ c) h = elim (Bool-cases (m.addr == a)) [
  | inl same ↦ (m, ground arith, (==_iff m.addr a).0 same)
  | inr other ↦ let (n, e, k) = node_in-some a c (ground arith) in (n, ground arith, k)
]

node_in-none : (a : ℕ) (c : Chain) → count_addr a c ≡ 0 → node_in a c ≡ none
unfolding count_addr node_in
node_in-none a [] h = refl
node_in-none a (m ∷ c) h = ground (arith, node_in-none a c)

node_at-some :
    (a : ℕ) (bs : List Chain)
    → 1 ≤ total (count_addr a) bs
    → (n : Node) × (node_at a bs ≡ some n) × (n.addr ≡ a)
unfolding total node_at
node_at-some a [] h = absurd (omega arith)
node_at-some a (c ∷ cs) h = elim (Bool-cases (0 == count_addr a c)) [
  | inl none_here ↦
      let absent = node_in-none a c (sym ((==_iff 0 _).0 none_here)) in
      let (n, e, k) = node_at-some a cs (ground arith) in (n, rw (absent, node_at) e, k)
  | inr here ↦ let (n, e, k) = node_in-some a c (ground arith) in (n, rw (e, node_at), k)
]

-- The node at an address is the one that its key finds.
node_in-find :
    (a : ℕ) (c : Chain) (n : Node)
    → node_in a c ≡ some n
    → (1 ≤ count_key n.entry.key c)
      × (count_key n.entry.key c ≤ 1 → find_node n.entry.key c ≡ some n)
unfolding node_in count_key find_node
node_in-find a [] n h = cc
node_in-find a (m ∷ c) n h = elim (Bool-cases (m.addr == a)) [
  | inl same ↦
      let e : m ≡ n = ground arith in
      (ground (arith, e, str_eq_refl n.entry.key), λ u. ground (arith, e, str_eq_refl n.entry.key))
  | inr other ↦
      let (k, f) = node_in-find a c n (ground arith) in
      (ground (arith, k), λ u. ground (arith, k, f))
]

node_at-find :
    (a : ℕ) (bs : List Chain) (n : Node)
    → node_at a bs ≡ some n
    → (1 ≤ total (count_key n.entry.key) bs)
      × (total (count_key n.entry.key) bs ≤ 1 → find_all n.entry.key bs ≡ some n)
unfolding node_at total find_all
node_at-find a [] n h = cc
node_at-find a (c ∷ cs) n h = elim (Option-cases (node_in a c)) [
  | inl missing ↦
      let (k, f) = node_at-find a cs n (ground (arith, h, missing)) in
      (
        omega (arith, k),
        λ u. rw (find_node-none n.entry.key c (omega (arith, k, u))) (f (omega (arith, u))),
      )
  | inr (m, here) ↦
      let (k, f) = node_in-find a c n (here ∙ ground (arith, h, here)) in
      (omega (arith, k), λ u. rw (f (omega (arith, u))))
]

module _ (t : HashTable) (xs : List ℕ) (valid : IsValid t xs) where
  tail_lem : t.recency.tail ≡ last xs
  tail_lem = go xs valid.threaded
    where
      go : (ys : List ℕ) → Holds t.recency ys → t.recency.tail ≡ last ys
      go [] h = h.chain
      go (x ∷ ys) h = tail-last t.recency.links none x ys t.recency.tail h.chain

  -- The node at the tail of the recency list is stored, and its key finds it.
  oldest :
      (a : ℕ)
      → last xs ≡ some a
      → (n : Node) × (node_at a t.buckets ≡ some n)
        × (n.addr ≡ a)
        × (find_in t.buckets n.entry.key ≡ some n)
  oldest a h =
      let (n, e, k) = node_at-some a t.buckets (omega (arith, valid.listed a, count-last xs a h)) in
      let (_, f) = node_at-find a t.buckets n e in
      (
        n,
        e,
        k,
        find_in-find_all n.entry.key t.buckets valid.placed ∙ f (valid.placed.unique n.entry.key),
      )

  abbrev after_evict : Option Bytes → HashTable × Option Bytes
  after_evict none = (t, none)
  after_evict (some key) = ((remove key t).0, some key)

  evict_run :
      (k : Option Bytes) → least_recent_key t ≡ some k → evict_oldest t ≡ some (after_evict k)
  unfolding evict_oldest
  evict_run none h = rw (h, evict_oldest)
  evict_run (some k) h = rw (h, evict_oldest)

  key_here :
      (a : ℕ) (n : Node)
      → node_at a t.buckets ≡ some n
      → key_at (some a) t.buckets ≡ some (some n.entry.key)
  unfolding key_at
  key_here a n e = rw (e, key_at)

  -- `evictOldest` on a table with entries: the pointer does not dangle, the least recently used
  -- entry goes, and every other key reads as before.
  pub record Evicted (a : ℕ) (n : Node) (t' : HashTable) : Type 0 where
    pub runs : evict_oldest t ≡ some (t', some n.entry.key)
    pub victim : node_at a t.buckets ≡ some n
    pub stored : find t n.entry.key ≡ some n.entry
    pub valid' : IsValid t' (erase a xs)
    pub as_long : length t'.buckets ≡ length t.buckets
    pub at_tail : n.addr ≡ a
    pub found : find_in t.buckets n.entry.key ≡ some n
    pub nodes :
        (q : Bytes)
        → find_in t'.buckets q ≡ (if str_eq n.entry.key q then none else find_in t.buckets q)
    pub reads : (q : Bytes) → find t' q ≡ (if str_eq n.entry.key q then none else find t q)

  -- On a valid table whose recency list ends at an address, `evictOldest` removes the entry at that
  -- address and returns its key: it follows no dangling pointer, keeps the invariant, and leaves every
  -- other key as it was.
  pub evict_oldest_lem : (a : ℕ) → last xs ≡ some a → (n : Node) × (t' : HashTable) × Evicted a n t'
  unfolding least_recent_key without
  evict_oldest_lem a h =
      let (n, e, k, f) = oldest a h in
      let left : without n.entry.key t xs ≡ erase a xs = rw (f, without) (ap (λ b. erase b xs) k) in
      (
        n,
        (remove n.entry.key t).0,
        record {
          runs =
              evict_run (some n.entry.key)
                (ap (λ o. key_at o t.buckets) (tail_lem ∙ h) ∙ key_here a n e);
          victim = e;
          stored = find-entry_of t n.entry.key ∙ ap entry_of f;
          valid' = rw left at (remove-IsValid n.entry.key t xs valid);
          as_long = length-remove n.entry.key t xs valid;
          at_tail = k;
          found = f;
          nodes = find_in-remove n.entry.key t xs valid;
          reads = find-remove n.entry.key t xs valid;
        },
      )
