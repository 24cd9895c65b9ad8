-- ===== src/HashTable/Listed.antt =====
-- The lists that the walks over the whole table give, against its readers.
use redis_like_in_memory_dat.Base.{
  ℕ, zero, suc, ◌≤◌, ◌<◌, ◌≡◌, refl, ap, ◌∙◌, Bytes, str_eq, List, [], ◌∷◌, ◌++◌, Option, none,
  some, Bool, true, if◌then◌else◌, length, get_or, arith, inl, inr, Bool-cases,
}
use redis_like_in_memory_dat.Entry.{Entry}
use redis_like_in_memory_dat.HashTable.Buckets.{total, count_key, get_or-le-total, find_node-none}
use redis_like_in_memory_dat.HashTable.Chain.{Node, Chain, find_node, entries_in}
use redis_like_in_memory_dat.HashTable.Sweep.{entries_of}

-- What a reader of `q` sees once the entries of a list that satisfy `p` are written in turn over what it
-- saw: the last of them with the key.
unfoldable pub overlay : (Entry → Bool) → List Entry → Bytes → Option Entry → Option Entry
overlay p [] q o = o
overlay p (e ∷ es) q o = overlay p es q (if p e then (if str_eq e.key q then some e else o) else o)

-- A node seen over what was there.
abbrev pub over : (Entry → Bool) → Option Node → Option Entry → Option Entry
over p none o = o
over p (some n) o = if p n.entry then some n.entry else o

pub overlay-append :
    (p : Entry → Bool) (es fs : List Entry) (q : Bytes) (o : Option Entry)
    → overlay p (es ++ fs) q o ≡ overlay p fs q (overlay p es q o)
unfolding overlay
overlay-append p [] fs q o = refl
overlay-append p (e ∷ es) fs q o = overlay-append p es fs q _

module _ (p r : Entry → Bool) (implied : (e : Entry) → p e ≡ true → r e ≡ true) where
  -- Along a chain with at most one node of the key.
  overlay-entries_in :
      (c : Chain) (q : Bytes) (o : Option Entry)
      → count_key q c ≤ 1
      → overlay p (entries_in r c) q o ≡ over p (find_node q c) o
  unfolding overlay entries_in count_key find_node
  overlay-entries_in [] q o h = refl
  overlay-entries_in (n ∷ c) q o h = elim (Bool-cases (str_eq n.entry.key q)) [
    | inl same ↦
        let none_left = find_node-none q c (ground (arith, h, same)) in
        let few : count_key q c ≤ 1 = ground (arith, h, same) in
        let rest : (o : Option Entry) → overlay p (entries_in r c) q o ≡ o =
          λ o. overlay-entries_in c q o few ∙ ap (λ m. over p m o) none_left in
        elim (Bool-cases (p n.entry)) [
          | inl in_force ↦
              let listed = implied n.entry in_force in
              rw (listed, same, in_force) (rest _ ∙ ground (arith, same, in_force))
          | inr lapsed ↦ elim (Bool-cases (r n.entry)) [
            | inl listed ↦ rw (listed, same, lapsed) (rest _ ∙ ground (arith, same, lapsed))
            | inr unlisted ↦ rw (unlisted, same, lapsed) (rest _)
          ]
        ]
    | inr other ↦
        let few : count_key q c ≤ 1 = ground (arith, h, other) in
        let rest : overlay p (entries_in r c) q o ≡ over p (find_node q c) o =
          overlay-entries_in c q o few in
        elim (Bool-cases (r n.entry)) [
          | inl listed ↦
              rw (listed, other) (ap (overlay p (entries_in r c) q) (ground (arith, other)) ∙ rest)
          | inr unlisted ↦ rw (unlisted, other) rest
        ]
  ]

  overlay-absent :
      (bs : List Chain) (q : Bytes) (o : Option Entry)
      → total (count_key q) bs ≡ 0
      → overlay p (entries_of r bs) q o ≡ o
  unfolding entries_of total overlay
  overlay-absent [] q o e = refl
  overlay-absent (c ∷ bs) q o e =
      overlay-append p (entries_in r c) (entries_of r bs) q o
      ∙ overlay-absent bs q (overlay p (entries_in r c) q o) (omega (arith, e))
      ∙ overlay-entries_in c q o (omega (arith, e))
      ∙ ap (λ m. over p m o) (find_node-none q c (omega (arith, e)))

  -- The node of `q` in the bucket `h` is the only one.
  pub overlay-entries_of :
      (bs : List Chain) (h : ℕ) (q : Bytes) (o : Option Entry)
      → h < length bs
      → total (count_key q) bs ≡ count_key q (get_or bs h [])
      → total (count_key q) bs ≤ 1
      → overlay p (entries_of r bs) q o ≡ over p (find_node q (get_or bs h [])) o
  unfolding entries_of total
  overlay-entries_of [] h q o lt e u = absurd (omega arith)
  overlay-entries_of (c ∷ bs) zero q o lt e u =
      overlay-append p (entries_in r c) (entries_of r bs) q o
      ∙ overlay-absent bs q (overlay p (entries_in r c) q o) (omega (arith, e))
      ∙ overlay-entries_in c q o (omega (arith, u))
  overlay-entries_of (c ∷ bs) (suc h) q o lt e u =
      let there : count_key q (get_or bs h []) ≤ total (count_key q) bs =
        get_or-le-total (count_key q) bs h (omega arith) in
      let zero_here : count_key q c ≡ 0 = omega (arith, e, there) in
      overlay-append p (entries_in r c) (entries_of r bs) q o
      ∙ ap (overlay p (entries_of r bs) q) (
          overlay-entries_in c q o (omega (arith, zero_here))
          ∙ ap (λ m. over p m o) (find_node-none q c zero_here))
      ∙ overlay-entries_of bs h q o (omega arith) (omega (arith, e, zero_here)) (omega (arith, u))
