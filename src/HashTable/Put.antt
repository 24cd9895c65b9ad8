-- ===== src/HashTable/Put.antt =====
-- `put` keeps the invariant, and the table reads as before but at the key that was written.
use redis_like_in_memory_dat.Base.{
  ℕ, ◌+◌, ◌^◌, ◌≤◌, ◌<◌, ◌≡◌, ap, ◌∙◌, Bytes, str_eq, str_eq_refl, head?, List, [], ◌∷◌, Option,
  none, some, true, false, not, if◌then◌else◌, length, get_or, length-set, arith, inl, inr,
  Option-cases,
}
use redis_like_in_memory_dat.Entry.{Entry, make_entry}
use redis_like_in_memory_dat.HashTable.Buckets.{find_node-key}
use redis_like_in_memory_dat.HashTable.Chain.{Node, Chain}
use redis_like_in_memory_dat.HashTable.Recency.Shape.{erase, length-erase}
use redis_like_in_memory_dat.HashTable.Grow.{
  Fits, grow-IsValid, find_in-grow, ensure-IsValid, ensure_roomy, ensure_narrow, find_in-ensure,
}
use redis_like_in_memory_dat.HashTable.Table.{
  HashTable, Sizes, home, find_in, find, contains, grow_if_needed, ensure_buckets, overwrite,
  insert_new, put,
}
use redis_like_in_memory_dat.HashTable.Valid.{IsValid}
use redis_like_in_memory_dat.HashTable.Write.{
  fresh_node, new_node, listed_before, overwrite-IsValid, find_in-overwrite, insert_new-IsValid,
  find_in-insert_new,
}

-- The recency list after a write of `key`: its node in front, new or old.
unfoldable pub used : Bytes → HashTable → List ℕ → List ℕ
used key t xs = elim (find_in t.buckets key) [
  | some n ↦ n.addr ∷ erase n.addr xs
  | none ↦ t.next_addr ∷ xs
]

-- The entry that `put` leaves at its key.
abbrev pub written : Bytes → Bytes → Option Node → Option Entry
written key value none = some (make_entry key value)
written key value (some n) = some (record n.entry { value = value; expiration = none })

abbrev pub entry_of : Option Node → Option Entry
entry_of none = none
entry_of (some n) = some n.entry

pub find-entry_of : (t : HashTable) (q : Bytes) → find t q ≡ entry_of (find_in t.buckets q)
unfolding find
find-entry_of t q = ground arith

pub find_in-key : (bs : List Chain) (q : Bytes) (n : Node) → find_in bs q ≡ some n → n.entry.key ≡ q
unfolding find_in
find_in-key bs q n h = find_node-key q (get_or bs (home bs q) []) n h

size-ensure : (t : HashTable) → (ensure_buckets t).size ≡ t.size
unfolding ensure_buckets
size-ensure t = ground arith

next_addr-ensure : (t : HashTable) → (ensure_buckets t).next_addr ≡ t.next_addr
unfolding ensure_buckets
next_addr-ensure t = ground arith

module _ (sz : Sizes) (key value : Bytes) (t : HashTable) (xs : List ℕ) (valid : IsValid t xs)
    (fits : Fits t) where
  valid' : IsValid (ensure_buckets t) xs
  valid' = ensure-IsValid t xs valid

  roomy' : 0 < length (ensure_buckets t).buckets
  roomy' = ensure_roomy t xs valid

  put_found :
      (n : Node)
      → find_in t.buckets key ≡ some n
      → put sz key value t ≡ (overwrite sz key value n (ensure_buckets t), false)
  unfolding put
  put_found n found = rw (find_in-ensure t xs valid key ∙ found, put)

  put_absent :
      find_in t.buckets key ≡ none
      → put sz key value t ≡ (grow_if_needed (insert_new sz key value (ensure_buckets t)), true)
  unfolding put
  put_absent absent = rw (find_in-ensure t xs valid key ∙ absent, put)

  -- The table with the new node, before it grows.
  wide : HashTable
  wide = insert_new sz key value (ensure_buckets t)

  wide_fits : (wide.size < 2 ^ 60) × (length wide.buckets ≤ 2 ^ 61)
  unfolding wide insert_new
  wide_fits = (
    omega (arith, fits.few, valid.counted, size-ensure t),
    omega (arith, ensure_narrow t xs valid fits.narrow, length-set (ensure_buckets t).buckets),
  )

  used_absent : find_in t.buckets key ≡ none → used key t xs ≡ (ensure_buckets t).next_addr ∷ xs
  unfolding used
  used_absent absent = rw (absent, used) (rw (next_addr-ensure t))

  used_found :
      (n : Node) → find_in t.buckets key ≡ some n → used key t xs ≡ n.addr ∷ erase n.addr xs
  unfolding used
  used_found n found = rw (found, used)

  -- `put` keeps the invariant of a valid table that fits in memory, and the node of its key becomes the
  -- first of the recency list, the others keeping their order.
  pub put-IsValid : IsValid (put sz key value t).0 (used key t xs)
  unfolding used wide
  put-IsValid = elim (Option-cases (find_in t.buckets key)) [
    | inl absent ↦
        rw (put_absent absent, used_absent absent)
          (grow-IsValid wide ((ensure_buckets t).next_addr ∷ xs)
            (insert_new-IsValid sz key value (ensure_buckets t) xs valid' roomy'
              (find_in-ensure t xs valid key ∙ absent))
            wide_fits.0 wide_fits.1)
    | inr (n, found) ↦
        rw (put_found n found, used_found n found)
          (overwrite-IsValid sz key value (ensure_buckets t) xs valid' roomy' n
            (find_in-ensure t xs valid key ∙ found))
  ]

  -- On a valid table that fits in memory, `put` answers true exactly if the key was absent.
  pub put_new : (put sz key value t).1 ≡ not (contains t key)
  unfolding contains find
  put_new = elim (Option-cases (find_in t.buckets key)) [
    | inl absent ↦ rw (put_absent absent) (rw (absent, contains, find))
    | inr (n, found) ↦ rw (put_found n found) (rw (found, contains, find))
  ]

  -- After `put` on a valid table that fits in memory, its key has the new value and no expiration, and
  -- every other key reads as before: also when the table has grown and relinked all its nodes.
  pub find-put :
      (q : Bytes)
      → find (put sz key value t).0 q
        ≡ (if str_eq key q then some (make_entry key value) else find t q)
  unfolding wide fresh_node new_node
  find-put q = elim (Option-cases (find_in t.buckets key)) [
    | inl absent ↦
        let absent' = find_in-ensure t xs valid key ∙ absent in
        let grows =
          grow-IsValid'
            (insert_new-IsValid sz key value (ensure_buckets t) xs valid' roomy' absent') in
        rw (put_absent absent) (
          find-entry_of (grow_if_needed wide) q
          ∙ ap entry_of (
              grows q
              ∙ find_in-insert_new sz key value (ensure_buckets t) xs valid' roomy' absent' q)
          ∙ rw (find_in-ensure t xs valid q, find-entry_of t q) (ground arith))
    | inr (n, found) ↦
        let found' = find_in-ensure t xs valid key ∙ found in
        rw (put_found n found) (
          find-entry_of (overwrite sz key value n (ensure_buckets t)) q
          ∙ ap entry_of
              (find_in-overwrite sz key value (ensure_buckets t) xs valid' roomy' n found' q)
          ∙ rw (find_in-ensure t xs valid q, find-entry_of t q)
              (ground (arith, find_in-key t.buckets key n found)))
  ]
    where
      grow-IsValid' :
          {ys : List ℕ}
          → IsValid wide ys
          → (p : Bytes) → find_in (grow_if_needed wide).buckets p ≡ find_in wide.buckets p
      grow-IsValid' {ys} v = find_in-grow wide ys v wide_fits.0 wide_fits.1

  -- A write adds one entry at most.
  pub length-used : length (used key t xs) ≤ length xs + 1
  length-used = elim (Option-cases (find_in t.buckets key)) [
    | inl absent ↦ rw (used_absent absent) (omega arith)
    | inr (n, found) ↦ rw (used_found n found) (
        omega (
          arith,
          length-erase n.addr xs (
              listed_before sz key value (ensure_buckets t) xs valid' roomy' n
                (find_in-ensure t xs valid key ∙ found)),
        ))
  ]

  -- The node of the key that was written is the one at the front of the recency list.
  pub put_front :
      (n : Node) × (find_in (put sz key value t).0.buckets key ≡ some n)
      × (head? (used key t xs) ≡ some n.addr)
  unfolding wide fresh_node new_node
  put_front = elim (Option-cases (find_in t.buckets key)) [
    | inl absent ↦
        let absent' = find_in-ensure t xs valid key ∙ absent in
        let v = insert_new-IsValid sz key value (ensure_buckets t) xs valid' roomy' absent' in
        (
          fresh_node sz key value (ensure_buckets t) xs valid' roomy',
          rw (put_absent absent) (
              find_in-grow wide ((ensure_buckets t).next_addr ∷ xs) v wide_fits.0 wide_fits.1 key
              ∙ find_in-insert_new sz key value (ensure_buckets t) xs valid' roomy' absent' key
              ∙ rw (str_eq_refl key)),
          ap head? (used_absent absent),
        )
    | inr (n, found) ↦
        let found' = find_in-ensure t xs valid key ∙ found in
        (
          new_node sz key value (ensure_buckets t) xs valid' roomy' n found',
          rw (put_found n found) (
              find_in-overwrite sz key value (ensure_buckets t) xs valid' roomy' n found' key
              ∙ rw (str_eq_refl key)),
          ap head? (used_found n found),
        )
  ]
