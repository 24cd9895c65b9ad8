-- ===== src/Database/Store.antt =====
-- What `set` does inside a shard: the write is never refused there, the new value is readable
-- whatever is evicted, and no other key changes but by being evicted.
use redis_like_in_memory_dat.Base.{
  ℕ, suc, ◌^◌, ◌≤◌, ◌<◌, ◌≡◌, ◌≢◌, ◌⊎◌, refl, sym, ap, ◌∙◌, Bytes, str_eq, str_eq_refl, List, [],
  ◌∷◌, head?, length, Option, none, some, false, not, if◌then◌else◌, ◌==◌, ==_iff, arith, inl, inr,
  Bool-cases, word,
}
use redis_like_in_memory_dat.Database.Evict.{Loses, Trimmed, Trimmed-refl, evict_loop-Trimmed}
use redis_like_in_memory_dat.Database.Shard.{Shard, too_big, evict_to_fit, store, outcome_of}
use redis_like_in_memory_dat.Entry.{Entry}
use redis_like_in_memory_dat.HashTable.Chain.{Node}
use redis_like_in_memory_dat.HashTable.Grow.{Fits}
use redis_like_in_memory_dat.HashTable.Buckets.{total}
use redis_like_in_memory_dat.HashTable.Narrow.{Narrow, put-Narrow, set_expiration-Narrow}
use redis_like_in_memory_dat.HashTable.Put.{
  used, put-IsValid, put_new, find-put, put_front, length-used, entry_of, find-entry_of,
}
use redis_like_in_memory_dat.HashTable.Modify.{
  set_expiration-IsValid, find-set_expiration, set_expiration_node,
}
use redis_like_in_memory_dat.HashTable.Grow.{find_in-none}
use redis_like_in_memory_dat.HashTable.Chain.{Chain}
use redis_like_in_memory_dat.HashTable.Table.{
  is_endless, HashTable, Sizes, find_in, find, contains, put, set_expiration,
}
use redis_like_in_memory_dat.HashTable.Valid.{IsValid}

-- `evictToFit` returns, with the shard within its slice or down to one entry.
pub evict_to_fit-Trimmed :
    (sz : Sizes) (s : Shard) (a : ℕ) (ys : List ℕ)
    → IsValid s.table (a ∷ ys)
    → suc (length ys) < word
    → (s' : Shard) × (ys' : List ℕ) × (evict_to_fit sz s ≡ some s')
      × Trimmed sz s a s' ys'
      × (s.max_memory_bytes ≢ 0 → too_big sz s' ≡ false)
      × (s.max_memory_bytes ≡ 0 → s' ≡ s)
unfolding evict_to_fit
evict_to_fit-Trimmed sz s a ys v h = elim (Bool-cases (s.max_memory_bytes == 0)) [
  | inl unlimited ↦ (
    s,
    ys,
    rw unlimited,
    Trimmed-refl sz s a ys v,
    λ c. absurd (c ((==_iff s.max_memory_bytes 0).0 unlimited)),
    λ c. refl,
  )
  | inr limited ↦
      let (s', ys', e, t, small) =
        evict_loop-Trimmed sz (suc s.table.size) s a ys v (omega (arith, v.counted, v.sized)) in
      (s', ys', rw limited e, t, λ c. small, λ c. absurd (ground (arith, limited, c)))
]

-- The table once the value and its deadline are written, before anything is evicted.
abbrev pub put_dated : Sizes → Bytes → Bytes → Option ℕ → HashTable → HashTable
put_dated sz key value none t = (put sz key value t).0
put_dated sz key value (some d) t = set_expiration key (some d) (put sz key value t).0

pub put_dated-Narrow :
    (sz : Sizes) (key value : Bytes) (d : Option ℕ) (t : HashTable)
    → t.size < 2 ^ 56
    → Narrow t
    → Narrow (put_dated sz key value d t)
put_dated-Narrow sz key value none t s h = put-Narrow sz key value t s h
put_dated-Narrow sz key value (some d) t s h =
    set_expiration-Narrow key (some d) (put sz key value t).0 (put-Narrow sz key value t s h)

abbrev pub dated_entry : Bytes → Bytes → Option ℕ → Entry
dated_entry key value deadline = record { key = key; value = value; expiration = deadline }

module _ (sz : Sizes) (key value : Bytes) (t : HashTable) (xs : List ℕ) (valid : IsValid t xs)
    (fits : Fits t) where
  pub put_dated-IsValid : (d : Option ℕ) → IsValid (put_dated sz key value d t) (used key t xs)
  put_dated-IsValid none = put-IsValid sz key value t xs valid fits
  put_dated-IsValid (some d) =
      set_expiration-IsValid key (put sz key value t).0 (used key t xs)
        (put-IsValid sz key value t xs valid fits) (some d)

  pub find-put_dated :
      (d : Option ℕ) (q : Bytes)
      → find (put_dated sz key value d t) q
        ≡ (if str_eq key q then some (dated_entry key value d) else find t q)
  find-put_dated none q = find-put sz key value t xs valid fits q
  find-put_dated (some d) q =
      find-set_expiration key (put sz key value t).0 (used key t xs)
        (put-IsValid sz key value t xs valid fits) (some d) q
      ∙ rw
          (
            find-put sz key value t xs valid fits key,
            find-put sz key value t xs valid fits q,
            str_eq_refl key,
          )
          (ground arith)

  put_dated_front :
      (d : Option ℕ)
      → (n : Node) × (find_in (put_dated sz key value d t).buckets key ≡ some n)
        × (head? (used key t xs) ≡ some n.addr)
  put_dated_front none = put_front sz key value t xs valid fits
  put_dated_front (some d) =
      let (n, e, h) = put_front sz key value t xs valid fits in
      let (m, e', h') =
        set_expiration_node key (put sz key value t).0 (used key t xs)
          (put-IsValid sz key value t xs valid fits) (some d) n e in
      (m, e', h ∙ ap some (sym h'))

-- What a write leaves in its shard.
pub record Stored (sz : Sizes) (key value : Bytes) (deadline : Option ℕ) (s s' : Shard)
    (ys : List ℕ) : Type 0 where
  pub valid : IsValid s'.table ys
  pub own : find s'.table key ≡ some (dated_entry key value deadline)
  pub others :
      (q : Bytes)
      → str_eq key q ≡ false
      → (find s'.table q ≡ find s.table q) ⊎ (find s'.table q ≡ none)
  pub exact :
      s.max_memory_bytes ≡ 0 → (q : Bytes) → str_eq key q ≡ false → find s'.table q ≡ find s.table q
  pub trimmed : s.max_memory_bytes ≢ 0 → too_big sz s' ≡ false
  pub slice : s'.max_memory_bytes ≡ s.max_memory_bytes
  pub fewer : total length s'.table.buckets ≤ suc (total length s.table.buckets)
  pub stays_narrow : s.table.size < 2 ^ 56 → Narrow s.table → Narrow s'.table

head_list : (xs : List ℕ) (a : ℕ) → head? xs ≡ some a → (ys : List ℕ) × (xs ≡ a ∷ ys)
head_list [] a h = cc
head_list (x ∷ xs) a h = (xs, ground (arith, h))

-- A table in which something is found has a bucket.
found-ended :
    (bs : List Chain) (key : Bytes) (n : Node) → find_in bs key ≡ some n → (length bs == 0) ≡ false
found-ended [] key n h = let no = find_in-none [] key refl in cc
found-ended (c ∷ bs) key n h = ground arith

module _ (sz : Sizes) (key value : Bytes) (deadline : Option ℕ) (s : Shard) (xs : List ℕ)
    (valid : IsValid s.table xs) (fits : Fits s.table) where
  -- The shard after the write and before the eviction.
  abbrev full : Shard
  full = record s { table = put_dated sz key value deadline s.table }

  store_steps :
      (s' : Shard)
      → evict_to_fit sz full ≡ some s'
      → store sz key value deadline s ≡ some (s', outcome_of (not (contains s.table key)))
  unfolding store
  store_steps s' h = steps deadline h
    where
      ends : is_endless (put sz key value s.table).0 ≡ false
      ends =
          let (n, at, front) = put_front sz key value s.table xs valid fits in
          found-ended (put sz key value s.table).0.buckets key n at

      steps :
          (d : Option ℕ)
          → evict_to_fit sz (record s { table = put_dated sz key value d s.table }) ≡ some s'
          → store sz key value d s ≡ some (s', outcome_of (not (contains s.table key)))
      steps none e =
          rw (ends, e, store)
            (ap (λ b. some (s', outcome_of b)) (put_new sz key value s.table xs valid fits))
      steps (some d) e =
          rw (ends, e, store)
            (ap (λ b. some (s', outcome_of b)) (put_new sz key value s.table xs valid fits))

  -- A write inside a shard always ends, without a fault; it reports whether the key was new.
  pub store-Stored :
      (s' : Shard) × (ys : List ℕ) × (store sz key value deadline s
        ≡ some (s', outcome_of (not (contains s.table key))))
      × Stored sz key value deadline s s' ys
  store-Stored =
      let (n, at, front) = put_dated_front sz key value s.table xs valid fits deadline in
      let (rest, shape) = head_list (used key s.table xs) n.addr front in
      let ready : IsValid full.table (n.addr ∷ rest) =
        rw shape at (put_dated-IsValid sz key value s.table xs valid fits deadline) in
      let short : suc (length rest) < word = omega (
        arith,
        length-used sz key value s.table xs valid fits,
        ap length shape,
        valid.sized,
        fits.few,
      ) in
      let (s', ys, ends, t, small, same) = evict_to_fit-Trimmed sz full n.addr rest ready short in
      let reads = find-put_dated sz key value s.table xs valid fits deadline in
      (
        s',
        n.addr ∷ ys,
        store_steps s' ends,
        record {
          valid = t.valid;
          own =
              find-entry_of s'.table key
              ∙ ap entry_of (t.keeps key n at refl ∙ sym at)
              ∙ sym (find-entry_of full.table key)
              ∙ reads key
              ∙ rw (str_eq_refl key);
          others = λ q ne. ground (arith, t.loses q, reads q, ne);
          exact = λ z q ne. ap (λ (r : Shard). find r.table q) (same z) ∙ reads q ∙ rw ne;
          trimmed = small;
          slice = t.slice;
          fewer = omega (
            arith,
            t.fewer,
            ready.sized,
            ap length shape,
            length-used sz key value s.table xs valid fits,
            valid.sized,
          );
          stays_narrow =
              λ h k. omega (arith, t.as_long, put_dated-Narrow sz key value deadline s.table h k);
        },
      )

-- On a shard with a limit, whose table is valid and has an entry, `evictToFit` ends, follows no dangling
-- pointer, and leaves a valid table that is within the limit or has a single entry; the entry used last
-- stays at the front, and each key reads as before or is gone.
pub evict_to_fit_ends :
    (sz : Sizes) (s : Shard) (a : ℕ) (ys : List ℕ)
    → IsValid s.table (a ∷ ys)
    → suc (length ys) < word
    → s.max_memory_bytes ≢ 0
    → (s' : Shard) × (ys' : List ℕ) × (evict_to_fit sz s ≡ some s')
      × IsValid s'.table (a ∷ ys')
      × (too_big sz s' ≡ false)
      × Loses s.table s'.table
evict_to_fit_ends sz s a ys v h limited =
    let (s', ys', runs, trimmed, small, same) = evict_to_fit-Trimmed sz s a ys v h in
    (s', ys', runs, trimmed.valid, small limited, trimmed.loses)
