-- ===== src/Database/Evict.antt =====
-- `evictToFit` ends within its fuel, never follows a dangling pointer, leaves the shard within its
-- slice or with one entry, and never takes the entry that was used last.
use redis_like_in_memory_dat.Base.{
  ℕ, zero, suc, ◌+◌, ◌≤◌, ◌<◌, ◌≡◌, ◌≢◌, ◌⊎◌, refl, sym, ap, ◌∙◌, Bytes, str_eq, str_eq_iff, List,
  [], ◌∷◌, length, none, some, true, false, arith, inl, inr, Bool-cases, add64,
}
use redis_like_in_memory_dat.Database.Shard.{Shard, too_big, evict_loop}
use redis_like_in_memory_dat.HashTable.Buckets.{total}
use redis_like_in_memory_dat.HashTable.Chain.{Node}
use redis_like_in_memory_dat.HashTable.Evict.{last, evict_oldest_lem}
use redis_like_in_memory_dat.HashTable.Recency.Shape.{count, erase, length-erase}
use redis_like_in_memory_dat.HashTable.Sweep.{evict_oldest}
use redis_like_in_memory_dat.HashTable.Table.{HashTable, Sizes, find_in, find}
use redis_like_in_memory_dat.HashTable.Valid.{IsValid}

-- What eviction may do to a reader: a key reads as before, or is gone.
abbrev pub Loses : HashTable → HashTable → Type 0
Loses t t' = (q : Bytes) → (find t' q ≡ find t q) ⊎ (find t' q ≡ none)

-- What trimming a shard gives. `a` is the address at the front of the recency list.
pub record Trimmed (sz : Sizes) (s : Shard) (a : ℕ) (s' : Shard) (ys : List ℕ) : Type 0 where
  pub valid : IsValid s'.table (a ∷ ys)
  pub loses : Loses s.table s'.table
  pub keeps :
      (q : Bytes) (n : Node)
      → find_in s.table.buckets q ≡ some n
      → n.addr ≡ a
      → find_in s'.table.buckets q ≡ some n
  pub slice : s'.max_memory_bytes ≡ s.max_memory_bytes
  pub cursor : s'.sweep_cursor ≡ s.sweep_cursor
  pub fewer : total length s'.table.buckets ≤ total length s.table.buckets
  pub as_long : length s'.table.buckets ≡ length s.table.buckets

-- In a list of two addresses or more the last one is not the first.
last-ne :
    (a : ℕ) (xs : List ℕ)
    → 1 ≤ length xs
    → count a (a ∷ xs) ≤ 1
    → (b : ℕ) × (last (a ∷ xs) ≡ some b) × (b ≢ a) × (1 ≤ count b xs)
unfolding count
last-ne a [] h d = absurd (omega arith)
last-ne a (x ∷ []) h d = (x, refl, λ e. ground arith, ground arith)
last-ne a (x ∷ y ∷ ys) h d =
    let (b, e, ne, m) = last-ne a (y ∷ ys) (omega arith) (ground (arith, d)) in
    (b, e, ne, ground (arith, m))

erase-cons_ne : (b a : ℕ) (ys : List ℕ) → b ≢ a → erase b (a ∷ ys) ≡ a ∷ erase b ys
unfolding erase
erase-cons_ne b a ys ne = ground arith

-- One round: the victim is another entry than the one in front.
module _ (sz : Sizes) (s : Shard) (a : ℕ) (ys : List ℕ) (valid : IsValid s.table (a ∷ ys)) where
  victim_ne :
      (n m : Node) (q : Bytes)
      → find_in s.table.buckets n.entry.key ≡ some n
      → n.addr ≢ a
      → find_in s.table.buckets q ≡ some m
      → m.addr ≡ a
      → str_eq n.entry.key q ≡ false
  victim_ne n m q f ne g e = ground (arith, str_eq_iff n.entry.key q, same_node)
    where
      same_node : n.entry.key ≡ q → ⊥
      same_node h =
          let same : some n ≡ some m = sym f ∙ ap (find_in s.table.buckets) h ∙ g in
          ne (ground (arith, same, e))

  -- The shard after one eviction.
  after : HashTable → Shard
  after t = record s { table = t; evicted = add64 s.evicted 1 }

  evict_round :
      1 ≤ length ys
      → (b : ℕ) × (k : Bytes) × (t : HashTable) × (evict_oldest s.table ≡ some (t, some k))
        × Trimmed sz s a (after t) (erase b ys)
        × (length (erase b ys) + 1 ≡ length ys)
  unfolding after
  evict_round h =
      let (b, e, ne, m) = last-ne a ys h (valid.threaded.distinct a) in
      let (n, t, ev) = evict_oldest_lem s.table (a ∷ ys) valid b e in
      let kept : erase b (a ∷ ys) ≡ a ∷ erase b ys = erase-cons_ne b a ys ne in
      (
        b,
        n.entry.key,
        t,
        ev.runs,
        record {
          valid = rw kept at ev.valid';
          loses = λ q. ground (arith, ev.reads q);
          keeps = λ q m' f g.
              rw (ev.nodes q, victim_ne n m' q ev.found (λ c. ne (sym ev.at_tail ∙ c)) f g) f;
          slice = refl;
          cursor = refl;
          fewer = omega (arith, ev.valid'.sized, valid.sized, ap length kept, length-erase b ys m);
          as_long = ev.as_long;
        },
        length-erase b ys m,
      )

pub Trimmed-refl :
    (sz : Sizes) (s : Shard) (a : ℕ) (ys : List ℕ) → IsValid s.table (a ∷ ys) → Trimmed sz s a s ys
Trimmed-refl sz s a ys v = record {
  valid = v;
  loses = λ q. inl refl;
  keeps = λ q n f g. f;
  slice = refl;
  cursor = refl;
  fewer = omega arith;
  as_long = refl;
}

Loses-trans : (t u v : HashTable) → Loses t u → Loses u v → Loses t v
Loses-trans t u v h k q = ground (arith, h q, k q)

Trimmed-trans :
    (sz : Sizes) (s s' s'' : Shard) (a : ℕ) (ys zs : List ℕ)
    → Trimmed sz s a s' ys
    → Trimmed sz s' a s'' zs
    → Trimmed sz s a s'' zs
Trimmed-trans sz s s' s'' a ys zs h k = record {
  valid = k.valid;
  loses = Loses-trans s.table s'.table s''.table h.loses k.loses;
  keeps = λ q n f g. k.keeps q n (h.keeps q n f g) g;
  slice = k.slice ∙ h.slice;
  cursor = k.cursor ∙ h.cursor;
  fewer = omega (arith, h.fewer, k.fewer);
  as_long = k.as_long ∙ h.as_long;
}

more_than_one :
    (sz : Sizes) (s : Shard) (a : ℕ) (ys : List ℕ)
    → IsValid s.table (a ∷ ys)
    → too_big sz s ≡ true
    → 1 ≤ length ys
more_than_one sz s a ys v big =
    let many : 1 < s.table.size = ground (arith, big) in omega (arith, v.counted, v.sized)

-- With more fuel than entries the loop ends by its test.
pub evict_loop-Trimmed :
    (sz : Sizes) (fuel : ℕ) (s : Shard) (a : ℕ) (ys : List ℕ)
    → IsValid s.table (a ∷ ys)
    → length ys < fuel
    → (s' : Shard) × (ys' : List ℕ) × (evict_loop sz fuel s ≡ some s')
      × Trimmed sz s a s' ys'
      × (too_big sz s' ≡ false)
unfolding evict_loop after
evict_loop-Trimmed sz zero s a ys v h = absurd (omega arith)
evict_loop-Trimmed sz (suc fuel) s a ys v h = elim (Bool-cases (too_big sz s)) [
  | inr fits ↦ (s, ys, rw (fits, evict_loop), Trimmed-refl sz s a ys v, fits)
  | inl big ↦
      let many : 1 ≤ length ys = more_than_one sz s a ys v big in
      let (b, k, t, runs, trimmed, shorter) = evict_round sz s a ys v many in
      let (s', ys', ends, trimmed', small) =
        evict_loop-Trimmed sz fuel (after sz s a ys v t) a (erase b ys) trimmed.valid
          (omega arith) in
      (
        s',
        ys',
        rw (big, evict_loop) (rw (runs) ends),
        Trimmed-trans sz s (after sz s a ys v t) s' a (erase b ys) ys' trimmed trimmed',
        small,
      )
]
