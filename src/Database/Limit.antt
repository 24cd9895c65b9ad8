-- ===== src/Database/Limit.antt =====
-- `setMaxMemory`: every shard gets its slice of the limit, and is trimmed to it at once.
use redis_like_in_memory_dat.Base.{
  ℕ, zero, suc, ◌/◌, ◌^◌, ◌≤◌, ◌<◌, ◌≡◌, ◌≢◌, ◌⊎◌, refl, sym, ap, ◌∙◌, max, Bytes, List, [], ◌∷◌,
  none, some, false, if◌then◌else◌, ◌==◌, ltb, length, get_or, arith, inl, inr, Bool-cases,
}
use redis_like_in_memory_dat.Database.Engine
use redis_like_in_memory_dat.Database.Engine.{
  Database, shard_index_for, shard_at, shard_for, limit_from, set_max_memory,
}
use redis_like_in_memory_dat.Database.Evict.{Loses}
use redis_like_in_memory_dat.Database.Servable.{Holds, IsServable, Tamer, all-IsServable}
use redis_like_in_memory_dat.Database.Shard.{
  Shard, new_shard, live_value, too_big, evict_loop, evict_to_fit,
}
use redis_like_in_memory_dat.Database.Sound.{Ordered, shard_index-lt, get-live}
use redis_like_in_memory_dat.Database.Store.{evict_to_fit-Trimmed}
use redis_like_in_memory_dat.Database.Tamed.{Tamer-refl}
use redis_like_in_memory_dat.HashTable.Table.{Sizes, memory_usage, find}
use redis_like_in_memory_dat.HashTable.Valid.{IsValid}

-- The slice of each shard.
abbrev pub slice_of : ℕ → Database → ℕ
slice_of bytes db = if bytes == 0 then 0 else max (bytes / length db.shards) 1

-- A shard after `evictToFit`.
pub record Fitted (sz : Sizes) (m : ℕ) (s s' : Shard) : Type 0 where
  pub runs : evict_to_fit sz s ≡ some s'
  pub tamer : Tamer m s s'
  pub loses : Loses s.table s'.table
  pub slice : s'.max_memory_bytes ≡ s.max_memory_bytes
  pub small : s.max_memory_bytes ≢ 0 → too_big sz s' ≡ false
  pub exact : s.max_memory_bytes ≡ 0 → s' ≡ s

empty_fits :
    (sz : Sizes) (s : Shard)
    → IsValid s.table []
    → (evict_to_fit sz s ≡ some s) × (too_big sz s ≡ false)
unfolding evict_to_fit evict_loop
empty_fits sz s v =
    let zero_entries : s.table.size ≡ 0 = omega (arith, v.counted, v.sized) in
    let small : too_big sz s ≡ false = ground (arith, zero_entries) in
    (
      elim (Bool-cases (s.max_memory_bytes == 0)) [
        | inl unlimited ↦ rw unlimited refl
        | inr limited ↦ rw limited (rw (small, evict_loop) refl)
      ],
      small,
    )

pub evict_to_fit-Fitted :
    (sz : Sizes) (m : ℕ) (s : Shard) (o : Ordered s.table)
    → Holds m s.table
    → m < 2 ^ 56
    → (s' : Shard) × Fitted sz m s s'
evict_to_fit-Fitted sz m s ([], v) h lt =
    let (runs, small) = empty_fits sz s v in
    (
      s,
      record {
        runs = runs;
        tamer = Tamer-refl m s ([], v) h;
        loses = λ q. inl refl;
        slice = refl;
        small = λ c. small;
        exact = λ c. refl;
      },
    )
evict_to_fit-Fitted sz m s ((a ∷ ys), v) h lt =
    let (s', ys', runs, t, small, same) =
      evict_to_fit-Trimmed sz s a ys v (omega (arith, v.sized, h.few, lt)) in
    (
      s',
      record {
        runs = runs;
        tamer = record {
          ordered = (a ∷ ys', t.valid);
          absent = λ q e. ground (arith, t.loses q, e);
          room = record {
            few = omega (arith, t.fewer, h.few);
            narrow = omega (arith, t.as_long, h.narrow);
          };
        };
        loses = t.loses;
        slice = t.slice;
        small = small;
        exact = same;
      },
    )

abbrev sliced : ℕ → Shard → Shard
sliced per_shard s = record s { max_memory_bytes = per_shard }

limit_from-Fitted :
    (sz : Sizes) (m per_shard : ℕ) (ss : List Shard)
    → ((i : ℕ) → i < length ss → Ordered (get_or ss i (new_shard 1)).table)
    → ((i : ℕ) → i < length ss → Holds m (get_or ss i (new_shard 1)).table)
    → m < 2 ^ 56
    → (ss' : List Shard) × (limit_from sz per_shard ss ≡ some ss')
      × (length ss' ≡ length ss)
      × ((i : ℕ)
          → i < length ss
          → Fitted sz m (sliced per_shard (get_or ss i (new_shard 1))) (get_or ss' i (new_shard 1)))
unfolding limit_from
limit_from-Fitted sz m per_shard [] o h lt = ([], refl, refl, λ i k. absurd (omega arith))
limit_from-Fitted sz m per_shard (s ∷ ss) o h lt =
    let (s', f) =
      evict_to_fit-Fitted sz m (sliced per_shard s) (o 0 (omega arith)) (h 0 (omega arith)) lt in
    let (ss', runs, as_long, fs) =
      limit_from-Fitted sz m per_shard ss (λ i k. o (suc i) (omega (arith, k)))
        (λ i k. h (suc i) (omega (arith, k))) lt in
    (s' ∷ ss', rw (f.runs, limit_from) (rw runs refl), ap suc as_long, pick s' ss' f fs)
  where
    pick :
        (s' : Shard) (ss' : List Shard)
        → Fitted sz m (sliced per_shard s) s'
        → ((i : ℕ)
            → i < length ss
            → Fitted sz m
                (sliced per_shard (get_or ss i (new_shard 1)))
                (get_or ss' i (new_shard 1)))
        → (i : ℕ) → i < length (s ∷ ss)
        → Fitted sz m
            (sliced per_shard (get_or (s ∷ ss) i (new_shard 1)))
            (get_or (s' ∷ ss') i (new_shard 1))
    pick s' ss' f fs zero k = f
    pick s' ss' f fs (suc i) k = fs i (omega (arith, k))

-- What `setMaxMemory` leaves.
pub record Limited (sz : Sizes) (bytes m : ℕ) (db db' : Database) : Type 0 where
  pub runs : set_max_memory sz bytes db ≡ some db'
  pub servable : IsServable m db'
  pub limit : db'.max_memory_bytes ≡ bytes
  pub slices :
      (i : ℕ) → i < length db'.shards → (shard_at db' i).max_memory_bytes ≡ slice_of bytes db
  pub small : bytes ≢ 0 → (i : ℕ) → i < length db'.shards → too_big sz (shard_at db' i) ≡ false
  pub reads :
      (now : ℕ) (q : Bytes)
      → ((Engine.get now q db').1 ≡ (Engine.get now q db).1) ⊎ ((Engine.get now q db').1 ≡ none)
  pub unlimited :
      bytes ≡ 0 → (now : ℕ) (q : Bytes) → (Engine.get now q db').1 ≡ (Engine.get now q db).1

-- The slices are not zero if there is a limit.
slice_positive : (bytes : ℕ) (db : Database) → bytes ≢ 0 → slice_of bytes db ≢ 0
slice_positive bytes db h = ground arith

slice_zero : (bytes : ℕ) (db : Database) → bytes ≡ 0 → slice_of bytes db ≡ 0
slice_zero bytes db h = ground arith

pub set_max_memory-Limited :
    (sz : Sizes) (bytes m : ℕ) (db : Database)
    → IsServable m db
    → m < 2 ^ 56
    → (db' : Database) × Limited sz bytes m db db'
unfolding set_max_memory shard_index_for
set_max_memory-Limited sz bytes m db v lt =
    let per_shard = slice_of bytes db in
    let (ss, runs, as_long, fs) =
      limit_from-Fitted sz m per_shard db.shards v.sound.each v.holds lt in
    let db' : Database = record db { shards = ss; max_memory_bytes = bytes } in
    let at : (q : Bytes) → Fitted sz m (sliced per_shard (shard_for db q)) (shard_for db' q) =
      λ q. fs (shard_index_for db q) (shard_index-lt db q v.sound) in
    (
      db',
      record {
        runs = rw (runs, set_max_memory) refl;
        servable =
            all-IsServable m db db' v as_long refl (λ q. refl)
              (λ i h.
                let t = (fs i h).tamer in
                record { ordered = t.ordered; absent = t.absent; room = t.room });
        limit = refl;
        slices = λ i h. (fs i (omega (arith, h, as_long))).slice;
        small = λ c i h. (fs i (omega (arith, h, as_long))).small (slice_positive bytes db c);
        reads = λ now q. shown now q db' ((at q).loses q);
        unlimited = λ c now q.
            get-live now q db'
            ∙ ap (λ (s : Shard). live_value now (find s.table q))
                ((at q).exact (slice_zero bytes db c))
            ∙ sym (get-live now q db);
      },
    )
  where
    shown :
        (now : ℕ) (q : Bytes) (db' : Database)
        → (find (shard_for db' q).table q ≡ find (shard_for db q).table q)
          ⊎ (find (shard_for db' q).table q ≡ none)
        → ((Engine.get now q db').1 ≡ (Engine.get now q db).1) ⊎ ((Engine.get now q db').1 ≡ none)
    shown now q db' (inl same) =
        inl (get-live now q db' ∙ ap (live_value now) same ∙ sym (get-live now q db))
    shown now q db' (inr lost) =
        inr (get-live now q db' ∙ ap (live_value now) lost ∙ (unfold live_value in refl))

-- `setMaxMemory` of a number of bytes other than zero, on a sound database of fewer than 2⁵⁶ entries in each
-- shard, ends and follows no dangling pointer. It leaves a sound database in which each shard is within its
-- slice of the limit or has at most one entry, and each key reads, at any moment, as before or as absent.
pub set_max_memory_fits :
    (sz : Sizes) (bytes m : ℕ) (db : Database)
    → IsServable m db
    → m < 2 ^ 56
    → bytes ≢ 0
    → (db' : Database) × (set_max_memory sz bytes db ≡ some db')
      × IsServable m db'
      × ((i : ℕ)
          → i < length db'.shards
          → (memory_usage sz (shard_at db' i).table ≤ slice_of bytes db)
            ⊎ ((shard_at db' i).table.size ≤ 1))
      × ((now : ℕ) (q : Bytes)
          → ((Engine.get now q db').1 ≡ (Engine.get now q db).1)
            ⊎ ((Engine.get now q db').1 ≡ none))
set_max_memory_fits sz bytes m db v lt c =
    let (db', l) = set_max_memory-Limited sz bytes m db v lt in
    (
      db',
      l.runs,
      l.servable,
      λ i h. within (shard_at db' i) (l.slices i h) (l.small c i h),
      l.reads,
    )
  where
    within :
        (s : Shard)
        → s.max_memory_bytes ≡ slice_of bytes db
        → too_big sz s ≡ false
        → (memory_usage sz s.table ≤ slice_of bytes db) ⊎ (s.table.size ≤ 1)
    within s e h = elim (Bool-cases (ltb s.max_memory_bytes (memory_usage sz s.table))) [
      | inl over ↦ inr (ground (arith, over, h))
      | inr fits ↦ inl (ground (arith, fits, e))
    ]
