-- ===== src/Database/Servable.antt =====
-- A database that can go on serving: sound, each key in its own shard, and few entries in few buckets.
use redis_like_in_memory_dat.Base.{
  ℕ, ◌^◌, ◌≤◌, ◌<◌, ◌≡◌, ◌≢◌, refl, sym, ap, ◌∙◌, Bytes, str_eq, str_eq_iff, none, false, ◌==◌,
  ==_iff, length, length-set, arith, inl, inr, Bool-cases,
}
use redis_like_in_memory_dat.Database.Engine.{
  Database, shard_index_for, shard_at, shard_for, put_shard,
}
use redis_like_in_memory_dat.Database.Shard.{Shard}
use redis_like_in_memory_dat.Database.Sound.{
  IsSound, Ordered, AllFit, shard_at-put, same_index, shard_for-put, put_shard-IsSound,
  shard_index-lt, same_shard,
}
use redis_like_in_memory_dat.HashTable.Buckets.{total}
use redis_like_in_memory_dat.HashTable.Narrow.{Narrow}
use redis_like_in_memory_dat.HashTable.Table.{HashTable, find}

-- A table of at most `m` entries in few buckets.
pub record Holds (m : ℕ) (t : HashTable) : Type 0 where
  pub few : total length t.buckets ≤ m
  pub narrow : Narrow t

abbrev pub AllHold : ℕ → Database → Type 0
AllHold m db = (i : ℕ) → i < length db.shards → Holds m (shard_at db i).table

-- No shard holds a key of another shard.
abbrev pub IsRouted : Database → Type 0
IsRouted db =
    (i : ℕ) (q : Bytes)
    → i < length db.shards
    → shard_index_for db q ≢ i
    → find (shard_at db i).table q ≡ none

pub record IsServable (m : ℕ) (db : Database) : Type 0 where
  pub sound : IsSound db
  pub routed : IsRouted db
  pub holds : AllHold m db

pub Holds-weaken : (m n : ℕ) (t : HashTable) → m ≤ n → Holds m t → Holds n t
Holds-weaken m n t le h = record { few = omega (arith, le, h.few); narrow = h.narrow }

pub IsServable-weaken : (m n : ℕ) (db : Database) → m ≤ n → IsServable m db → IsServable n db
IsServable-weaken m n db le v = record {
  sound = v.sound;
  routed = v.routed;
  holds = λ i h. Holds-weaken m n (shard_at db i).table le (v.holds i h);
}

-- The shard of a key holds few entries.
pub shard-Holds :
    (m : ℕ) (db : Database) (q : Bytes) → IsServable m db → Holds m (shard_for db q).table
shard-Holds m db q v = v.holds (shard_index_for db q) (shard_index-lt db q v.sound)

-- With fewer than 2⁵⁹ entries the tables fit in memory.
pub IsServable-AllFit : (m : ℕ) (db : Database) → m < 2 ^ 59 → IsServable m db → AllFit db
IsServable-AllFit m db h v key = record {
  few = omega (arith, h, (shard-Holds m db key v).few);
  narrow = omega (arith, (shard-Holds m db key v).narrow);
}

-- One shard is written, in which no key is new but `key`.
module _ (db : Database) (key : Bytes) (s : Shard) (m n : ℕ) (v : IsServable m db) (le : m ≤ n)
    (ordered : Ordered s.table) (room : Holds n s.table)
    (absent : (q : Bytes)
      → str_eq key q ≡ false
      → find (shard_for db key).table q ≡ none
      → find s.table q ≡ none) where
  put-Holds : (i : ℕ) → i < length db.shards → Holds n (shard_at (put_shard db key s) i).table
  put-Holds i h = elim (Bool-cases (shard_index_for db key == i)) [
    | inl here ↦ rw (shard_at-put db key s v.sound i, here) room
    | inr there ↦ rw (shard_at-put db key s v.sound i, there) (Holds-weaken m n _ le (v.holds i h))
  ]

  apart : (q : Bytes) → shard_index_for db q ≢ shard_index_for db key → str_eq key q ≡ false
  apart q ne = elim (Bool-cases (str_eq key q)) [
    | inl same ↦ absurd (ne (ap (shard_index_for db) (sym ((str_eq_iff key q).0 same))))
    | inr other ↦ other
  ]

  put-IsRouted :
      (i : ℕ) (q : Bytes)
      → i < length db.shards
      → shard_index_for db q ≢ i
      → find (shard_at (put_shard db key s) i).table q ≡ none
  put-IsRouted i q h ne = elim (Bool-cases (shard_index_for db key == i)) [
    | inl here ↦
        let e = (==_iff (shard_index_for db key) i).0 here in
        let ne' : shard_index_for db q ≢ shard_index_for db key = λ c. ne (c ∙ e) in
        rw (shard_at-put db key s v.sound i, here)
          (absent q (apart q ne')
            (v.routed (shard_index_for db key) q (shard_index-lt db key v.sound) ne'))
    | inr there ↦ rw (shard_at-put db key s v.sound i, there) (v.routed i q h ne)
  ]

  pub put-IsServable : IsServable n (put_shard db key s)
  put-IsServable = record {
    sound = put_shard-IsSound db key s v.sound ordered;
    routed = λ i q h ne.
        put-IsRouted i q (omega (arith, h, length-set db.shards (shard_index_for db key) s))
          (λ c. ne (same_index db key s v.sound q ∙ c));
    holds = λ i h. put-Holds i (omega (arith, h, length-set db.shards (shard_index_for db key) s));
  }

-- The limits of the shards, where a shard is written that keeps its own.
pub slice-put :
    (db : Database) (key q : Bytes) (s : Shard)
    → IsSound db
    → s.max_memory_bytes ≡ (shard_for db key).max_memory_bytes
    → (shard_for (put_shard db key s) q).max_memory_bytes ≡ (shard_for db q).max_memory_bytes
slice-put db key q s v same = elim (Bool-cases (shard_index_for db key == shard_index_for db q)) [
  | inl here ↦
      rw (shard_for-put db key s v q, here)
        (same ∙ ap (λ (r : Shard). r.max_memory_bytes) (same_shard db key q here))
  | inr there ↦ rw (shard_for-put db key s v q, there) refl
]

-- A shard that has become no larger.
pub record Tamer (m : ℕ) (s s' : Shard) : Type 0 where
  pub ordered : Ordered s'.table
  pub absent : (q : Bytes) → find s.table q ≡ none → find s'.table q ≡ none
  pub room : Holds m s'.table

-- Every shard is changed, and becomes no larger.
pub all-IsServable :
    (m : ℕ) (db db' : Database)
    → IsServable m db
    → length db'.shards ≡ length db.shards
    → db'.shard_mask ≡ db.shard_mask
    → ((q : Bytes) → shard_index_for db' q ≡ shard_index_for db q)
    → ((i : ℕ) → i < length db.shards → Tamer m (shard_at db i) (shard_at db' i))
    → IsServable m db'
all-IsServable m db db' v as_long mask index tamer = record {
  sound = record {
    shaped = omega (arith, v.sound.shaped, as_long, mask);
    each = λ i h. (tamer i (omega (arith, h, as_long))).ordered;
  };
  routed = λ i q h ne.
      let h' : i < length db.shards = omega (arith, h, as_long) in
      (tamer i h').absent q (v.routed i q h' (λ c. ne (index q ∙ c)));
  holds = λ i h. (tamer i (omega (arith, h, as_long))).room;
}
