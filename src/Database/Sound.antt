-- ===== src/Database/Sound.antt =====
-- The invariant of the whole database, and how a change of one shard shows in the others.
use redis_like_in_memory_dat.Base.{
  ℕ, ◌/◌, ◌^◌, ◌<◌, ◌≡◌, ◌⊎◌, refl, ap, ◌∙◌, Bytes, str_eq, str_eq_iff, List, Option, none, some,
  true, false, if◌then◌else◌, ◌==◌, ==_iff, length, get_or-set, length-set, bit_and-le, arith, inl,
  inr, Bool-cases,
}
use redis_like_in_memory_dat.Database.Engine
use redis_like_in_memory_dat.Database.Engine.{
  Database, shard_index_for, shard_at, shard_for, put_shard,
}
use redis_like_in_memory_dat.Database.Shard
use redis_like_in_memory_dat.Database.Shard.{Shard, live_value, new_shard}
use redis_like_in_memory_dat.Entry.{Entry}
use redis_like_in_memory_dat.HashTable.Grow.{Fits}
use redis_like_in_memory_dat.HashTable.Hash.{hash_key}
use redis_like_in_memory_dat.HashTable.Table.{HashTable, find}
use redis_like_in_memory_dat.HashTable.Valid.{IsValid}

-- Some order of use of the table's entries.
abbrev pub Ordered : HashTable → Type 0
Ordered t = (xs : List ℕ) × IsValid t xs

pub record IsSound (db : Database) : Type 0 where
  pub shaped : db.shard_mask < length db.shards
  pub each : (i : ℕ) → i < length db.shards → Ordered (shard_at db i).table

-- Every shard is small enough for the memory of the machine.
abbrev pub AllFit : Database → Type 0
AllFit db = (key : Bytes) → Fits (shard_for db key).table

-- The shard of a key exists.
pub shard_index-lt :
    (db : Database) (key : Bytes) → IsSound db → shard_index_for db key < length db.shards
unfolding shard_index_for
shard_index-lt db key v =
    ground (arith, bit_and-le (hash_key key / 2 ^ db.shard_shift) db.shard_mask, v.shaped)

pub shard-Ordered : (db : Database) (key : Bytes) → IsSound db → Ordered (shard_for db key).table
shard-Ordered db key v = v.each (shard_index_for db key) (shard_index-lt db key v)

module _ (db : Database) (key : Bytes) (s : Shard) (v : IsSound db) where
  pub shard_at-put :
      (i : ℕ)
      → shard_at (put_shard db key s) i ≡ (if shard_index_for db key == i then s else shard_at db i)
  shard_at-put i =
      get_or-set db.shards (shard_index_for db key) i s (new_shard 1) (shard_index-lt db key v)

  pub put_shard-IsSound : Ordered s.table → IsSound (put_shard db key s)
  put_shard-IsSound o = record {
    shaped = omega (arith, v.shaped, length-set db.shards (shard_index_for db key) s);
    each = λ i h. elim (Bool-cases (shard_index_for db key == i)) [
      | inl same ↦ rw (shard_at-put i, same) o
      | inr other ↦
          rw (shard_at-put i, other)
            (v.each i (omega (arith, h, length-set db.shards (shard_index_for db key) s)))
    ];
  }

  pub same_index : (q : Bytes) → shard_index_for (put_shard db key s) q ≡ shard_index_for db q
  unfolding shard_index_for
  same_index q = refl

  -- A reader of `q` sees the new shard if `q` has the shard of `key`, and the old one otherwise.
  pub shard_for-put :
      (q : Bytes)
      → shard_for (put_shard db key s) q
        ≡ (if shard_index_for db key == shard_index_for db q then s else shard_for db q)
  shard_for-put q =
      ap (shard_at (put_shard db key s)) (same_index q) ∙ shard_at-put (shard_index_for db q)

  -- A change that a shard's readers see as `f` is seen as `f` by the readers of the database, if `f`
  -- leaves the keys of other shards alone.
  pub find-put_shard :
      (q : Bytes)
      → find (shard_for (put_shard db key s) q).table q ≡ (
          if shard_index_for db key == shard_index_for db q
          then find s.table q
          else find (shard_for db q).table q)
  find-put_shard q = elim (Bool-cases (shard_index_for db key == shard_index_for db q)) [
    | inl same ↦
        let e : shard_for (put_shard db key s) q ≡ s = shard_for-put q ∙ rw same in
        rw same (ap (λ (r : Shard). find r.table q) e)
    | inr other ↦
        let e : shard_for (put_shard db key s) q ≡ shard_for db q = shard_for-put q ∙ rw other in
        rw other (ap (λ (r : Shard). find r.table q) e)
  ]

-- Two keys of one shard read in the same table.
pub same_shard :
    (db : Database) (key q : Bytes)
    → (shard_index_for db key == shard_index_for db q) ≡ true
    → shard_for db key ≡ shard_for db q
same_shard db key q h =
    ap (shard_at db) ((==_iff (shard_index_for db key) (shard_index_for db q)).0 h)

-- A shard that differs at `key` alone makes a database that differs at `key` alone.
pub find_patched :
    (db : Database) (key : Bytes) (s : Shard) (m : Option Entry)
    → IsSound db
    → ((q : Bytes) → find s.table q ≡ (if str_eq key q then m else find (shard_for db key).table q))
    → (q : Bytes)
    → find (shard_for (put_shard db key s) q).table q
      ≡ (if str_eq key q then m else find (shard_for db q).table q)
find_patched db key s m v reads q =
    find-put_shard db key s v q
    ∙ elim (Bool-cases (shard_index_for db key == shard_index_for db q)) [
      | inl here ↦ rw here (
          reads q
          ∙ ap (λ (r : Shard). if str_eq key q then m else find r.table q)
              (same_shard db key q here))
      | inr there ↦
          let ne : str_eq key q ≡ false =
            ground (arith, there, λ (h : str_eq key q ≡ true). at_index h) in
          rw (there, ne)
    ]
  where
    at_index : str_eq key q ≡ true → shard_index_for db key ≡ shard_index_for db q
    at_index h = ap (shard_index_for db) ((str_eq_iff key q).0 h)

-- A key that the shard's readers find as before, or no longer, is found so in the database.
pub find_kept :
    (db : Database) (key q : Bytes) (s : Shard)
    → IsSound db
    → find s.table q ≡ find (shard_for db key).table q
    → find (shard_for (put_shard db key s) q).table q ≡ find (shard_for db q).table q
find_kept db key q s v same =
    find-put_shard db key s v q
    ∙ elim (Bool-cases (shard_index_for db key == shard_index_for db q)) [
      | inl here ↦ rw here (same ∙ ap (λ (r : Shard). find r.table q) (same_shard db key q here))
      | inr there ↦ rw there
    ]

pub find_lost :
    (db : Database) (key q : Bytes) (s : Shard)
    → IsSound db
    → find s.table q ≡ none
    → (find (shard_for (put_shard db key s) q).table q ≡ find (shard_for db q).table q)
      ⊎ (find (shard_for (put_shard db key s) q).table q ≡ none)
find_lost db key q s v gone = elim (Bool-cases (shard_index_for db key == shard_index_for db q)) [
  | inl here ↦ inr (find-put_shard db key s v q ∙ rw here gone)
  | inr there ↦ inl (find-put_shard db key s v q ∙ rw there)
]

-- What `get` answers.
pub get-live :
    (now : ℕ) (key : Bytes) (db : Database)
    → (Engine.get now key db).1 ≡ live_value now (find (shard_for db key).table key)
unfolding Engine.get Shard.get
get-live now key db = ground arith

-- At every moment, `exists` is true exactly where `get` finds a value.
exists-get :
    (now : ℕ) (key : Bytes) (db : Database)
    → Engine.exists now key db ≡ (elim (Engine.get now key db).1 [ none ↦ false | some x ↦ true ])
unfolding Engine.get Engine.exists Shard.get Shard.exists live_value
exists-get now key db = ground arith
