-- ===== src/Database/Reads.antt =====
-- Reads and deletions: what `get`, `exists`, `ttl` and `del` answer, and what they leave.
use redis_like_in_memory_dat.Base.{
  ℕ, ◌≡◌, refl, sym, ap, ◌∙◌, Bytes, str_eq, str_eq_iff, none, true, if◌then◌else◌, ◌==◌, arith,
  inl, inr, Bool-cases, Option-cases,
}
use redis_like_in_memory_dat.Database.Engine
use redis_like_in_memory_dat.Database.Engine.{
  Database, shard_index_for, shard_for, put_shard, nanos,
}
use redis_like_in_memory_dat.Database.Shard
use redis_like_in_memory_dat.Database.Shard.{Shard, live_value, ceil_seconds}
use redis_like_in_memory_dat.Database.Sound.{
  IsSound, Ordered, shard-Ordered, put_shard-IsSound, find-put_shard, find_patched, same_shard,
  get-live,
}
use redis_like_in_memory_dat.HashTable.Put.{find-entry_of, entry_of}
use redis_like_in_memory_dat.HashTable.Modify.{touch-IsValid, touched}
use redis_like_in_memory_dat.HashTable.Remove.{remove-IsValid, find-remove, without}
use redis_like_in_memory_dat.HashTable.Sweep.{touch}
use redis_like_in_memory_dat.HashTable.Table.{HashTable, find, find_in}

find-touch : (key q : Bytes) (t : HashTable) → Ordered t → find (touch key t).0 q ≡ find t q
find-touch key q t (xs, v) =
    find-entry_of (touch key t).0 q
    ∙ ap (λ bs. entry_of (find_in bs q)) (touch-IsValid key t xs v).1
    ∙ sym (find-entry_of t q)

-- A shard after a read of it.
read_keeps :
    (now : ℕ) (key : Bytes) (s : Shard)
    → Ordered s.table
    → Ordered (Shard.get now key s).0.table
      × ((q : Bytes) → find (Shard.get now key s).0.table q ≡ find s.table q)
unfolding Shard.get
read_keeps now key s o = elim (Option-cases (live_value now (find s.table key))) [
  | inl miss ↦ rw (miss, Shard.get) (o, λ q. refl)
  | inr (x, hit) ↦ elim (Bool-cases (s.max_memory_bytes == 0)) [
    | inl free ↦ rw (hit, Shard.get) (rw free (o, λ q. refl))
    | inr bounded ↦
        rw (hit, Shard.get)
          (rw bounded (
            (touched key s.table o.0 o.1, (touch-IsValid key s.table o.0 o.1).0),
            λ q. find-touch key q s.table o,
          ))
  ]
]

-- `get` on a sound database keeps it sound, although it may reorder a recency list, and every later `get`
-- answers as if it had not run.
pub get_keeps :
    (now : ℕ) (key : Bytes) (db : Database)
    → IsSound db
    → IsSound (Engine.get now key db).0
      × ((later : ℕ) (q : Bytes)
          → (Engine.get later q (Engine.get now key db).0).1 ≡ (Engine.get later q db).1)
unfolding Engine.get
get_keeps now key db v =
    let (o, same) = read_keeps now key (shard_for db key) (shard-Ordered db key v) in
    let s = (Shard.get now key (shard_for db key)).0 in
    (
      put_shard-IsSound db key s v o,
      λ later q.
          (unfold Engine.get in get-live later q (put_shard db key s))
          ∙ ap (live_value later) (find-put_shard db key s v q ∙ seen q)
          ∙ sym (unfold Engine.get in get-live later q db),
    )
  where
    seen :
        (q : Bytes)
        → (if shard_index_for db key == shard_index_for db q
            then find (Shard.get now key (shard_for db key)).0.table q
            else find (shard_for db q).table q)
          ≡ find (shard_for db q).table q
    seen q = elim (Bool-cases (shard_index_for db key == shard_index_for db q)) [
      | inl here ↦ rw here (
          (read_keeps now key (shard_for db key) (shard-Ordered db key v)).1 q
          ∙ ap (λ (s : Shard). find s.table q) (same_shard db key q here))
      | inr there ↦ rw there
    ]

del_shard :
    (now : ℕ) (key : Bytes) (s : Shard)
    → Ordered s.table
    → Ordered (Shard.del now key s).0.table
      × ((q : Bytes)
          → find (Shard.del now key s).0.table q ≡ (if str_eq key q then none else find s.table q))
unfolding Shard.del
del_shard now key s o = elim (Option-cases (find s.table key)) [
  | inl miss ↦ rw (miss, Shard.del) (o, λ q. ground (arith, absent miss q))
  | inr (e, hit) ↦
      rw (hit, Shard.del)
        (
          (without key s.table o.0, remove-IsValid key s.table o.0 o.1),
          find-remove key s.table o.0 o.1,
        )
]
  where
    absent : find s.table key ≡ none → (q : Bytes) → str_eq key q ≡ true → find s.table q ≡ none
    absent miss q same = sym (ap (find s.table) ((str_eq_iff key q).0 same)) ∙ miss

-- On a sound database `del` answers whether the key exists, live. It leaves a sound database, in which
-- `get` finds nothing at the key, at any moment, and answers as before at every other key.
pub del_lem :
    (now : ℕ) (key : Bytes) (db : Database)
    → IsSound db
    → ((Engine.del now key db).1 ≡ Engine.exists now key db)
      × IsSound (Engine.del now key db).0
      × ((later : ℕ) (q : Bytes)
          → (Engine.get later q (Engine.del now key db).0).1
            ≡ (if str_eq key q then none else (Engine.get later q db).1))
unfolding Engine.del Engine.exists Shard.del Shard.exists live_value
del_lem now key db v =
    let (o, reads) = del_shard now key (shard_for db key) (shard-Ordered db key v) in
    (
      ground arith,
      put_shard-IsSound db key (Shard.del now key (shard_for db key)).0 v o,
      λ later q.
          get-live later q (put_shard db key (Shard.del now key (shard_for db key)).0)
          ∙ ap (live_value later)
              (find_patched db key (Shard.del now key (shard_for db key)).0 none v reads q)
          ∙ rw (get-live later q db) (shown later q),
    )
  where
    shown :
        (later : ℕ) (q : Bytes)
        → live_value later (if str_eq key q then none else find (shard_for db q).table q)
          ≡ (if str_eq key q then none else live_value later (find (shard_for db q).table q))
    shown later q = ground arith
