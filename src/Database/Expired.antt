-- ===== src/Database/Expired.antt =====
-- `removeExpired` is not seen by the readers.
use redis_like_in_memory_dat.Base.{
  ℕ, zero, suc, ◌+◌, ◌≤◌, ◌<◌, ◌≡◌, refl, sym, ap, ◌∙◌, arith, min, max, Bytes, List, [], ◌∷◌,
  Option, none, some, Bool, true, if◌then◌else◌, ◌==◌, leb, length, get_or, Bool-cases, inl, inr,
  ◌/◌,
}
use redis_like_in_memory_dat.Database.Engine
use redis_like_in_memory_dat.Database.Engine.{
  Database, shard_index_for, shard_at, shard_for, expire_from, remove_expired,
}
use redis_like_in_memory_dat.Database.Shard
use redis_like_in_memory_dat.Database.Shard.{Shard, live_value, new_shard}
use redis_like_in_memory_dat.Database.Sound.{IsSound, shard_index-lt, shard-Ordered, get-live}
use redis_like_in_memory_dat.Entry.{Entry, is_expired_at}
use redis_like_in_memory_dat.HashTable.Chain.{Node}
use redis_like_in_memory_dat.HashTable.Sweep.{remove_if}
use redis_like_in_memory_dat.HashTable.Swept.{shown, remove_if-IsSwept}
use redis_like_in_memory_dat.HashTable.Table.{HashTable, find, find_in}
use redis_like_in_memory_dat.HashTable.Buckets.{IsPlaced}

abbrev entry_of : Option Node → Option Entry
entry_of none = none
entry_of (some n) = some n.entry

lapsed_later :
    (now later : ℕ) (key value : Bytes) (deadline : Option ℕ)
    → is_expired_at (record { key = key; value = value; expiration = deadline }) now ≡ true
    → now ≤ later
    → is_expired_at (record { key = key; value = value; expiration = deadline }) later ≡ true
unfolding is_expired_at
lapsed_later now later key value none h k = h
lapsed_later now later key value (some t) h k = ground (arith, h, k)

-- What has lapsed at `now` has lapsed later.
live_value-shown :
    (now later : ℕ) (o : Option Node)
    → now ≤ later
    → live_value later (entry_of (shown (λ e. is_expired_at e now) o))
      ≡ live_value later (entry_of o)
unfolding live_value
live_value-shown now later none h = refl
live_value-shown now later (some n) h = elim (Bool-cases (is_expired_at n.entry now)) [
  | inl lapsed ↦
      let then_too = lapsed_later now later n.entry.key n.entry.value n.entry.expiration lapsed h in
      rw (lapsed, then_too) refl
  | inr live ↦ rw live refl
]

-- A reader of a table sees the nodes that have not lapsed.
reads_same :
    (now later : ℕ) (t t' : HashTable) (q : Bytes)
    → shown (λ e. is_expired_at e now) (find_in t'.buckets q)
      ≡ shown (λ e. is_expired_at e now) (find_in t.buckets q)
    → now ≤ later
    → live_value later (find t' q) ≡ live_value later (find t q)
unfolding find
reads_same now later t t' q e h =
    sym (live_value-shown now later (find_in t'.buckets q) h)
    ∙ ap (λ o. live_value later (entry_of o)) e
    ∙ live_value-shown now later (find_in t.buckets q) h

remove_expired-live :
    (per_shard now later : ℕ) (s : Shard) (q : Bytes)
    → IsPlaced s.table.buckets
    → now ≤ later
    → live_value later (find (Shard.remove_expired per_shard now s).0.table q)
      ≡ live_value later (find s.table q)
unfolding Shard.remove_expired
remove_expired-live per_shard now later s q v h =
    let n = length s.table.buckets in
    let cursor = if leb n s.sweep_cursor then 0 else s.sweep_cursor in
    let p : Entry → Bool = λ e. is_expired_at e now in
    elim (Bool-cases (n == 0)) [
      | inl nothing ↦ rw (nothing, Shard.remove_expired) refl
      | inr some_bucket ↦
          rw (some_bucket, Shard.remove_expired)
            (reads_same now later s.table (remove_if cursor (min per_shard n) p s.table).0 q
              ((remove_if-IsSwept cursor (min per_shard n) p s.table v.unique).shows q) h)
    ]

pub shard-expire_from :
    (per_shard : ℕ) (clock : ℕ → ℕ) (i j : ℕ) (ss : List Shard) (d : Shard)
    → j < length ss
    → get_or (expire_from per_shard clock i ss).0 j d
      ≡ (Shard.remove_expired per_shard (clock (i + j)) (get_or ss j d)).0
unfolding expire_from
shard-expire_from per_shard clock i j [] d h = absurd (omega arith)
shard-expire_from per_shard clock i zero (s ∷ ss) d h =
    let e : i ≡ i + 0 = omega arith in ap (λ k. (Shard.remove_expired per_shard (clock k) s).0) e
shard-expire_from per_shard clock i (suc j) (s ∷ ss) d h =
    let e : suc i + j ≡ i + suc j = omega arith in
    shard-expire_from per_shard clock (suc i) j ss d (omega (arith, h))
    ∙ ap (λ k. (Shard.remove_expired per_shard (clock k) (get_or ss j d)).0) e

-- A pass of `removeExpired` over a sound database, with clock readings up to a moment, is not seen by a reader
-- at that moment or later: `get` of every key gives what it would have given without the pass.
pub get-remove_expired :
    (max_buckets later : ℕ) (clock : ℕ → ℕ) (db : Database) (q : Bytes)
    → IsSound db
    → ((i : ℕ) → clock i ≤ later)
    → (Engine.get later q (remove_expired max_buckets clock db).0).1 ≡ (Engine.get later q db).1
unfolding remove_expired shard_index_for
get-remove_expired n later clock db q v h = elim (Bool-cases (n == 0)) [
  | inl nothing ↦ rw (nothing, remove_expired) refl
  | inr some_bucket ↦
      let per_shard = max (n / length db.shards) 1 in
      let db' : Database = record db { shards = (expire_from per_shard clock 0 db.shards).0 } in
      let i = shard_index_for db q in
      let same : shard_for db' q
          ≡ (Shard.remove_expired per_shard (clock (0 + i)) (shard_for db q)).0 =
        shard-expire_from per_shard clock 0 i db.shards (new_shard 1) (shard_index-lt db q v) in
      rw (some_bucket, remove_expired)
        (get-live later q db'
          ∙ ap (λ s. live_value later (find s.table q)) same
          ∙ remove_expired-live per_shard (clock (0 + i)) later (shard_for db q) q
              (shard-Ordered db q v).1.placed (h (0 + i))
          ∙ sym (get-live later q db))
]
