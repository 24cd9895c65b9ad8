-- ===== src/Database/Swept.antt =====
-- What `removeExpired` and `clear` leave of the whole database.
use redis_like_in_memory_dat.Base.{
  ℕ, suc, ◌+◌, ◌/◌, ◌<◌, ◌≡◌, refl, ap, ◌∙◌, max, Bytes, List, [], ◌∷◌, none, ◌==◌, length, arith,
  inl, inr, Bool-cases,
}
use redis_like_in_memory_dat.Database.Engine
use redis_like_in_memory_dat.Database.Engine.{
  Database, shard_index_for, shard_at, shard_for, expire_from, remove_expired,
}
use redis_like_in_memory_dat.Database.Expired.{shard-expire_from}
use redis_like_in_memory_dat.Database.Restored.{cleared-at, find-cleared, clear-IsServable}
use redis_like_in_memory_dat.Database.Servable.{IsServable, IsServable-weaken, all-IsServable}
use redis_like_in_memory_dat.Database.Shard
use redis_like_in_memory_dat.Database.Shard.{Shard, new_shard, live_value}
use redis_like_in_memory_dat.Database.Sound.{shard_index-lt, get-live}
use redis_like_in_memory_dat.Database.Tamed.{remove_expired-Tamer}

-- The limits of the shards are as before.
abbrev pub SameSlices : Database → Database → Type 0
SameSlices db db' =
    (q : Bytes) → (shard_for db' q).max_memory_bytes ≡ (shard_for db q).max_memory_bytes

length-expire_from :
    (per_shard : ℕ) (clock : ℕ → ℕ) (i : ℕ) (ss : List Shard)
    → length (expire_from per_shard clock i ss).0 ≡ length ss
unfolding expire_from
length-expire_from per_shard clock i [] = refl
length-expire_from per_shard clock i (s ∷ ss) =
    ap suc (length-expire_from per_shard clock (suc i) ss)

slice-remove_expired :
    (per_shard now : ℕ) (s : Shard)
    → (Shard.remove_expired per_shard now s).0.max_memory_bytes ≡ s.max_memory_bytes
unfolding Shard.remove_expired
slice-remove_expired per_shard now s = ground arith

pub remove_expired-IsServable :
    (buckets m : ℕ) (clock : ℕ → ℕ) (db : Database)
    → IsServable m db
    → IsServable m (remove_expired buckets clock db).0
      × SameSlices db (remove_expired buckets clock db).0
      × ((remove_expired buckets clock db).0.max_memory_bytes ≡ db.max_memory_bytes)
unfolding remove_expired shard_index_for
remove_expired-IsServable buckets m clock db v = elim (Bool-cases (buckets == 0)) [
  | inl nothing ↦ rw (nothing, remove_expired) (v, (λ q. refl), refl)
  | inr some_bucket ↦
      let per_shard = max (buckets / length db.shards) 1 in
      let db' : Database = record db { shards = (expire_from per_shard clock 0 db.shards).0 } in
      let at : (i : ℕ)
          → i < length db.shards
          → shard_at db' i ≡ (Shard.remove_expired per_shard (clock (0 + i)) (shard_at db i)).0 =
        λ i h. shard-expire_from per_shard clock 0 i db.shards (new_shard 1) h in
      rw (some_bucket, remove_expired)
        (
          all-IsServable m db db' v (length-expire_from per_shard clock 0 db.shards) refl
              (λ q. refl)
              (λ i h. rw (at i h) (
                remove_expired-Tamer per_shard (clock (0 + i)) m (shard_at db i) (v.sound.each i h)
                  (v.holds i h))),
          λ q.
              ap (λ (s : Shard). s.max_memory_bytes)
                (at (shard_index_for db q) (shard_index-lt db q v.sound))
              ∙ slice-remove_expired per_shard (clock (0 + shard_index_for db q)) (shard_for db q),
          refl,
        )
]

pub cleared-IsServable :
    (m : ℕ) (db : Database)
    → IsServable m db
    → IsServable m (Engine.clear db)
      × SameSlices db (Engine.clear db)
      × ((now : ℕ) (q : Bytes) → (Engine.get now q (Engine.clear db)).1 ≡ none)
unfolding Engine.clear shard_index_for Shard.clear_shard live_value
cleared-IsServable m db v = (
  IsServable-weaken 0 m (Engine.clear db) (omega arith)
      (clear-IsServable db v.sound (λ i h. (v.holds i h).narrow)),
  λ q.
      ap (λ (s : Shard). s.max_memory_bytes)
        (cleared-at db (shard_index_for db q) (shard_index-lt db q v.sound)),
  λ now q.
      get-live now q (Engine.clear db)
      ∙ ap (live_value now)
          (find-cleared db (shard_index_for db q) q (shard_index-lt db q v.sound)),
)
