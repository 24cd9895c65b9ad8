-- ===== src/Database/Restart.antt =====
-- `snapshot` and `restore` together: a restart that goes through a snapshot keeps what can be read.
use redis_like_in_memory_dat.Base.{
  ℕ, zero, suc, ◌^◌, ◌≤◌, ◌<◌, ◌≡◌, ◌≢◌, refl, sym, ap, ◌∙◌, Bytes, List, [], ◌∷◌, Option, none,
  some, true, if◌then◌else◌, length, get_or, arith,
}
use redis_like_in_memory_dat.Database.Engine
use redis_like_in_memory_dat.Database.Engine.{
  Database, shard_index_for, shard_at, shard_for, snapshot_from, snapshot, restore,
}
use redis_like_in_memory_dat.Database.Restored.{in_force, get-restore}
use redis_like_in_memory_dat.Database.Shard
use redis_like_in_memory_dat.Database.Shard.{Shard, new_shard, live_value}
use redis_like_in_memory_dat.Database.Sound.{IsSound, Ordered, shard_index-lt, get-live}
use redis_like_in_memory_dat.Database.Servable.{IsRouted}
use redis_like_in_memory_dat.Entry.{Entry, is_expired_at}
use redis_like_in_memory_dat.HashTable.Buckets.{IsPlaced}
use redis_like_in_memory_dat.HashTable.Grow.{find_in-none}
use redis_like_in_memory_dat.HashTable.Hash.{bucket_index-lt}
use redis_like_in_memory_dat.HashTable.Listed.{overlay, overlay-append, over, overlay-entries_of}
use redis_like_in_memory_dat.HashTable.Chain.{Chain, Node}
use redis_like_in_memory_dat.HashTable.Narrow.{Narrow}
use redis_like_in_memory_dat.HashTable.Put.{entry_of, find-entry_of}
use redis_like_in_memory_dat.HashTable.Sweep.{entries_of, entries_where}
use redis_like_in_memory_dat.HashTable.Table.{Sizes, home, find, find_in}

-- An entry seen over what was there, unless it has expired.
abbrev seen : ℕ → Option Entry → Option Entry → Option Entry
seen now none o = o
seen now (some e) o = if in_force now e then some e else o

-- What is in force at an instant was so before.
in_force_before :
    (earlier now : ℕ) (e : Entry)
    → earlier ≤ now
    → in_force now e ≡ true
    → in_force earlier e ≡ true
unfolding is_expired_at
in_force_before earlier now e h k = ground (arith, h, k)

over-seen :
    (now : ℕ) (m : Option Node) (o : Option Entry)
    → over (in_force now) m o ≡ seen now (entry_of m) o
over-seen now none o = refl
over-seen now (some n) o = refl

module _ (now : ℕ) (q : Bytes) where
  -- The entries of one bucket array.
  overlay-buckets :
      (earlier : ℕ) (bs : List Chain) (o : Option Entry)
      → earlier ≤ now
      → IsPlaced bs
      → overlay (in_force now) (entries_of (in_force earlier) bs) q o
        ≡ over (in_force now) (find_in bs q) o
  unfolding find_in entries_of overlay
  overlay-buckets earlier [] o h v =
      ap (λ m. over (in_force now) m o) (sym (find_in-none [] q refl))
  overlay-buckets earlier (c ∷ bs) o h v =
      overlay-entries_of (in_force now) (in_force earlier)
        (λ e k. in_force_before earlier now e h k) (c ∷ bs) (home (c ∷ bs) q) q o
        (bucket_index-lt (length (c ∷ bs)) q (omega arith)) (v.placed q) (v.unique q)

  overlay-shard :
      (earlier : ℕ) (s : Shard) (o : Option Entry)
      → earlier ≤ now
      → Ordered s.table
      → overlay (in_force now) (Shard.live_entries earlier s) q o ≡ seen now (find s.table q) o
  unfolding Shard.live_entries entries_where
  overlay-shard earlier s o h (xs, v) =
      overlay-buckets earlier s.table.buckets o h v.placed
      ∙ over-seen now (find_in s.table.buckets q) o
      ∙ ap (λ m. seen now m o) (sym (find-entry_of s.table q))

  module _ (clock : ℕ → ℕ) (read_before : (i : ℕ) → clock i ≤ now) where
    snapshot-absent :
        (ss : List Shard) (j : ℕ) (o : Option Entry)
        → ((i : ℕ) → i < length ss → Ordered (get_or ss i (new_shard 1)).table)
        → ((i : ℕ) → i < length ss → find (get_or ss i (new_shard 1)).table q ≡ none)
        → overlay (in_force now) (snapshot_from clock j ss) q o ≡ o
    unfolding snapshot_from overlay
    snapshot-absent [] j o v a = refl
    snapshot-absent (s ∷ ss) j o v a =
        overlay-append (in_force now) (Shard.live_entries (clock j) s)
          (snapshot_from clock (suc j) ss) q o
        ∙ snapshot-absent ss (suc j) (overlay (in_force now) (Shard.live_entries (clock j) s) q o)
            (λ i h. v (suc i) (omega (arith, h))) (λ i h. a (suc i) (omega (arith, h)))
        ∙ overlay-shard (clock j) s o (read_before j) (v 0 (omega arith))
        ∙ ap (λ m. seen now m o) (a 0 (omega arith))

    -- The shard `k` is the only one that has the key.
    snapshot-found :
        (ss : List Shard) (j k : ℕ) (o : Option Entry)
        → k < length ss
        → ((i : ℕ) → i < length ss → Ordered (get_or ss i (new_shard 1)).table)
        → ((i : ℕ) → i < length ss → k ≢ i → find (get_or ss i (new_shard 1)).table q ≡ none)
        → overlay (in_force now) (snapshot_from clock j ss) q o
          ≡ seen now (find (get_or ss k (new_shard 1)).table q) o
    unfolding snapshot_from
    snapshot-found [] j k o h v a = absurd (omega arith)
    snapshot-found (s ∷ ss) j zero o h v a =
        overlay-append (in_force now) (Shard.live_entries (clock j) s)
          (snapshot_from clock (suc j) ss) q o
        ∙ snapshot-absent ss (suc j) (overlay (in_force now) (Shard.live_entries (clock j) s) q o)
            (λ i h. v (suc i) (omega (arith, h)))
            (λ i h. a (suc i) (omega (arith, h)) (λ e. omega (arith, e)))
        ∙ overlay-shard (clock j) s o (read_before j) (v 0 (omega arith))
    snapshot-found (s ∷ ss) j (suc k) o h v a =
        overlay-append (in_force now) (Shard.live_entries (clock j) s)
          (snapshot_from clock (suc j) ss) q o
        ∙ ap (overlay (in_force now) (snapshot_from clock (suc j) ss) q) (
            overlay-shard (clock j) s o (read_before j) (v 0 (omega arith))
            ∙ ap (λ m. seen now m o) (a 0 (omega arith) (λ e. omega (arith, e))))
        ∙ snapshot-found ss (suc j) k o (omega (arith, h)) (λ i h. v (suc i) (omega (arith, h)))
            (λ i h ne. a (suc i) (omega (arith, h)) (λ e. ne (omega (arith, e))))

-- A reader after `now` does not see an entry that had expired at `now`.
live_value-seen :
    (now later : ℕ) (m : Option Entry)
    → now ≤ later
    → live_value later (seen now m none) ≡ live_value later m
unfolding live_value is_expired_at
live_value-seen now later none h = refl
live_value-seen now later (some e) h = ground (arith, h)

-- A restart through a snapshot. A sound database in which no shard holds a key of another shard is snapshot,
-- with clock readings up to the moment `now`, and at `now` the at most 2⁵⁶ entries are restored into another
-- sound database, of whatever number of shards, with at most 2⁵⁸ buckets in each. From then on `get` of every key
-- gives, in the restored database, what it would have given in the first one.
pub get-restart :
    (sz : Sizes) (clock : ℕ → ℕ) (now later : ℕ) (db fresh : Database) (q : Bytes)
    → IsSound db
    → IsRouted db
    → ((i : ℕ) → clock i ≤ now)
    → now ≤ later
    → IsSound fresh
    → ((i : ℕ) → i < length fresh.shards → Narrow (shard_at fresh i).table)
    → length (snapshot clock db) ≤ 2 ^ 56
    → (Engine.get later q (restore sz now (snapshot clock db) fresh).0).1
      ≡ (Engine.get later q db).1
unfolding snapshot
get-restart sz clock now later db fresh q v routed before h w narrow few =
    let k = shard_index_for db q in
    (get-restore sz now later (snapshot_from clock 0 db.shards) fresh q w narrow few).1
    ∙ ap (live_value later) (
        snapshot-found now q clock before db.shards 0 k none (shard_index-lt db q v) v.each
          (λ i lt ne. routed i q lt ne))
    ∙ live_value-seen now later (find (shard_at db k).table q) h
    ∙ sym (get-live later q db)
