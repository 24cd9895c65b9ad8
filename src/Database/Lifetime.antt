-- ===== src/Database/Lifetime.antt =====
-- A database from its construction on: any sequence of requests is served without a fault.
use redis_like_in_memory_dat.Base.{
  ℕ, suc, ◌+◌, ◌/◌, ◌^◌, ◌≤◌, ◌<◌, ◌≡◌, refl, ap, ◌∙◌, max, Bytes, List, [], ◌∷◌, none, some,
  length, length-replicate, arith, inl,
}
use redis_like_in_memory_dat.Database.Engine
use redis_like_in_memory_dat.Database.Engine.{
  Database, shard_index_for, shard_at, shard_for, nanos, set_until,
}
use redis_like_in_memory_dat.Database.Expired.{get-remove_expired}
use redis_like_in_memory_dat.Database.New.{new-IsSound, shards, filled, shard_at-new}
use redis_like_in_memory_dat.Database.Refined.{
  Shows, Refines, set_until-Refines, unseen, get-Refines, del-Refines, limit-Refines, clear-Refines,
}
use redis_like_in_memory_dat.Database.Requests.{
  Request, set_value, set_with_ttl, get, del, remove_expired, set_max_memory, clear, serve,
  serve_all, Contents, nothing, effect, effects, IsTimely,
}
use redis_like_in_memory_dat.Database.Servable.{Holds, IsServable, IsServable-weaken}
use redis_like_in_memory_dat.Database.Shard.{Shard, live_value}
use redis_like_in_memory_dat.Database.Sound.{get-live, shard_index-lt}
use redis_like_in_memory_dat.Database.Swept.{remove_expired-IsServable}
use redis_like_in_memory_dat.Database.Writes.{set_with_ttl-set_until}
use redis_like_in_memory_dat.HashTable.Chain.{Chain}
use redis_like_in_memory_dat.HashTable.Hash.{round_up_to_power_of_two}
use redis_like_in_memory_dat.HashTable.Narrow.{round_up-le}
use redis_like_in_memory_dat.HashTable.New.{new-IsValid, find-new}
use redis_like_in_memory_dat.HashTable.Table
use redis_like_in_memory_dat.HashTable.Table.{Sizes, find}

serve-Refines :
    (sz : Sizes) (later m : ℕ) (request : Request) (db : Database) (c : Contents)
    → Refines later m db c
    → m < 2 ^ 56
    → IsTimely later (request ∷ [])
    → (db' : Database) × (serve sz request db ≡ some db')
      × Refines later (suc m) db' (effect sz request c)
unfolding serve effect Engine.set_value
serve-Refines sz later m (set_value key value) db c r lt b =
    set_until-Refines sz later m db c r lt key value none
serve-Refines sz later m (set_with_ttl key value seconds now) db c r lt b =
    rw (set_with_ttl-set_until sz key value seconds now db b.0)
      (set_until-Refines sz later m db c r lt key value (some (now + nanos seconds)))
serve-Refines sz later m (get now key) db c r lt b =
    (_, refl, get-Refines sz later m db c r lt now key)
serve-Refines sz later m (del now key) db c r lt b =
    (_, refl, unfold effect in del-Refines sz later m db c r lt now key)
serve-Refines sz later m (remove_expired buckets clock) db c r lt b =
    let (v, slices, limit) = remove_expired-IsServable buckets m clock db r.servable in
    (
      _,
      refl,
      unseen sz later m db c r lt (Engine.remove_expired buckets clock db).0 v limit slices
          (λ q. get-remove_expired buckets later clock db q r.servable.sound b.0),
    )
serve-Refines sz later m (set_max_memory bytes) db c r lt b =
    limit-Refines sz later m db c r lt bytes
serve-Refines sz later m clear db c r lt b = (_, refl, clear-Refines sz later m db c r lt)

IsTimely-tail :
    (later : ℕ) (r : Request) (rs : List Request)
    → IsTimely later (r ∷ rs)
    → IsTimely later (r ∷ []) × IsTimely later rs
IsTimely-tail later (remove_expired buckets clock) rs (h, k) = ((h, tt), k)
IsTimely-tail later (set_value key value) rs k = (tt, k)
IsTimely-tail later (set_with_ttl key value seconds now) rs (h, k) = ((h, tt), k)
IsTimely-tail later (get now key) rs k = (tt, k)
IsTimely-tail later (del now key) rs k = (tt, k)
IsTimely-tail later (set_max_memory bytes) rs k = (tt, k)
IsTimely-tail later clear rs k = (tt, k)

serve_all-Refines :
    (sz : Sizes) (later m : ℕ) (rs : List Request) (db : Database) (c : Contents)
    → Refines later m db c
    → m + length rs ≤ 2 ^ 56
    → IsTimely later rs
    → (db' : Database) × (serve_all sz rs db ≡ some db')
      × Refines later (m + length rs) db' (effects sz rs c)
unfolding serve_all effects
serve_all-Refines sz later m [] db c r h b = let e : m + 0 ≡ m = omega arith in (db, refl, rw e r)
serve_all-Refines sz later m (request ∷ rs) db c r h b =
    let (first, rest) = IsTimely-tail later request rs b in
    let (db', runs, r') = serve-Refines sz later m request db c r (omega (arith, h)) first in
    let (db'', runs', r'') =
      serve_all-Refines sz later (suc m) rs db' (effect sz request c) r' (omega (arith, h)) rest in
    let e : m + suc (length rs) ≡ suc m + length rs = omega arith in
    (db'', rw (runs, serve_all) runs', rw e r'')

module _ (bucket_count shard_count : ℕ) (few : shard_count ≤ 2 ^ 63)
    (narrow : bucket_count ≤ 2 ^ 58) where
  filled-Holds : Holds 0 (filled bucket_count shard_count few).table
  unfolding Table.new
  filled-Holds =
      let n = max (bucket_count / shards bucket_count shard_count few) 1 in
      record {
        few = omega (arith, (new-IsValid n).sized);
        narrow = omega (
          arith,
          length-replicate {A = Chain} (round_up_to_power_of_two n) [],
          round_up-le n (ground (arith, narrow)),
        );
      }

  pub new-Refines : (later : ℕ) → Refines later 0 (Engine.new bucket_count shard_count) nothing
  unfolding live_value
  new-Refines later =
      let db = Engine.new bucket_count shard_count in
      let at = shard_at-new bucket_count shard_count few in
      let empty : (i : ℕ) (q : Bytes) → i < length db.shards → find (shard_at db i).table q ≡ none =
        λ i q h. ap (λ (s : Shard). find s.table q) (at i h) ∙ find-new _ q in
      let sound = new-IsSound bucket_count shard_count few in
      let inside = λ (q : Bytes). shard_index-lt db q sound in
      record {
        servable = record {
          sound = sound;
          routed = λ i q h ne. empty i q h;
          holds = λ i h. rw (at i h) filled-Holds;
        };
        limit = unfold Engine.new in refl;
        slices =
            λ e q. ap (λ (s : Shard). s.max_memory_bytes) (at (shard_index_for db q) (inside q));
        shows = λ q. inl (
            get-live later q db
            ∙ ap (live_value later) (empty (shard_index_for db q) q (inside q)));
      }

  -- A new database, with up to 2⁶³ shards and 2⁵⁸ buckets asked for, serves any sequence of at most 2⁵⁶ sets, reads,
  -- deletions, sweeps, changes of the limit and clearings, if 64 bits hold the deadlines of the sets: no request is
  -- a fault or a loop without end. The database is then sound, with each key in its own shard, and at a moment not before the clock readings of the
  -- sweeps every key reads as in a map to which the accepted sets, the deletions and the clearings were done, by its
  -- deadline, or as absent; the latter only if a limit other than zero was set.
  pub serve_all-Shows :
      (sz : Sizes) (later : ℕ) (rs : List Request)
      → length rs ≤ 2 ^ 56
      → IsTimely later rs
      → (db : Database) × (serve_all sz rs (Engine.new bucket_count shard_count) ≡ some db)
        × IsServable (length rs) db
        × Shows later db (effects sz rs nothing)
  serve_all-Shows sz later rs h b =
      let (db, runs, r) =
        serve_all-Refines sz later 0 rs (Engine.new bucket_count shard_count) nothing
          (new-Refines later) (omega (arith, h)) b in
      (db, runs, IsServable-weaken (0 + length rs) (length rs) db (omega arith) r.servable, r.shows)
