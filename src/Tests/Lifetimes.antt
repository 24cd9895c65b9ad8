-- ===== src/Tests/Lifetimes.antt =====
-- A new database that serves requests, its restart through a snapshot, and a sweep of a table.
use redis_like_in_memory_dat.Base.{
  ℕ, ◌≤◌, ◌<◌, ◌≡◌, ◌⊎◌, refl, Bytes, codes, str_eq, List, [], ◌∷◌, Option, none, some, true,
  length, arith,
}
use redis_like_in_memory_dat.Database.Engine
use redis_like_in_memory_dat.Database.Engine.{Database, shard_at, set_max_memory, restore, snapshot}
use redis_like_in_memory_dat.Database.Lifetime.{new-Refines, serve_all-Shows}
use redis_like_in_memory_dat.Database.Limit.{slice_of, set_max_memory_fits}
use redis_like_in_memory_dat.Database.New.{shard_at-new}
use redis_like_in_memory_dat.Database.Refined.{Shows}
use redis_like_in_memory_dat.Database.Requests
use redis_like_in_memory_dat.Database.Requests.{Request, serve_all, nothing, effects}
use redis_like_in_memory_dat.Database.Restart.{get-restart}
use redis_like_in_memory_dat.Database.Restored.{in_force, get-restore}
use redis_like_in_memory_dat.Database.Servable.{IsServable}
use redis_like_in_memory_dat.Database.Shard
use redis_like_in_memory_dat.Database.Shard.{live_value}
use redis_like_in_memory_dat.Entry.{Entry, is_expired_at}
use redis_like_in_memory_dat.HashTable.Chain
use redis_like_in_memory_dat.HashTable.Hash
use redis_like_in_memory_dat.HashTable.Sweep
use redis_like_in_memory_dat.HashTable.Hash.{round_up_to_power_of_two}
use redis_like_in_memory_dat.HashTable.Listed.{overlay}
use redis_like_in_memory_dat.HashTable.Narrow.{Narrow}
use redis_like_in_memory_dat.HashTable.Sweep.{remove_if}
use redis_like_in_memory_dat.HashTable.Sweeping.{remove_if-IsValid}
use redis_like_in_memory_dat.HashTable.Table
use redis_like_in_memory_dat.HashTable.Table.{memory_usage}
use redis_like_in_memory_dat.HashTable.Valid.{IsValid}
use redis_like_in_memory_dat.Tests.Databases.{fresh, fresh-IsSound}
use redis_like_in_memory_dat.Tests.Tables.{sizes, key_a, key_b, two, two-IsValid'}

abbrev requests : List Request
requests =
    Request.set_value key_a (codes "1")
    ∷ Request.set_with_ttl key_b (codes "22") 10 5
    ∷ Request.remove_expired 128 (λ i. 6)
    ∷ Request.del 7 key_a
    ∷ Request.set_max_memory 1000
    ∷ Request.get 8 key_b
    ∷ []

serve_all-Shows_example :
    (db : Database) × (serve_all sizes requests (Engine.new 64 4) ≡ some db)
    × IsServable 6 db
    × Shows 100 db (effects sizes requests nothing)
serve_all-Shows_example =
    serve_all-Shows 64 4 (omega arith) (omega arith) sizes 100 requests (omega arith)
      (omega arith, ((λ i. omega arith), tt))

fresh-Narrow : (i : ℕ) → i < length fresh.shards → Narrow (shard_at fresh i).table
unfolding Engine.round_up_to_power_of_two Table.new round_up_to_power_of_two
fresh-Narrow i h = rw (shard_at-new 64 4 (omega arith) i h) (omega arith)

abbrev entries : List Entry
entries =
    record { key = key_a; value = codes "1"; expiration = none }
    ∷ record { key = key_a; value = codes "2"; expiration = some 50 }
    ∷ []

get-restore_example :
    IsServable 2 (restore sizes 10 entries fresh).0
    × ((Engine.get 60 key_a (restore sizes 10 entries fresh).0).1
        ≡ live_value 60 (overlay (in_force 10) entries key_a none))
get-restore_example =
    get-restore sizes 10 60 entries fresh key_a fresh-IsSound fresh-Narrow (omega arith)

set_max_memory_fits_example :
    (db : Database) × (set_max_memory sizes 1000 fresh ≡ some db)
    × IsServable 0 db
    × ((i : ℕ)
        → i < length db.shards
        → (memory_usage sizes (shard_at db i).table ≤ slice_of 1000 fresh)
          ⊎ ((shard_at db i).table.size ≤ 1))
    × ((now : ℕ) (q : Bytes)
        → ((Engine.get now q db).1 ≡ (Engine.get now q fresh).1) ⊎ ((Engine.get now q db).1 ≡ none))
set_max_memory_fits_example =
    set_max_memory_fits sizes 1000 0 fresh (new-Refines 64 4 (omega arith) (omega arith) 0).servable
      (omega arith) (omega arith)

remove_if-IsValid_example : (ys : List ℕ) × IsValid (remove_if 1 3 (λ e. true) two).0 ys
remove_if-IsValid_example = remove_if-IsValid 1 3 (λ e. true) two (1 ∷ 0 ∷ []) two-IsValid'

-- The database of one shard after two sets.
abbrev two_sets : List Request
two_sets = Request.set_value key_a (codes "1") ∷ Request.set_with_ttl key_b (codes "22") 10 5 ∷ []

abbrev served : Option Database → Database
served none = fresh
served (some db) = db

abbrev stored : Database
stored = served (serve_all sizes two_sets (Engine.new 1 1))

stored-IsServable : IsServable 2 stored
stored-IsServable =
    let (db, runs, v, shows) =
      serve_all-Shows 1 1 (omega arith) (omega arith) sizes 9 two_sets (omega arith)
        (omega arith, tt) in
    rw runs v

two_saved : length (snapshot (λ i. 6) stored) ≡ 2
unfolding Requests.serve_all Requests.serve Engine.set_value Engine.set_with_ttl Engine.set_until
    Engine.fits_within_limit Engine.new Engine.round_up_to_power_of_two Engine.round_up_loop
    Engine.log2_of_power_of_two Engine.log2_loop Engine.shard_index_for Engine.snapshot
    Engine.snapshot_from Shard.store Shard.evict_to_fit Shard.live_entries Sweep.entries_where
    Sweep.entries_of Chain.entries_in Chain.find_node Chain.assign Hash.fnv1a Hash.avalanche
    Hash.hash_key Hash.round_up_to_power_of_two Hash.bucket_index Table.new Table.put
    Table.ensure_buckets Table.overwrite Table.insert_new Table.grow_if_needed Table.resize
    Table.find Table.find_in Table.set_expiration Table.resize_to Table.raise_target
    Table.relink_all is_expired_at str_eq
two_saved = refl

get-restart_example :
    (Engine.get 9 key_b (restore sizes 8 (snapshot (λ i. 6) stored) fresh).0).1
    ≡ (Engine.get 9 key_b stored).1
get-restart_example =
    get-restart sizes (λ i. 6) 8 9 stored fresh key_b stored-IsServable.sound
      stored-IsServable.routed (λ i. omega arith) (omega arith) fresh-IsSound fresh-Narrow
      (omega (arith, two_saved))
