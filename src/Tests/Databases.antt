-- ===== src/Tests/Databases.antt =====
-- A database of four shards, what is read from it after writes, and the protocol's helpers.
use redis_like_in_memory_dat.Base.{ℕ, ◌≤◌, ◌≡◌, refl, codes, some, none, true, not, arith}
use redis_like_in_memory_dat.Database.Engine
use redis_like_in_memory_dat.Database.Engine.{
  Database, shard_for, set_until, set_with_ttl, fits_within_limit, nanos,
}
use redis_like_in_memory_dat.Database.Expired.{get-remove_expired}
use redis_like_in_memory_dat.Database.New.{new-IsSound, shard_for-new, filled}
use redis_like_in_memory_dat.Database.Readers.{set_own, ttl_live, ttl_over}
use redis_like_in_memory_dat.Database.Shard.{SetOutcome, live_value, outcome_of}
use redis_like_in_memory_dat.Database.Sound.{IsSound, AllFit}
use redis_like_in_memory_dat.Database.Store.{dated_entry}
use redis_like_in_memory_dat.HashTable.Grow.{Fits}
use redis_like_in_memory_dat.HashTable.Buckets.{total}
use redis_like_in_memory_dat.HashTable.Hash.{round_up_to_power_of_two}
use redis_like_in_memory_dat.HashTable.Table
use redis_like_in_memory_dat.HashTable.Table.{HashTable, contains, find}
use redis_like_in_memory_dat.Tests.Tables.{sizes, key_a}

abbrev pub fresh : Database
fresh = Engine.new 64 4

pub fresh-IsSound : IsSound fresh
fresh-IsSound = new-IsSound 64 4 (omega arith)

shard-Fits : Fits (filled 64 4 (omega arith)).table
unfolding Engine.round_up_to_power_of_two Table.new round_up_to_power_of_two total
shard-Fits = record { few = omega arith; narrow = omega arith }

pub fresh-AllFit : AllFit fresh
fresh-AllFit key = rw (shard_for-new 64 4 (omega arith) key) shard-Fits

pub roomy : fits_within_limit sizes fresh key_a (codes "1") ≡ true
unfolding fits_within_limit Engine.new
roomy = refl

unlimited : (shard_for fresh key_a).max_memory_bytes ≡ 0
unlimited = rw (shard_for-new 64 4 (omega arith) key_a) refl

set_own_example :
    (db : Database) × (set_until sizes key_a (codes "1") (some 9) fresh
      ≡ some (db, outcome_of (not (contains (shard_for fresh key_a).table key_a))))
    × IsSound db
    × ((Engine.get 5 key_a db).1 ≡ live_value 5 (some (dated_entry key_a (codes "1") (some 9))))
set_own_example = set_own sizes key_a (codes "1") (some 9) fresh fresh-IsSound fresh-AllFit roomy 5

ttl_live_example :
    (db : Database) × (o : SetOutcome) × (r : ℕ) × (set_with_ttl sizes key_a
        (codes "1")
        10
        100
        fresh
      ≡ some (db, o))
    × ((Engine.get 200 key_a db).1 ≡ some (codes "1"))
    × (Engine.ttl 200 key_a db ≡ some r)
    × (1 ≤ r)
    × (r ≤ 10)
ttl_live_example =
    ttl_live sizes key_a (codes "1") 10 100 fresh fresh-IsSound fresh-AllFit roomy (omega arith)
      (omega arith) 200 (omega arith) (omega arith)

ttl_over_example :
    (db : Database) × (o : SetOutcome) × (set_with_ttl sizes key_a (codes "1") 10 100 fresh
      ≡ some (db, o))
    × ((Engine.get 10000000100 key_a db).1 ≡ none)
    × (Engine.ttl 10000000100 key_a db ≡ none)
ttl_over_example =
    ttl_over sizes key_a (codes "1") 10 100 fresh fresh-IsSound fresh-AllFit roomy (omega arith)
      (omega arith) 10000000100 (omega arith)

get-remove_expired_example :
    (Engine.get 9 key_a (Engine.remove_expired 128 (λ i. 5) fresh).0).1
    ≡ (Engine.get 9 key_a fresh).1
get-remove_expired_example =
    get-remove_expired 128 9 (λ i. 5) fresh key_a fresh-IsSound (λ i. omega arith)
