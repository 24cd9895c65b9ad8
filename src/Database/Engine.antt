-- ===== src/Database/Engine.antt =====
-- include/Database.h and src/Database.cpp: the class `Database`. A method takes the sizes of the
-- platform and the instants at which it reads the clock; `none` is a fault of a shard.
use redis_like_in_memory_dat.Base.{
  ℕ, zero, suc, ◌+◌, ◌-◌, ◌*◌, ◌/◌, ◌^◌, max, Bytes, List, [], ◌∷◌, ◌++◌, map, Option, none, some,
  Bool, true, false, not, if◌then◌else◌, ◌==◌, ltb, leb, add64, mul64, length, get_or, set,
  replicate, bit_and, ◌&&◌,
}
use redis_like_in_memory_dat.Entry.{Entry, is_expired_at}
use redis_like_in_memory_dat.HashTable.Hash.{hash_key}
use redis_like_in_memory_dat.HashTable.Table.{Sizes, footprint_estimate, memory_usage}
use redis_like_in_memory_dat.Database.Shard
use redis_like_in_memory_dat.Database.Shard.{
  Shard, SetOutcome, rejected, new_shard, store, evict_to_fit,
}

pub record Database : Type 0 where
  pub shards : List Shard
  pub shard_mask : ℕ
  pub shard_shift : ℕ
  pub max_memory_bytes : ℕ

-- `while (result < n) result *= 2`, on fuel; 64 rounds reach every `std::size_t`.
unfoldable pub round_up_loop : ℕ → ℕ → ℕ → ℕ
round_up_loop zero n result = result
round_up_loop (suc fuel) n result =
    let more = round_up_loop fuel n (mul64 result 2) in if ltb result n then more else result

unfoldable pub round_up_to_power_of_two : ℕ → ℕ
unfolding round_up_loop
round_up_to_power_of_two n = round_up_loop 64 n 1

-- `while ((1 << bits) < n) ++bits`
unfoldable pub log2_loop : ℕ → ℕ → ℕ → ℕ
log2_loop zero n bits = bits
log2_loop (suc fuel) n bits =
    let more = log2_loop fuel n (bits + 1) in if ltb (2 ^ bits) n then more else bits

unfoldable pub log2_of_power_of_two : ℕ → ℕ
unfolding log2_loop
log2_of_power_of_two n = log2_loop 64 n 0

-- `Database(initialBucketCount, shardCount)`
unfoldable pub new : ℕ → ℕ → Database
new bucket_count shard_count =
    let shards = round_up_to_power_of_two (max shard_count 1) in
    record {
      shards = replicate shards (new_shard (max (bucket_count / shards) 1));
      shard_mask = if ltb 1 shards then shards - 1 else 0;
      shard_shift = if ltb 1 shards then 64 - log2_of_power_of_two shards else 0;
      max_memory_bytes = 0;
    }

-- The shard of a key: the high bits of its hash.
unfoldable pub shard_index_for : Database → Bytes → ℕ
shard_index_for db key =
    if db.shard_mask == 0 then 0 else bit_and (hash_key key / 2 ^ db.shard_shift) db.shard_mask

-- `*shards_[i]`; the default is never read, since the index is in range.
abbrev pub shard_at : Database → ℕ → Shard
shard_at db i = get_or db.shards i (new_shard 1)

abbrev pub shard_for : Database → Bytes → Shard
shard_for db key = shard_at db (shard_index_for db key)

abbrev pub put_shard : Database → Bytes → Shard → Database
put_shard db key s = record db { shards = set db.shards (shard_index_for db key) s }

unfoldable pub fits_within_limit : Sizes → Database → Bytes → Bytes → Bool
fits_within_limit sz db key value =
    if db.max_memory_bytes == 0
    then true
    else leb (footprint_estimate sz key value) db.max_memory_bytes

abbrev store_in : Database → Bytes → Option (Shard × SetOutcome) → Option (Database × SetOutcome)
store_in db key none = none
store_in db key (some (s, o)) = some (put_shard db key s, o)

-- The two overloads of `set`: without and with a time to live, whose deadline the second computes.
unfoldable pub set_until :
    Sizes → Bytes → Bytes → Option ℕ → Database → Option (Database × SetOutcome)
set_until sz key value deadline db =
    if not (fits_within_limit sz db key value)
    then some (db, rejected)
    else store_in db key (store sz key value deadline (shard_for db key))

unfoldable pub set_value : Sizes → Bytes → Bytes → Database → Option (Database × SetOutcome)
unfolding set_until
set_value sz key value db = set_until sz key value none db

abbrev pub nanos : ℕ → ℕ
nanos seconds = seconds * 1000000000

-- A deadline that a `Clock::time_point` of 64 bits does not hold is an overflow, which is undefined: a fault.
unfoldable pub set_with_ttl :
    Sizes → Bytes → Bytes → ℕ → ℕ → Database → Option (Database × SetOutcome)
unfolding set_until
set_with_ttl sz key value seconds now db =
    if leb (2 ^ 63) (now + nanos seconds) && fits_within_limit sz db key value
    then none
    else set_until sz key value (some (now + nanos seconds)) db

unfoldable pub get : ℕ → Bytes → Database → Database × Option Bytes
get now key db = let (s, v) = Shard.get now key (shard_for db key) in (put_shard db key s, v)

unfoldable pub ttl : ℕ → Bytes → Database → Option ℕ
ttl now key db = Shard.ttl now key (shard_for db key)

unfoldable pub del : ℕ → Bytes → Database → Database × Bool
del now key db = let (s, b) = Shard.del now key (shard_for db key) in (put_shard db key s, b)

unfoldable pub exists : ℕ → Bytes → Database → Bool
exists now key db = Shard.exists now key (shard_for db key)

-- The clock is read once for each shard; `clock i` is the reading at shard `i`.
unfoldable pub keys_from : (ℕ → ℕ) → ℕ → List Shard → List Bytes
keys_from clock i [] = []
keys_from clock i (s ∷ ss) = Shard.live_keys (clock i) s ++ keys_from clock (suc i) ss

unfoldable pub keys : (ℕ → ℕ) → Database → List Bytes
unfolding keys_from
keys clock db = keys_from clock 0 db.shards

unfoldable pub snapshot_from : (ℕ → ℕ) → ℕ → List Shard → List Entry
snapshot_from clock i [] = []
snapshot_from clock i (s ∷ ss) = Shard.live_entries (clock i) s ++ snapshot_from clock (suc i) ss

unfoldable pub snapshot : (ℕ → ℕ) → Database → List Entry
unfolding snapshot_from
snapshot clock db = snapshot_from clock 0 db.shards

-- A total over the shards.
unfoldable pub sum_shards : (Shard → ℕ) → List Shard → ℕ → ℕ
sum_shards f [] total = total
sum_shards f (s ∷ ss) total = sum_shards f ss (add64 total (f s))

abbrev pub size : Database → ℕ
size db = sum_shards (λ s. s.table.size) db.shards 0

abbrev pub bucket_count : Database → ℕ
bucket_count db = sum_shards (λ s. length s.table.buckets) db.shards 0

abbrev pub memory_total : Sizes → Database → ℕ
memory_total sz db = sum_shards (λ s. memory_usage sz s.table) db.shards 0

abbrev pub evicted_count : Database → ℕ
evicted_count db = sum_shards (λ s. s.evicted) db.shards 0

unfoldable pub empty_from : List Shard → Bool
empty_from [] = true
empty_from (s ∷ ss) = if not (s.table.size == 0) then false else empty_from ss

-- The loop of `removeExpired` over the shards.
unfoldable pub expire_from : ℕ → (ℕ → ℕ) → ℕ → List Shard → List Shard × ℕ
expire_from per_shard clock i [] = ([], 0)
expire_from per_shard clock i (s ∷ ss) =
    let (s', k) = Shard.remove_expired per_shard (clock i) s in
    let (ss', k') = expire_from per_shard clock (suc i) ss in (s' ∷ ss', k + k')

unfoldable pub remove_expired : ℕ → (ℕ → ℕ) → Database → Database × ℕ
remove_expired max_buckets clock db =
    if max_buckets == 0
    then (db, 0)
    else (let (ss, k) = expire_from (max (max_buckets / length db.shards) 1) clock 0 db.shards in
        (record db { shards = ss }, k))

unfoldable pub clear : Database → Database
clear db = record db { shards = map Shard.clear_shard db.shards }

-- The loop of `restore` over the entries of a snapshot, and how many it stores.
unfoldable pub restore_from : Sizes → ℕ → List Entry → Database → ℕ → Database × ℕ
restore_from sz now [] db stored = (db, stored)
restore_from sz now (e ∷ es) db stored =
    restore_from sz now es
      (if is_expired_at e now
        then db
        else put_shard db e.key (Shard.restore_entry sz e (shard_for db e.key)))
      (if is_expired_at e now then stored else add64 stored 1)

unfoldable pub restore : Sizes → ℕ → List Entry → Database → Database × ℕ
restore sz now entries db = restore_from sz now entries (clear db) 0

-- The loop of `setMaxMemory`: the slice is set and the shard trimmed.
unfoldable pub limit_from : Sizes → ℕ → List Shard → Option (List Shard)
limit_from sz per_shard [] = some []
limit_from sz per_shard (s ∷ ss) =
    elim (evict_to_fit sz (record s { max_memory_bytes = per_shard })) [
      | none ↦ none
      | some s' ↦ elim (limit_from sz per_shard ss) [ none ↦ none | some ss' ↦ some (s' ∷ ss') ]
    ]

unfoldable pub set_max_memory : Sizes → ℕ → Database → Option Database
set_max_memory sz bytes db =
    let per_shard = if bytes == 0 then 0 else max (bytes / length db.shards) 1 in
    elim (limit_from sz per_shard db.shards) [
      | none ↦ none
      | some ss ↦ some (record db { shards = ss; max_memory_bytes = bytes })
    ]
