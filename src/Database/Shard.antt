-- ===== src/Database/Shard.antt =====
-- src/Database.cpp: what the methods of `Database` do inside one shard, while they hold its lock.
-- The clock is read by the caller. `none` is a read through a dangling pointer, or a loop that does
-- not end within its fuel.
use redis_like_in_memory_dat.Base.{
  ℕ, zero, suc, ◌+◌, ◌-◌, ◌/◌, ◌%◌, min, Bytes, List, Option, none, some, Bool, true, false, not,
  ◌&&◌, if◌then◌else◌, ◌==◌, ltb, leb, add64, length,
}
use redis_like_in_memory_dat.Entry.{Entry, is_expired_at}
use redis_like_in_memory_dat.HashTable.Sweep.{
  clear, entries_where, keys_where, remove_if, touch, evict_oldest,
}
use redis_like_in_memory_dat.HashTable.Table.{
  is_endless, HashTable, Sizes, new, memory_usage, find, put, set_expiration, remove,
}

pub record Shard : Type 0 where
  pub table : HashTable
  pub sweep_cursor : ℕ
  pub evicted : ℕ
  pub max_memory_bytes : ℕ

pub data SetOutcome : Type 0 where
  inserted updated rejected : SetOutcome

-- `Shard(buckets)`
abbrev pub new_shard : ℕ → Shard
new_shard buckets = record {
  table = new buckets;
  sweep_cursor = 0;
  evicted = 0;
  max_memory_bytes = 0;
}

-- The test of the loop in `evictToFit`.
abbrev pub too_big : Sizes → Shard → Bool
too_big sz s = ltb s.max_memory_bytes (memory_usage sz s.table) && ltb 1 s.table.size

-- The loop, on fuel.
unfoldable pub evict_loop : Sizes → ℕ → Shard → Option Shard
evict_loop sz zero s = none
evict_loop sz (suc fuel) s = elim (too_big sz s) [
  | false ↦ some s
  | true ↦ elim (evict_oldest s.table) [
    | none ↦ none
    | some (t, none) ↦ some (record s { table = t })
    | some (t, some key) ↦ evict_loop sz fuel (record s { table = t; evicted = add64 s.evicted 1 })
  ]
]

-- Each round takes one entry out, so one round more than there are entries is enough.
unfoldable pub evict_to_fit : Sizes → Shard → Option Shard
evict_to_fit sz s = if s.max_memory_bytes == 0 then some s else evict_loop sz (suc s.table.size) s

abbrev pub outcome_of : Bool → SetOutcome
outcome_of fresh = if fresh then inserted else updated

-- Both overloads of `set`, after the test of the limit: `deadline` is `Clock::now() + ttl` if there
-- is a time to live.
unfoldable pub store : Sizes → Bytes → Bytes → Option ℕ → Shard → Option (Shard × SetOutcome)
store sz key value deadline s =
    let (t, fresh) = put sz key value s.table in
    let t' : HashTable = elim deadline [ none ↦ t | some d ↦ set_expiration key (some d) t ] in
    if is_endless t then none else elim (evict_to_fit sz (record s { table = t' })) [
      | none ↦ none
      | some s' ↦ some (s', outcome_of fresh)
    ]

-- The live value of an entry at an instant.
unfoldable pub live_value : ℕ → Option Entry → Option Bytes
live_value now none = none
live_value now (some e) = if is_expired_at e now then none else some e.value

-- `get`: a hit is a use, if the shard has a limit.
unfoldable pub get : ℕ → Bytes → Shard → Shard × Option Bytes
get now key s = elim (live_value now (find s.table key)) [
  | none ↦ (s, none)
  | some v ↦
      (if s.max_memory_bytes == 0 then s else record s { table = (touch key s.table).0 }, some v)
]

-- `std::chrono::ceil<std::chrono::seconds>` of a number of nanoseconds.
abbrev pub ceil_seconds : ℕ → ℕ
ceil_seconds ns = (ns + 999999999) / 1000000000

-- `ttl`, in seconds, rounded up.
unfoldable pub ttl : ℕ → Bytes → Shard → Option ℕ
ttl now key s = elim (find s.table key) [
  | none ↦ none
  | some e ↦ elim e.expiration [
    | none ↦ none
    | some t ↦ if leb t now then none else some (ceil_seconds (t - now))
  ]
]

unfoldable pub exists : ℕ → Bytes → Shard → Bool
exists now key s = elim (find s.table key) [ none ↦ false | some e ↦ not (is_expired_at e now) ]

-- `del`: an expired entry is removed and reported as a miss.
unfoldable pub del : ℕ → Bytes → Shard → Shard × Bool
del now key s = elim (find s.table key) [
  | none ↦ (s, false)
  | some e ↦ (record s { table = (remove key s.table).0 }, not (is_expired_at e now))
]

unfoldable pub live_keys : ℕ → Shard → List Bytes
live_keys now s = keys_where (λ e. not (is_expired_at e now)) s.table

unfoldable pub live_entries : ℕ → Shard → List Entry
live_entries now s = entries_where (λ e. not (is_expired_at e now)) s.table

-- One shard's turn in `removeExpired`: up to `per_shard` buckets from the cursor on.
unfoldable pub remove_expired : ℕ → ℕ → Shard → Shard × ℕ
remove_expired per_shard now s =
    let buckets = length s.table.buckets in
    if buckets == 0
    then (s, 0)
    else (let cursor = if leb buckets s.sweep_cursor then 0 else s.sweep_cursor in
        let scanned = min per_shard buckets in
        let (t, removed) = remove_if cursor scanned (λ e. is_expired_at e now) s.table in
        (record s { table = t; sweep_cursor = add64 cursor scanned % buckets }, removed))

unfoldable pub clear_shard : Shard → Shard
clear_shard s = record s { table = clear s.table; sweep_cursor = 0 }

-- `put` and `find(key)->expiration = …` of `restore`.
unfoldable pub restore_entry : Sizes → Entry → Shard → Shard
restore_entry sz e s =
    let t = (put sz e.key e.value s.table).0 in
    record s { table = elim e.expiration [ none ↦ t | some d ↦ set_expiration e.key (some d) t ] }
