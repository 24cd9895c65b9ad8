-- ===== src/HashTable/Sweep.antt =====
-- src/HashTable.cpp: the methods of `HashTable` that walk the whole table, and eviction.
use redis_like_in_memory_dat.Base.{
  ℕ, zero, suc, ◌+◌, ◌%◌, min, max, Bytes, List, [], ◌∷◌, ◌++◌, map, Option, none, some, Bool, true,
  false, if◌then◌else◌, ◌==◌, ◌||◌, add64, length, get_or, set,
}
use redis_like_in_memory_dat.Entry.{Entry}
use redis_like_in_memory_dat.HashTable.Chain.{Chain, node_at, entries_in}
use redis_like_in_memory_dat.HashTable.Recency
use redis_like_in_memory_dat.HashTable.Table.{HashTable, find_in, release, remove}

-- `destroyChain` on every bucket, with the counters and the recency list reset.
unfoldable pub clear : HashTable → HashTable
clear t = record t {
  buckets = map (λ c. []) t.buckets;
  size = 0;
  entry_bytes = 0;
  recency = Recency.clear t.recency;
}

unfoldable pub entries_of : (Entry → Bool) → List Chain → List Entry
entries_of p [] = []
entries_of p (c ∷ cs) = entries_in p c ++ entries_of p cs

unfoldable pub entries_where : (Entry → Bool) → HashTable → List Entry
entries_where p t = entries_of p t.buckets

unfoldable pub keys_where : (Entry → Bool) → HashTable → List Bytes
keys_where p t = map (λ e. e.key) (entries_of p t.buckets)

unfoldable pub keys : HashTable → List Bytes
keys t = keys_where (λ e. true) t

-- The walk of `removeIf` along one chain: the nodes that stay, the table with the others released
-- in the order of the walk, and their number.
unfoldable pub sweep_chain : (Entry → Bool) → Chain → HashTable → Chain × HashTable × ℕ
sweep_chain p [] t = ([], t, 0)
sweep_chain p (n ∷ c) t = elim (p n.entry) [
  | true ↦ let (c', t', k) = sweep_chain p c (release n t) in (c', t', suc k)
  | false ↦ let (c', t', k) = sweep_chain p c t in (n ∷ c', t', k)
]

-- One round of the loop over the buckets.
unfoldable pub sweep_bucket : (Entry → Bool) → ℕ → HashTable → HashTable × ℕ
sweep_bucket p i t =
    let (c, t', k) = sweep_chain p (get_or t.buckets i []) t in
    (record t' { buckets = set t'.buckets i c }, k)

-- The rounds `offset`, `offset + 1`, … of the loop, `rounds` of them.
unfoldable pub sweep_from : (Entry → Bool) → ℕ → ℕ → ℕ → HashTable → HashTable × ℕ
sweep_from p first offset zero t = (t, 0)
sweep_from p first offset (suc rounds) t =
    let (t', k) = sweep_bucket p (add64 first offset % length t.buckets) t in
    let (t'', k') = sweep_from p first (suc offset) rounds t' in (t'', k + k')

unfoldable pub remove_if : ℕ → ℕ → (Entry → Bool) → HashTable → HashTable × ℕ
remove_if first buckets_to_scan p t =
    if length t.buckets == 0 || buckets_to_scan == 0
    then (t, 0)
    else sweep_from p first 0 (min buckets_to_scan (length t.buckets)) t

-- `touch`: false if the key is absent.
unfoldable pub touch : Bytes → HashTable → HashTable × Bool
touch key t = elim (find_in t.buckets key) [
  | none ↦ (t, false)
  | some n ↦ (record t { recency = Recency.promote n.addr t.recency }, true)
]

-- The key at one end of the recency list: `none` for a dangling pointer, which the source would
-- read through; `some none` for the empty list.
unfoldable pub key_at : Option ℕ → List Chain → Option (Option Bytes)
key_at none bs = some none
key_at (some a) bs = elim (node_at a bs) [ none ↦ none | some n ↦ some (some n.entry.key) ]

unfoldable pub most_recent_key : HashTable → Option (Option Bytes)
most_recent_key t = key_at t.recency.head t.buckets

unfoldable pub least_recent_key : HashTable → Option (Option Bytes)
least_recent_key t = key_at t.recency.tail t.buckets

-- `evictOldest`: the victim's key is copied out, and the key is removed. `none` is a fault.
unfoldable pub evict_oldest : HashTable → Option (HashTable × Option Bytes)
evict_oldest t = elim (least_recent_key t) [
  | none ↦ none
  | some none ↦ some (t, none)
  | some (some key) ↦ some ((remove key t).0, some key)
]

-- The length of the longest chain.
unfoldable pub longest_chain : List Chain → ℕ
longest_chain [] = 0
longest_chain (c ∷ cs) = max (length c) (longest_chain cs)
