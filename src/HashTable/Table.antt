-- ===== src/HashTable/Table.antt =====
-- include/HashTable.h and src/HashTable.cpp: the class `HashTable`. Each method returns the new
-- table. A `std::size_t` is a number below 2 ^ 64 and its sums wrap. The loads are compared as
-- `4 * size > 3 * buckets`, which the source computes in `double`, exactly below 2 ^ 51.
use redis_like_in_memory_dat.Base.{
  ℕ, zero, suc, ◌*◌, Bytes, List, [], ◌∷◌, Option, none, some, Bool, true, false, if◌then◌else◌,
  ◌==◌, ltb, add64, sub64, mul64, length, get_or, set, replicate,
}
use redis_like_in_memory_dat.Entry.{Entry, make_entry}
use redis_like_in_memory_dat.HashTable.Chain.{Node, Chain, find_node, assign, splice}
use redis_like_in_memory_dat.HashTable.Hash.{round_up_to_power_of_two, bucket_index}
use redis_like_in_memory_dat.HashTable.Recency
use redis_like_in_memory_dat.HashTable.Recency.{Recency}

-- `sizeof(Node)` and `sizeof(std::unique_ptr<Node>)`, which depend on the platform.
pub record Sizes : Type 0 where
  pub node : ℕ
  pub pointer : ℕ

-- `next_addr` is the allocator's: no node in use has an address at or above it.
pub record HashTable : Type 0 where
  pub buckets : List Chain
  pub size : ℕ
  pub entry_bytes : ℕ
  pub recency : Recency
  pub next_addr : ℕ

abbrev pub default_bucket_count : ℕ
default_bucket_count = 16

abbrev pub allocation_slack : ℕ
allocation_slack = 48

-- `HashTable(initialBucketCount)`
unfoldable pub new : ℕ → HashTable
unfolding round_up_to_power_of_two
new n = record {
  buckets = replicate (round_up_to_power_of_two n) [];
  size = 0;
  entry_bytes = 0;
  recency = Recency.empty;
  next_addr = 0;
}

-- The state of a table that has been moved from.
unfoldable pub moved_from : HashTable → HashTable
moved_from t = record t { buckets = []; size = 0; entry_bytes = 0; recency = Recency.empty }

unfoldable pub footprint_estimate : Sizes → Bytes → Bytes → ℕ
footprint_estimate sz key value =
    add64 (add64 (add64 sz.node allocation_slack) (length key)) (length value)

unfoldable pub memory_usage : Sizes → HashTable → ℕ
memory_usage sz t = add64 t.entry_bytes (mul64 (length t.buckets) sz.pointer)

abbrev pub home : List Chain → Bytes → ℕ
home bs key = bucket_index (length bs) key

-- `findNode`: no bucket, no node.
unfoldable pub find_in : List Chain → Bytes → Option Node
find_in bs key = find_node key (get_or bs (home bs key) [])

-- `find`, the entry that the pointer refers to.
unfoldable pub find : HashTable → Bytes → Option Entry
unfolding find_in
find t key = elim (find_in t.buckets key) [ none ↦ none | some n ↦ some n.entry ]

unfoldable pub get : HashTable → Bytes → Option Bytes
get t key = elim (find t key) [ none ↦ none | some e ↦ some e.value ]

unfoldable pub contains : HashTable → Bytes → Bool
contains t key = elim (find t key) [ none ↦ false | some e ↦ true ]

-- The load test of `growIfNeeded` and of the loop in `resize`.
abbrev pub overloaded : ℕ → ℕ → Bool
overloaded size n = ltb (n * 3) (size * 4)

-- `while (overloaded) target *= 2`, on fuel; `none` is a loop that does not end within it.
unfoldable pub raise_target : ℕ → ℕ → ℕ → Option ℕ
raise_target zero size target = none
raise_target (suc fuel) size target =
    let more = raise_target fuel size (mul64 target 2) in
    if overloaded size target then more else some target

-- The inner loop of `resize`: relink the nodes of one old chain, each at the front of its new one.
unfoldable pub relink_chain : Chain → List Chain → List Chain
relink_chain [] fresh = fresh
relink_chain (n ∷ c) fresh =
    let i = home fresh n.entry.key in relink_chain c (set fresh i (n ∷ get_or fresh i []))

-- The outer loop.
unfoldable pub relink_all : List Chain → List Chain → List Chain
unfolding relink_chain
relink_all [] fresh = fresh
relink_all (c ∷ cs) fresh = relink_all cs (relink_chain c fresh)

-- The end of `resize`, once `target` is settled.
unfoldable pub resize_to : ℕ → HashTable → HashTable
resize_to target t =
    if target == length t.buckets
    then t
    else record t { buckets = relink_all t.buckets (replicate target []) }

-- Where the loop does not end, no table comes of it: a table of entries without a bucket marks that.
unfoldable pub settle : Option ℕ → HashTable → HashTable
unfolding resize_to
settle none t = record t { buckets = [] }
settle (some target) t = resize_to target t

-- A write has ended in a table with a bucket, or not at all.
abbrev pub is_endless : HashTable → Bool
is_endless t = length t.buckets == 0

-- A `target` doubles at most 64 times.
unfoldable pub resize : ℕ → HashTable → HashTable
unfolding settle
resize n t = settle (raise_target 64 t.size (round_up_to_power_of_two n)) t

unfoldable pub grow_if_needed : HashTable → HashTable
grow_if_needed t =
    if overloaded t.size (length t.buckets) then resize (mul64 (length t.buckets) 2) t else t

-- `if (buckets_.empty()) buckets_.resize(kDefaultBucketCount)`
unfoldable pub ensure_buckets : HashTable → HashTable
ensure_buckets t =
    if length t.buckets == 0 then record t { buckets = replicate default_bucket_count [] } else t

-- The branch of `put` that overwrites the node `n`.
unfoldable pub overwrite : Sizes → Bytes → Bytes → Node → HashTable → HashTable
overwrite sz key value n t =
    let i = home t.buckets key in
    let updated = footprint_estimate sz key value in
    let entry = record n.entry { value = value; expiration = none } in
    record t {
      buckets =
          set t.buckets i
            (assign key (record n { entry = entry; footprint = updated }) (get_or t.buckets i []));
      entry_bytes = add64 (sub64 t.entry_bytes n.footprint) updated;
      recency = Recency.push_front n.addr (Recency.unlink n.addr t.recency);
    }

-- The branch of `put` that makes a node, at the front of its chain and of the recency list.
unfoldable pub insert_new : Sizes → Bytes → Bytes → HashTable → HashTable
insert_new sz key value t =
    let i = home t.buckets key in
    let n : Node = record {
      addr = t.next_addr;
      entry = make_entry key value;
      footprint = footprint_estimate sz key value;
    } in
    record t {
      buckets = set t.buckets i (n ∷ get_or t.buckets i []);
      size = add64 t.size 1;
      entry_bytes = add64 t.entry_bytes n.footprint;
      recency = Recency.push_front n.addr t.recency;
      next_addr = suc t.next_addr;
    }

-- `put`: true if the key is new.
unfoldable pub put : Sizes → Bytes → Bytes → HashTable → HashTable × Bool
put sz key value t₀ =
    let t = ensure_buckets t₀ in
    elim (find_in t.buckets key) [
      | some n ↦ (overwrite sz key value n t, false)
      | none ↦ (grow_if_needed (insert_new sz key value t), true)
    ]

-- `find(key)->expiration = e`: nothing to write to if the key is absent.
unfoldable pub set_expiration : Bytes → Option ℕ → HashTable → HashTable
set_expiration key e t =
    let i = home t.buckets key in
    elim (find_in t.buckets key) [
      | none ↦ t
      | some n ↦ record t {
        buckets = set t.buckets i (
            assign key (record n { entry = record n.entry { expiration = e } })
              (get_or t.buckets i []));
      }
    ]

-- What `remove` and `removeIf` do for a node that they have taken out of its chain.
unfoldable pub release : Node → HashTable → HashTable
release v t = record t {
  size = sub64 t.size 1;
  entry_bytes = sub64 t.entry_bytes v.footprint;
  recency = Recency.unlink v.addr t.recency;
}

unfoldable pub remove : Bytes → HashTable → HashTable × Bool
remove key t =
    let i = home t.buckets key in
    elim (splice key (get_or t.buckets i [])) [
      | none ↦ (t, false)
      | some (v, c) ↦ (release v (record t { buckets = set t.buckets i c }), true)
    ]
