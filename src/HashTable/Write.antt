-- ===== src/HashTable/Write.antt =====
-- The two branches of `put`: the node of the key is overwritten, or a new one is linked in.
use redis_like_in_memory_dat.Base.{
  ℕ, ◌≤◌, ◌<◌, ◌≡◌, refl, Bytes, str_eq, List, [], ◌∷◌, none, some, if◌then◌else◌, ==_iff, length,
  get_or, arith, inl, inr, Bool-cases,
}
use redis_like_in_memory_dat.Entry.{make_entry}
use redis_like_in_memory_dat.HashTable.Buckets.{
  total, get_or-le-total, count_key, IsPlaced, Rewrites, find_node-key, cons-Rewrites,
  assign-Rewrites,
}
use redis_like_in_memory_dat.HashTable.Home.{set-home-IsPlaced, find_in-set-home}
use redis_like_in_memory_dat.HashTable.Chain.{Node, Chain, find_node, assign}
use redis_like_in_memory_dat.HashTable.Hash.{bucket_index-lt}
use redis_like_in_memory_dat.HashTable.Recency
use redis_like_in_memory_dat.HashTable.Recency.Shape.{count, erase, count-erase, length-erase}
use redis_like_in_memory_dat.HashTable.Recency.Unlink.{count-erase_self, unlink-Holds}
use redis_like_in_memory_dat.HashTable.Recency.Push.{push_front-Holds}
use redis_like_in_memory_dat.HashTable.Table.{
  HashTable, Sizes, home, find_in, overwrite, insert_new, footprint_estimate,
}
use redis_like_in_memory_dat.HashTable.Valid.{
  IsValid, count_addr, bytes_of, count_addr-IsSum, bytes_of-IsSum, length-IsSum, total-insert,
  total-assign,
}

count_addr-found :
    (key : Bytes) (c : Chain) (n : Node) → find_node key c ≡ some n → 1 ≤ count_addr n.addr c
unfolding find_node count_addr
count_addr-found key [] n h = cc
count_addr-found key (m ∷ c) n h = elim (Bool-cases (str_eq m.entry.key key)) [
  | inl same ↦
      let e : n.addr ≡ m.addr = ground arith in rw ((==_iff n.addr m.addr).1 e) (omega arith)
  | inr other ↦ omega (arith, count_addr-found key c n (ground arith))
]

pub find_in-listed :
    (bs : List Chain) (key : Bytes) (n : Node)
    → 0 < length bs
    → find_in bs key ≡ some n
    → 1 ≤ total (count_addr n.addr) bs
unfolding find_in
find_in-listed bs key n h e = omega (
  arith,
  get_or-le-total (count_addr n.addr) bs (home bs key) (bucket_index-lt (length bs) key h),
  count_addr-found key (get_or bs (home bs key) []) n e,
)

pub count_home :
    (bs : List Chain) (key : Bytes) → IsPlaced bs → count_key key (get_or bs (home bs key) []) ≤ 1
count_home bs key v = omega (arith, v.placed key, v.unique key)

-- Moving a listed address to the front keeps every count.
pub count-moved : (a b : ℕ) (xs : List ℕ) → 1 ≤ count a xs → count b (a ∷ erase a xs) ≡ count b xs
unfolding count
count-moved a b xs h = ground (arith, count-erase a b xs)

module _ (sz : Sizes) (key value : Bytes) (t : HashTable) (xs : List ℕ) (valid : IsValid t xs)
    (roomy : 0 < length t.buckets) where
  module _ (n : Node) (found : find_in t.buckets key ≡ some n) where
    unfoldable pub new_node : Node
    new_node = record n {
      entry = record n.entry { value = value; expiration = none };
      footprint = footprint_estimate sz key value;
    }

    overwrites :
        Rewrites key
          (some new_node)
          (get_or t.buckets (home t.buckets key) [])
          (assign key new_node (get_or t.buckets (home t.buckets key) []))
    unfolding find_in new_node
    overwrites =
        assign-Rewrites key new_node n (get_or t.buckets (home t.buckets key) [])
          (find_node-key key (get_or t.buckets (home t.buckets key) []) n found) found
          (count_home t.buckets key valid.placed)

    pub listed_before : 1 ≤ count n.addr xs
    listed_before = omega (arith, valid.listed n.addr, find_in-listed t.buckets key n roomy found)

    pub overwrite-IsValid : IsValid (overwrite sz key value n t) (n.addr ∷ erase n.addr xs)
    unfolding overwrite new_node
    overwrite-IsValid = record {
      placed = set-home-IsPlaced t.buckets key (some new_node) _ valid.placed roomy overwrites;
      counted = omega (
        arith,
        valid.counted,
        total-assign length _ length-IsSum t.buckets key roomy n found new_node,
      );
      weighed = omega (
        arith,
        valid.weighed,
        total-assign bytes_of _ bytes_of-IsSum t.buckets key roomy n found new_node,
      );
      threaded =
          push_front-Holds n.addr (Recency.unlink n.addr t.recency) (erase n.addr xs)
            (unlink-Holds n.addr t.recency xs valid.threaded listed_before)
            (count-erase_self n.addr xs (valid.threaded.distinct n.addr));
      listed = λ a. omega (
        arith,
        valid.listed a,
        count-moved n.addr a xs listed_before,
        total-assign (count_addr a) _ (count_addr-IsSum a) t.buckets key roomy n found new_node,
      );
      sized = omega (
        arith,
        valid.sized,
        length-erase n.addr xs listed_before,
        total-assign length _ length-IsSum t.buckets key roomy n found new_node,
      );
      unused = λ a h. omega (
        arith,
        valid.unused a h,
        total-assign (count_addr a) _ (count_addr-IsSum a) t.buckets key roomy n found new_node,
      );
    }

    pub find_in-overwrite :
        (q : Bytes)
        → find_in (overwrite sz key value n t).buckets q
          ≡ (if str_eq key q then some new_node else find_in t.buckets q)
    unfolding overwrite new_node
    find_in-overwrite =
        find_in-set-home t.buckets key (some new_node) _ valid.placed roomy overwrites

  unfoldable pub fresh_node : Node
  fresh_node = record {
    addr = t.next_addr;
    entry = make_entry key value;
    footprint = footprint_estimate sz key value;
  }

  module _ (absent : find_in t.buckets key ≡ none) where
    inserts :
        Rewrites key
          (some fresh_node)
          (get_or t.buckets (home t.buckets key) [])
          (fresh_node ∷ get_or t.buckets (home t.buckets key) [])
    unfolding find_in fresh_node
    inserts = cons-Rewrites key fresh_node (get_or t.buckets (home t.buckets key) []) refl absent

    unlisted : count t.next_addr xs ≡ 0
    unlisted = omega (arith, valid.listed t.next_addr, valid.unused t.next_addr (omega arith))

    pub insert_new-IsValid : IsValid (insert_new sz key value t) (t.next_addr ∷ xs)
    unfolding insert_new fresh_node count
    insert_new-IsValid = record {
      placed = set-home-IsPlaced t.buckets key (some fresh_node) _ valid.placed roomy inserts;
      counted =
          omega (
            arith,
            valid.counted,
            total-insert length _ length-IsSum t.buckets key roomy fresh_node,
          );
      weighed = omega (
        arith,
        valid.weighed,
        total-insert bytes_of _ bytes_of-IsSum t.buckets key roomy fresh_node,
      );
      threaded = push_front-Holds t.next_addr t.recency xs valid.threaded unlisted;
      listed = λ a. ground (
        arith,
        valid.listed a,
        total-insert (count_addr a) _ (count_addr-IsSum a) t.buckets key roomy fresh_node,
      );
      sized =
          omega
            (arith, valid.sized, total-insert length _ length-IsSum t.buckets key roomy fresh_node);
      unused = λ a h. ground (
        arith,
        valid.unused a,
        total-insert (count_addr a) _ (count_addr-IsSum a) t.buckets key roomy fresh_node,
      );
    }

    pub find_in-insert_new :
        (q : Bytes)
        → find_in (insert_new sz key value t).buckets q
          ≡ (if str_eq key q then some fresh_node else find_in t.buckets q)
    unfolding insert_new fresh_node
    find_in-insert_new =
        find_in-set-home t.buckets key (some fresh_node) _ valid.placed roomy inserts
