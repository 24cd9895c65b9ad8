-- ===== src/HashTable/Buckets.antt =====
-- The buckets as a map: each key is in one node at most, and that node is in the bucket of its key.
-- A change of one chain in its home bucket is a change of the map at that key.
use redis_like_in_memory_dat.Base.{
  ℕ, zero, suc, ◌+◌, ◌≤◌, ◌<◌, ◌≡◌, ◌≢◌, refl, ap, Bytes, str_eq, str_eq_iff, List, [], ◌∷◌, Option,
  none, some, if◌then◌else◌, length, get_or, set, arith,
}
use redis_like_in_memory_dat.HashTable.Chain.{Node, Chain, find_node, assign}
use redis_like_in_memory_dat.HashTable.Table.{home}

unfoldable pub total : (Chain → ℕ) → List Chain → ℕ
total f [] = 0
total f (c ∷ cs) = f c + total f cs

pub total-set :
    (f : Chain → ℕ) (bs : List Chain) (i : ℕ) (c : Chain)
    → i < length bs
    → total f (set bs i c) + f (get_or bs i []) ≡ total f bs + f c
unfolding total
total-set f [] i c h = absurd (omega arith)
total-set f (b ∷ bs) zero c h = omega arith
total-set f (b ∷ bs) (suc i) c h = omega (arith, total-set f bs i c)

pub get_or-le-total :
    (f : Chain → ℕ) (bs : List Chain) (i : ℕ) → i < length bs → f (get_or bs i []) ≤ total f bs
unfolding total
get_or-le-total f [] i h = absurd (omega arith)
get_or-le-total f (b ∷ bs) zero h = omega arith
get_or-le-total f (b ∷ bs) (suc i) h = omega (arith, get_or-le-total f bs i)

pub two-le-total :
    (f : Chain → ℕ) (bs : List Chain) (i j : ℕ)
    → i < length bs
    → j < length bs
    → i ≢ j
    → f (get_or bs i []) + f (get_or bs j []) ≤ total f bs
unfolding total
two-le-total f [] i j h k ne = absurd (omega arith)
two-le-total f (b ∷ bs) zero zero h k ne = absurd (ne refl)
two-le-total f (b ∷ bs) zero (suc j) h k ne = omega (arith, get_or-le-total f bs j)
two-le-total f (b ∷ bs) (suc i) zero h k ne = omega (arith, get_or-le-total f bs i)
two-le-total f (b ∷ bs) (suc i) (suc j) h k ne =
    omega (arith, two-le-total f bs i j (omega arith) (omega arith) (λ e. ne (ap suc e)))

unfoldable pub count_key : Bytes → Chain → ℕ
count_key q [] = 0
count_key q (n ∷ c) = if str_eq n.entry.key q then suc (count_key q c) else count_key q c

pub record IsPlaced (bs : List Chain) : Type 0 where
  pub placed : (q : Bytes) → total (count_key q) bs ≡ count_key q (get_or bs (home bs q) [])
  pub unique : (q : Bytes) → total (count_key q) bs ≤ 1

abbrev pub found : Option Node → ℕ
found none = 0
found (some n) = 1

-- `c'` is `c` with what it holds at `key` replaced by `m`.
pub record Rewrites (key : Bytes) (m : Option Node) (c c' : Chain) : Type 0 where
  pub counts : (q : Bytes) → count_key q c' ≡ (if str_eq key q then found m else count_key q c)
  pub finds : (q : Bytes) → find_node q c' ≡ (if str_eq key q then m else find_node q c)

pub find_node-none : (q : Bytes) (c : Chain) → count_key q c ≡ 0 → find_node q c ≡ none
unfolding find_node count_key
find_node-none q [] h = refl
find_node-none q (n ∷ c) h = ground (arith, find_node-none q c)

pub count_key-zero : (q : Bytes) (c : Chain) → find_node q c ≡ none → count_key q c ≡ 0
unfolding find_node count_key
count_key-zero q [] h = refl
count_key-zero q (n ∷ c) h = ground (arith, count_key-zero q c)

pub find_node-key : (q : Bytes) (c : Chain) (n : Node) → find_node q c ≡ some n → n.entry.key ≡ q
unfolding find_node
find_node-key q [] n h = cc
find_node-key q (m ∷ c) n h = ground (arith, str_eq_iff m.entry.key q, find_node-key q c n)

pub cons-Rewrites :
    (key : Bytes) (n : Node) (c : Chain)
    → n.entry.key ≡ key
    → find_node key c ≡ none
    → Rewrites key (some n) c (n ∷ c)
unfolding find_node count_key
cons-Rewrites key n c e h = record {
  counts = λ q. rw e (ground (arith, str_eq_iff key q, count_key-zero key c h));
  finds = λ q. rw e (ground arith);
}

assign-counts :
    (key q : Bytes) (v : Node) (c : Chain)
    → v.entry.key ≡ key
    → count_key q (assign key v c) ≡ count_key q c
unfolding assign count_key
assign-counts key q v [] e = refl
assign-counts key q v (n ∷ c) e =
    ground (arith, str_eq_iff n.entry.key key, assign-counts key q v c)

count_key-found :
    (q : Bytes) (c : Chain) (n : Node)
    → find_node q c ≡ some n
    → count_key q c ≤ 1
    → count_key q c ≡ 1
unfolding find_node count_key
count_key-found q [] n h k = cc
count_key-found q (m ∷ c) n h k = ground (arith, count_key-found q c n)

assign-finds :
    (key q : Bytes) (v n : Node) (c : Chain)
    → v.entry.key ≡ key
    → find_node key c ≡ some n
    → find_node q (assign key v c) ≡ (if str_eq key q then some v else find_node q c)
unfolding assign find_node
assign-finds key q v n [] e h = cc
assign-finds key q v n (m ∷ c) e h = ground (
  arith,
  str_eq_iff m.entry.key key,
  str_eq_iff key q,
  str_eq_iff m.entry.key q,
  assign-finds key q v n c,
)

pub assign-Rewrites :
    (key : Bytes) (v n : Node) (c : Chain)
    → v.entry.key ≡ key
    → find_node key c ≡ some n
    → count_key key c ≤ 1
    → Rewrites key (some v) c (assign key v c)
assign-Rewrites key v n c e h k = record {
  counts =
      λ q. ground (arith, str_eq_iff key q, assign-counts key q v c, count_key-found key c n h k);
  finds = λ q. assign-finds key q v n c e h;
}
