-- ===== src/HashTable/Sweeping.antt =====
-- `removeIf` keeps the invariant of the table: the recency list and the counters follow the nodes.
use redis_like_in_memory_dat.Base.{
  ℕ, zero, suc, ◌+◌, ◌%◌, ◌≤◌, ◌<◌, ◌≡◌, ◌≢◌, refl, ap, ◌∙◌, arith, min, Bytes, List, [], ◌∷◌, Bool,
  false, if◌then◌else◌, ◌==◌, ==_iff, ◌||◌, add64, sub64, word, length, get_or, set, get_or-set,
  length-set, Bool-cases, inl, inr,
}
use native.Mathlib.Nat.{mod-lt}
use redis_like_in_memory_dat.Entry.{Entry}
use redis_like_in_memory_dat.HashTable.Buckets.{
  total, total-set, two-le-total, get_or-le-total, count_key, IsPlaced,
}
use redis_like_in_memory_dat.HashTable.Chain.{Node, Chain}
use redis_like_in_memory_dat.HashTable.Hash.{bucket_index-lt}
use redis_like_in_memory_dat.HashTable.Recency.Shape.{
  count, erase, Holds, count-erase, length-erase,
}
use redis_like_in_memory_dat.HashTable.Recency.Unlink.{unlink-Holds}
use redis_like_in_memory_dat.HashTable.Sums.{IsSum}
use redis_like_in_memory_dat.HashTable.Sweep.{sweep_chain, sweep_bucket, sweep_from, remove_if}
use redis_like_in_memory_dat.HashTable.Swept.{
  kept, sweep_chain-Sweeps, count_key-kept-le, sweep_bucket-IsSwept,
}
use redis_like_in_memory_dat.HashTable.Table.{HashTable, home, release}
use redis_like_in_memory_dat.HashTable.Valid.{
  IsValid, count_addr, bytes_of, count_addr-IsSum, bytes_of-IsSum, length-IsSum,
}

-- The nodes of a chain that are taken out.
unfoldable gone : (Entry → Bool) → Chain → Chain
gone p [] = []
gone p (n ∷ c) = let rest = gone p c in if p n.entry then n ∷ rest else rest

sum-kept-gone :
    (f : Chain → ℕ) (g : Node → ℕ) (sum : IsSum f g) (p : Entry → Bool) (c : Chain)
    → f (kept p c) + f (gone p c) ≡ f c
unfolding kept gone
sum-kept-gone f g sum p [] = omega (arith, sum.at_nil)
sum-kept-gone f g sum p (n ∷ c) = elim (Bool-cases (p n.entry)) [
  | inl out ↦
      rw out (omega (arith, sum-kept-gone f g sum p c, sum.at_cons n c, sum.at_cons n (gone p c)))
  | inr stays ↦
      rw stays (omega (arith, sum-kept-gone f g sum p c, sum.at_cons n c, sum.at_cons n (kept p c)))
]

-- What the walk along one chain does to the rest of the table.
record Walk (p : Entry → Bool) (c : Chain) (t : HashTable) (xs : List ℕ) (r : Chain × HashTable × ℕ)
    (ys : List ℕ) : Type 0 where
  threaded : Holds r.1.recency ys
  listed : (a : ℕ) → count a ys + count_addr a (gone p c) ≡ count a xs
  sized : length ys + r.2 ≡ length xs
  taken : r.2 ≡ length (gone p c)
  counted : (r.1.size + r.2) % word ≡ t.size % word
  weighed : (r.1.entry_bytes + bytes_of (gone p c)) % word ≡ t.entry_bytes % word
  next_free : r.1.next_addr ≡ t.next_addr
  in_word : (r.1.size < word) × (r.1.entry_bytes < word)

sub64_back : (a b : ℕ) → (sub64 a b + b) % word ≡ a % word
sub64_back a b = omega arith

size-release : (n : Node) (t : HashTable) → (release n t).size ≡ sub64 t.size 1
unfolding release
size-release n t = refl

bytes-release :
    (n : Node) (t : HashTable) → (release n t).entry_bytes ≡ sub64 t.entry_bytes n.footprint
unfolding release
bytes-release n t = refl

next-release : (n : Node) (t : HashTable) → (release n t).next_addr ≡ t.next_addr
unfolding release
next-release n t = refl

sweep_chain-Walk :
    (p : Entry → Bool) (c : Chain) (t : HashTable) (xs : List ℕ)
    → Holds t.recency xs
    → ((a : ℕ) → count_addr a c ≤ count a xs)
    → t.size < word
    → t.entry_bytes < word
    → (ys : List ℕ) × Walk p c t xs (sweep_chain p c t) ys
unfolding sweep_chain gone count_addr bytes_of
sweep_chain-Walk p [] t xs h k b b' = (
  xs,
  record {
    threaded = h;
    listed = λ a. omega arith;
    sized = omega arith;
    taken = refl;
    counted = omega arith;
    weighed = omega arith;
    next_free = refl;
    in_word = (b, b');
  },
)
sweep_chain-Walk p (n ∷ c) t xs h k b b' = elim (Bool-cases (p n.entry)) [
  | inl out ↦
      let here : 1 ≤ count n.addr xs = ground (arith, k n.addr) in
      let (ys, w) =
        sweep_chain-Walk p c (release n t) (erase n.addr xs) (released here)
          (λ a. ground (arith, k a, count-erase n.addr a xs)) (omega (arith, size-release n t))
          (omega (arith, bytes-release n t)) in
      rw (out, sweep_chain)
        (
          ys,
          record {
            threaded = w.threaded;
            listed = λ a. rw out (ground (arith, w.listed a, count-erase n.addr a xs, here));
            sized = omega (arith, w.sized, length-erase n.addr xs here);
            taken = rw out (ap suc w.taken);
            counted = omega (arith, w.counted, sub64_back t.size 1, size-release n t);
            weighed =
                rw out (
                  omega
                    (arith, w.weighed, sub64_back t.entry_bytes n.footprint, bytes-release n t));
            next_free = w.next_free ∙ next-release n t;
            in_word = w.in_word;
          },
        )
  | inr stays ↦
      let (ys, w) = sweep_chain-Walk p c t xs h (λ a. omega (arith, k a)) b b' in
      rw (stays, sweep_chain)
        (
          ys,
          record {
            threaded = w.threaded;
            listed = λ a. rw stays (w.listed a);
            sized = w.sized;
            taken = rw stays w.taken;
            counted = w.counted;
            weighed = rw stays w.weighed;
            next_free = w.next_free;
            in_word = w.in_word;
          },
        )
]
  where
    released : 1 ≤ count n.addr xs → Holds (release n t).recency (erase n.addr xs)
    released here = unfold release in unlink-Holds n.addr t.recency xs h here

IsPlaced-kept :
    (p : Entry → Bool) (bs : List Chain) (i : ℕ)
    → i < length bs
    → IsPlaced bs
    → IsPlaced (set bs i (kept p (get_or bs i [])))
IsPlaced-kept p bs i h v =
    let chain = get_or bs i [] in
    let after : (q : Bytes)
        → total (count_key q) (set bs i (kept p chain)) + count_key q chain
          ≡ total (count_key q) bs + count_key q (kept p chain) =
      λ q. total-set (count_key q) bs i (kept p chain) h in
    record {
      placed = λ q.
          let here = get_or-set bs i (home bs q) (kept p chain) [] h in
          elim (Bool-cases (i == home bs q)) [
            | inl same ↦
                let e : chain ≡ get_or bs (home bs q) [] =
                  ap (λ j. get_or bs j []) ((==_iff i (home bs q)).0 same) in
                rw (length-set bs i (kept p chain), here, same)
                  (omega (arith, after q, v.placed q, ap (count_key q) e))
            | inr other ↦
                rw (length-set bs i (kept p chain), here, other)
                  (omega
                    (arith, after q, v.placed q, elsewhere q other, count_key-kept-le p q chain))
          ];
      unique = λ q. omega (
        arith,
        after q,
        v.unique q,
        count_key-kept-le p q chain,
        get_or-le-total (count_key q) bs i h,
      );
    }
  where
    elsewhere : (q : Bytes) → (i == home bs q) ≡ false → count_key q (get_or bs i []) ≡ 0
    elsewhere q other =
        let apart : i ≢ home bs q = λ e. ground (arith, other, e) in
        let inside = bucket_index-lt (length bs) q (omega (arith, h)) in
        omega (arith, two-le-total (count_key q) bs i (home bs q) h inside apart, v.placed q)

-- The total of a measure over the buckets, once a bucket is swept.
total-kept :
    (f : Chain → ℕ) (g : Node → ℕ) (sum : IsSum f g) (p : Entry → Bool) (bs : List Chain) (i : ℕ)
    → i < length bs
    → total f (set bs i (kept p (get_or bs i []))) + f (gone p (get_or bs i [])) ≡ total f bs
total-kept f g sum p bs i h =
    omega (
      arith,
      total-set f bs i (kept p (get_or bs i [])) h,
      sum-kept-gone f g sum p (get_or bs i []),
    )

-- The table after a walk along the chain of bucket `i`.
abbrev swept : (Entry → Bool) → ℕ → HashTable → HashTable → HashTable
swept p i t t' = record t' { buckets = set t.buckets i (kept p (get_or t.buckets i [])) }

sweep_bucket-swept :
    (p : Entry → Bool) (i : ℕ) (t : HashTable)
    → (sweep_bucket p i t).0 ≡ swept p i t (sweep_chain p (get_or t.buckets i []) t).1
unfolding sweep_bucket
sweep_bucket-swept p i t =
    let s = sweep_chain-Sweeps p (get_or t.buckets i []) t in
    let r = sweep_chain p (get_or t.buckets i []) t in
    ap (λ cs. record r.1 { buckets = set cs i r.0 }) s.buckets
    ∙ ap (λ c. record r.1 { buckets = set t.buckets i c }) s.chain

sweep_bucket-IsValid :
    (p : Entry → Bool) (i : ℕ) (t : HashTable) (xs : List ℕ)
    → i < length t.buckets
    → IsValid t xs
    → (ys : List ℕ) × IsValid (sweep_bucket p i t).0 ys
sweep_bucket-IsValid p i t xs h v =
    let chain = get_or t.buckets i [] in
    let (ys, w) =
      sweep_chain-Walk p chain t xs v.threaded
        (λ a. omega (arith, v.listed a, get_or-le-total (count_addr a) t.buckets i h))
        (omega (arith, v.counted)) (omega (arith, v.weighed)) in
    let t' = (sweep_chain p chain t).1 in
    let few = total-kept length _ length-IsSum p t.buckets i h in
    let bytes = total-kept bytes_of _ bytes_of-IsSum p t.buckets i h in
    (
      ys,
      rw (sweep_bucket-swept p i t) (record {
        placed = IsPlaced-kept p t.buckets i h v.placed;
        counted = omega (arith, v.counted, w.counted, w.taken, few, w.in_word);
        weighed = omega (arith, v.weighed, w.weighed, bytes, w.in_word);
        threaded = w.threaded;
        listed = λ a. omega (
          arith,
          v.listed a,
          w.listed a,
          total-kept (count_addr a) _ (count_addr-IsSum a) p t.buckets i h,
        );
        sized = omega (arith, v.sized, w.sized, w.taken, few);
        unused = λ a le. omega (
          arith,
          v.unused a (omega (arith, le, w.next_free)),
          total-kept (count_addr a) _ (count_addr-IsSum a) p t.buckets i h,
        );
      }),
    )

sweep_from-IsValid :
    (p : Entry → Bool) (first offset rounds : ℕ) (t : HashTable) (xs : List ℕ)
    → 0 < length t.buckets
    → IsValid t xs
    → (ys : List ℕ) × IsValid (sweep_from p first offset rounds t).0 ys
unfolding sweep_from
sweep_from-IsValid p first offset zero t xs h v = (xs, v)
sweep_from-IsValid p first offset (suc rounds) t xs h v =
    let i = add64 first offset % length t.buckets in
    let lt = mod-lt (add64 first offset) h in
    let (ys, w) = sweep_bucket-IsValid p i t xs lt v in
    sweep_from-IsValid p first (suc offset) rounds (sweep_bucket p i t).0 ys
      (omega (arith, (sweep_bucket-IsSwept p i t lt v.placed.unique).as_long, h)) w

-- `removeIf` on a valid table, from any bucket and over any number of them, leaves a valid table: the recency
-- list holds exactly the nodes that are left, and the counters are theirs.
pub remove_if-IsValid :
    (first buckets_to_scan : ℕ) (p : Entry → Bool) (t : HashTable) (xs : List ℕ)
    → IsValid t xs
    → (ys : List ℕ) × IsValid (remove_if first buckets_to_scan p t).0 ys
unfolding remove_if
remove_if-IsValid first n p t xs v = elim (Bool-cases (length t.buckets == 0 || n == 0)) [
  | inl nothing ↦ rw (nothing, remove_if) (xs, v)
  | inr some_bucket ↦
      rw (some_bucket, remove_if)
        (sweep_from-IsValid p first 0 (min n (length t.buckets)) t xs (ground (arith, some_bucket))
          v)
]
