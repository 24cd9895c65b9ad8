-- ===== src/HashTable/New.antt =====
-- The constructor `HashTable(initialBucketCount)` and `clear`.
use redis_like_in_memory_dat.HashTable.Chain.{Chain}
use redis_like_in_memory_dat.HashTable.Sweep.{clear}
use redis_like_in_memory_dat.HashTable.Recency.Unlink.{clear-Holds}
use redis_like_in_memory_dat.Base.{
  map, replicate, length, List, ◌∷◌, ℕ, ◌≡◌, ◌∙◌, sym, Bytes, [], none, arith, ap, refl,
}
use redis_like_in_memory_dat.HashTable.Hash.{round_up_to_power_of_two}
use redis_like_in_memory_dat.HashTable.Relink.{replicate-IsPlaced, find_in-replicate}
use redis_like_in_memory_dat.HashTable.Sums.{total-replicate}
use redis_like_in_memory_dat.HashTable.Recency.Shape.{count}
use redis_like_in_memory_dat.HashTable.Put.{entry_of, find-entry_of}
use redis_like_in_memory_dat.HashTable.Table.{HashTable, new, find, find_in}
use redis_like_in_memory_dat.HashTable.Valid.{
  IsValid, count_addr-IsSum, bytes_of-IsSum, length-IsSum,
}

-- A new table is valid, and its list of addresses is empty.
pub new-IsValid : (n : ℕ) → IsValid (new n) []
unfolding new count
new-IsValid n = record {
  placed = replicate-IsPlaced (round_up_to_power_of_two n);
  counted = omega (arith, total-replicate _ _ length-IsSum (round_up_to_power_of_two n));
  weighed = omega (arith, total-replicate _ _ bytes_of-IsSum (round_up_to_power_of_two n));
  threaded = record { front = refl; chain = refl; distinct = λ a. omega arith };
  listed = λ a. sym (total-replicate _ _ (count_addr-IsSum a) (round_up_to_power_of_two n));
  sized = sym (total-replicate _ _ length-IsSum (round_up_to_power_of_two n));
  unused = λ a h. total-replicate _ _ (count_addr-IsSum a) (round_up_to_power_of_two n);
}

-- A new table has no key.
pub find-new : (n : ℕ) (q : Bytes) → find (new n) q ≡ none
unfolding new
find-new n q =
    find-entry_of (new n) q ∙ ap entry_of (find_in-replicate (round_up_to_power_of_two n) q)

emptied : (bs : List Chain) → map (λ c. []) bs ≡ replicate {A = Chain} (length bs) []
emptied [] = refl
emptied (c ∷ bs) = ap (λ (r : List Chain). [] ∷ r) (emptied bs)

-- `clear` leaves a valid table without entries, whatever the table was; the buckets are kept.
pub clear-IsValid : (t : HashTable) → IsValid (clear t) []
unfolding clear count
clear-IsValid t = rw (emptied t.buckets) (record {
  placed = replicate-IsPlaced (length t.buckets);
  counted = omega (arith, total-replicate _ _ length-IsSum (length t.buckets));
  weighed = omega (arith, total-replicate _ _ bytes_of-IsSum (length t.buckets));
  threaded = clear-Holds t.recency;
  listed = λ a. sym (total-replicate _ _ (count_addr-IsSum a) (length t.buckets));
  sized = sym (total-replicate _ _ length-IsSum (length t.buckets));
  unused = λ a h. total-replicate _ _ (count_addr-IsSum a) (length t.buckets);
})

-- After `clear` no key is found.
pub find-clear : (t : HashTable) (q : Bytes) → find (clear t) q ≡ none
unfolding clear
find-clear t q =
    find-entry_of (clear t) q
    ∙ ap (λ bs. entry_of (find_in bs q)) (emptied t.buckets)
    ∙ ap entry_of (find_in-replicate (length t.buckets) q)
