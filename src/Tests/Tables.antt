-- ===== src/Tests/Tables.antt =====
-- A table of four buckets in which two keys are stored, its recency list, and the rules applied to them.
use redis_like_in_memory_dat.Base.{
  ℕ, ◌^◌, ◌≤◌, ◌<◌, ◌≡◌, refl, Bytes, codes, str_eq, List, [], ◌∷◌, some, if◌then◌else◌, length,
  arith,
}
use redis_like_in_memory_dat.Entry.{make_entry}
use redis_like_in_memory_dat.HashTable.Buckets.{total}
use redis_like_in_memory_dat.HashTable.Chain.{Node, find_node}
use redis_like_in_memory_dat.HashTable.Evict.{last, Evicted, evict_oldest_lem}
use redis_like_in_memory_dat.HashTable.Grow.{Fits}
use redis_like_in_memory_dat.HashTable.Hash.{bucket_index, hash_key, round_up_to_power_of_two}
use redis_like_in_memory_dat.HashTable.New.{new-IsValid}
use redis_like_in_memory_dat.HashTable.Put.{used, put-IsValid, find-put}
use redis_like_in_memory_dat.HashTable.Recency.{empty, push_front, promote}
use redis_like_in_memory_dat.HashTable.Recency.Push.{push_front-Holds}
use redis_like_in_memory_dat.HashTable.Recency.Shape.{Holds, count, erase}
use redis_like_in_memory_dat.HashTable.Recency.Unlink.{promote-Holds}
use redis_like_in_memory_dat.HashTable.Remove.{without}
use redis_like_in_memory_dat.HashTable.Table.{
  HashTable, Sizes, ensure_buckets, insert_new, new, put, remove, resize, grow_if_needed, find,
  find_in, contains, raise_target,
}
use redis_like_in_memory_dat.HashTable.Valid.{IsValid}

abbrev pub sizes : Sizes
sizes = record { node = 104; pointer = 8 }

abbrev pub key_a : Bytes
key_a = codes "a"

abbrev pub key_b : Bytes
key_b = codes "b"

abbrev none_yet : HashTable
none_yet = new 4

abbrev one : HashTable
one = (put sizes key_a (codes "1") none_yet).0

abbrev pub two : HashTable
two = (put sizes key_b (codes "22") one).0

program : Unit {0}
unfolding new put find find_in used contains remove without total find_node ensure_buckets
    bucket_index hash_key grow_if_needed insert_new resize raise_target round_up_to_power_of_two
program = tt

none_yet-Fits : Fits none_yet
unfolding program
none_yet-Fits = record { few = omega arith; narrow = omega arith }

one-Fits : Fits one
unfolding program
one-Fits = record { few = omega arith; narrow = omega arith }

one-IsValid : IsValid one (used key_a none_yet [])
one-IsValid = put-IsValid sizes key_a (codes "1") none_yet [] (new-IsValid 4) none_yet-Fits

two-IsValid : IsValid two (used key_b one (used key_a none_yet []))
two-IsValid = put-IsValid sizes key_b (codes "22") one (used key_a none_yet []) one-IsValid one-Fits

pub two-IsValid' : IsValid two (1 ∷ 0 ∷ [])
unfolding program
two-IsValid' = two-IsValid

last_of_two : last (used key_b one (used key_a none_yet [])) ≡ some 0
unfolding program
last_of_two = refl

two_small : two.size < 2 ^ 60
unfolding program
two_small = omega arith

two_narrow : length two.buckets ≤ 2 ^ 61
unfolding program
two_narrow = omega arith

abbrev addresses : List ℕ
addresses = used key_b one (used key_a none_yet [])

find-put_example :
    find (put sizes key_b (codes "22") one).0 key_a
    ≡ (if str_eq key_b key_a then some (make_entry key_b (codes "22")) else find one key_a)
find-put_example =
    find-put sizes key_b (codes "22") one (used key_a none_yet []) one-IsValid one-Fits key_a

put-IsValid_example : IsValid two addresses
put-IsValid_example =
    put-IsValid sizes key_b (codes "22") one (used key_a none_yet []) one-IsValid one-Fits

evict_oldest_lem_example : (n : Node) × (t : HashTable) × Evicted two addresses two-IsValid 0 n t
evict_oldest_lem_example = evict_oldest_lem two addresses two-IsValid 0 last_of_two

empty-Holds : Holds empty []
unfolding count
empty-Holds = record { front = refl; chain = refl; distinct = λ a. omega arith }

pair-Holds : Holds (push_front 7 (push_front 5 empty)) (7 ∷ 5 ∷ [])
unfolding count
pair-Holds =
    push_front-Holds 7 (push_front 5 empty) (5 ∷ []) (push_front-Holds 5 empty [] empty-Holds refl)
      refl

promote-Holds_example :
    Holds (promote 5 (push_front 7 (push_front 5 empty))) (5 ∷ erase 5 (7 ∷ 5 ∷ []))
unfolding count
promote-Holds_example =
    promote-Holds 5 (push_front 7 (push_front 5 empty)) (7 ∷ 5 ∷ []) pair-Holds (omega arith)
