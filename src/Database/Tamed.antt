-- ===== src/Database/Tamed.antt =====
-- What the operations that add no entry leave of a shard.
use redis_like_in_memory_dat.Base.{
  ℕ, ◌≤◌, ◌≡◌, refl, sym, ap, ◌∙◌, Bytes, List, [], ◌∷◌, min, none, Bool, if◌then◌else◌, ◌==◌, leb,
  length, get_or, arith, inl, inr, Bool-cases, Option-cases,
}
use redis_like_in_memory_dat.Database.Servable.{Holds, Tamer}
use redis_like_in_memory_dat.Database.Shard
use redis_like_in_memory_dat.Database.Shard.{Shard, live_value, too_big, evict_loop, evict_to_fit}
use redis_like_in_memory_dat.Database.Sound.{Ordered}
use redis_like_in_memory_dat.Entry.{Entry, is_expired_at}
use redis_like_in_memory_dat.HashTable.Buckets.{
  total, count_key, IsPlaced, find_node-none, count_key-zero,
}
use redis_like_in_memory_dat.HashTable.Chain.{Chain}
use redis_like_in_memory_dat.HashTable.Modify.{touch-IsValid, touched}
use redis_like_in_memory_dat.HashTable.Put.{entry_of, find-entry_of}
use redis_like_in_memory_dat.HashTable.Recency.Shape.{erase}
use redis_like_in_memory_dat.HashTable.Remove.{remove-IsValid, find-remove, length-remove, without}
use redis_like_in_memory_dat.HashTable.Sweep.{remove_if, touch}
use redis_like_in_memory_dat.HashTable.Sweeping.{remove_if-IsValid}
use redis_like_in_memory_dat.HashTable.Swept.{remove_if-IsSwept}
use redis_like_in_memory_dat.HashTable.Table.{HashTable, home, find, find_in}

pub Tamer-refl : (m : ℕ) (s : Shard) → Ordered s.table → Holds m s.table → Tamer m s s
Tamer-refl m s o h = record { ordered = o; absent = λ q a. a; room = h }

find_in-absent : (t : HashTable) (q : Bytes) → find t q ≡ none → find_in t.buckets q ≡ none
find_in-absent t q a = elim (Option-cases (find_in t.buckets q)) [
  | inl absent ↦ absent
  | inr (n, found) ↦ cc (a, find-entry_of t q, ap entry_of found)
]

-- Where no key has become more frequent, no key is new.
absent-fewer :
    (bs bs' : List Chain) (q : Bytes)
    → IsPlaced bs
    → IsPlaced bs'
    → total (count_key q) bs' ≤ total (count_key q) bs
    → find_in bs q ≡ none
    → find_in bs' q ≡ none
unfolding find_in
absent-fewer bs bs' q v v' le a =
    let zero_before = count_key-zero q (get_or bs (home bs q) []) a in
    find_node-none q (get_or bs' (home bs' q) [])
      (omega (arith, zero_before, v.placed q, v'.placed q, le))

-- A pass of `removeExpired` in one shard.
pub remove_expired-Tamer :
    (per_shard now m : ℕ) (s : Shard)
    → Ordered s.table
    → Holds m s.table
    → Tamer m s (Shard.remove_expired per_shard now s).0
unfolding Shard.remove_expired
remove_expired-Tamer per_shard now m s (xs, v) h =
    let n = length s.table.buckets in
    let cursor = if leb n s.sweep_cursor then 0 else s.sweep_cursor in
    let p : Entry → Bool = λ e. is_expired_at e now in
    elim (Bool-cases (n == 0)) [
      | inl nothing ↦ rw (nothing, Shard.remove_expired) (Tamer-refl m s (xs, v) h)
      | inr some_bucket ↦
          let w = remove_if-IsSwept cursor (min per_shard n) p s.table v.placed.unique in
          let v' = remove_if-IsValid cursor (min per_shard n) p s.table xs v in
          rw (some_bucket, Shard.remove_expired)
            (record {
              ordered = v';
              absent = λ q a.
                  find-entry_of (remove_if cursor (min per_shard n) p s.table).0 q
                  ∙ ap entry_of (
                      absent-fewer s.table.buckets
                        (remove_if cursor (min per_shard n) p s.table).0.buckets q v.placed
                        v'.1.placed (w.fewer q) (find_in-absent s.table q a));
              room = record {
                few = omega (arith, w.counts, h.few);
                narrow = omega (arith, w.as_long, h.narrow);
              };
            })
    ]

pub get-Tamer :
    (now m : ℕ) (key : Bytes) (s : Shard)
    → Ordered s.table
    → Holds m s.table
    → Tamer m s (Shard.get now key s).0
      × ((Shard.get now key s).0.max_memory_bytes ≡ s.max_memory_bytes)
unfolding Shard.get
get-Tamer now m key s o h = elim (Option-cases (live_value now (find s.table key))) [
  | inl miss ↦ rw (miss, Shard.get) (Tamer-refl m s o h, refl)
  | inr (x, hit) ↦ elim (Bool-cases (s.max_memory_bytes == 0)) [
    | inl free ↦ rw (hit, Shard.get) (rw free (Tamer-refl m s o h, refl))
    | inr bounded ↦
        let same = (touch-IsValid key s.table o.0 o.1).1 in
        rw (hit, Shard.get)
          (rw bounded (
            record {
              ordered = (touched key s.table o.0 o.1, (touch-IsValid key s.table o.0 o.1).0);
              absent = λ q a.
                  find-entry_of (touch key s.table).0 q
                  ∙ ap (λ bs. entry_of (find_in bs q)) same
                  ∙ sym (find-entry_of s.table q)
                  ∙ a;
              room = record {
                few = omega (arith, h.few, ap (total length) same);
                narrow = omega (arith, h.narrow, ap length same);
              };
            },
            refl,
          ))
  ]
]

length-erase-le : (a : ℕ) (xs : List ℕ) → length (erase a xs) ≤ length xs
unfolding erase
length-erase-le a [] = omega arith
length-erase-le a (x ∷ xs) = ground (arith, length-erase-le a xs)

length-without : (key : Bytes) (t : HashTable) (xs : List ℕ) → length (without key t xs) ≤ length xs
unfolding without
length-without key t xs = elim (Option-cases (find_in t.buckets key)) [
  | inl absent ↦ rw (absent, without) (omega arith)
  | inr (n, found) ↦ rw (found, without) (length-erase-le n.addr xs)
]

pub del-Tamer :
    (now m : ℕ) (key : Bytes) (s : Shard)
    → Ordered s.table
    → Holds m s.table
    → Tamer m s (Shard.del now key s).0
      × ((Shard.del now key s).0.max_memory_bytes ≡ s.max_memory_bytes)
unfolding Shard.del
del-Tamer now m key s (xs, v) h = elim (Option-cases (find s.table key)) [
  | inl miss ↦ rw (miss, Shard.del) (Tamer-refl m s (xs, v) h, refl)
  | inr (e, hit) ↦
      let v' = remove-IsValid key s.table xs v in
      rw (hit, Shard.del)
        (
          record {
            ordered = (without key s.table xs, v');
            absent = λ q a. find-remove key s.table xs v q ∙ ground (arith, a);
            room = record {
              few = omega (arith, h.few, v'.sized, v.sized, length-without key s.table xs);
              narrow = omega (arith, h.narrow, length-remove key s.table xs v);
            };
          },
          refl,
        )
]
