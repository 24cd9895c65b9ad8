-- ===== src/HashTable/Remove.antt =====
-- `remove`: the invariant, and what readers see afterwards.
use redis_like_in_memory_dat.Base.{
  ℕ, ◌≤◌, ◌<◌, ◌≡◌, refl, sym, ap, ◌∙◌, Bytes, str_eq, List, [], ◌∷◌, none, some, true, false,
  if◌then◌else◌, length, get_or, set, length-set, arith, inl, inr, Option-cases, str_eq_iff,
}
use redis_like_in_memory_dat.HashTable.Buckets.{Rewrites}
use redis_like_in_memory_dat.HashTable.Home.{
  delete, splice-paired, delete-Rewrites, set-home-IsPlaced, find_in-set-home,
}
use redis_like_in_memory_dat.HashTable.Chain.{Node, Chain, splice}
use redis_like_in_memory_dat.HashTable.Grow.{find_in-none}
use redis_like_in_memory_dat.HashTable.Write.{count_home, find_in-listed}
use redis_like_in_memory_dat.HashTable.Put.{entry_of, find-entry_of}
use redis_like_in_memory_dat.HashTable.Recency.Shape.{count, erase, count-erase, length-erase}
use redis_like_in_memory_dat.HashTable.Recency.Unlink.{unlink-Holds}
use redis_like_in_memory_dat.HashTable.Table.{
  HashTable, home, find_in, find, contains, remove, release,
}
use redis_like_in_memory_dat.HashTable.Valid.{
  IsValid, count_addr, bytes_of, count_addr-IsSum, bytes_of-IsSum, length-IsSum, total-delete,
}

-- A table in which a key was found has buckets.
pub found_roomy :
    (bs : List Chain) (key : Bytes) (n : Node) → find_in bs key ≡ some n → 0 < length bs
found_roomy [] key n h = cc (find_in-none [] key refl)
found_roomy (c ∷ cs) key n h = omega arith

-- The addresses that are left once the node of `key` is gone.
unfoldable pub without : Bytes → HashTable → List ℕ → List ℕ
without key t xs = elim (find_in t.buckets key) [ some n ↦ erase n.addr xs | none ↦ xs ]

module _ (key : Bytes) (t : HashTable) (xs : List ℕ) (valid : IsValid t xs) where
  -- The table with the node of `key` taken out of its chain.
  cut : HashTable
  cut = record t {
    buckets =
        set t.buckets (home t.buckets key) (delete key (get_or t.buckets (home t.buckets key) []));
  }

  remove_absent : find_in t.buckets key ≡ none → remove key t ≡ (t, false)
  unfolding find_in remove
  remove_absent absent =
      rw (splice-paired key (get_or t.buckets (home t.buckets key) []), absent, remove) refl

  remove_found : (n : Node) → find_in t.buckets key ≡ some n → remove key t ≡ (release n cut, true)
  unfolding find_in remove cut
  remove_found n found =
      let e : splice key (get_or t.buckets (home t.buckets key) [])
          ≡ some (n, delete key (get_or t.buckets (home t.buckets key) [])) =
        rw (splice-paired key (get_or t.buckets (home t.buckets key) []), found) in
      rw (e, remove)

  module _ (n : Node) (found : find_in t.buckets key ≡ some n) where
    deletes :
        Rewrites key none
          (get_or t.buckets (home t.buckets key) [])
          (delete key (get_or t.buckets (home t.buckets key) []))
    unfolding find_in
    deletes =
        delete-Rewrites key n (get_or t.buckets (home t.buckets key) []) found
          (count_home t.buckets key valid.placed)

    roomy : 0 < length t.buckets
    roomy = found_roomy t.buckets key n found

    listed_before : 1 ≤ count n.addr xs
    listed_before = omega (arith, valid.listed n.addr, find_in-listed t.buckets key n roomy found)

    release-IsValid : IsValid (release n cut) (erase n.addr xs)
    unfolding release cut
    release-IsValid = record {
      placed = set-home-IsPlaced t.buckets key none _ valid.placed roomy deletes;
      counted =
          omega
            (arith, valid.counted, total-delete length _ length-IsSum t.buckets key roomy n found);
      weighed = omega (
        arith,
        valid.weighed,
        total-delete bytes_of _ bytes_of-IsSum t.buckets key roomy n found,
      );
      threaded = unlink-Holds n.addr t.recency xs valid.threaded listed_before;
      listed = λ a. ground (
        arith,
        valid.listed a,
        count-erase n.addr a xs,
        listed_before,
        total-delete (count_addr a) _ (count_addr-IsSum a) t.buckets key roomy n found,
      );
      sized = omega (
        arith,
        valid.sized,
        length-erase n.addr xs listed_before,
        total-delete length _ length-IsSum t.buckets key roomy n found,
      );
      unused = λ a h. omega (
        arith,
        valid.unused a h,
        total-delete (count_addr a) _ (count_addr-IsSum a) t.buckets key roomy n found,
      );
    }

    find_in-release :
        (q : Bytes)
        → find_in (release n cut).buckets q ≡ (if str_eq key q then none else find_in t.buckets q)
    unfolding release cut
    find_in-release = find_in-set-home t.buckets key none _ valid.placed roomy deletes

  -- `remove` keeps the invariant of a valid table and takes the node of its key, if there is one, out of
  -- the recency list.
  pub remove-IsValid : IsValid (remove key t).0 (without key t xs)
  unfolding without
  remove-IsValid = elim (Option-cases (find_in t.buckets key)) [
    | inl absent ↦ rw (remove_absent absent) (rw (absent, without) valid)
    | inr (n, found) ↦ rw (remove_found n found) (rw (found, without) (release-IsValid n found))
  ]

  -- On a valid table `remove` answers true exactly if the key was there.
  remove-contains : (remove key t).1 ≡ contains t key
  unfolding contains find
  remove-contains = elim (Option-cases (find_in t.buckets key)) [
    | inl absent ↦ rw (remove_absent absent) (rw (absent, contains, find))
    | inr (n, found) ↦ rw (remove_found n found) (rw (found, contains, find))
  ]

  -- The buckets stay as many.
  pub length-remove : length (remove key t).0.buckets ≡ length t.buckets
  unfolding release cut
  length-remove = elim (Option-cases (find_in t.buckets key)) [
    | inl absent ↦ rw (remove_absent absent) refl
    | inr (n, found) ↦ rw (remove_found n found) (
        length-set t.buckets (home t.buckets key)
          (delete key (get_or t.buckets (home t.buckets key) [])))
  ]

  -- After `remove` the key is absent; every other key leads to the same node as before.
  pub find_in-remove :
      (q : Bytes)
      → find_in (remove key t).0.buckets q ≡ (if str_eq key q then none else find_in t.buckets q)
  find_in-remove q = elim (Option-cases (find_in t.buckets key)) [
    | inl absent ↦ rw (remove_absent absent) (ground (arith, gone absent))
    | inr (n, found) ↦ rw (remove_found n found) (find_in-release n found q)
  ]
    where
      gone : find_in t.buckets key ≡ none → str_eq key q ≡ true → find_in t.buckets q ≡ none
      gone absent same = sym (ap (find_in t.buckets) ((str_eq_iff key q).0 same)) ∙ absent

  -- After `remove` on a valid table its key is absent and every other key reads as before.
  pub find-remove :
      (q : Bytes) → find (remove key t).0 q ≡ (if str_eq key q then none else find t q)
  find-remove q =
      find-entry_of (remove key t).0 q
      ∙ ap entry_of (find_in-remove q)
      ∙ rw (find-entry_of t q) (ground arith)
