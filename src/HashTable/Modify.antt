-- ===== src/HashTable/Modify.antt =====
-- `find(key)->expiration = e` and `touch`: the invariant, and what readers see afterwards.
use redis_like_in_memory_dat.Base.{
  ℕ, ◌≤◌, ◌≡◌, refl, sym, ap, ◌∙◌, Bytes, str_eq, str_eq_refl, List, [], ◌∷◌, Option, none, some,
  true, if◌then◌else◌, length, get_or, set, arith, inl, inr, Option-cases, str_eq_iff,
}
use redis_like_in_memory_dat.Entry.{Entry}
use redis_like_in_memory_dat.HashTable.Buckets.{Rewrites, assign-Rewrites}
use redis_like_in_memory_dat.HashTable.Home.{set-home-IsPlaced, find_in-set-home}
use redis_like_in_memory_dat.HashTable.Chain.{Node, assign}
use redis_like_in_memory_dat.HashTable.Write.{count_home, find_in-listed, count-moved}
use redis_like_in_memory_dat.HashTable.Put.{entry_of, find-entry_of, find_in-key}
use redis_like_in_memory_dat.HashTable.Recency.Shape.{count, erase, length-erase}
use redis_like_in_memory_dat.HashTable.Recency.Unlink.{promote-Holds}
use redis_like_in_memory_dat.HashTable.Sweep.{touch}
use redis_like_in_memory_dat.HashTable.Table.{HashTable, home, find_in, find, set_expiration}
use redis_like_in_memory_dat.HashTable.Valid.{
  IsValid, count_addr, bytes_of, count_addr-IsSum, bytes_of-IsSum, length-IsSum, total-assign,
}
use redis_like_in_memory_dat.HashTable.Remove.{found_roomy}

module _ (key : Bytes) (t : HashTable) (xs : List ℕ) (valid : IsValid t xs) where
  module _ (e : Option ℕ) (n : Node) (found : find_in t.buckets key ≡ some n) where
    dated : Node
    dated = record n { entry = record n.entry { expiration = e } }

    dates :
        Rewrites key
          (some dated)
          (get_or t.buckets (home t.buckets key) [])
          (assign key dated (get_or t.buckets (home t.buckets key) []))
    unfolding dated find_in
    dates =
        assign-Rewrites key dated n (get_or t.buckets (home t.buckets key) [])
          (unfold dated in find_in-key t.buckets key n found) found
          (count_home t.buckets key valid.placed)

    dated_table : HashTable
    dated_table = record t {
      buckets =
          set t.buckets (home t.buckets key)
            (assign key dated (get_or t.buckets (home t.buckets key) []));
    }

    set_expiration-table : set_expiration key e t ≡ dated_table
    unfolding set_expiration dated_table dated
    set_expiration-table = rw (found, set_expiration)

    dated_table-IsValid : IsValid dated_table xs
    unfolding dated_table dated
    dated_table-IsValid =
        let roomy = found_roomy t.buckets key n found in
        record {
          placed = set-home-IsPlaced t.buckets key (some dated) _ valid.placed roomy dates;
          counted = omega (
            arith,
            valid.counted,
            total-assign length _ length-IsSum t.buckets key roomy n found dated,
          );
          weighed = omega (
            arith,
            valid.weighed,
            total-assign bytes_of _ bytes_of-IsSum t.buckets key roomy n found dated,
          );
          threaded = valid.threaded;
          listed = λ a. omega (
            arith,
            valid.listed a,
            total-assign (count_addr a) _ (count_addr-IsSum a) t.buckets key roomy n found dated,
          );
          sized = omega (
            arith,
            valid.sized,
            total-assign length _ length-IsSum t.buckets key roomy n found dated,
          );
          unused = λ a h. omega (
            arith,
            valid.unused a h,
            total-assign (count_addr a) _ (count_addr-IsSum a) t.buckets key roomy n found dated,
          );
        }

    find_in-dated :
        (q : Bytes)
        → find_in dated_table.buckets q ≡ (if str_eq key q then some dated else find_in t.buckets q)
    unfolding dated_table
    find_in-dated =
        find_in-set-home t.buckets key (some dated) _ valid.placed
          (found_roomy t.buckets key n found) dates

  -- Writing an expiration keeps the invariant and the recency order.
  pub set_expiration-IsValid : (e : Option ℕ) → IsValid (set_expiration key e t) xs
  unfolding set_expiration
  set_expiration-IsValid e = elim (Option-cases (find_in t.buckets key)) [
    | inl absent ↦ rw (absent, set_expiration) valid
    | inr (n, found) ↦ rw (set_expiration-table e n found) (dated_table-IsValid e n found)
  ]

  -- The expiration written to the entry of a key that is there; nothing else changes.
  abbrev pub with_expiration : Option ℕ → Option Entry → Option Entry
  with_expiration e none = none
  with_expiration e (some x) = some (record x { expiration = e })

  pub find-set_expiration :
      (e : Option ℕ) (q : Bytes)
      → find (set_expiration key e t) q
        ≡ (if str_eq key q then with_expiration e (find t key) else find t q)
  unfolding set_expiration dated
  find-set_expiration e q = elim (Option-cases (find_in t.buckets key)) [
    | inl absent ↦ rw (absent, set_expiration) (ground (arith, gone absent, find_absent absent))
    | inr (n, found) ↦ rw (set_expiration-table e n found) (
        find-entry_of (dated_table e n found) q
        ∙ ap entry_of (find_in-dated e n found q)
        ∙ rw (find-entry_of t q, find-entry_of t key, found) (ground arith))
  ]
    where
      find_absent : find_in t.buckets key ≡ none → find t key ≡ none
      find_absent absent = find-entry_of t key ∙ ap entry_of absent

      gone : find_in t.buckets key ≡ none → str_eq key q ≡ true → find t q ≡ none
      gone absent same = sym (ap (find t) ((str_eq_iff key q).0 same)) ∙ find_absent absent

  pub set_expiration_node :
      (e : Option ℕ) (n : Node)
      → find_in t.buckets key ≡ some n
      → (m : Node) × (find_in (set_expiration key e t).buckets key ≡ some m) × (m.addr ≡ n.addr)
  unfolding dated
  set_expiration_node e n found = (
    dated e n found,
    rw (set_expiration-table e n found) (find_in-dated e n found key ∙ rw (str_eq_refl key)),
    refl,
  )

  -- The recency list after a use of `key`.
  unfoldable pub touched : List ℕ
  touched = elim (find_in t.buckets key) [ some n ↦ n.addr ∷ erase n.addr xs | none ↦ xs ]

  -- `touch` keeps the invariant, moves its key to the front, and changes no bucket.
  pub touch-IsValid : IsValid (touch key t).0 touched × ((touch key t).0.buckets ≡ t.buckets)
  unfolding touch touched
  touch-IsValid = elim (Option-cases (find_in t.buckets key)) [
    | inl absent ↦ rw (absent, touch, touched) (valid, refl)
    | inr (n, found) ↦
        let listed : 1 ≤ count n.addr xs = omega (
          arith,
          valid.listed n.addr,
          find_in-listed t.buckets key n (found_roomy t.buckets key n found) found,
        ) in
        rw (found, touch, touched)
          (
            record {
              placed = valid.placed;
              counted = valid.counted;
              weighed = valid.weighed;
              threaded = promote-Holds n.addr t.recency xs valid.threaded listed;
              listed = λ a. omega (arith, valid.listed a, count-moved n.addr a xs listed);
              sized = omega (arith, valid.sized, length-erase n.addr xs listed);
              unused = valid.unused;
            },
            refl,
          )
  ]
