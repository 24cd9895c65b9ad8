-- ===== src/Database/Restored.antt =====
-- `restore`: the entries of a snapshot are written in turn into the cleared shards.
use redis_like_in_memory_dat.Base.{
  ℕ, suc, ◌+◌, ◌^◌, ◌≤◌, ◌<◌, ◌≡◌, refl, sym, ap, ◌∙◌, Bytes, str_eq, List, [], ◌∷◌, none, some,
  Bool, not, if◌then◌else◌, length, length-map, get_or-map, arith, inl, inr, Bool-cases,
  Option-cases,
}
use redis_like_in_memory_dat.Database.Engine
use redis_like_in_memory_dat.Database.Engine.{
  Database, shard_index_for, shard_at, shard_for, put_shard, restore_from, restore,
}
use redis_like_in_memory_dat.Database.Shard
use redis_like_in_memory_dat.Database.Shard.{Shard, new_shard, restore_entry, live_value}
use redis_like_in_memory_dat.Database.Sound.{
  IsSound, Ordered, shard-Ordered, find_patched, get-live, shard_index-lt,
}
use redis_like_in_memory_dat.Database.Servable.{
  Holds, IsServable, IsServable-weaken, shard-Holds, put-IsServable,
}
use redis_like_in_memory_dat.Database.Store.{
  put_dated, put_dated-IsValid, put_dated-Narrow, find-put_dated,
}
use redis_like_in_memory_dat.Entry.{Entry, is_expired_at}
use redis_like_in_memory_dat.HashTable.Grow.{Fits}
use redis_like_in_memory_dat.HashTable.Listed.{overlay}
use redis_like_in_memory_dat.HashTable.Narrow.{Narrow}
use redis_like_in_memory_dat.HashTable.New.{clear-IsValid, find-clear}
use redis_like_in_memory_dat.HashTable.Sweep.{clear}
use redis_like_in_memory_dat.HashTable.Chain.{Chain}
use redis_like_in_memory_dat.HashTable.Put.{used, length-used}
use redis_like_in_memory_dat.HashTable.Table.{HashTable, Sizes, find}

-- An entry that has not expired at an instant.
abbrev pub in_force : ℕ → Entry → Bool
in_force now e = not (is_expired_at e now)

restore_entry-table :
    (sz : Sizes) (e : Entry) (s : Shard)
    → (restore_entry sz e s).table ≡ put_dated sz e.key e.value e.expiration s.table
unfolding restore_entry
restore_entry-table sz e s = elim (Option-cases e.expiration) [
  | inl lasting ↦ rw lasting refl
  | inr (d, dated) ↦ rw dated refl
]

-- One entry put back in its shard.
record PutBack (m : ℕ) (e : Entry) (s s' : Shard) : Type 0 where
  ordered : Ordered s'.table
  holds : Holds (suc m) s'.table
  finds : (q : Bytes) → find s'.table q ≡ (if str_eq e.key q then some e else find s.table q)

restore_entry-PutBack :
    (sz : Sizes) (e : Entry) (s : Shard) (m : ℕ)
    → Ordered s.table
    → Holds m s.table
    → m < 2 ^ 56
    → PutBack m e s (restore_entry sz e s)
restore_entry-PutBack sz e s m (xs, v) h lt =
    let t = put_dated sz e.key e.value e.expiration s.table in
    let fits : Fits s.table = record {
      few = omega (arith, h.few);
      narrow = omega (arith, h.narrow);
    } in
    let v' = put_dated-IsValid sz e.key e.value s.table xs v fits e.expiration in
    let same : t ≡ (restore_entry sz e s).table = sym (restore_entry-table sz e s) in
    record {
      ordered = rw (← same) (used e.key s.table xs, v');
      holds = rw (← same) (record {
        few =
            omega (arith, h.few, v.sized, v'.sized, length-used sz e.key e.value s.table xs v fits);
        narrow =
            put_dated-Narrow sz e.key e.value e.expiration s.table (omega (arith, v.counted, h.few))
              h.narrow;
      });
      finds = λ q.
          ap (λ r. find r q) (restore_entry-table sz e s)
          ∙ find-put_dated sz e.key e.value s.table xs v fits e.expiration q;
    }

-- What the loop of `restore` leaves: a database whose readers see the entries over what they saw.
record Written (now m : ℕ) (es : List Entry) (db db' : Database) : Type 0 where
  servable : IsServable (m + length es) db'
  finds :
      (q : Bytes)
      → find (shard_for db' q).table q ≡ overlay (in_force now) es q (find (shard_for db q).table q)

restore_from-Written :
    (sz : Sizes) (now : ℕ) (es : List Entry) (db : Database) (m stored : ℕ)
    → IsServable m db
    → m + length es ≤ 2 ^ 56
    → Written now m es db (restore_from sz now es db stored).0
unfolding restore_from overlay
restore_from-Written sz now [] db m stored v h = record {
  servable = IsServable-weaken m (m + 0) db (omega arith) v;
  finds = λ q. refl;
}
restore_from-Written sz now (e ∷ es) db m stored v h = elim (Bool-cases (is_expired_at e now)) [
  | inl lapsed ↦
      let w = restore_from-Written sz now es db m stored v (omega (arith, h)) in
      rw (lapsed, restore_from)
        (record {
          servable = IsServable-weaken _ _ _ (omega arith) w.servable;
          finds = λ q. w.finds q ∙ ap (overlay (in_force now) es q) (ground (arith, lapsed));
        })
  | inr live ↦
      let s = restore_entry sz e (shard_for db e.key) in
      let b =
        restore_entry-PutBack sz e (shard_for db e.key) m (shard-Ordered db e.key v.sound)
          (shard-Holds m db e.key v) (omega (arith, h)) in
      let v' =
        put-IsServable db e.key s m (suc m) v (omega arith) b.ordered b.holds
          (λ q ne absent. b.finds q ∙ rw ne absent) in
      let w =
        restore_from-Written sz now es (put_shard db e.key s) (suc m) _ v' (omega (arith, h)) in
      rw (live, restore_from)
        (record {
          servable = IsServable-weaken _ _ _ (omega arith) w.servable;
          finds = λ q.
              w.finds q
              ∙ ap (overlay (in_force now) es q)
                  (find_patched db e.key s (some e) v.sound b.finds q ∙ ground (arith, live));
        })
]

pub cleared-at :
    (db : Database) (i : ℕ)
    → i < length db.shards
    → shard_at (Engine.clear db) i ≡ Shard.clear_shard (shard_at db i)
unfolding Engine.clear
cleared-at db i h = get_or-map Shard.clear_shard db.shards i (new_shard 1) (new_shard 1) h

-- `clear` on a sound database leaves a sound one in which no shard has an entry, with as many buckets.
clear-IsSound : (db : Database) → IsSound db → IsSound (Engine.clear db)
unfolding Engine.clear Shard.clear_shard
clear-IsSound db v =
    let n : length (Engine.clear db).shards ≡ length db.shards =
      length-map Shard.clear_shard db.shards in
    record {
      shaped = omega (arith, n, v.shaped);
      each = λ i h.
          let h' : i < length db.shards = omega (arith, n, h) in
          rw (cleared-at db i h') ([], clear-IsValid (shard_at db i).table);
    }

-- The shard of a key after `clear`.
cleared :
    (db : Database) (key : Bytes)
    → IsSound db
    → (shard_for (Engine.clear db) key).table ≡ clear (shard_for db key).table
unfolding Engine.clear Shard.clear_shard shard_index_for
cleared db key v =
    ap (λ (s : Shard). s.table) (cleared-at db (shard_index_for db key) (shard_index-lt db key v))

cleared-Holds : (t : HashTable) → Narrow t → Holds 0 (clear t)
unfolding clear
cleared-Holds t h = record {
  few = omega (arith, (clear-IsValid t).sized);
  narrow = omega (arith, h, length-map {A = Chain} {B = Chain} (λ c. []) t.buckets);
}

pub find-cleared :
    (db : Database) (i : ℕ) (q : Bytes)
    → i < length db.shards
    → find (shard_at (Engine.clear db) i).table q ≡ none
unfolding Shard.clear_shard
find-cleared db i q h =
    ap (λ (s : Shard). find s.table q) (cleared-at db i h) ∙ find-clear (shard_at db i).table q

pub clear-IsServable :
    (db : Database)
    → IsSound db
    → ((i : ℕ) → i < length db.shards → Narrow (shard_at db i).table)
    → IsServable 0 (Engine.clear db)
unfolding Engine.clear
clear-IsServable db v narrow = record {
  sound = clear-IsSound db v;
  routed =
      λ i q h ne. find-cleared db i q (omega (arith, h, length-map Shard.clear_shard db.shards));
  holds = λ i h.
      let h' : i < length db.shards = omega (arith, h, length-map Shard.clear_shard db.shards) in
      rw (cleared-at db i h')
        (unfold Shard.clear_shard in cleared-Holds (shard_at db i).table (narrow i h'));
}

-- `restore` of at most 2⁵⁶ entries into a sound database with at most 2⁵⁸ buckets in each shard leaves a sound
-- database with each key in its own shard. It has no other entries than these: a key reads at any moment as
-- the last entry of the list with that key that had not expired when the restore began, and as absent if there
-- is none.
pub get-restore :
    (sz : Sizes) (now later : ℕ) (es : List Entry) (db : Database) (q : Bytes)
    → IsSound db
    → ((i : ℕ) → i < length db.shards → Narrow (shard_at db i).table)
    → length es ≤ 2 ^ 56
    → IsServable (length es) (restore sz now es db).0
      × ((Engine.get later q (restore sz now es db).0).1
          ≡ live_value later (overlay (in_force now) es q none))
unfolding restore
get-restore sz now later es db q v narrow h =
    let w =
      restore_from-Written sz now es (Engine.clear db) 0 0 (clear-IsServable db v narrow)
        (omega (arith, h)) in
    let nothing : find (shard_for (Engine.clear db) q).table q ≡ none =
      ap (λ t. find t q) (cleared db q v) ∙ find-clear (shard_for db q).table q in
    (
      IsServable-weaken _ _ _ (omega arith) w.servable,
      get-live later q (restore_from sz now es (Engine.clear db) 0).0
          ∙ ap (live_value later) (w.finds q ∙ ap (overlay (in_force now) es q) nothing),
    )
