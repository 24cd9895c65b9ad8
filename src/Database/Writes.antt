-- ===== src/Database/Writes.antt =====
-- `set`, with and without a time to live, on the whole database.
use redis_like_in_memory_dat.Base.{
  ℕ, suc, ◌+◌, ◌-◌, ◌^◌, ◌≤◌, ◌<◌, ◌≡◌, ◌⊎◌, refl, sym, ap, ◌∙◌, Bytes, str_eq, Option, none, some,
  true, false, not, if◌then◌else◌, ==_iff, leb, arith, inl, inr,
}
use redis_like_in_memory_dat.Database.Engine
use redis_like_in_memory_dat.Database.Engine.{
  Database, shard_index_for, shard_for, put_shard, fits_within_limit, set_until, set_value,
  set_with_ttl, nanos,
}
use redis_like_in_memory_dat.Database.Shard
use redis_like_in_memory_dat.Database.Shard.{
  Shard, SetOutcome, rejected, live_value, ceil_seconds, store, outcome_of,
}
use redis_like_in_memory_dat.Database.Sound.{
  IsSound, Ordered, AllFit, shard-Ordered, put_shard-IsSound, find_kept, find_lost, find-put_shard,
  get-live,
}
use redis_like_in_memory_dat.Database.Servable.{IsServable, shard-Holds, put-IsServable, slice-put}
use redis_like_in_memory_dat.Database.Store.{dated_entry, store-Stored}
use redis_like_in_memory_dat.Entry.{is_expired_at}
use redis_like_in_memory_dat.HashTable.Table.{Sizes, find, contains}

live_none : (now : ℕ) → live_value now none ≡ none
unfolding live_value
live_none now = refl

-- Equal entries are read alike.
read_same :
    (db : Database) (key : Bytes) (s : Shard) (now : ℕ) (q : Bytes)
    → find (shard_for (put_shard db key s) q).table q ≡ find (shard_for db q).table q
    → (Engine.get now q (put_shard db key s)).1 ≡ (Engine.get now q db).1
read_same db key s now q e =
    get-live now q (put_shard db key s) ∙ ap (live_value now) e ∙ sym (get-live now q db)

module _ (sz : Sizes) (key value : Bytes) (deadline : Option ℕ) (db : Database) where
  module _ (v : IsSound db) (fits : AllFit db)
      (room : fits_within_limit sz db key value ≡ true) where
    -- What a reader finds after a `set` that was not refused.
    pub record Set (db' : Database) : Type 0 where
      pub runs :
          set_until sz key value deadline db
          ≡ some (db', outcome_of (not (contains (shard_for db key).table key)))
      pub sound : IsSound db'
      pub stored : find (shard_for db' key).table key ≡ some (dated_entry key value deadline)
      pub own :
          (now : ℕ)
          → (Engine.get now key db').1 ≡ live_value now (some (dated_entry key value deadline))
      pub others :
          (now : ℕ) (q : Bytes)
          → str_eq key q ≡ false
          → ((Engine.get now q db').1 ≡ (Engine.get now q db).1) ⊎ ((Engine.get now q db').1 ≡ none)
      pub exact :
          (shard_for db key).max_memory_bytes ≡ 0
          → (now : ℕ) (q : Bytes) → str_eq key q ≡ false
          → (Engine.get now q db').1 ≡ (Engine.get now q db).1
      pub servable : (m : ℕ) → m < 2 ^ 56 → IsServable m db → IsServable (suc m) db'
      pub slices :
          (q : Bytes) → (shard_for db' q).max_memory_bytes ≡ (shard_for db q).max_memory_bytes
      pub limit : db'.max_memory_bytes ≡ db.max_memory_bytes

    -- An accepted `set` always ends: the new value is read until its deadline, whatever was evicted
    -- to make room; another key reads as before or was evicted; without a limit none is evicted.
    pub set_lem : (db' : Database) × Set db'
    unfolding set_until
    set_lem =
        let (s', ys, runs, st) =
          store-Stored sz key value deadline (shard_for db key) o.0 o.1 (fits key) in
        (
          put_shard db key s',
          record {
            runs = rw room (rw runs);
            sound = put_shard-IsSound db key s' v (ys, st.valid);
            stored = here s' st.own;
            own = λ now.
                get-live now key (put_shard db key s') ∙ ap (live_value now) (here s' st.own);
            others = λ now q ne. elim (st.others q ne) [
              | inl kept ↦ inl (read_same db key s' now q (find_kept db key q s' v kept))
              | inr gone ↦ elim (find_lost db key q s' v gone) [
                | inl kept ↦ inl (read_same db key s' now q kept)
                | inr lost ↦ inr (
                    get-live now q (put_shard db key s') ∙ ap (live_value now) lost ∙ live_none now)
              ]
            ];
            exact =
                λ z now q ne. read_same db key s' now q (find_kept db key q s' v (st.exact z q ne));
            servable = λ m h w.
                put-IsServable db key s' m (suc m) w (omega arith) (ys, st.valid)
                  (record {
                    few = omega (arith, st.fewer, (shard-Holds m db key w).few);
                    narrow =
                        st.stays_narrow
                          (omega (arith, h, o.1.counted, (shard-Holds m db key w).few))
                          (shard-Holds m db key w).narrow;
                  })
                  (λ q ne absent. ground (arith, st.others q ne, absent));
            slices = λ q. slice-put db key q s' v st.slice;
            limit = refl;
          },
        )
      where
        o : Ordered (shard_for db key).table
        o = shard-Ordered db key v

        here :
            (s' : Shard)
            → find s'.table key ≡ some (dated_entry key value deadline)
            → find (shard_for (put_shard db key s') key).table key
              ≡ some (dated_entry key value deadline)
        here s' e =
            find-put_shard db key s' v key
            ∙ rw ((==_iff (shard_index_for db key) (shard_index_for db key)).1 refl) e

-- What a deadline means to readers from the moment `now` on, `seconds` before it.
pub record Expires (key value : Bytes) (seconds now : ℕ) (db : Database) : Type 0 where
  pub at_once : Engine.ttl now key db ≡ some seconds
  pub before :
      (later : ℕ)
      → now ≤ later
      → later < now + nanos seconds
      → ((Engine.get later key db).1 ≡ some value)
        × ((r : ℕ) × (Engine.ttl later key db ≡ some r) × (1 ≤ r) × (r ≤ seconds))
  pub after :
      (later : ℕ)
      → now + nanos seconds ≤ later
      → ((Engine.get later key db).1 ≡ none) × (Engine.ttl later key db ≡ none)

ttl-stored :
    (db : Database) (key value : Bytes) (d later : ℕ)
    → find (shard_for db key).table key ≡ some (dated_entry key value (some d))
    → Engine.ttl later key db ≡ (if leb d later then none else some (ceil_seconds (d - later)))
unfolding Engine.ttl Shard.ttl
ttl-stored db key value d later h = rw (h, Shard.ttl)

-- A deadline that 64 bits hold is no overflow.
pub set_with_ttl-set_until :
    (sz : Sizes) (key value : Bytes) (seconds now : ℕ) (db : Database)
    → now + nanos seconds < 2 ^ 63
    → set_with_ttl sz key value seconds now db
      ≡ set_until sz key value (some (now + nanos seconds)) db
unfolding set_with_ttl
set_with_ttl-set_until sz key value seconds now db small =
    let held : leb (2 ^ 63) (now + nanos seconds) ≡ false = ground (arith, small) in rw held refl

-- A key set with a time to live is read with its value until the deadline and not after it; `ttl`
-- reports the whole time at once, then between one second and the whole time, then nothing.
pub set_with_ttl_lem :
    (sz : Sizes) (key value : Bytes) (seconds now : ℕ) (db : Database)
    → IsSound db
    → AllFit db
    → fits_within_limit sz db key value ≡ true
    → 1 ≤ seconds
    → now + nanos seconds < 2 ^ 63
    → (db' : Database) × (o : SetOutcome) × (set_with_ttl sz key value seconds now db
        ≡ some (db', o))
      × IsSound db'
      × Expires key value seconds now db'
unfolding is_expired_at live_value
set_with_ttl_lem sz key value seconds now db v fits room pos small =
    let (db', st) = set_lem sz key value (some (now + nanos seconds)) db v fits room in
    let left = ttl-stored db' key value (now + nanos seconds) in
    (
      db',
      outcome_of (not (contains (shard_for db key).table key)),
      set_with_ttl-set_until sz key value seconds now db small ∙ st.runs,
      st.sound,
      record {
        at_once = left now st.stored ∙ ground (arith, pos);
        before = λ later h k. (
          st.own later ∙ ground (arith, k),
          (
            ceil_seconds (now + nanos seconds - later),
            left later st.stored ∙ ground (arith, k),
            omega (arith, h, k),
            omega (arith, h, k),
          ),
        );
        after =
            λ later h. (st.own later ∙ ground (arith, h), left later st.stored ∙ ground (arith, h));
      },
    )
