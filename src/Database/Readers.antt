-- ===== src/Database/Readers.antt =====
-- What a reader of the database sees after a write, field by field of what the writes leave.
use redis_like_in_memory_dat.Base.{
  ℕ, not, ◌+◌, ◌≤◌, ◌<◌, ◌≡◌, ◌⊎◌, Bytes, str_eq, Option, none, some, true, false, ◌^◌,
}
use redis_like_in_memory_dat.Database.Engine
use redis_like_in_memory_dat.Database.Engine.{
  Database, shard_for, fits_within_limit, set_until, set_with_ttl, nanos,
}
use redis_like_in_memory_dat.Database.Shard.{SetOutcome, live_value, outcome_of}
use redis_like_in_memory_dat.Database.Sound.{IsSound, AllFit}
use redis_like_in_memory_dat.Database.Store.{dated_entry}
use redis_like_in_memory_dat.Database.Writes.{set_lem, set_with_ttl_lem}
use redis_like_in_memory_dat.HashTable.Table.{Sizes, contains}

module _ (sz : Sizes) (key value : Bytes) (deadline : Option ℕ) (db : Database) (v : IsSound db)
    (fits : AllFit db) (room : fits_within_limit sz db key value ≡ true) where
  -- In a sound database of which every shard fits in memory, a `set` whose entry is within the memory
  -- limit ends; it answers "inserted" if the shard did not hold the key and "updated" if it did; it leaves
  -- a sound database; and a read of the key at `now` gives the value, or nothing if the deadline is over,
  -- even though the write may have had to evict.
  pub set_own :
      (now : ℕ)
      → (db' : Database) × (set_until sz key value deadline db
          ≡ some (db', outcome_of (not (contains (shard_for db key).table key))))
        × IsSound db'
        × ((Engine.get now key db').1 ≡ live_value now (some (dated_entry key value deadline)))
  set_own now =
      let (db', st) = set_lem sz key value deadline db v fits room in
      (db', st.runs, st.sound, st.own now)

  -- In a sound database of which every shard fits in memory, a `set` whose entry is within the memory
  -- limit ends, and leaves every other key reading as before or, if it was evicted, as absent: no read
  -- gives a value that was not there.
  pub set_other :
      (now : ℕ) (q : Bytes)
      → str_eq key q ≡ false
      → (db' : Database) × (o : SetOutcome) × (set_until sz key value deadline db ≡ some (db', o))
        × (((Engine.get now q db').1 ≡ (Engine.get now q db).1) ⊎ ((Engine.get now q db').1 ≡ none))
  set_other now q ne =
      let (db', st) = set_lem sz key value deadline db v fits room in
      (db', _, st.runs, st.others now q ne)

  -- In a sound database of which every shard fits in memory, a `set` on a shard without a memory limit
  -- ends, and every other key reads as before.
  set_unlimited :
      (shard_for db key).max_memory_bytes ≡ 0
      → (now : ℕ) (q : Bytes) → str_eq key q ≡ false
      → (db' : Database) × (o : SetOutcome) × (set_until sz key value deadline db ≡ some (db', o))
        × ((Engine.get now q db').1 ≡ (Engine.get now q db).1)
  set_unlimited z now q ne =
      let (db', st) = set_lem sz key value deadline db v fits room in
      (db', _, st.runs, st.exact z now q ne)

module _ (sz : Sizes) (key value : Bytes) (seconds now : ℕ) (db : Database) (v : IsSound db)
    (fits : AllFit db) (room : fits_within_limit sz db key value ≡ true) (positive : 1 ≤ seconds)
    (small : now + nanos seconds < 2 ^ 63) where
  -- For a key set at `now` with a positive number of seconds to live, in a sound database of which every
  -- shard fits in memory and whose limit the entry keeps, and a deadline that 64 bits hold: at every later moment before the deadline a read
  -- gives the value, and `ttl` gives a number of seconds between one and those that were asked for.
  pub ttl_live :
      (later : ℕ)
      → now ≤ later
      → later < now + nanos seconds
      → (db' : Database) × (o : SetOutcome) × (r : ℕ) × (set_with_ttl sz key value seconds now db
          ≡ some (db', o))
        × ((Engine.get later key db').1 ≡ some value)
        × (Engine.ttl later key db' ≡ some r)
        × (1 ≤ r)
        × (r ≤ seconds)
  ttl_live later h k =
      let (db', o, runs, sound, ex) =
        set_with_ttl_lem sz key value seconds now db v fits room positive small in
      let (read, (r, left, low, high)) = ex.before later h k in
      (db', o, r, runs, read, left, low, high)

  -- For a key set at `now` with a positive number of seconds to live, in a sound database of which every
  -- shard fits in memory and whose limit the entry keeps, and a deadline that 64 bits hold: at the deadline and after it neither a read nor
  -- `ttl` gives anything, although no operation has removed the entry.
  pub ttl_over :
      (later : ℕ)
      → now + nanos seconds ≤ later
      → (db' : Database) × (o : SetOutcome) × (set_with_ttl sz key value seconds now db
          ≡ some (db', o))
        × ((Engine.get later key db').1 ≡ none)
        × (Engine.ttl later key db' ≡ none)
  ttl_over later h =
      let (db', o, runs, sound, ex) =
        set_with_ttl_lem sz key value seconds now db v fits room positive small in
      let (read, left) = ex.after later h in (db', o, runs, read, left)
