-- ===== src/Database/Requests.antt =====
-- The operations of `Database` as requests, served one after another, against a map with deadlines.
use redis_like_in_memory_dat.Base.{
  ℕ, ◌+◌, ◌≤◌, Bytes, str_eq, List, [], ◌∷◌, Option, none, some, Bool, true, false, ◌||◌,
  if◌then◌else◌, ◌==◌, leb, ◌^◌, ◌<◌,
}
use redis_like_in_memory_dat.Database.Engine
use redis_like_in_memory_dat.Database.Engine.{Database, shard_index_for, shard_at, shard_for, nanos}
use redis_like_in_memory_dat.Database.Store.{dated_entry}
use redis_like_in_memory_dat.Entry.{Entry}
use redis_like_in_memory_dat.HashTable.Table.{Sizes, footprint_estimate}

pub data Request : Type 0 where
  set_value : Bytes → Bytes → Request
  set_with_ttl : Bytes → Bytes → ℕ → ℕ → Request
  get : ℕ → Bytes → Request
  del : ℕ → Bytes → Request
  remove_expired : ℕ → (ℕ → ℕ) → Request
  set_max_memory : ℕ → Request
  clear : Request

abbrev pub database_of : {A : Type 0} → Option (Database × A) → Option Database
database_of none = none
database_of (some (db, a)) = some db

-- The database after a request; `none` is a fault, or a loop that does not end within its fuel.
unfoldable pub serve : Sizes → Request → Database → Option Database
serve sz (set_value key value) db = database_of (Engine.set_value sz key value db)
serve sz (set_with_ttl key value seconds now) db =
    database_of (Engine.set_with_ttl sz key value seconds now db)
serve sz (get now key) db = some (Engine.get now key db).0
serve sz (del now key) db = some (Engine.del now key db).0
serve sz (remove_expired buckets clock) db = some (Engine.remove_expired buckets clock db).0
serve sz (set_max_memory bytes) db = Engine.set_max_memory sz bytes db
serve sz clear db = some (Engine.clear db)

unfoldable pub serve_all : Sizes → List Request → Database → Option Database
serve_all sz [] db = some db
serve_all sz (r ∷ rs) db = elim (serve sz r db) [ none ↦ none | some db' ↦ serve_all sz rs db' ]

-- What the database stands for: a map, the limit, and whether there ever was one.
pub record Contents : Type 0 where
  pub entries : Bytes → Option Entry
  pub limit : ℕ
  pub limited : Bool

abbrev pub nothing : Contents
nothing = record { entries = λ q. none; limit = 0; limited = false }

abbrev pub accepted : Sizes → Bytes → Bytes → Contents → Bool
accepted sz key value c = c.limit == 0 || leb (footprint_estimate sz key value) c.limit

abbrev pub written : Sizes → Bytes → Bytes → Option ℕ → Contents → Contents
written sz key value deadline c =
    if accepted sz key value c
    then record c {
      entries = λ q. if str_eq key q then some (dated_entry key value deadline) else c.entries q;
    }
    else c

-- What a request means for the map: a sweep, a read and an eviction mean nothing.
unfoldable pub effect : Sizes → Request → Contents → Contents
effect sz (set_value key value) c = written sz key value none c
effect sz (set_with_ttl key value seconds now) c =
    written sz key value (some (now + nanos seconds)) c
effect sz (get now key) c = c
effect sz (del now key) c = record c { entries = λ q. if str_eq key q then none else c.entries q }
effect sz (remove_expired buckets clock) c = c
effect sz (set_max_memory bytes) c = record c {
  limit = bytes;
  limited = if bytes == 0 then c.limited else true;
}
effect sz clear c = record c { entries = λ q. none }

unfoldable pub effects : Sizes → List Request → Contents → Contents
effects sz [] c = c
effects sz (r ∷ rs) c = effects sz rs (effect sz r c)

-- The clock readings of the sweeps are not after a moment, and 64 bits hold every deadline.
abbrev pub IsTimely : ℕ → List Request → Type 0
IsTimely later [] = Unit {0}
IsTimely later (remove_expired buckets clock ∷ rs) = ((i : ℕ) → clock i ≤ later) × IsTimely later rs
IsTimely later (set_with_ttl key value seconds now ∷ rs) =
    (now + nanos seconds < 2 ^ 63) × IsTimely later rs
IsTimely later (r ∷ rs) = IsTimely later rs
