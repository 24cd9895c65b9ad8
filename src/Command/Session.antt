-- ===== src/Command/Session.antt =====
-- Two requests of a session: a `SET` and a later `GET` of the same key.
use redis_like_in_memory_dat.Base.{
  ℕ, ◌≡◌, ap, ◌∙◌, Bytes, codes, Option, some, none, Bool, true, false, not, refl,
}
use redis_like_in_memory_dat.Command.Escape.{escape_for_wire}
use redis_like_in_memory_dat.Persistence.Outcome.{SaveOutcome}
use redis_like_in_memory_dat.Command.Execute.{execute, run, set_reply, value_reply}
use redis_like_in_memory_dat.Command.Parse.{Command, CommandType, success, parse}
use redis_like_in_memory_dat.Database.Engine
use redis_like_in_memory_dat.Database.Engine.{
  Database, shard_for, set_until, set_value, fits_within_limit,
}
use redis_like_in_memory_dat.Database.Shard.{outcome_of, live_value}
use redis_like_in_memory_dat.Database.Sound.{IsSound, AllFit}
use redis_like_in_memory_dat.Database.Writes.{set_lem}
use redis_like_in_memory_dat.Entry.{is_expired_at}
use redis_like_in_memory_dat.HashTable.Table.{Sizes, contains}
use redis_like_in_memory_dat.Protocol.Encode

set_reply-accepted :
    (db : Database) (fresh : Bool)
    → set_reply (some (db, outcome_of fresh)) ≡ some (db, some (Encode.status (codes "OK")))
unfolding set_reply
set_reply-accepted db true = refl
set_reply-accepted db false = refl

abbrev pub set_command : Bytes → Bytes → Command
set_command key value = record {
  type = CommandType.set;
  key = key;
  value = value;
  expire_seconds = none;
}

abbrev pub get_command : Bytes → Command
get_command key = record {
  type = CommandType.get;
  key = key;
  value = codes "";
  expire_seconds = none;
}

-- In a sound database of which every shard fits in memory and whose limit the entry keeps: a line that
-- parses as a `SET` without a time to live is answered "+OK", and a later line that parses as a `GET` of
-- the same key is answered with the value, tagged and escaped, at whatever moments the two are executed.
pub set_then_get :
    (sz : Sizes) (store : Option (Database → SaveOutcome)) (now later : ℕ) (clock : ℕ → ℕ)
    (first second key value : Bytes) (db : Database)
    → IsSound db
    → AllFit db
    → fits_within_limit sz db key value ≡ true
    → parse first ≡ success (set_command key value)
    → parse second ≡ success (get_command key)
    → (db' : Database) × (db'' : Database) × (execute sz store now clock first db
        ≡ some (db', some (Encode.status (codes "OK"))))
      × (execute sz store later clock second db'
          ≡ some (db'', some (Encode.value (escape_for_wire value))))
unfolding execute run value_reply set_value live_value is_expired_at
set_then_get sz store now later clock first second key value db v fits room h k =
    let (db', st) = set_lem sz key value none db v fits room in
    (
      db',
      (Engine.get later key db').0,
      rw (h, execute)
          (ap set_reply st.runs
            ∙ set_reply-accepted db' (not (contains (shard_for db key).table key))),
      rw (k, execute)
          (ap (λ (o : Option Bytes). some ((Engine.get later key db').0, some (value_reply o)))
            (st.own later)),
    )
