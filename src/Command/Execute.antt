-- ===== src/Command/Execute.antt =====
-- src/CommandExecutor.cpp: `execute`, from a request line to the reply. A fault of the database is
-- `none`; no reply at all is `some (db, none)`.
use redis_like_in_memory_dat.Base.{
  ℕ, Bytes, codes, List, [], ◌∷◌, ◌++◌, Option, none, some, Bool, if◌then◌else◌, length,
}
use redis_like_in_memory_dat.Command.Escape.{escape_for_wire}
use redis_like_in_memory_dat.Command.Parse.{Command, CommandType, success, failure, parse}
use redis_like_in_memory_dat.Database.Engine
use redis_like_in_memory_dat.Database.Engine.{Database, set_value, set_with_ttl}
use redis_like_in_memory_dat.Database.Shard.{SetOutcome, rejected, inserted, updated}
use redis_like_in_memory_dat.HashTable.Table.{Sizes}
use redis_like_in_memory_dat.Persistence.Outcome.{SaveOutcome}
use redis_like_in_memory_dat.Protocol.Count.{pos}
use redis_like_in_memory_dat.Protocol.Encode

abbrev pub Reply : Type 0
Reply = Option (Database × Option Bytes)

abbrev reply : Database → Bytes → Reply
reply db text = some (db, some text)

unfoldable pub set_reply : Option (Database × SetOutcome) → Reply
set_reply none = none
set_reply (some (db, rejected)) =
    reply db (Encode.error (codes "ERR value is larger than the configured max-memory"))
set_reply (some (db, inserted)) = reply db (Encode.status (codes "OK"))
set_reply (some (db, updated)) = reply db (Encode.status (codes "OK"))

unfoldable pub value_reply : Option Bytes → Bytes
unfolding escape_for_wire
value_reply none = Encode.nil
value_reply (some v) = Encode.value (escape_for_wire v)

abbrev pub flag : Bool → Bytes
flag b = Encode.integer (pos (if b then 1 else 0))

-- The lines after the header of the reply to `KEYS`.
unfoldable pub key_lines : List Bytes → Bytes
key_lines [] = []
key_lines (key ∷ keys) = 10 ∷ Encode.value (escape_for_wire key) ++ key_lines keys

unfoldable pub save_reply : Option (Database → SaveOutcome) → Database → Bytes
save_reply none db = Encode.error (codes "ERR persistence is not configured")
save_reply (some save) db =
    if (save db).ok
    then Encode.status (codes "OK")
    else Encode.error (codes "ERR " ++ (save db).error)

-- The database's side of one command. `now` is the reading of the clock, `clock` the readings at the
-- shards in turn, `store` the snapshot store, if one is configured.
module _ (sz : Sizes) (store : Option (Database → SaveOutcome)) (now : ℕ) (clock : ℕ → ℕ) where
  unfoldable pub run : Command → Database → Reply
  run command db = elim command.type [
    | CommandType.empty ↦ some (db, none)
    | CommandType.set ↦ set_reply (elim command.expire_seconds [
      | none ↦ set_value sz command.key command.value db
      | some seconds ↦ set_with_ttl sz command.key command.value seconds now db
    ])
    | CommandType.get ↦ let (db', v) = Engine.get now command.key db in reply db' (value_reply v)
    | CommandType.del ↦ let (db', b) = Engine.del now command.key db in reply db' (flag b)
    | CommandType.exists ↦ reply db (flag (Engine.exists now command.key db))
    | CommandType.keys ↦
        let ks = Engine.keys clock db in reply db (Encode.array_header (length ks) ++ key_lines ks)
    | CommandType.save ↦ reply db (save_reply store db)
  ]

  unfoldable pub execute : Bytes → Database → Reply
  unfolding run
  execute line db = elim (parse line) [
    | failure text ↦ reply db (Encode.error text)
    | success command ↦ run command db
  ]
