-- ===== src/Programs/ServerMain.antt =====
-- server/main.cpp: `main`. What happens between the return of `Server::start` and that of `Server::run`, by the
-- clients and the background threads, is a parameter, and so are the readings and the results of the system calls
-- of the last save. What goes to `std::cout` is left out, and so are the line ends on `std::cerr`.
use redis_like_in_memory_dat.Base.{
  ℕ, Bytes, codes, List, [], ◌∷◌, ◌++◌, Option, none, some, Bool, true, false, if◌then◌else◌,
}
use redis_like_in_memory_dat.Base.Calls.{Result}
use redis_like_in_memory_dat.Database.Engine
use redis_like_in_memory_dat.Database.Engine.{Database, snapshot}
use redis_like_in_memory_dat.HashTable.Table.{Sizes, default_bucket_count}
use redis_like_in_memory_dat.Persistence.Clocks.{Reading}
use redis_like_in_memory_dat.Persistence.Disk.{Disk}
use redis_like_in_memory_dat.Persistence.Outcome.{SaveOutcome, LoadOutcome}
use redis_like_in_memory_dat.Persistence.Store.{SnapshotStore, Saving, save}
use redis_like_in_memory_dat.Programs.Arguments.{Parsed, accepted, help, refusal, parse_arguments}
use redis_like_in_memory_dat.Server.Start.{
  ServerConfig, is_positive, Server, make_server, StartCalls, start,
}

-- `ServerConfig config;`
abbrev pub default_config : ServerConfig
default_config = record {
  bind_address = codes "127.0.0.1";
  port = 6379;
  thread_count = 64;
  max_queued_connections = 128;
  sweeper_interval = 100;
  snapshot_path = [];
  save_interval = 0;
  restore_on_start = true;
  shard_count = 64;
  max_memory_bytes = 0;
}

-- What the last save is given.
pub record LastSave : Type 0 where
  pub tick : ℕ
  pub moments : ℕ → ℕ
  pub now : ℕ
  pub clock : ℕ → Reading
  pub results : List Result

-- The status, the text on `std::cerr` and the disk; or no end yet, in the last save; or an undefined end.
pub data Ended : Type 0 where
  ended : ℕ → Bytes → Disk → Ended
  still_saving : Disk → Ended
  undefined : Ended

abbrev pub needs_file : ServerConfig → Bytes → Bool
needs_file config [] = is_positive config.save_interval
needs_file config (c ∷ path) = false

abbrev pub counted : ℕ → SnapshotStore → SnapshotStore
counted saves store = record { path = store.path; save_count = saves }

-- What is made of the last save.
unfoldable pub after_last_save : Saving → Option SaveOutcome → Ended
after_last_save r none = still_saving r.disk
after_last_save r (some outcome) =
    if outcome.ok
    then ended 0 [] r.disk
    else ended 1 (codes "error: final snapshot failed: " ++ outcome.error) r.disk

abbrev pub last_save : LastSave → Database → ℕ → SnapshotStore → Disk → Saving
last_save l db saves store d =
    save l.tick l.moments l.now l.clock db (counted saves store) l.results d

-- The end of `main`, once `run` has returned, with the number of saves so far.
unfoldable pub finish : LastSave → Option SnapshotStore → Database × ℕ × Disk → Ended
unfolding after_last_save
finish l none (db, saves, d) = ended 0 [] d
finish l (some store) (db, saves, d) =
    after_last_save (last_save l db saves store d) (last_save l db saves store d).outcome

module _ (sz : Sizes) (calls : StartCalls)
    (load : SnapshotStore → Database → Database × LoadOutcome)
    (run : Database → Server → Disk → Database × ℕ × Disk) (l : LastSave) (d : Disk) where
  unfoldable pub after_start : Option (Database × Server × Bool) → Ended
  unfolding finish
  after_start none = undefined
  after_start (some (db, s, false)) = ended 1 (codes "error: " ++ s.error) d
  after_start (some (db, s, true)) = finish l s.store (run db s d)

  unfoldable pub after_arguments : Parsed → Ended
  unfolding after_start
  after_arguments (refusal text) = ended 1 text d
  after_arguments help = ended 0 [] d
  after_arguments (accepted config) =
      if needs_file config config.snapshot_path
      then ended 1 (codes "error: --save-interval requires --dbfile") d
      else after_start (
          start sz config calls load make_server
            (Engine.new default_bucket_count config.shard_count))

  unfoldable pub main : List Bytes → Ended
  unfolding after_arguments parse_arguments
  main arguments = after_arguments (parse_arguments arguments default_config)
