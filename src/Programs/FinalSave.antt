-- ===== src/Programs/FinalSave.antt =====
-- What the server's `main` leaves on the disk.
use redis_like_in_memory_dat.Base.{
  ℕ, ◌≡◌, ◌⊎◌, refl, sym, ap, ◌∙◌, Bytes, codes, List, ◌∷◌, ◌++◌, Option, none, some, true, false,
  length, arith, inl, inr,
}
use mathlib.Core.Path.{subst}
use redis_like_in_memory_dat.Database.Engine
use redis_like_in_memory_dat.Database.Engine.{Database, snapshot}
use redis_like_in_memory_dat.HashTable.Table.{Sizes, default_bucket_count}
use redis_like_in_memory_dat.Persistence.Atomic.{
  IsUnsaved, IsSaved, saved_outcome, save_entries-atomic,
}
use redis_like_in_memory_dat.Persistence.Disk.{Disk}
use redis_like_in_memory_dat.Persistence.Encode.{encode}
use redis_like_in_memory_dat.Persistence.Outcome.{SaveOutcome, LoadStatus, LoadOutcome}
use redis_like_in_memory_dat.Persistence.Store.{SnapshotStore, make_store, Saving, save}
use redis_like_in_memory_dat.Programs.Arguments.{accepted, parse_arguments}
use redis_like_in_memory_dat.Programs.ServerMain.{
  default_config, LastSave, Ended, ended, still_saving, undefined, needs_file, counted, last_save,
  after_last_save, finish, after_start, after_arguments, main,
}
use redis_like_in_memory_dat.Server.Start.{ServerConfig, Server, make_server, StartCalls, start}
use redis_like_in_memory_dat.Server.StartSafe.{start_damaged}

-- The snapshot that the last save makes of a database.
abbrev pub last_snapshot : LastSave → Database → Bytes
last_snapshot l db = encode l.tick l.now l.clock (snapshot l.moments db)

-- A status of 0 means that the file is the last snapshot, flushed; any other end that the file is the one that the
-- run left.
abbrev pub Told : LastSave → Database → Disk → Ended → Type 0
Told l db d (ended status text d') =
    ((status ≡ 0) × (d'.target ≡ some (record { content = last_snapshot l db; is_flushed = true })))
    ⊎ ((status ≡ 1) × (d'.target ≡ d.target))
Told l db d (still_saving d') =
    (d'.target ≡ d.target)
    ⊎ (d'.target ≡ some (record { content = last_snapshot l db; is_flushed = true }))
Told l db d undefined = ⊥

told :
    (l : LastSave) (db : Database) (d : Disk) (s : SnapshotStore) (r : Saving)
    (o : Option SaveOutcome)
    → r.outcome ≡ o
    → IsUnsaved s d r
      ⊎ IsSaved s
          (last_snapshot l db)
          (saved_outcome (length (snapshot l.moments db)) (length (last_snapshot l db)))
          r
    → Told l db d (after_last_save r o)
unfolding after_last_save
told l db d s r none e (inl u) = inl u.target_kept
told l db d s r none e (inr i) = inr i.target_new
told l db d s r (some outcome) e (inl u) =
    let not_ok : outcome.ok ≡ false = u.not_ok outcome e in rw not_ok (inr (refl, u.target_kept))
told l db d s r (some outcome) e (inr i) =
    let same : some outcome
        ≡ some (saved_outcome (length (snapshot l.moments db)) (length (last_snapshot l db))) =
      sym e ∙ i.reported in
    let ok : outcome.ok ≡ true = ground (arith, same) in rw ok (inl (refl, i.target_new))

finish-Told :
    (l : LastSave) (store : SnapshotStore) (db : Database) (saves : ℕ) (d : Disk)
    → Told l db d (finish l (some store) (db, saves, d))
unfolding finish save
finish-Told l store db saves d =
    told l db d (counted saves store) (last_save l db saves store d)
      (last_save l db saves store d).outcome refl
      (save_entries-atomic l.tick l.now l.clock (snapshot l.moments db) (counted saves store)
        l.results d)

module _ (sz : Sizes) (calls : StartCalls)
    (load : SnapshotStore → Database → Database × LoadOutcome)
    (run : Database → Server → Disk → Database × ℕ × Disk) (l : LastSave) (d : Disk) where
  -- A server whose arguments are accepted, which starts and has a snapshot store: once it has been told to stop and
  -- `run` has returned, `main` ends with status 0 only if the snapshot file is then the whole snapshot of the
  -- database, flushed to the disk, and with status 1 only if the file is the one that the run left; while it has not
  -- ended, the file is one of the two.
  pub main-Told :
      (arguments : List Bytes) (config : ServerConfig) (db : Database) (s : Server)
      (store : SnapshotStore)
      → parse_arguments arguments default_config ≡ accepted config
      → needs_file config config.snapshot_path ≡ false
      → start sz config calls load make_server (Engine.new default_bucket_count config.shard_count)
        ≡ some (db, s, true)
      → s.store ≡ some store
      → Told l (run db s d).0 (run db s d).2 (main sz calls load run l d arguments)
  unfolding main after_arguments after_start
  main-Told arguments config db s store parsed file started has_store =
      rw (parsed, main, after_arguments)
        (rw (file) (
          rw (started, after_start)
            (subst (λ o. Told l (run db s d).0 (run db s d).2 (finish l o (run db s d)))
              (sym has_store) (finish-Told l store (run db s d).0 (run db s d).1 (run db s d).2))))

  -- If the file that the server is to restore cannot be loaded, `main` ends with status 1, the error of `start`, and
  -- the disk as it was: `run` is not called and nothing is saved.
  pub main_damaged :
      (arguments : List Bytes) (config : ServerConfig) (limited : Database) (c : ℕ) (path : Bytes)
      → parse_arguments arguments default_config ≡ accepted config
      → config.snapshot_path ≡ c ∷ path
      → config.restore_on_start ≡ true
      → Engine.set_max_memory sz config.max_memory_bytes
          (Engine.new default_bucket_count config.shard_count)
        ≡ some limited
      → (load (make_store (c ∷ path)) limited).1.status ≡ LoadStatus.failed
      → main sz calls load run l d arguments
        ≡ ended 1
            (codes "error: cannot load snapshot '"
              ++ config.snapshot_path
              ++ codes "': "
              ++ (load (make_store (c ∷ path)) limited).1.error)
            d
  unfolding main after_arguments after_start
  main_damaged arguments config limited c path parsed path_is restores fits fails =
      let (db, s, started, no_store, down, text) =
        start_damaged sz config calls load (Engine.new default_bucket_count config.shard_count)
          limited c path path_is restores fits fails in
      let file : needs_file config config.snapshot_path ≡ false = rw path_is refl in
      rw (parsed, main, after_arguments)
        (rw (file) (rw (started, after_start) (ap (λ t. ended 1 (codes "error: " ++ t) d) text)))
