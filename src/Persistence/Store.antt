-- ===== src/Persistence/Store.antt =====
-- src/Persistence.cpp: `SnapshotStore`. Its mutex is held from the first call of `save` and of `load` to
-- the last, so a run of either is not interleaved with another.
use redis_like_in_memory_dat.Base.{
  ℕ, suc, Bytes, codes, List, [], ◌∷◌, ◌++◌, Option, none, some, Bool, true, false, length,
}
use redis_like_in_memory_dat.Database.Engine.{Database, snapshot, restore}
use redis_like_in_memory_dat.Entry.{Entry}
use redis_like_in_memory_dat.HashTable.Table.{Sizes}
use redis_like_in_memory_dat.Persistence.Clocks.{Reading}
use redis_like_in_memory_dat.Persistence.Decode.{ok, refused, undefined, decode}
use redis_like_in_memory_dat.Base.Calls.{Result, error_of, Run}
use redis_like_in_memory_dat.Persistence.Disk.{Disk, describe_errno, write_all, read_whole_file}
use redis_like_in_memory_dat.Persistence.Encode.{encode}
use redis_like_in_memory_dat.Persistence.Outcome.{SaveOutcome, LoadStatus, LoadOutcome}

pub record SnapshotStore : Type 0 where
  pub path : Bytes
  pub save_count : ℕ

-- `SnapshotStore(path)`
abbrev pub make_store : Bytes → SnapshotStore
make_store path = record { path = path; save_count = 0 }

abbrev pub temp_path : SnapshotStore → Bytes
temp_path s = s.path ++ codes ".tmp"

abbrev pub failed_save : Bytes → SaveOutcome
failed_save error = record { ok = false; entries_written = 0; bytes_written = 0; error = error }

abbrev pub with_temp : Bytes → Bool → Disk → Disk
with_temp file flushed d = record {
  target = d.target;
  temp = some (record { content = file; is_flushed = flushed });
}

-- What a `save` has done so far: the disk, the store, and the outcome once it has returned.
pub record Saving : Type 0 where
  pub disk : Disk
  pub store : SnapshotStore
  pub outcome : Option SaveOutcome

abbrev pub at : Disk → SnapshotStore → Option SaveOutcome → Saving
at d s o = record { disk = d; store = s; outcome = o }

-- `unlink(tempPath)`, whose result is not looked at, and the return.
unfoldable pub give_up : SnapshotStore → Bytes → List Result → Disk → Saving
give_up s error [] d = at d s none
give_up s error (r ∷ results) d = elim (error_of r) [
  | none ↦ at (record { target = d.target; temp = none }) s (some (failed_save error))
  | some text ↦ at d s (some (failed_save error))
]

-- A `rename` that succeeds replaces the target in one step.
unfoldable pub replace : SnapshotStore → SaveOutcome → List Result → Disk → Saving
unfolding give_up
replace s saved [] d = at d s none
replace s saved (r ∷ results) d = elim (error_of r) [
  | none ↦
      at (record { target = d.temp; temp = none })
        (record { path = s.path; save_count = suc s.save_count }) (some saved)
  | some text ↦ give_up s (describe_errno (codes "cannot replace") s.path text) results d
]

-- `fsync`, and what follows it.
unfoldable pub flush : SnapshotStore → SaveOutcome → Bytes → List Result → Disk → Saving
unfolding give_up replace
flush s saved file [] d = at d s none
flush s saved file (r ∷ results) d = elim (error_of r) [
  | none ↦ replace s saved results (with_temp file true d)
  | some text ↦ give_up s (describe_errno (codes "cannot flush") (temp_path s) text) results d
]

unfoldable pub after_write :
    SnapshotStore → SaveOutcome → Disk → Bytes × Run (Option Bytes) → Saving
unfolding give_up flush
after_write s saved d (file, Run.waiting) = at (with_temp file false d) s none
after_write s saved d (file, Run.returned none results) =
    flush s saved file results (with_temp file false d)
after_write s saved d (file, Run.returned (some text) results) =
    give_up s (describe_errno (codes "cannot write") (temp_path s) text) results
      (with_temp file false d)

-- `save`, of the entries that `Database::snapshot` returns.
unfoldable pub save_entries :
    ℕ → ℕ → (ℕ → Reading) → List Entry → SnapshotStore → List Result → Disk → Saving
unfolding after_write
save_entries tick now clock entries s results d =
    let encoded = encode tick now clock entries in
    let saved : SaveOutcome = record {
      ok = true;
      entries_written = length entries;
      bytes_written = length encoded;
      error = [];
    } in
    elim results [
      | [] ↦ at d s none
      | r ∷ results ↦ elim (error_of r) [
        | none ↦ after_write s saved d (write_all results encoded [])
        | some text ↦
            at d s (some (failed_save (describe_errno (codes "cannot open") (temp_path s) text)))
      ]
    ]

unfoldable pub save :
    ℕ → (ℕ → ℕ) → ℕ → (ℕ → Reading) → Database → SnapshotStore → List Result → Disk → Saving
unfolding save_entries
save tick moments now clock db s results d =
    save_entries tick now clock (snapshot moments db) s results d

abbrev pub failed_load : Bytes → LoadOutcome
failed_load error = record { status = LoadStatus.failed; entries_loaded = 0; error = error }

-- What is made of the data that has been read.
unfoldable pub load_data :
    Sizes → ℕ → ℕ → ℕ → (ℕ → Reading) → Database → Bytes → Option (Database × LoadOutcome)
load_data sz tick now later clock db bytes = elim (decode tick now clock bytes) [
  | undefined ↦ none
  | refused error ↦ some (db, failed_load error)
  | ok entries ↦
      let (db', stored) = restore sz later entries db in
      some (db', record { status = LoadStatus.loaded; entries_loaded = stored; error = [] })
]

-- `load`: `open` finds the target or fails with `ENOENT`; `none` while it has not returned, or past an overflow.
unfoldable pub load :
    Sizes
    → ℕ
    → ℕ
    → ℕ
    → (ℕ → Reading)
    → Database
    → SnapshotStore
    → List Result
    → Disk
    → Option (Database × LoadOutcome)
unfolding load_data
load sz tick now later clock db s [] d = none
load sz tick now later clock db s (r ∷ results) d = elim (error_of r) [
  | some text ↦ some (db, failed_load (describe_errno (codes "cannot open") s.path text))
  | none ↦ elim d.target [
    | none ↦ some (db, record { status = LoadStatus.not_found; entries_loaded = 0; error = [] })
    | some file ↦ elim (read_whole_file results file.content []) [
      | Run.waiting ↦ none
      | Run.returned (bytes, some text) rest ↦
          some (db, failed_load (describe_errno (codes "cannot read") s.path text))
      | Run.returned (bytes, none) rest ↦ load_data sz tick now later clock db bytes
    ]
  ]
]
