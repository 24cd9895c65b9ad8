-- ===== src/Persistence/Completes.antt =====
-- A save and a load whose system calls succeed, and the load of what was saved.
use redis_like_in_memory_dat.Base.{
  ℕ, zero, suc, ◌+◌, ◌-◌, ◌≤◌, ◌<◌, ◌≡◌, inl, inr, refl, ap, ◌∙◌, arith, Bytes, List, [], ◌∷◌, ◌++◌,
  Option, none, some, true, false, length, take, drop, append_assoc, append-nil, word,
}
use redis_like_in_memory_dat.Database.Engine.{Database, restore}
use redis_like_in_memory_dat.Entry.{Entry}
use redis_like_in_memory_dat.HashTable.Table.{Sizes}
use redis_like_in_memory_dat.Persistence.Atomic.{
  IsSaved, saved_outcome, save_entries-atomic, take-drop,
}
use redis_like_in_memory_dat.Persistence.Clocks.{Reading, ticks_of_milli}
use redis_like_in_memory_dat.Base.Calls.{Result, done, Run}
use redis_like_in_memory_dat.Persistence.Disk.{Disk, write_all, read_whole_file}
use redis_like_in_memory_dat.Persistence.Encode.{encode, live_at}
use redis_like_in_memory_dat.Persistence.Loaded.{decode-encode}
use redis_like_in_memory_dat.Persistence.Outcome.{SaveOutcome, LoadStatus}
use redis_like_in_memory_dat.Persistence.Revived.{AllRevived, AllDatable}
use redis_like_in_memory_dat.Persistence.RoundTrip.{AllLoadable}
use redis_like_in_memory_dat.Persistence.Store.{
  SnapshotStore, with_temp, replace, flush, after_write, save_entries, load, load_data,
}

-- System calls that succeed; one that writes or reads makes some progress.
unfoldable pub calls : List ℕ → List Result
calls [] = []
calls (n ∷ ns) = done (suc n) ∷ calls ns

-- The file is written in full, with at least `spare` calls to go.
pub record IsWritten (spare : ℕ) (w : Bytes × Run (Option Bytes)) : Type 0 where
  pub file : Bytes
  pub left : List ℕ
  pub written : w ≡ (file, Run.returned none (calls left))
  pub enough : spare ≤ length left

pub length-drop : (n : ℕ) (s : Bytes) → length (drop n s) ≡ length s - n
length-drop zero s = omega arith
length-drop (suc n) [] = omega arith
length-drop (suc n) (b ∷ s) = omega (arith, length-drop n s)

write_all-IsWritten :
    (spare : ℕ) (ns : List ℕ) (left file : Bytes)
    → length left + spare ≤ length ns
    → IsWritten spare (write_all (calls ns) left file)
unfolding write_all calls
write_all-IsWritten spare ns [] file h = record {
  file = file;
  left = ns;
  written = refl;
  enough = omega (arith, h);
}
write_all-IsWritten spare [] (b ∷ left) file h = absurd (omega (arith, h))
write_all-IsWritten spare (n ∷ ns) (b ∷ left) file h =
    write_all-IsWritten spare ns (drop n left) (file ++ b ∷ take n left)
      (omega (arith, h, length-drop n left))

flush-reported :
    (s : SnapshotStore) (saved : SaveOutcome) (file : Bytes) (ns : List ℕ) (d : Disk)
    → 2 ≤ length ns
    → (flush s saved file (calls ns) d).outcome ≡ some saved
unfolding flush replace calls
flush-reported s saved file [] d h = absurd (omega arith)
flush-reported s saved file (n ∷ []) d h = absurd (omega arith)
flush-reported s saved file (n ∷ m ∷ ns) d h = refl

after_write-reported :
    (s : SnapshotStore) (saved : SaveOutcome) (d : Disk) (w : Bytes × Run (Option Bytes))
    → IsWritten 2 w
    → (after_write s saved d w).outcome ≡ some saved
unfolding after_write
after_write-reported s saved d w i =
    rw i.written (flush-reported s saved i.file i.left (with_temp i.file false d) i.enough)

-- When every system call succeeds, and there are as many as bytes in the snapshot and three more, the save
-- returns success, and the snapshot file is the whole new snapshot, flushed to the disk.
save_entries-IsSaved :
    (tick now : ℕ) (clock : ℕ → Reading) (entries : List Entry) (s : SnapshotStore) (ns : List ℕ)
    (d : Disk)
    → length (encode tick now clock entries) + 3 ≤ length ns
    → IsSaved s
        (encode tick now clock entries)
        (saved_outcome (length entries) (length (encode tick now clock entries)))
        (save_entries tick now clock entries s (calls ns) d)
unfolding save_entries calls
save_entries-IsSaved tick now clock entries s [] d h = absurd (omega (arith, h))
save_entries-IsSaved tick now clock entries s (n ∷ ns) d h =
    let bytes = encode tick now clock entries in
    let saved = saved_outcome (length entries) (length bytes) in
    let returns =
      after_write-reported s saved d (write_all (calls ns) bytes [])
        (write_all-IsWritten 2 ns bytes [] (omega (arith, h))) in
    elim (save_entries-atomic tick now clock entries s (calls (n ∷ ns)) d) [
      | inl u ↦ let false_true : true ≡ false = u.not_ok saved returns in cc
      | inr i ↦ i
    ]

read_whole_file-calls :
    (ns : List ℕ) (left out : Bytes)
    → length left < length ns
    → (rest : List Result) × (read_whole_file (calls ns) left out
        ≡ Run.returned (out ++ left, none) rest)
unfolding read_whole_file calls
read_whole_file-calls [] left out h = absurd (omega (arith, h))
read_whole_file-calls (n ∷ ns) [] out h = (calls ns, rw (append-nil out) refl)
read_whole_file-calls (n ∷ ns) (b ∷ left) out h =
    let (rest, e) =
      read_whole_file-calls ns (drop n left) (out ++ b ∷ take n left)
        (omega (arith, h, length-drop n left)) in
    let whole : (out ++ b ∷ take n left) ++ drop n left ≡ out ++ b ∷ left =
      append_assoc out (b ∷ take n left) (drop n left)
      ∙ ap (λ s. out ++ b ∷ s) (take-drop n left) in
    (rest, e ∙ ap (λ s. Run.returned (s, none) rest) whole)

-- A save whose system calls all succeed, and then a load whose system calls all do, with enough of them, of fewer
-- than 2⁶⁴ live entries whose keys and values have at most 512 MiB and whose deadlines the clocks of 64 bits hold:
-- the database is restored from the entries that were alive when they were saved, in their order. An entry
-- without a deadline is as it was. One with a deadline has it on the system clock less than a millisecond earlier at
-- most, or is dropped if the deadline had passed or was less than a millisecond ahead. The load reads its clocks
-- after it has begun, and ticks of the system clock divide a millisecond.
pub load-save :
    (sz : Sizes) (tick now later restored : ℕ) (saved loaded : ℕ → Reading) (entries : List Entry)
    (s : SnapshotStore) (ns ms : List ℕ) (d : Disk) (db : Database)
    → 0 < tick
    → 0 < ticks_of_milli tick
    → ((i : ℕ) → later ≤ (loaded i).steady)
    → length (encode tick now saved entries) + 3 ≤ length ns
    → length (encode tick now saved entries) + 1 < length ms
    → AllLoadable entries
    → AllDatable tick saved loaded 0 (live_at now entries)
    → length (live_at now entries) < word
    → (reloaded : List Entry) × AllRevived tick saved loaded 0 (live_at now entries) reloaded
      × (load sz tick later restored loaded db s
            (calls ms)
            (save_entries tick now saved entries s (calls ns) d).disk
          ≡ (let (db', stored) = restore sz restored reloaded db in
              some
                (db', record { status = LoadStatus.loaded; entries_loaded = stored; error = [] })))
unfolding load load_data calls
load-save sz tick now later restored saved loaded entries s ns [] d db pos least before h h' g k l =
    absurd (omega (arith, h'))
load-save sz tick now later restored saved loaded entries s ns (n ∷ ms) d db pos least before h h' g
      k l =
    let i = save_entries-IsSaved tick now saved entries s ns d h in
    let (rest, e) =
      read_whole_file-calls ms (encode tick now saved entries) [] (omega (arith, h')) in
    let (reloaded, decodes, revived) =
      decode-encode tick now later saved loaded entries pos least before g k l in
    (reloaded, revived, rw (i.target_new, load, e, decodes, load_data) refl)
