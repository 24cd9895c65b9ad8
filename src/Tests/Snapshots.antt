-- ===== src/Tests/Snapshots.antt =====
-- A snapshot of two entries, its file, and a server that starts from it.
use redis_like_in_memory_dat.Base.{
  ℕ, ◌+◌, ◌≤◌, ◌<◌, ◌≡◌, ◌⊎◌, Bytes, codes, List, [], ◌∷◌, ◌++◌, some, none, true, arith, length,
  replicate, word,
}
use mathlib.Core.Path.{subst}
use redis_like_in_memory_dat.Background.Scheduler.{
  Attempt, Scheduled, make_scheduler, Counted, Kept, schedule_loop, schedule_loop-Counted,
}
use redis_like_in_memory_dat.Background.Sweeper.{stop_requested, elapsed}
use redis_like_in_memory_dat.Base.Calls.{done, broke}
use redis_like_in_memory_dat.Database.Engine.{restore}
use redis_like_in_memory_dat.Entry.{Entry, make_entry, is_expired_at}
use redis_like_in_memory_dat.Persistence.Atomic.{
  IsUnsaved, IsSaved, saved_outcome, save_entries-atomic,
}
use redis_like_in_memory_dat.Persistence.Clocks.{
  Reading, ahead, ticks_of_milli, to_wall_clock_millis, from_wall_clock_millis,
}
use redis_like_in_memory_dat.Persistence.Completes.{calls, load-save}
use redis_like_in_memory_dat.Persistence.Corrupt.{AllBytes, no_byte, and_byte, decode_altered}
use redis_like_in_memory_dat.Persistence.Deadline.{wall, to_wall_clock_millis-restored}
use redis_like_in_memory_dat.Persistence.Decode.{ok, refused, decode}
use redis_like_in_memory_dat.Persistence.Disk.{Disk}
use redis_like_in_memory_dat.Persistence.Encode.{
  magic, encode, live_at, payload_of, encode_entries, encode_entry,
}
use redis_like_in_memory_dat.Persistence.Little.{little, checksum_of}
use redis_like_in_memory_dat.Persistence.Loaded.{decode-encode}
use redis_like_in_memory_dat.Persistence.Outcome.{LoadStatus}
use redis_like_in_memory_dat.Persistence.Revived.{AllRevived, IsDatable, AllDatable}
use redis_like_in_memory_dat.Persistence.RoundTrip.{AllLoadable, none_left, and_fits}
use redis_like_in_memory_dat.Persistence.Store.{SnapshotStore, make_store, save_entries, load}
use redis_like_in_memory_dat.Persistence.Untrusted.{AllServable, decode-AllServable}
use redis_like_in_memory_dat.Tests.Databases.{fresh}
use redis_like_in_memory_dat.Tests.Tables.{sizes, key_a, key_b}

abbrev dated : Entry
dated = record { key = key_b; value = codes "22"; expiration = some 5000000000 }

abbrev kept : List Entry
kept = make_entry key_a (codes "1") ∷ dated ∷ []

abbrev saved_at : ℕ → Reading
saved_at i = record { steady = 0; system = 1000 }

abbrev loaded_at : ℕ → Reading
loaded_at i = record { steady = 7; system = 2000 }

kept-AllLoadable : AllLoadable kept
kept-AllLoadable =
    and_fits (record { key_fits = omega arith; value_fits = omega arith })
      (and_fits (record { key_fits = omega arith; value_fits = omega arith }) none_left)

dated-IsDatable : (t : ℕ) → dated.expiration ≡ some t → IsDatable 1000 (saved_at 1) (loaded_at 1) t
dated-IsDatable t e =
    let same : 5000000000 ≡ t = cc in
    subst (IsDatable 1000 (saved_at 1) (loaded_at 1)) same
      (record { after_epoch = omega arith; wall_fits = omega arith; clock_fits = omega arith })

kept-AllDatable : AllDatable 1000 saved_at loaded_at 0 (live_at 0 kept)
unfolding live_at is_expired_at
kept-AllDatable = (λ t e. cc, (dated-IsDatable, tt))

fewer : length (live_at 0 kept) < word
unfolding live_at is_expired_at
fewer = omega arith

decode-encode_example :
    (entries : List Entry) × (decode 1000 3 loaded_at (encode 1000 0 saved_at kept) ≡ ok entries)
    × AllRevived 1000 saved_at loaded_at 0 (live_at 0 kept) entries
decode-encode_example =
    decode-encode 1000 0 3 saved_at loaded_at kept (omega arith) (omega arith) (λ i. omega arith)
      kept-AllLoadable kept-AllDatable fewer

reloads :
    (entries : List Entry) × (decode 1000 3 loaded_at (encode 1000 0 saved_at kept) ≡ ok entries)
reloads =
    let (entries, runs, revived) =
      decode-encode 1000 0 3 saved_at loaded_at kept (omega arith) (omega arith) (λ i. omega arith)
        kept-AllLoadable kept-AllDatable fewer in
    (entries, runs)

decode-AllServable_example : AllServable 3 reloads.0
decode-AllServable_example =
    decode-AllServable 1000 3 loaded_at (encode 1000 0 saved_at kept) reloads.0 reloads.1

to_wall_clock_millis-restored_example :
    (restored : ℕ) × (from_wall_clock_millis 1000
        (loaded_at 0)
        (to_wall_clock_millis 1000 (saved_at 0) 5000000000)
      ≡ ahead restored)
    × (wall 1000 (loaded_at 0) restored ≤ wall 1000 (saved_at 0) 5000000000)
    × (wall 1000 (saved_at 0) 5000000000 < wall 1000 (loaded_at 0) restored + ticks_of_milli 1000)
unfolding wall
to_wall_clock_millis-restored_example =
    to_wall_clock_millis-restored 1000 5000000000 (saved_at 0) (loaded_at 0) (omega arith)
      (omega arith) (omega arith) (omega arith) (omega arith) (omega arith)

abbrev zeros : Bytes
zeros = replicate 9 0

zeros-AllBytes : AllBytes zeros
zeros-AllBytes =
    let zero_byte : 0 < 256 = omega arith in
    and_byte zero_byte (
      and_byte zero_byte (
        and_byte zero_byte (
          and_byte zero_byte (
            and_byte zero_byte (
              and_byte zero_byte
                (and_byte zero_byte (and_byte zero_byte (and_byte zero_byte no_byte))))))))

decode_altered_example :
    decode 1000 3 loaded_at
      ((magic ++ (zeros ++ 2 ∷ [])) ++ little 8 (checksum_of (magic ++ (zeros ++ 1 ∷ []))))
    ≡ refused (codes "snapshot checksum mismatch -- the file is corrupt")
decode_altered_example =
    decode_altered 1000 3 loaded_at zeros [] 1 2 zeros-AllBytes no_byte (omega arith) (omega arith)
      (λ e. omega arith) (omega arith)

abbrev empty_disk : Disk
empty_disk = record { target = none; temp = none }

abbrev dump : SnapshotStore
dump = make_store (codes "dump.vcs")

-- The `fsync` fails.
save_entries-atomic_example :
    IsUnsaved dump empty_disk (
      save_entries 1000 0 saved_at [] dump
        (done 3 ∷ done 24 ∷ broke (codes "I/O error") ∷ [])
        empty_disk)
    ⊎ IsSaved dump
        (encode 1000 0 saved_at [])
        (saved_outcome 0 (length (encode 1000 0 saved_at [])))
        (save_entries 1000 0 saved_at [] dump
          (done 3 ∷ done 24 ∷ broke (codes "I/O error") ∷ [])
          empty_disk)
save_entries-atomic_example =
    save_entries-atomic 1000 0 saved_at [] dump (done 3 ∷ done 24 ∷ broke (codes "I/O error") ∷ [])
      empty_disk

abbrev plenty : List ℕ
plenty = replicate 80 6

bytes-le :
    (length (encode 1000 0 saved_at kept) + 3 ≤ length plenty)
    × (length (encode 1000 0 saved_at kept) + 1 < length plenty)
unfolding encode payload_of live_at is_expired_at encode_entries encode_entry little
bytes-le = (omega arith, omega arith)

load-save_example :
    (reloaded : List Entry) × AllRevived 1000 saved_at loaded_at 0 (live_at 0 kept) reloaded
    × (load sizes 1000 3 4 loaded_at fresh dump
          (calls plenty)
          (save_entries 1000 0 saved_at kept dump (calls plenty) empty_disk).disk
        ≡ (let (db, stored) = restore sizes 4 reloaded fresh in
            some (db, record { status = LoadStatus.loaded; entries_loaded = stored; error = [] })))
load-save_example =
    load-save sizes 1000 0 3 4 saved_at loaded_at kept dump plenty plenty empty_disk fresh
      (omega arith) (omega arith) (λ i. omega arith) bytes-le.0 bytes-le.1 kept-AllLoadable
      kept-AllDatable fewer

-- A save that fails, and then a stop.
abbrev idle : Scheduled
idle = record { scheduler = make_scheduler; store = dump; disk = empty_disk; waits = true }

abbrev full_disk : Attempt
full_disk = record {
  entries = kept;
  now = 0;
  clock = saved_at;
  results = done 3 ∷ broke (codes "No space left on device") ∷ done 0 ∷ [];
}

schedule_loop-Counted_example :
    Counted idle (schedule_loop 1000 (elapsed full_disk ∷ stop_requested ∷ []) idle)
    × Kept 1000 idle (schedule_loop 1000 (elapsed full_disk ∷ stop_requested ∷ []) idle)
schedule_loop-Counted_example =
    schedule_loop-Counted 1000 (elapsed full_disk ∷ stop_requested ∷ []) idle
