-- ===== src/Background/Scheduler.antt =====
-- include/SnapshotScheduler.h and src/SnapshotScheduler.cpp. With the end of an interval come the database at
-- that moment, the clocks, and the results of the system calls of the save.
use redis_like_in_memory_dat.Base.{
  ℕ, suc, ◌+◌, ◌≡◌, ◌⊎◌, inl, inr, ◌∙◌, refl, ap, arith, Bytes, List, [], ◌∷◌, Option, none, some,
  Bool, true, false, if◌then◌else◌, Bool-cases,
}
use redis_like_in_memory_dat.Background.Sweeper.{Wait, stop_requested, elapsed}
use redis_like_in_memory_dat.Base.Calls.{Result}
use redis_like_in_memory_dat.Entry.{Entry}
use redis_like_in_memory_dat.Persistence.Atomic.{IsUnsaved, IsSaved, save_entries-atomic}
use redis_like_in_memory_dat.Persistence.Clocks.{Reading}
use redis_like_in_memory_dat.Persistence.Disk.{Disk, File}
use redis_like_in_memory_dat.Persistence.Encode.{encode}
use redis_like_in_memory_dat.Persistence.Outcome.{SaveOutcome}
use redis_like_in_memory_dat.Persistence.Store.{SnapshotStore, Saving, save_entries}

pub record SnapshotScheduler : Type 0 where
  pub attempts : ℕ
  pub failures : ℕ
  pub last_error : Bytes

-- `SnapshotScheduler(store, database, interval)`
abbrev pub make_scheduler : SnapshotScheduler
make_scheduler = record { attempts = 0; failures = 0; last_error = [] }

-- What is made of the outcome of a save.
unfoldable pub record_outcome : SaveOutcome → SnapshotScheduler → SnapshotScheduler
record_outcome outcome s =
    if outcome.ok
    then record s { attempts = suc s.attempts }
    else record { attempts = suc s.attempts; failures = suc s.failures; last_error = outcome.error }

-- A save to come: the entries of `Database::snapshot`, and what the world brings to it.
pub record Attempt : Type 0 where
  pub entries : List Entry
  pub now : ℕ
  pub clock : ℕ → Reading
  pub results : List Result

-- The scheduler, the store and the disk; true while the loop is at its wait.
pub record Scheduled : Type 0 where
  pub scheduler : SnapshotScheduler
  pub store : SnapshotStore
  pub disk : Disk
  pub waits : Bool

-- After a save, which may be in a system call still.
unfoldable pub after_save : Saving → Option SaveOutcome → SnapshotScheduler → Scheduled
unfolding record_outcome
after_save r none s = record { scheduler = s; store = r.store; disk = r.disk; waits = false }
after_save r (some outcome) s = record {
  scheduler = record_outcome outcome s;
  store = r.store;
  disk = r.disk;
  waits = true;
}

abbrev pub saving : ℕ → Attempt → Scheduled → Saving
saving tick a w = save_entries tick a.now a.clock a.entries w.store a.results w.disk

unfoldable pub attempt : ℕ → Attempt → Scheduled → Scheduled
unfolding after_save
attempt tick a w = after_save (saving tick a w) (saving tick a w).outcome w.scheduler

-- `scheduleLoop`
unfoldable pub schedule_loop : ℕ → List (Wait Attempt) → Scheduled → Scheduled
unfolding attempt
schedule_loop tick [] w = w
schedule_loop tick (stop_requested ∷ waits) w = record w { waits = false }
schedule_loop tick (elapsed a ∷ waits) w =
    let w' = attempt tick a w in
    let rest = schedule_loop tick waits w' in if w'.waits then rest else w'

-- A file that is a whole snapshot, flushed.
pub data IsSnapshot (tick : ℕ) : Option File → Type 0 where
  whole :
      (now : ℕ) (clock : ℕ → Reading) (entries : List Entry)
      → IsSnapshot tick
          (some (record { content = encode tick now clock entries; is_flushed = true }))

-- Each attempt that has returned is a failure or a save that the store has counted, from `w` to `w'`.
abbrev pub Counted : Scheduled → Scheduled → Type 0
Counted w w' =
    w'.scheduler.attempts + (w.scheduler.failures + w.store.save_count)
    ≡ w.scheduler.attempts + (w'.scheduler.failures + w'.store.save_count)

-- The file is the one from before, or a whole snapshot.
abbrev pub Kept : ℕ → Scheduled → Scheduled → Type 0
Kept tick w w' = (w'.disk.target ≡ w.disk.target) ⊎ IsSnapshot tick w'.disk.target

unsaved_case :
    (tick : ℕ) (w : Scheduled) (r : Saving) (o : Option SaveOutcome)
    → r.outcome ≡ o
    → IsUnsaved w.store w.disk r
    → Counted w (after_save r o w.scheduler) × Kept tick w (after_save r o w.scheduler)
unfolding after_save record_outcome
unsaved_case tick w r none e u =
    (omega (arith, ap (λ s. s.save_count) u.store_kept), inl u.target_kept)
unsaved_case tick w r (some outcome) e u =
    rw (u.not_ok outcome e) (omega (arith, ap (λ s. s.save_count) u.store_kept), inl u.target_kept)

saved_case :
    (tick now : ℕ) (clock : ℕ → Reading) (entries : List Entry) (saved : SaveOutcome)
    (w : Scheduled) (r : Saving)
    → saved.ok ≡ true
    → IsSaved w.store (encode tick now clock entries) saved r
    → Counted w (after_save r r.outcome w.scheduler)
      × Kept tick w (after_save r r.outcome w.scheduler)
unfolding after_save record_outcome
saved_case tick now clock entries saved w r e i =
    rw (i.reported, e)
      (
        omega (arith, ap (λ s. s.save_count) i.counted),
        inr (rw i.target_new (whole now clock entries)),
      )

attempt_lem :
    (tick : ℕ) (a : Attempt) (w : Scheduled)
    → Counted w (attempt tick a w) × Kept tick w (attempt tick a w)
unfolding attempt
attempt_lem tick a w =
    elim (save_entries-atomic tick a.now a.clock a.entries w.store a.results w.disk) [
      | inl u ↦ unsaved_case tick w (saving tick a w) (saving tick a w).outcome refl u
      | inr i ↦ saved_case tick a.now a.clock a.entries _ w (saving tick a w) refl i
    ]

Kept-trans : (tick : ℕ) (u v w : Scheduled) → Kept tick u v → Kept tick v w → Kept tick u w
Kept-trans tick u v w h (inr i) = inr i
Kept-trans tick u v w (inl e) (inl e') = inl (e' ∙ e)
Kept-trans tick u v w (inr i) (inl e) = inr (rw e i)

-- However many intervals pass, whatever the saves come to, and wherever the loop stands: every attempt that
-- has returned is either counted as a failure or counted by the store as a save; and the snapshot file is
-- the one from the beginning, or holds all the bytes of some snapshot, flushed to the disk.
pub schedule_loop-Counted :
    (tick : ℕ) (waits : List (Wait Attempt)) (w : Scheduled)
    → Counted w (schedule_loop tick waits w) × Kept tick w (schedule_loop tick waits w)
unfolding schedule_loop
schedule_loop-Counted tick [] w = (refl, inl refl)
schedule_loop-Counted tick (stop_requested ∷ waits) w = (refl, inl refl)
schedule_loop-Counted tick (elapsed a ∷ waits) w =
    let w' = attempt tick a w in
    let (c, k) = attempt_lem tick a w in
    let (c', k') = schedule_loop-Counted tick waits w' in
    elim (Bool-cases w'.waits) [
      | inl more ↦
          rw more (omega (arith, c, c'), Kept-trans tick w w' (schedule_loop tick waits w') k k')
      | inr over ↦ rw over (c, k)
    ]
