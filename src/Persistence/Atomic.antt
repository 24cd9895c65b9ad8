-- ===== src/Persistence/Atomic.antt =====
-- A save that is cut short leaves a whole snapshot.
use redis_like_in_memory_dat.Base.{
  ℕ, zero, suc, ◌≡◌, ◌⊎◌, inl, inr, refl, sym, ap, ◌∙◌, Bytes, codes, List, [], ◌∷◌, ◌++◌, Option,
  none, some, true, false, length, take, drop, append_assoc, append-nil, Option-cases,
}
use redis_like_in_memory_dat.Entry.{Entry}
use redis_like_in_memory_dat.Persistence.Clocks.{Reading}
use redis_like_in_memory_dat.Base.Calls.{Result, done, interrupted, broke, error_of, Run}
use redis_like_in_memory_dat.Persistence.Disk.{Disk, describe_errno, write_all}
use redis_like_in_memory_dat.Persistence.Encode.{encode}
use redis_like_in_memory_dat.Persistence.Outcome.{SaveOutcome}
use redis_like_in_memory_dat.Persistence.Store.{
  SnapshotStore, temp_path, Saving, at, with_temp, failed_save, give_up, replace, flush,
  after_write, save_entries,
}

abbrev pub saved_outcome : ℕ → ℕ → SaveOutcome
saved_outcome count bytes = record {
  ok = true;
  entries_written = count;
  bytes_written = bytes;
  error = [];
}

-- The target and the store are as they were, and no success has been reported.
pub record IsUnsaved (s : SnapshotStore) (d : Disk) (r : Saving) : Type 0 where
  pub target_kept : r.disk.target ≡ d.target
  pub store_kept : r.store ≡ s
  pub not_ok : (o : SaveOutcome) → r.outcome ≡ some o → o.ok ≡ false

-- The target is the whole new snapshot, on the disk, the temporary file is gone, and success has been
-- reported and counted.
pub record IsSaved (s : SnapshotStore) (bytes : Bytes) (saved : SaveOutcome) (r : Saving)
    : Type 0 where
  pub target_new : r.disk.target ≡ some (record { content = bytes; is_flushed = true })
  pub temp_gone : r.disk.temp ≡ none
  pub counted : r.store ≡ record { path = s.path; save_count = suc s.save_count }
  pub reported : r.outcome ≡ some saved

unsaved :
    (s : SnapshotStore) (d d' : Disk) (o : Option SaveOutcome)
    → d'.target ≡ d.target
    → ((saved : SaveOutcome) → o ≡ some saved → saved.ok ≡ false)
    → IsUnsaved s d (at d' s o)
unsaved s d d' o h k = record { target_kept = h; store_kept = refl; not_ok = k }

not_returned : (o : SaveOutcome) → none ≡ some o → o.ok ≡ false
not_returned o e = cc

failed : (error : Bytes) (o : SaveOutcome) → some (failed_save error) ≡ some o → o.ok ≡ false
failed error o e = cc

give_up-IsUnsaved :
    (s : SnapshotStore) (error : Bytes) (results : List Result) (d d' : Disk)
    → d'.target ≡ d.target
    → IsUnsaved s d (give_up s error results d')
unfolding give_up
give_up-IsUnsaved s error [] d d' h = unsaved s d d' none h not_returned
give_up-IsUnsaved s error (r ∷ results) d d' h = elim (Option-cases (error_of r)) [
  | inl e ↦
      rw (e, give_up)
        (unsaved s d (record { target = d'.target; temp = none }) (some (failed_save error)) h
          (failed error))
  | inr (text, e) ↦ rw (e, give_up) (unsaved s d d' (some (failed_save error)) h (failed error))
]

replace_cases :
    (s : SnapshotStore) (saved : SaveOutcome) (bytes : Bytes) (results : List Result) (d : Disk)
    → IsUnsaved s d (replace s saved results (with_temp bytes true d))
      ⊎ IsSaved s bytes saved (replace s saved results (with_temp bytes true d))
unfolding replace
replace_cases s saved bytes [] d = inl (unsaved s d (with_temp bytes true d) none refl not_returned)
replace_cases s saved bytes (r ∷ results) d = elim (Option-cases (error_of r)) [
  | inl e ↦
      rw (e, replace)
        (inr (record { target_new = refl; temp_gone = refl; counted = refl; reported = refl }))
  | inr (text, e) ↦
      rw (e, replace)
        (inl (
          give_up-IsUnsaved s (describe_errno (codes "cannot replace") s.path text) results d
            (with_temp bytes true d) refl))
]

flush_cases :
    (s : SnapshotStore) (saved : SaveOutcome) (bytes : Bytes) (results : List Result) (d : Disk)
    → IsUnsaved s d (flush s saved bytes results (with_temp bytes false d))
      ⊎ IsSaved s bytes saved (flush s saved bytes results (with_temp bytes false d))
unfolding flush
flush_cases s saved bytes [] d = inl (unsaved s d (with_temp bytes false d) none refl not_returned)
flush_cases s saved bytes (r ∷ results) d = elim (Option-cases (error_of r)) [
  | inl e ↦ rw (e, flush) (replace_cases s saved bytes results d)
  | inr (text, e) ↦
      rw (e, flush)
        (inl (
          give_up-IsUnsaved s (describe_errno (codes "cannot flush") (temp_path s) text) results d
            (with_temp bytes false d) refl))
]

-- The bytes that `write_all` put in the file when it returned true.
unfoldable Written : Bytes × Run (Option Bytes) → Bytes → Type 0
Written (file, Run.waiting) bytes = Unit {0}
Written (file, Run.returned none results) bytes = file ≡ bytes
Written (file, Run.returned (some text) results) bytes = Unit {0}

pub take-drop : (n : ℕ) (s : Bytes) → take n s ++ drop n s ≡ s
take-drop zero s = refl
take-drop (suc n) [] = refl
take-drop (suc n) (b ∷ s) = ap (◌∷◌ b) (take-drop n s)

write_all-Written :
    (results : List Result) (left file : Bytes)
    → Written (write_all results left file) (file ++ left)
unfolding write_all Written
write_all-Written results [] file = sym (append-nil file)
write_all-Written [] (b ∷ left) file = tt
write_all-Written (done n ∷ results) (b ∷ left) file =
    let e : (file ++ take n (b ∷ left)) ++ drop n (b ∷ left) ≡ file ++ b ∷ left =
      append_assoc file (take n (b ∷ left)) (drop n (b ∷ left))
      ∙ ap (◌++◌ file) (take-drop n (b ∷ left)) in
    rw (sym e) (write_all-Written results (drop n (b ∷ left)) (file ++ take n (b ∷ left)))
write_all-Written (interrupted text ∷ results) (b ∷ left) file =
    write_all-Written results (b ∷ left) file
write_all-Written (broke text ∷ results) (b ∷ left) file = tt

after_write_cases :
    (s : SnapshotStore) (saved : SaveOutcome) (bytes : Bytes) (d : Disk)
    (w : Bytes × Run (Option Bytes))
    → Written w bytes
    → IsUnsaved s d (after_write s saved d w) ⊎ IsSaved s bytes saved (after_write s saved d w)
unfolding after_write Written
after_write_cases s saved bytes d (file, Run.waiting) h =
    inl (unsaved s d (with_temp file false d) none refl not_returned)
after_write_cases s saved bytes d (file, Run.returned none results) h =
    rw h (flush_cases s saved bytes results d)
after_write_cases s saved bytes d (file, Run.returned (some text) results) h = inl (
    give_up-IsUnsaved s (describe_errno (codes "cannot write") (temp_path s) text) results d
      (with_temp file false d) refl)

-- However far a save gets, and whichever of its system calls fail: either the snapshot file is the one
-- from before, the save is not counted, and what it has returned, if it has returned, is not a success;
-- or the file holds all the bytes of the new snapshot, flushed to the disk, and the save has returned
-- success, with the numbers of entries and of bytes, and is counted.
pub save_entries-atomic :
    (tick now : ℕ) (clock : ℕ → Reading) (entries : List Entry) (s : SnapshotStore)
    (results : List Result) (d : Disk)
    → IsUnsaved s d (save_entries tick now clock entries s results d)
      ⊎ IsSaved s
          (encode tick now clock entries)
          (saved_outcome (length entries) (length (encode tick now clock entries)))
          (save_entries tick now clock entries s results d)
unfolding save_entries
save_entries-atomic tick now clock entries s [] d = inl (unsaved s d d none refl not_returned)
save_entries-atomic tick now clock entries s (r ∷ results) d = elim (Option-cases (error_of r)) [
  | inl e ↦
      rw (e, save_entries)
        (after_write_cases s
          (saved_outcome (length entries) (length (encode tick now clock entries)))
          (encode tick now clock entries) d (write_all results (encode tick now clock entries) [])
          (write_all-Written results (encode tick now clock entries) []))
  | inr (text, e) ↦
      rw (e, save_entries)
        (inl (
          unsaved s d d
            (some (failed_save (describe_errno (codes "cannot open") (temp_path s) text))) refl
            (failed (describe_errno (codes "cannot open") (temp_path s) text))))
]
