-- ===== src/Persistence/Disk.antt =====
-- src/Persistence.cpp: `describeErrno`, `writeAll` and `readWholeFile`.
use redis_like_in_memory_dat.Base.{
  Bytes, codes, List, [], ◌∷◌, ◌++◌, Option, none, some, Bool, take, drop,
}
use redis_like_in_memory_dat.Base.Calls.{Result, done, interrupted, broke, Run}

-- A file, and whether its bytes have reached the disk.
pub record File : Type 0 where
  pub content : Bytes
  pub is_flushed : Bool

-- The files of the store: the snapshot, and the temporary file.
pub record Disk : Type 0 where
  pub target : Option File
  pub temp : Option File

abbrev pub describe_errno : Bytes → Bytes → Bytes → Bytes
describe_errno what path text = what ++ codes " '" ++ path ++ codes "': " ++ text

-- `writeAll`: the bytes that are left, those of the file so far, and at the end `none`, or the error. A
-- result of more bytes than were offered is one of all of them.
unfoldable pub write_all : List Result → Bytes → Bytes → Bytes × Run (Option Bytes)
write_all results [] file = (file, Run.returned none results)
write_all [] (b ∷ left) file = (file, Run.waiting)
write_all (done n ∷ results) (b ∷ left) file =
    write_all results (drop n (b ∷ left)) (file ++ take n (b ∷ left))
write_all (interrupted text ∷ results) (b ∷ left) file = write_all results (b ∷ left) file
write_all (broke text ∷ results) (b ∷ left) file = (file, Run.returned (some text) results)

-- `readWholeFile`: the bytes not read yet, and those that have been. `read` returns 0 at the end.
unfoldable pub read_whole_file : List Result → Bytes → Bytes → Run (Bytes × Option Bytes)
read_whole_file [] left out = Run.waiting
read_whole_file (interrupted text ∷ results) left out = read_whole_file results left out
read_whole_file (broke text ∷ results) left out = Run.returned (out, some text) results
read_whole_file (done n ∷ results) left out = elim (take n left) [
  | [] ↦ Run.returned (out, none) results
  | b ∷ chunk ↦ read_whole_file results (drop n left) (out ++ b ∷ chunk)
]
