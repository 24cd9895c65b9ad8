-- ===== src/Persistence/Decode.antt =====
-- src/Persistence.cpp: `snapshot::decode`. A position in the data is what is left of it, checksum
-- included; `none` of the offsets can pass the end.
use redis_like_in_memory_dat.Base.{
  ℕ, zero, suc, ◌+◌, ◌-◌, Bytes, codes, str_eq, List, [], ◌∷◌, ◌++◌, Option, none, some, not,
  if◌then◌else◌, ◌==◌, ltb, length, take, drop,
}
use redis_like_in_memory_dat.Entry.{Entry, make_entry, is_expired_at}
use redis_like_in_memory_dat.Persistence.Clocks.{
  Reading, lapsed, ahead, overflow, from_wall_clock_millis,
}
use redis_like_in_memory_dat.Persistence.Encode.{magic, format_version, max_field_length}
use redis_like_in_memory_dat.Persistence.Little.{read_little, checksum_of}
use redis_like_in_memory_dat.Protocol.Count.{to_string}

-- A step of the parse, the text of the error, or an overflow, which is undefined.
pub data Parsed {ℓ} (A : Type ℓ) : Type ℓ where
  ok : A → Parsed A
  refused : Bytes → Parsed A
  undefined : Parsed A

infixl 5 ◌>>=◌
abbrev pub ◌>>=◌ {ℓ κ} : {A : Type ℓ} {B : Type κ} → Parsed A → (A → Parsed B) → Parsed B
ok a >>= f = f a
refused e >>= f = refused e
undefined >>= f = undefined

abbrev pub or_refuse {ℓ} : {A : Type ℓ} → Option A → Bytes → Parsed A
or_refuse none e = refused e
or_refuse (some a) e = ok a

abbrev pub entry_error : ℕ → Bytes → Bytes
entry_error i what = codes "snapshot entry " ++ to_string i ++ what

-- The tests of a length that has been read, and its bytes. The eight bytes at the end belong to the checksum.
unfoldable pub split_field : ℕ → Bytes → ℕ → Bytes → Parsed (Bytes × Bytes)
split_field i invalid len rest =
    if ltb max_field_length len
    then refused (entry_error i invalid)
    else if ltb (length rest) (len + 8)
    then refused (entry_error i (codes " is truncated"))
    else ok (take len rest, drop len rest)

unfoldable pub read_field : ℕ → Bytes → Bytes → Parsed (Bytes × Bytes)
read_field i invalid s = do
  (len, rest) ← or_refuse (read_little 4 s) (entry_error i invalid)
  split_field i invalid len rest

-- The entry that is kept, if it has not lapsed.
unfoldable pub revive : ℕ → ℕ → Reading → Bytes → Bytes → ℕ → Parsed (Option Entry)
revive tick now r key value millis =
    if millis == 0
    then ok (some (make_entry key value))
    else elim (from_wall_clock_millis tick r millis) [
      | lapsed ↦ ok none
      | overflow ↦ undefined
      | ahead expiry ↦
          let e : Entry = record { key = key; value = value; expiration = some expiry } in
          ok (if is_expired_at e now then none else some e)
    ]

abbrev pub push : Option Entry → List Entry → List Entry
push none es = es
push (some e) es = e ∷ es

-- The loop over the entries, `count` of them to go, and the test for trailing bytes.
unfoldable pub read_entries : ℕ → ℕ → (ℕ → Reading) → ℕ → ℕ → Bytes → Parsed (List Entry)
read_entries tick now clock i zero s =
    if length s == 8
    then ok []
    else refused (codes "snapshot has trailing bytes after the last entry")
read_entries tick now clock i (suc count) s = do
  (key, s') ← read_field i (codes " has an invalid key length") s
  (value, s'') ← read_field i (codes " has an invalid value length") s'
  (millis, rest) ← or_refuse (read_little 8 s'') (entry_error i (codes " is missing its expiry"))
  kept ← revive tick now (clock i) key value millis
  es ← read_entries tick now clock (suc i) count rest
  ok (push kept es)

-- The entries, under a version that has been read.
unfoldable pub read_versioned : ℕ → ℕ → (ℕ → Reading) → ℕ → Bytes → Parsed (List Entry)
read_versioned tick now clock version s =
    if not (version == format_version)
    then refused (
        codes "snapshot format version "
        ++ to_string version
        ++ codes " is not supported (expected "
        ++ to_string format_version
        ++ codes ")")
    else or_refuse (read_little 8 s) (codes "snapshot is truncated in its header")
      >>= λ (count, rest). read_entries tick now clock 0 count rest

-- What follows the magic bytes.
unfoldable pub read_body : ℕ → ℕ → (ℕ → Reading) → Bytes → Parsed (List Entry)
read_body tick now clock s = do
  (version, rest) ← or_refuse (read_little 2 s) (codes "snapshot is truncated in its header")
  read_versioned tick now clock version rest

-- The comparison with the stored checksum, and what follows it.
unfoldable pub read_checked : ℕ → ℕ → (ℕ → Reading) → Bytes → ℕ → Parsed (List Entry)
read_checked tick now clock snapshot stored =
    if not (stored == checksum_of (take (length snapshot - 8) snapshot))
    then refused (codes "snapshot checksum mismatch -- the file is corrupt")
    else read_body tick now clock (drop 6 snapshot)

unfoldable pub decode : ℕ → ℕ → (ℕ → Reading) → Bytes → Parsed (List Entry)
decode tick now clock snapshot =
    if ltb (length snapshot) 24
    then refused (codes "snapshot is too short to be valid")
    else if not (str_eq (take 6 snapshot) magic)
    then refused (codes "snapshot has the wrong magic bytes -- not a VCache snapshot")
    else or_refuse (read_little 8 (drop (length snapshot - 8) snapshot))
        (codes "snapshot is missing its checksum")
      >>= λ (stored, rest). read_checked tick now clock snapshot stored
