-- ===== src/Persistence/Loaded.antt =====
-- Loading what was saved.
use redis_like_in_memory_dat.Base.{
  ℕ, ◌-◌, ◌^◌, ◌≤◌, ◌<◌, ◌≡◌, refl, sym, ap, ◌∙◌, arith, Bytes, List, [], ◌∷◌, ◌++◌, length,
  length-append, take-append, drop-append, append_assoc, append-nil, str_eq, bit_xor, mul64,
  if◌then◌else◌, ltb, codes, some, false, true, ◌==◌, not, word, Bool-cases, inl, inr,
}
use redis_like_in_memory_dat.Entry.{Entry, is_expired_at}
use redis_like_in_memory_dat.HashTable.Hash.{fnv1a, fnv_prime, fnv_offset_basis}
use redis_like_in_memory_dat.Persistence.Clocks.{Reading, ticks_of_milli}
use redis_like_in_memory_dat.Persistence.Decode.{
  ok, refused, read_entries, read_versioned, read_body, read_checked, decode,
}
use redis_like_in_memory_dat.Persistence.Encode.{
  encode_entries, payload_of, encode, live_at, magic, format_version,
}
use redis_like_in_memory_dat.Persistence.Little.{
  little, read_little, length-little, read_little-little, checksum_of,
}
use redis_like_in_memory_dat.Persistence.Revived.{AllRevived, AllDatable}
use redis_like_in_memory_dat.Persistence.RoundTrip.{
  AllLoadable, and_fits, read_entries-encode_entries, encode_entries-append,
}

fnv1a-lt : (hash : ℕ) (s : Bytes) → hash < word → fnv1a hash s < word
unfolding fnv1a
fnv1a-lt hash [] h = h
fnv1a-lt hash (c ∷ s) h = fnv1a-lt (mul64 (bit_xor hash c) fnv_prime) s (omega arith)

pub checksum_of-lt : (s : Bytes) → checksum_of s < 256 ^ 8
unfolding checksum_of
checksum_of-lt s = omega (arith, fnv1a-lt fnv_offset_basis s (omega arith))

live_at-AllLoadable : (now : ℕ) (es : List Entry) → AllLoadable es → AllLoadable (live_at now es)
unfolding live_at
live_at-AllLoadable now [] f = f
live_at-AllLoadable now (e ∷ es) (and_fits f fs) = elim (Bool-cases (is_expired_at e now)) [
  | inl gone ↦ rw gone (live_at-AllLoadable now es fs)
  | inr live ↦ rw live (and_fits f (live_at-AllLoadable now es fs))
]

read_body-encode_entries :
    (tick now : ℕ) (saved loaded : ℕ → Reading) (es : List Entry) (sum : Bytes)
    → length es < word
    → read_body tick now loaded
        (little 2 format_version ++ (little 8 (length es) ++ encode_entries tick saved 0 es sum))
      ≡ read_entries tick now loaded 0 (length es) (encode_entries tick saved 0 es sum)
unfolding read_body read_versioned
read_body-encode_entries tick now saved loaded es sum k =
    rw
      (
        read_little-little 2 format_version
            (little 8 (length es) ++ encode_entries tick saved 0 es sum) (omega arith),
        read_little-little 8 (length es) (encode_entries tick saved 0 es sum) (omega (arith, k)),
      )
      refl

-- A payload under a checksum passes the tests before the checksum's.
pub decode_summed :
    (tick now : ℕ) (clock : ℕ → Reading) (rest : Bytes) (sum : ℕ)
    → 10 ≤ length rest
    → sum < 256 ^ 8
    → decode tick now clock ((magic ++ rest) ++ little 8 sum) ≡ (
        if not (sum == checksum_of (magic ++ rest))
        then refused (codes "snapshot checksum mismatch -- the file is corrupt")
        else read_body tick now clock (rest ++ little 8 sum))
unfolding decode read_checked str_eq
decode_summed tick now clock rest sum h k =
    let payload = magic ++ rest in
    let tail = little 8 sum in
    let size = length-append payload tail in
    let eight = length-little 8 sum in
    let long : ltb (length (payload ++ tail)) 24 ≡ false = ground (arith, size, eight) in
    let cut : length (payload ++ tail) - 8 ≡ length payload = omega (arith, size, eight) in
    let e : read_little 8 tail ≡ some (sum, []) =
      ap (read_little 8) (sym (append-nil tail)) ∙ read_little-little 8 sum [] k in
    rw (long, cut, drop-append payload tail, take-append payload tail, e) refl

-- Fewer than 2⁶⁴ live entries, whose keys and values have at most 512 MiB and whose deadlines the clocks of 64 bits
-- hold: from the snapshot that `encode` wrote, `decode` reads those entries, in their order. An entry without a
-- deadline is as it was. One with a deadline has it on the system clock less than a millisecond earlier at most, or
-- is dropped if the deadline had passed or was less than a millisecond ahead. The load reads its clocks after it
-- has begun, and ticks of the system clock divide a millisecond.
pub decode-encode :
    (tick now later : ℕ) (saved loaded : ℕ → Reading) (es : List Entry)
    → 0 < tick
    → 0 < ticks_of_milli tick
    → ((i : ℕ) → later ≤ (loaded i).steady)
    → AllLoadable es
    → AllDatable tick saved loaded 0 (live_at now es)
    → length (live_at now es) < word
    → (entries : List Entry) × (decode tick later loaded (encode tick now saved es) ≡ ok entries)
      × AllRevived tick saved loaded 0 (live_at now es) entries
unfolding encode payload_of
decode-encode tick now later saved loaded es pos least before f h k =
    let live = live_at now es in
    let rest =
      little 2 format_version ++ (little 8 (length live) ++ encode_entries tick saved 0 live []) in
    let sum = little 8 (checksum_of (magic ++ rest)) in
    let long : 10 ≤ length rest = omega (
      arith,
      length-append (little 2 format_version)
          (little 8 (length live) ++ encode_entries tick saved 0 live []),
      length-append (little 8 (length live)) (encode_entries tick saved 0 live []),
      length-little 2 format_version,
      length-little 8 (length live),
    ) in
    let e : rest ++ sum
        ≡ little 2 format_version
          ++ (little 8 (length live) ++ encode_entries tick saved 0 live sum) =
      simp (append_assoc, encode_entries-append tick saved 0 live [] sum) in
    let same : (checksum_of (magic ++ rest) == checksum_of (magic ++ rest)) ≡ true = ground arith in
    let r =
      read_entries-encode_entries tick later saved loaded 0 live sum pos least before
        (live_at-AllLoadable now es f) h (length-little 8 (checksum_of (magic ++ rest))) in
    (
      r.entries,
      decode_summed tick later loaded rest (checksum_of (magic ++ rest)) long
            (checksum_of-lt (magic ++ rest))
          ∙ rw same refl
          ∙ ap (read_body tick later loaded) e
          ∙ read_body-encode_entries tick later saved loaded live sum k
          ∙ r.reads,
      r.revived,
    )
