-- ===== src/Persistence/RoundTrip.antt =====
-- A snapshot that is written is read back.
use redis_like_in_memory_dat.Base.{
  ℕ, suc, ◌+◌, ◌^◌, ◌≤◌, ◌<◌, ◌≡◌, refl, arith, Bytes, List, [], ◌∷◌, ◌++◌, length, length-append,
  take-append, drop-append, append_assoc, ltb, codes, Option, none, some, false, true, ◌==◌, ◌∙◌,
}
use redis_like_in_memory_dat.Entry.{Entry}
use native.Mathlib.Nat.{div-le_self}
use redis_like_in_memory_dat.Persistence.Clocks.{
  Reading, moment, to_wall_clock_millis, ticks_of_milli,
}
use redis_like_in_memory_dat.Persistence.Decode.{
  Parsed, ok, ◌>>=◌, split_field, read_field, read_entries, revive, push,
}
use redis_like_in_memory_dat.Persistence.Encode.{
  max_field_length, encode_entry, encode_entries, expires_at,
}
use redis_like_in_memory_dat.Persistence.Revived.{
  Revived, AllRevived, all_done, and_kept, and_dropped, IsDatable, AllDatable, revive-Revived,
}
use redis_like_in_memory_dat.Persistence.Little.{little, read_little-little}

-- The key and the value are short enough to be loaded.
pub record IsLoadable (e : Entry) : Type 0 where
  pub key_fits : length e.key ≤ max_field_length
  pub value_fits : length e.value ≤ max_field_length

pub data AllLoadable : List Entry → Type 0 where
  none_left : AllLoadable []
  and_fits : {e : Entry} {es : List Entry} → IsLoadable e → AllLoadable es → AllLoadable (e ∷ es)

read_field_lem :
    (i : ℕ) (invalid field rest : Bytes)
    → length field ≤ max_field_length
    → 8 ≤ length rest
    → read_field i invalid (little 4 (length field) ++ (field ++ rest)) ≡ ok (field, rest)
unfolding read_field split_field
read_field_lem i invalid field rest small long =
    let short : ltb max_field_length (length field) ≡ false = ground (arith, small) in
    let whole : ltb (length (field ++ rest)) (length field + 8) ≡ false =
      ground (arith, length-append field rest) in
    rw (read_little-little 4 (length field) (field ++ rest) (omega (arith, small)), short, whole)
      (rw (take-append field rest, drop-append field rest))

-- Before at least eight more bytes, one written entry is read as itself.
read_entries-encode_entry :
    (tick now : ℕ) (saved loaded : ℕ → Reading) (i count : ℕ) (e : Entry) (rest : Bytes)
    → IsLoadable e
    → expires_at tick (saved i) e.expiration < 256 ^ 8
    → 8 ≤ length rest
    → read_entries tick now loaded i (suc count) (encode_entry tick (saved i) e rest) ≡ (
        revive tick now (loaded i) e.key e.value (expires_at tick (saved i) e.expiration)
        >>= λ kept. (read_entries tick now loaded (suc i) count rest >>= λ es. ok (push kept es)))
unfolding read_entries encode_entry
read_entries-encode_entry tick now saved loaded i count e rest f h k =
    let millis = expires_at tick (saved i) e.expiration in
    let tail = little 8 millis ++ rest in
    let long : 8 ≤ length tail = omega (arith, length-append (little 8 millis) rest) in
    let field = little 4 (length e.value) ++ (e.value ++ tail) in
    let long' : 8 ≤ length field = omega (
      arith,
      length-append (little 4 (length e.value)) (e.value ++ tail),
      length-append e.value tail,
    ) in
    rw
      (
        read_field_lem i (codes " has an invalid key length") e.key field f.key_fits long',
        read_field_lem i (codes " has an invalid value length") e.value tail f.value_fits long,
        read_little-little 8 millis rest h,
      )
      refl

expires_at-lt :
    (tick : ℕ) (saved loaded : Reading) (x : Option ℕ)
    → ((t : ℕ) → x ≡ some t → IsDatable tick saved loaded t)
    → expires_at tick saved x < 256 ^ 8
unfolding to_wall_clock_millis
expires_at-lt tick saved loaded none d = omega arith
expires_at-lt tick saved loaded (some t) d =
    omega (arith, (d t refl).wall_fits, div-le_self (moment tick saved t) (ticks_of_milli tick))

pub encode_entries-append :
    (tick : ℕ) (saved : ℕ → Reading) (i : ℕ) (es : List Entry) (s t : Bytes)
    → encode_entries tick saved i es s ++ t ≡ encode_entries tick saved i es (s ++ t)
unfolding encode_entries encode_entry
encode_entries-append tick saved i [] s t = refl
encode_entries-append tick saved i (e ∷ es) s t =
    simp (append_assoc, encode_entries-append tick saved (suc i) es s t)

le_length-encode_entries :
    (tick : ℕ) (saved : ℕ → Reading) (i : ℕ) (es : List Entry) (s : Bytes)
    → length s ≤ length (encode_entries tick saved i es s)
unfolding encode_entries encode_entry
le_length-encode_entries tick saved i [] s = omega arith
le_length-encode_entries tick saved i (e ∷ es) s =
    let rest = encode_entries tick saved (suc i) es s in
    let after = little 8 (expires_at tick (saved i) e.expiration) ++ rest in
    let middle = little 4 (length e.value) ++ (e.value ++ after) in
    omega (
      arith,
      le_length-encode_entries tick saved (suc i) es s,
      length-append (little 4 (length e.key)) (e.key ++ middle),
      length-append e.key middle,
      length-append (little 4 (length e.value)) (e.value ++ after),
      length-append e.value after,
      length-append (little 8 (expires_at tick (saved i) e.expiration)) rest,
    )

pushed :
    {tick i : ℕ} {saved loaded : ℕ → Reading} {e : Entry} {es es' : List Entry} (o : Option Entry)
    → Revived tick (saved i) (loaded i) e o
    → AllRevived tick saved loaded (suc i) es es'
    → AllRevived tick saved loaded i (e ∷ es) (push o es')
pushed none r rs = and_dropped r rs
pushed (some e) r rs = and_kept r rs

-- What a load reads, and how it compares with what was written.
pub record Reloaded (tick : ℕ) (saved loaded : ℕ → Reading) (i : ℕ) (es : List Entry)
    (p : Parsed (List Entry)) : Type 0 where
  pub entries : List Entry
  pub reads : p ≡ ok entries
  pub revived : AllRevived tick saved loaded i es entries

-- The bytes left when every entry has been read are the checksum's.
pub read_entries-encode_entries :
    (tick now : ℕ) (saved loaded : ℕ → Reading) (i : ℕ) (es : List Entry) (sum : Bytes)
    → 0 < tick
    → 0 < ticks_of_milli tick
    → ((j : ℕ) → now ≤ (loaded j).steady)
    → AllLoadable es
    → AllDatable tick saved loaded i es
    → length sum ≡ 8
    → Reloaded tick saved loaded i es
        (read_entries tick now loaded i (length es) (encode_entries tick saved i es sum))
unfolding encode_entries read_entries
read_entries-encode_entries tick now saved loaded i [] sum pos least before f h k =
    let whole : (length sum == 8) ≡ true = ground (arith, k) in
    record { entries = []; reads = rw (read_entries, whole) refl; revived = all_done i }
read_entries-encode_entries tick now saved loaded i (e ∷ es) sum pos least before (and_fits f fs)
      (h, hs) k =
    let rest = encode_entries tick saved (suc i) es sum in
    let long : 8 ≤ length rest =
      omega (arith, k, le_length-encode_entries tick saved (suc i) es sum) in
    let one =
      read_entries-encode_entry tick now saved loaded i (length es) e rest f
        (expires_at-lt tick (saved i) (loaded i) e.expiration h) long in
    let (o, revives, r) =
      revive-Revived tick now (saved i) (loaded i) pos least (before i) e.key e.value e.expiration
        h in
    let more =
      read_entries-encode_entries tick now saved loaded (suc i) es sum pos least before fs hs k in
    record {
      entries = push o more.entries;
      reads = one ∙ rw (revives, more.reads) refl;
      revived = pushed o r more.revived;
    }
