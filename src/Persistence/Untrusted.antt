-- ===== src/Persistence/Untrusted.antt =====
-- What any bytes that `decode` accepts are loaded as.
use redis_like_in_memory_dat.Base.{
  ℕ, zero, suc, ◌+◌, ◌-◌, ◌≤◌, ◌≡◌, refl, arith, Bytes, List, [], ◌∷◌, Option, none, some, Bool,
  true, false, not, ◌==◌, ltb, length, take, drop, if◌then◌else◌, Bool-cases, inl, inr, str_eq,
  codes, ◌^◌, ◌<◌, ◌*◌, leb, ◌⊎◌,
}
use mathlib.Core.Path.{subst}
use redis_like_in_memory_dat.Entry.{Entry, is_expired_at}
use redis_like_in_memory_dat.Persistence.Clocks.{
  Reading, Expiry, lapsed, ahead, overflow, ticks_of_milli, from_whole, from_wall_clock_millis,
}
use redis_like_in_memory_dat.Persistence.Decode.{
  Parsed, ok, refused, undefined, ◌>>=◌, or_refuse, entry_error, split_field, read_field, revive,
  push, read_entries, read_versioned, read_body, read_checked, decode,
}
use redis_like_in_memory_dat.Persistence.Encode.{max_field_length, magic, format_version}
use redis_like_in_memory_dat.Persistence.Little.{read_little, checksum_of}

-- An entry that may be served: it has not lapsed, its fields are short, and 64 bits hold its deadline.
pub record IsServable (now : ℕ) (e : Entry) : Type 0 where
  pub live : is_expired_at e now ≡ false
  pub short_key : length e.key ≤ max_field_length
  pub short_value : length e.value ≤ max_field_length
  pub held : (t : ℕ) → e.expiration ≡ some t → t < 2 ^ 63

pub data AllServable (now : ℕ) : List Entry → Type 0 where
  no_entry : AllServable now []
  and_entry :
      {e : Entry} {es : List Entry}
      → IsServable now e
      → AllServable now es
      → AllServable now (e ∷ es)

abbrev Holds {ℓ} : {A : Type ℓ} → (A → Type 0) → Parsed A → Type 0
Holds P (ok a) = P a
Holds P (refused e) = Unit {0}
Holds P undefined = Unit {0}

Holds-bind {ℓ κ} :
    {A : Type ℓ} {B : Type κ} (P : A → Type 0) (Q : B → Type 0) (p : Parsed A) (f : A → Parsed B)
    → Holds P p
    → ((a : A) → P a → Holds Q (f a))
    → Holds Q (p >>= f)
Holds-bind P Q (ok a) f h k = k a h
Holds-bind P Q (refused e) f h k = tt
Holds-bind P Q undefined f h k = tt

-- A step of which nothing is known
any {ℓ} : {A : Type ℓ} (p : Parsed A) → Holds (λ a. Unit {0}) p
any (ok a) = tt
any (refused e) = tt
any undefined = tt

length-take-le : (n : ℕ) (s : Bytes) → length (take n s) ≤ n
length-take-le zero s = omega arith
length-take-le (suc n) [] = omega arith
length-take-le (suc n) (b ∷ s) = omega (arith, length-take-le n s)

abbrev Short : Bytes × Bytes → Type 0
Short (field, rest) = length field ≤ max_field_length

split_field-Short :
    (i : ℕ) (invalid : Bytes) (len : ℕ) (rest : Bytes)
    → Holds Short (split_field i invalid len rest)
unfolding split_field
split_field-Short i invalid len rest = elim (Bool-cases (ltb max_field_length len)) [
  | inl long ↦ rw (long, split_field) tt
  | inr short ↦ elim (Bool-cases (ltb (length rest) (len + 8))) [
    | inl cut ↦ rw (short, cut, split_field) tt
    | inr whole ↦ rw (short, whole, split_field) (ground (arith, length-take-le len rest, short))
  ]
]

read_field-Short : (i : ℕ) (invalid s : Bytes) → Holds Short (read_field i invalid s)
unfolding read_field
read_field-Short i invalid s =
    Holds-bind (λ x. Unit {0}) Short (or_refuse (read_little 4 s) (entry_error i invalid)) _ (any _)
      (λ x h. split_field-Short i invalid x.0 x.1)

abbrev Kept : ℕ → Option Entry → Type 0
Kept now none = Unit {0}
Kept now (some e) = IsServable now e

live-Kept :
    (now : ℕ) (e : Entry) (b : Bool)
    → is_expired_at e now ≡ b
    → length e.key ≤ max_field_length
    → length e.value ≤ max_field_length
    → ((t : ℕ) → e.expiration ≡ some t → t < 2 ^ 63)
    → Kept now (if b then none else some e)
live-Kept now e true h k l m = tt
live-Kept now e false h k l m = record { live = h; short_key = k; short_value = l; held = m }

-- A deadline that is made of a number of milliseconds.
abbrev Held : Expiry → Type 0
Held (ahead t) = t < 2 ^ 63
Held _ = Unit {0}

from_whole-Held : (tick : ℕ) (r : Reading) (whole : ℕ) → Held (from_whole tick r whole)
from_whole-Held tick r whole = elim (Bool-cases (leb (2 ^ 63) whole)) [
  | inl over ↦ rw over tt
  | inr fits ↦ elim (Bool-cases (leb whole r.system)) [
    | inl past ↦ rw (fits, past) tt
    | inr left ↦ elim (Bool-cases (leb (2 ^ 63) (r.steady + (whole - r.system) * tick))) [
      | inl over ↦ rw (fits, left, over) tt
      | inr held ↦ rw (fits, left, held) (ground (arith, held))
    ]
  ]
]

from_wall-Held : (tick : ℕ) (r : Reading) (millis : ℕ) → Held (from_wall_clock_millis tick r millis)
unfolding from_wall_clock_millis
from_wall-Held tick r millis = elim (Bool-cases (leb (2 ^ 63) millis)) [
  | inr positive ↦ rw positive (from_whole-Held tick r (millis * ticks_of_milli tick))
  | inl negative ↦
      rw negative
        (elim (Bool-cases (ltb (2 ^ 63) ((2 ^ 64 - millis) * ticks_of_milli tick + r.system))) [
          | inl over ↦ rw over tt
          | inr past ↦ rw past tt
        ])
]

Expiry-cases : (x : Expiry) → (x ≡ lapsed) ⊎ (x ≡ overflow) ⊎ ((t : ℕ) × (x ≡ ahead t))
Expiry-cases lapsed = inl refl
Expiry-cases overflow = inr (inl refl)
Expiry-cases (ahead t) = inr (inr (t, refl))

revive-Kept :
    (tick now : ℕ) (r : Reading) (key value : Bytes) (millis : ℕ)
    → length key ≤ max_field_length
    → length value ≤ max_field_length
    → Holds (Kept now) (revive tick now r key value millis)
unfolding revive is_expired_at
revive-Kept tick now r key value millis h k = elim (Bool-cases (millis == 0)) [
  | inl never ↦
      rw (never, revive) (record { live = refl; short_key = h; short_value = k; held = λ t e. cc })
  | inr dated ↦ elim (Expiry-cases (from_wall_clock_millis tick r millis)) [
    | inl past ↦ rw (dated, past, revive) tt
    | inr (inl over) ↦ rw (dated, over, revive) tt
    | inr (inr (expiry, left)) ↦
        let small : expiry < 2 ^ 63 = rw left at (from_wall-Held tick r millis) in
        rw (dated, left, revive)
          (live-Kept now (record { key = key; value = value; expiration = some expiry }) _ refl h k
            (λ t e. let same : expiry ≡ t = cc in omega (arith, same, small)))
  ]
]

push-AllServable :
    (now : ℕ) (o : Option Entry) (es : List Entry)
    → Kept now o
    → AllServable now es
    → AllServable now (push o es)
push-AllServable now none es h k = k
push-AllServable now (some e) es h k = and_entry h k

read_entries-AllServable :
    (tick now : ℕ) (clock : ℕ → Reading) (i count : ℕ) (s : Bytes)
    → Holds (AllServable now) (read_entries tick now clock i count s)
unfolding read_entries
read_entries-AllServable tick now clock i zero s = elim (Bool-cases (length s == 8)) [
  | inl whole ↦ rw (whole, read_entries) no_entry
  | inr trailing ↦ rw (trailing, read_entries) tt
]
read_entries-AllServable tick now clock i (suc count) s =
    Holds-bind Short (AllServable now) (read_field i (codes " has an invalid key length") s) _
      (read_field-Short i (codes " has an invalid key length") s)
      (λ (key, s') h.
        Holds-bind Short (AllServable now) (read_field i (codes " has an invalid value length") s')
          _ (read_field-Short i (codes " has an invalid value length") s')
          (λ (value, s'') k.
            Holds-bind (λ x. Unit {0}) (AllServable now)
              (or_refuse (read_little 8 s'') (entry_error i (codes " is missing its expiry"))) _
              (any _)
              (λ (millis, rest) u.
                Holds-bind (Kept now) (AllServable now) (revive tick now (clock i) key value millis)
                  _ (revive-Kept tick now (clock i) key value millis h k)
                  (λ kept w.
                    Holds-bind (AllServable now) (AllServable now)
                      (read_entries tick now clock (suc i) count rest) _
                      (read_entries-AllServable tick now clock (suc i) count rest)
                      (λ es l. push-AllServable now kept es w l)))))

Holds-if {ℓ} :
    {A : Type ℓ} (P : A → Type 0) (b : Bool) (e : Bytes) (p : Parsed A)
    → Holds P p
    → Holds P (if b then refused e else p)
Holds-if P true e p h = tt
Holds-if P false e p h = h

module _ (tick now : ℕ) (clock : ℕ → Reading) where
  read_versioned-AllServable :
      (version : ℕ) (s : Bytes) → Holds (AllServable now) (read_versioned tick now clock version s)
  unfolding read_versioned
  read_versioned-AllServable version s =
      Holds-if (AllServable now) (not (version == format_version)) _ _ (
        Holds-bind (λ x. Unit {0}) (AllServable now) (or_refuse (read_little 8 s) _) _ (any _)
          (λ x h. read_entries-AllServable tick now clock 0 x.0 x.1))

  read_body-AllServable : (s : Bytes) → Holds (AllServable now) (read_body tick now clock s)
  unfolding read_body
  read_body-AllServable s =
      Holds-bind (λ x. Unit {0}) (AllServable now) (or_refuse (read_little 2 s) _) _ (any _)
        (λ x h. read_versioned-AllServable x.0 x.1)

  read_checked-AllServable :
      (snapshot : Bytes) (stored : ℕ)
      → Holds (AllServable now) (read_checked tick now clock snapshot stored)
  unfolding read_checked
  read_checked-AllServable snapshot stored =
      Holds-if (AllServable now) (not (stored == checksum_of (take (length snapshot - 8) snapshot)))
        _ _ (read_body-AllServable (drop 6 snapshot))

  decode-Holds : (snapshot : Bytes) → Holds (AllServable now) (decode tick now clock snapshot)
  unfolding decode
  decode-Holds snapshot = Holds-if (AllServable now) (ltb (length snapshot) 24) _ _ (
      Holds-if (AllServable now) (not (str_eq (take 6 snapshot) magic)) _ _ (
        Holds-bind (λ x. Unit {0}) (AllServable now)
          (or_refuse (read_little 8 (drop (length snapshot - 8) snapshot)) _) _ (any _)
          (λ x h. read_checked-AllServable snapshot x.0)))

  -- Whatever bytes a snapshot file holds: each entry that `decode` accepts from it has not lapsed at the moment
  -- of the load, its key and its value have at most 512 MiB, and its deadline, if it has one, is a time point of
  -- 64 bits.
  pub decode-AllServable :
      (snapshot : Bytes) (entries : List Entry)
      → decode tick now clock snapshot ≡ ok entries
      → AllServable now entries
  decode-AllServable snapshot entries h = subst (Holds (AllServable now)) h (decode-Holds snapshot)
