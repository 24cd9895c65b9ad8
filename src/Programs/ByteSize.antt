-- ===== src/Programs/ByteSize.antt =====
-- server/main.cpp: `parseByteSize`, which reads the value of `--max-memory`.
use redis_like_in_memory_dat.Base.{
  ℕ, ◌*◌, ◌/◌, ◌-◌, ◌%◌, ◌≤◌, ◌<◌, ◌≡◌, ◌⊎◌, sym, ◌∙◌, Bytes, codes, str_eq, [], ◌∷◌, Option, none,
  some, ◌||◌, if◌then◌else◌, ltb, mul64, word, arith, inl, inr, Bool-cases, Option-cases,
}
use redis_like_in_memory_dat.Command.Parse.{read_digits, to_upper_ascii}
use redis_like_in_memory_dat.Protocol.Count.{not_digit}

-- The text up to `digitEnd`, and the rest.
unfoldable pub split_digits : Bytes → Bytes × Bytes
split_digits [] = ([], [])
split_digits (c ∷ s) =
    let (digits, suffix) = split_digits s in
    if not_digit c then ([], c ∷ s) else (c ∷ digits, suffix)

unfoldable pub multiplier_of : Bytes → Option ℕ
multiplier_of suffix =
    if str_eq suffix [] || str_eq suffix (codes "B")
    then some 1
    else if str_eq suffix (codes "K") || str_eq suffix (codes "KB")
    then some 1024
    else if str_eq suffix (codes "M") || str_eq suffix (codes "MB")
    then some (1024 * 1024)
    else if str_eq suffix (codes "G") || str_eq suffix (codes "GB")
    then some (1024 * 1024 * 1024)
    else none

-- `std::stoull` of a text of digits: out of range from 2⁶⁴ on, and no number in an empty text.
unfoldable pub stoull : Bytes → Option ℕ
stoull [] = none
stoull (c ∷ s) = elim (read_digits 0 (c ∷ s)) [
  | none ↦ none
  | some n ↦ if ltb n word then some n else none
]

-- The test for overflow and the product.
unfoldable pub scaled : ℕ → ℕ → Option ℕ
scaled number multiplier =
    if ltb ((word - 1) / multiplier) number then none else some (mul64 number multiplier)

unfoldable pub parse_byte_size : Bytes → Option ℕ
unfolding split_digits
parse_byte_size text =
    let (digits, suffix) = split_digits text in
    elim (multiplier_of (to_upper_ascii suffix)) [
      | none ↦ none
      | some multiplier ↦ elim (stoull digits) [
        | none ↦ none
        | some number ↦ scaled number multiplier
      ]
    ]

unit_cases :
    (s : Bytes) (m : ℕ)
    → multiplier_of s ≡ some m
    → (m ≡ 1) ⊎ (m ≡ 1024) ⊎ (m ≡ 1024 * 1024) ⊎ (m ≡ 1024 * 1024 * 1024)
unfolding multiplier_of
unit_cases s m h = ground arith

-- The product of a number that passes the test does not wrap, for each of the four units.
product_fits :
    (n m : ℕ)
    → (m ≡ 1) ⊎ (m ≡ 1024) ⊎ (m ≡ 1024 * 1024) ⊎ (m ≡ 1024 * 1024 * 1024)
    → n ≤ (word - 1) / m
    → n * m < word
product_fits n m (inl e) h = rw e (omega (arith, rw e at h))
product_fits n m (inr (inl e)) h = rw e (omega (arith, rw e at h))
product_fits n m (inr (inr (inl e))) h = rw e (omega (arith, rw e at h))
product_fits n m (inr (inr (inr e))) h = rw e (omega (arith, rw e at h))

scaled-exact :
    (n m b : ℕ)
    → (m ≡ 1) ⊎ (m ≡ 1024) ⊎ (m ≡ 1024 * 1024) ⊎ (m ≡ 1024 * 1024 * 1024)
    → scaled n m ≡ some b
    → (b ≡ n * m) × (b < word)
unfolding scaled
scaled-exact n m b unit h = elim (Bool-cases (ltb ((word - 1) / m) n)) [
  | inl over ↦ absurd (ground (arith, h, over))
  | inr within ↦
      let fits = product_fits n m unit (ground (arith, within)) in
      let e : mul64 n m ≡ b = ground (arith, h, within) in
      let exact : b ≡ n * m = sym e ∙ mod_small (n * m) fits in (exact, rw exact fits)
]
  where
    mod_small : (x : ℕ) → x < word → x % word ≡ x
    mod_small x small = omega (arith, small)

-- An accepted size is the number times its unit, exactly: the product is never reduced modulo 2⁶⁴.
pub parse_byte_size-exact :
    (text : Bytes) (bytes : ℕ)
    → parse_byte_size text ≡ some bytes
    → (number : ℕ) × (multiplier : ℕ) × (stoull (split_digits text).0 ≡ some number)
      × (multiplier_of (to_upper_ascii (split_digits text).1) ≡ some multiplier)
      × (bytes ≡ number * multiplier)
      × (bytes < word)
unfolding parse_byte_size
parse_byte_size-exact text bytes h =
    elim (Option-cases (multiplier_of (to_upper_ascii (split_digits text).1))) [
      | inl e ↦ absurd (ground (arith, rw (e, parse_byte_size) at h))
      | inr (m, e) ↦ elim (Option-cases (stoull (split_digits text).0)) [
        | inl k ↦ absurd (ground (arith, rw (e, k, parse_byte_size) at h))
        | inr (n, k) ↦
            let (exact, fits) =
              scaled-exact n m bytes (unit_cases _ m e) (sym (read_as n m k e) ∙ h) in
            (n, m, k, e, exact, fits)
      ]
    ]
  where
    read_as :
        (n m : ℕ)
        → stoull (split_digits text).0 ≡ some n
        → multiplier_of (to_upper_ascii (split_digits text).1) ≡ some m
        → parse_byte_size text ≡ scaled n m
    read_as n m k e = rw (e, parse_byte_size) (rw (k, parse_byte_size))
