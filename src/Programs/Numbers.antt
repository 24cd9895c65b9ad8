-- ===== src/Programs/Numbers.antt =====
-- `std::stoi` and `std::stoll`, as the two programs call them: a blank prefix is skipped, then a sign is
-- read, then the longest run of digits.
use redis_like_in_memory_dat.Base.{
  ℕ, suc, ◌+◌, ◌-◌, ◌^◌, ◌≡◌, refl, Bytes, codes, [], ◌∷◌, Option, none, some, Bool, true, false,
  ◌||◌, ◌&&◌, if◌then◌else◌, ◌==◌, ltb, leb, length, arith,
}
use redis_like_in_memory_dat.Command.Parse.{read_digits}
use redis_like_in_memory_dat.Programs.ByteSize.{split_digits}
use redis_like_in_memory_dat.Protocol.Count.{ℤ, pos, negsuc}

-- `std::isspace`
abbrev pub is_space : ℕ → Bool
is_space c = c == 32 || (leb 9 c && leb c 13)

-- The text after the blanks, and their number.
unfoldable pub skip_space : Bytes → ℕ × Bytes
skip_space [] = (0, [])
skip_space (c ∷ s) =
    let (n, rest) = skip_space s in if is_space c then (suc n, rest) else (0, c ∷ s)

-- A sign, if there is one: whether it is a minus, its length, and the rest.
unfoldable pub read_sign : Bytes → Bool × ℕ × Bytes
read_sign [] = (false, 0, [])
read_sign (c ∷ s) =
    if c == b'-' then (true, 1, s) else if c == b'+' then (false, 1, s) else (false, 0, c ∷ s)

unfoldable pub signed : Bool → ℕ → ℤ
signed negative n = if negative && ltb 0 n then negsuc (n - 1) else pos n

-- In the range of an integer type of which `half` is half of the values.
unfoldable pub in_range : ℕ → ℤ → Bool
in_range half (pos n) = ltb n half
in_range half (negsuc n) = ltb n half

unfoldable pub ranged : ℕ → ℤ → ℕ → Option (ℤ × ℕ)
unfolding in_range
ranged half n consumed = if in_range half n then some (n, consumed) else none

unfoldable pub value_of : ℕ → Bool → ℕ → Bytes → Option (ℤ × ℕ)
unfolding ranged signed read_digits
value_of half negative before [] = none
value_of half negative before (c ∷ digits) = elim (read_digits 0 (c ∷ digits)) [
  | none ↦ none
  | some n ↦ ranged half (signed negative n) (before + length (c ∷ digits))
]

-- The number and how many bytes were read; `none` is an exception, no number or one out of range.
unfoldable pub sto : ℕ → Bytes → Option (ℤ × ℕ)
unfolding skip_space read_sign split_digits value_of
sto half text =
    let (blanks, rest) = skip_space text in
    let (negative, sign, rest') = read_sign rest in
    value_of half negative (blanks + sign) (split_digits rest').0

abbrev pub all_of : ℕ → Option (ℤ × ℕ) → Option ℤ
all_of size none = none
all_of size (some (n, consumed)) = if consumed == size then some n else none

-- A number of which nothing is left over.
unfoldable pub whole_number : ℕ → Bytes → Option ℤ
unfolding sto
whole_number half text = all_of (length text) (sto half text)

abbrev pub int_half : ℕ
int_half = 2 ^ 31

abbrev pub long_half : ℕ
long_half = 2 ^ 63

plain : whole_number int_half (codes "6379") ≡ some (pos 6379)
unfolding whole_number
plain = refl

left_over : whole_number int_half (codes "6379abc") ≡ none
unfolding whole_number
left_over = refl

too_large : whole_number int_half (codes "2147483648") ≡ none
unfolding whole_number
too_large = refl

blank_and_sign : whole_number int_half (codes " +7") ≡ some (pos 7)
unfolding whole_number
blank_and_sign = refl

least : whole_number int_half (codes "-2147483648") ≡ some (negsuc 2147483647)
unfolding whole_number
least = refl

range_of_some :
    (half size : ℕ) (n : ℤ) (r : Option (ℤ × ℕ))
    → all_of size r ≡ some n
    → (k : ℕ) × (r ≡ some (n, k))
range_of_some half size n none h = absurd (ground (arith, h))
range_of_some half size n (some (m, k)) h = (k, ground (arith, h))
