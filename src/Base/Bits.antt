-- ===== src/Base/Bits.antt =====
-- Machine words, and the bounds that masks and smeared bits need.
use Prim.Native.Nat.{
  ℕ, zero, suc, ◌+◌, ◌-◌, ◌*◌, ◌/◌, ◌%◌, ◌^◌, ◌≤◌, ◌<◌, min, max, bit_and, bit_or, digits,
  bit_and-bitwise, bit_or-bitwise,
}
use native.Mathlib.Nat.{pow-suc}
use native.Mathlib.Omega.{arith}

abbrev pub word : ℕ
word = 2 ^ 64

-- `a + b`, `a - b` and `a * b` on `std::size_t` or `std::uint64_t`
abbrev pub add64 : ℕ → ℕ → ℕ
add64 a b = (a + b) % word

abbrev pub sub64 : ℕ → ℕ → ℕ
sub64 a b = (a + (word - b % word)) % word

abbrev pub mul64 : ℕ → ℕ → ℕ
mul64 a b = a * b % word

-- However many digits are looked at, the digits in common are no more than the mask's.
masked-le : (looks x mask : ℕ) → digits (λ rest. 0) min looks x mask ≤ mask
masked-le zero x mask = omega arith
masked-le (suc looks) zero mask = omega arith
masked-le (suc looks) (suc x) mask = omega (arith, masked-le looks (suc x / 2) (mask / 2))

-- A mask bounds its result.
pub bit_and-le : (x mask : ℕ) → bit_and x mask ≤ mask
bit_and-le x mask = omega (arith, bit_and-bitwise x mask, masked-le x x mask)

joined-lt :
    (looks width x y : ℕ)
    → x < 2 ^ width
    → y < 2 ^ width
    → digits (λ rest. rest) max looks x y < 2 ^ width
joined-lt zero width x y small small' = small'
joined-lt (suc looks) width zero y small small' = small'
joined-lt (suc looks) zero (suc x) y small small' = absurd (omega arith)
joined-lt (suc looks) (suc width) (suc x) y small small' =
    let doubled = pow-suc 2 width in
    omega (
      arith,
      doubled,
      joined-lt looks width (suc x / 2) (y / 2) (omega (arith, doubled)) (omega (arith, doubled)),
    )

-- The disjunction of two numbers of `width` bits has `width` bits.
pub bit_or-lt : (width x y : ℕ) → x < 2 ^ width → y < 2 ^ width → bit_or x y < 2 ^ width
bit_or-lt width x y small small' =
    omega (arith, bit_or-bitwise x y, joined-lt x width x y small small')
