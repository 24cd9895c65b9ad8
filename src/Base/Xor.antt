-- ===== src/Base/Xor.antt =====
-- The exclusive disjunction of machine words is injective in each argument.
use Prim.Native.Nat.{
  ℕ, zero, suc, ◌+◌, ◌*◌, ◌/◌, ◌%◌, ◌^◌, ◌<◌, bit_xor, digits, differ, bit_xor-bitwise,
}
use mathlib.Core.Path.{◌≡◌, refl, sym, ap, ◌∙◌}
use native.Mathlib.Nat.{pow-suc}
use native.Mathlib.Omega.{arith}

-- `looks` binary digits of the result, over the rest of `y`
abbrev xor_digits : ℕ → ℕ → ℕ → ℕ
xor_digits looks x y = digits (λ rest. rest) differ looks x y

differ_lem : (x y : ℕ) → x < 2 → y < 2 → differ x y ≡ (x + y) % 2
differ_lem zero y h k = omega arith
differ_lem (suc x) zero h k = omega arith
differ_lem (suc zero) (suc zero) h k = refl
differ_lem (suc zero) (suc (suc y)) h k = absurd (omega arith)
differ_lem (suc (suc x)) (suc y) h k = absurd (omega arith)

xor_digits-zero : (looks y : ℕ) → xor_digits looks 0 y ≡ y
xor_digits-zero zero y = refl
xor_digits-zero (suc looks) y = refl

xor_digits-suc :
    (looks x y : ℕ)
    → xor_digits (suc looks) x y ≡ xor_digits looks (x / 2) (y / 2) * 2 + (x + y) % 2
xor_digits-suc looks zero y = omega (arith, xor_digits-zero looks (y / 2))
xor_digits-suc looks (suc x) y =
    omega (arith, differ_lem (suc x % 2) (y % 2) (omega arith) (omega arith))

-- Any number of looks that covers the digits of `x` does.
xor_digits-eq :
    (looks more x y : ℕ) → x < 2 ^ looks → x < 2 ^ more → xor_digits looks x y ≡ xor_digits more x y
xor_digits-eq zero more x y h k =
    let e : 0 ≡ x = omega arith in
    ap (λ x. xor_digits 0 x y) (sym e)
    ∙ sym (xor_digits-zero more y)
    ∙ ap (λ x. xor_digits more x y) e
xor_digits-eq (suc looks) zero x y h k =
    let e : 0 ≡ x = omega arith in
    ap (λ x. xor_digits (suc looks) x y) (sym e) ∙ ap (λ x. xor_digits 0 x y) e
xor_digits-eq (suc looks) (suc more) x y h k =
    let same =
      xor_digits-eq looks more (x / 2) (y / 2) (omega (arith, h, pow-suc 2 looks))
        (omega (arith, k, pow-suc 2 more)) in
    omega (arith, same, xor_digits-suc looks x y, xor_digits-suc more x y)

lt-pow : (n : ℕ) → n < 2 ^ n
lt-pow zero = omega arith
lt-pow (suc n) = omega (arith, lt-pow n, pow-suc 2 n)

bit_xor-xor_digits : (width x y : ℕ) → x < 2 ^ width → bit_xor x y ≡ xor_digits width x y
bit_xor-xor_digits width x y h = bit_xor-bitwise x y ∙ xor_digits-eq x width x y (lt-pow x) h

xor_digits-lt : (looks x y : ℕ) → x < 2 ^ looks → y < 2 ^ looks → xor_digits looks x y < 2 ^ looks
xor_digits-lt zero x y h k = k
xor_digits-lt (suc looks) x y h k =
    let doubled = pow-suc 2 looks in
    let half =
      xor_digits-lt looks (x / 2) (y / 2) (omega (arith, doubled)) (omega (arith, doubled)) in
    omega (arith, half, doubled, xor_digits-suc looks x y)

xor_digits_right :
    (looks x y z : ℕ) → xor_digits looks x y ≡ xor_digits looks x z → x < 2 ^ looks → y ≡ z
xor_digits_right zero x y z e h = e
xor_digits_right (suc looks) x y z e h =
    let a = xor_digits-suc looks x y in
    let b = xor_digits-suc looks x z in
    let halves =
      xor_digits_right looks (x / 2) (y / 2) (z / 2) (omega arith)
        (omega (arith, h, pow-suc 2 looks)) in
    omega (arith, a, b, e, halves)

xor_digits_left :
    (looks x y z : ℕ)
    → xor_digits looks x z ≡ xor_digits looks y z
    → x < 2 ^ looks
    → y < 2 ^ looks
    → x ≡ y
xor_digits_left zero x y z e h k = omega arith
xor_digits_left (suc looks) x y z e h k =
    let a = xor_digits-suc looks x z in
    let b = xor_digits-suc looks y z in
    let doubled = pow-suc 2 looks in
    let halves =
      xor_digits_left looks (x / 2) (y / 2) (z / 2) (omega arith) (omega (arith, doubled))
        (omega (arith, doubled)) in
    omega (arith, a, b, e, halves)

pub bit_xor-lt : (width x y : ℕ) → x < 2 ^ width → y < 2 ^ width → bit_xor x y < 2 ^ width
bit_xor-lt width x y h k =
    omega (arith, bit_xor-xor_digits width x y h, xor_digits-lt width x y h k)

pub bit_xor_right : (width x y z : ℕ) → x < 2 ^ width → bit_xor x y ≡ bit_xor x z → y ≡ z
bit_xor_right width x y z h e =
    let a = bit_xor-xor_digits width x y h in
    let b = bit_xor-xor_digits width x z h in xor_digits_right width x y z (sym a ∙ e ∙ b) h

pub bit_xor_left :
    (width x y z : ℕ) → x < 2 ^ width → y < 2 ^ width → bit_xor x z ≡ bit_xor y z → x ≡ y
bit_xor_left width x y z h k e =
    let a = bit_xor-xor_digits width x z h in
    let b = bit_xor-xor_digits width y z k in xor_digits_left width x y z (sym a ∙ e ∙ b) h k
