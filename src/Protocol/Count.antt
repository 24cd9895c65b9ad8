-- ===== src/Protocol/Count.antt =====
-- include/Protocol.h: `parseCount`, and `std::to_string`, whose output it reads.
use redis_like_in_memory_dat.Base.{
  ℕ, zero, suc, ◌+◌, ◌-◌, ◌*◌, ◌/◌, ◌%◌, ◌^◌, ◌≤◌, ◌<◌, Bytes, [], ◌∷◌, ◌≡◌, Option, none, some,
  ltb, ◌||◌, if◌then◌else◌, arith, false, inl, inr, Bool-cases, ◌∙◌, ap, sym, Bool,
}
use native.Mathlib.Nat.{pow-suc}

-- `negsuc n` is -(n + 1).
pub data ℤ : Type 0 where
  pos : ℕ → ℤ
  negsuc : ℕ → ℤ

-- The decimal digits of `n`, before `rest`. A number below 10 ^ fuel is written in full.
unfoldable pub decimal : ℕ → ℕ → Bytes → Bytes
decimal zero n rest = rest
decimal (suc fuel) n rest =
    let more = decimal fuel (n / 10) ((48 + n % 10) ∷ rest) in
    if ltb n 10 then (48 + n) ∷ rest else more

-- `std::to_string`: 20 digits hold every 64-bit number.
unfoldable pub to_string : ℕ → Bytes
to_string n = decimal 20 n []

unfoldable pub to_string_ℤ : ℤ → Bytes
unfolding to_string
to_string_ℤ (ℤ.pos n) = to_string n
to_string_ℤ (ℤ.negsuc n) = b'-' ∷ to_string (n + 1)

abbrev pub not_digit : ℕ → Bool
not_digit c = ltb c 48 || ltb 57 c

-- The loop of `parseCount`.
unfoldable pub count_loop : ℕ → Bytes → Option ℕ
count_loop value [] = some value
count_loop value (c ∷ rest) =
    let value' = value * 10 + (c - 48) in
    let more = count_loop value' rest in
    if not_digit c then none else if ltb 100000000 value' then none else more

unfoldable pub parse_count : Bytes → Option ℕ
parse_count [] = none
parse_count (c ∷ rest) = count_loop 0 (c ∷ rest)

count_loop_digit :
    (v d : ℕ) (rest : Bytes)
    → d < 10
    → v * 10 + d ≤ 100000000
    → count_loop v ((48 + d) ∷ rest) ≡ count_loop (v * 10 + d) rest
unfolding count_loop
count_loop_digit v d rest h k =
    let e : v * 10 + (48 + d - 48) ≡ v * 10 + d = omega arith in
    let digit : not_digit (48 + d) ≡ false = ground (arith, h) in
    let small : ltb 100000000 (v * 10 + d) ≡ false = ground (arith, k) in rw (digit, e, small)

count_loop-decimal :
    (fuel n : ℕ) (rest : Bytes)
    → n < 10 ^ fuel
    → n ≤ 100000000
    → count_loop 0 (decimal fuel n rest) ≡ count_loop n rest
unfolding decimal
count_loop-decimal zero n rest h k = let e : 0 ≡ n = omega arith in ap (λ m. count_loop m rest) e
count_loop-decimal (suc fuel) n rest h k = elim (Bool-cases (ltb n 10)) [
  | inl small ↦ rw small (
      count_loop_digit 0 n rest (ground (arith, small)) (omega (arith, k))
      ∙ ap (λ m. count_loop m rest) (omega arith))
  | inr big ↦
      let e : n / 10 * 10 + n % 10 ≡ n = omega arith in
      rw big (
        count_loop-decimal fuel (n / 10) ((48 + n % 10) ∷ rest) (omega (arith, h, pow-suc 10 fuel))
          (omega (arith, k))
        ∙ count_loop_digit (n / 10) (n % 10) rest (omega arith) (omega (arith, e, k))
        ∙ ap (λ m. count_loop m rest) e)
]

decimal-cons :
    (fuel n : ℕ) (rest : Bytes) → (c : ℕ) × (s : Bytes) × (decimal (suc fuel) n rest ≡ c ∷ s)
unfolding decimal
decimal-cons zero n rest = (48 + (if ltb n 10 then n else n % 10), rest, ground arith)
decimal-cons (suc fuel) n rest = elim (Bool-cases (ltb n 10)) [
  | inl small ↦ (48 + n, rest, rw small)
  | inr big ↦ let (c, s, e) = decimal-cons fuel (n / 10) ((48 + n % 10) ∷ rest) in (c, s, rw big e)
]

-- `parseCount` of the client reads back every count of up to a hundred million that the server writes with
-- `std::to_string`.
pub parse_count-to_string : (n : ℕ) → n ≤ 100000000 → parse_count (to_string n) ≡ some n
unfolding parse_count to_string count_loop
parse_count-to_string n h =
    let (c, s, e) = decimal-cons 19 n [] in
    let read : count_loop 0 (c ∷ s) ≡ some n =
      ap (count_loop 0) (sym e) ∙ count_loop-decimal 20 n [] (omega arith) h in
    rw (e, parse_count) read
