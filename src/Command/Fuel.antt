-- ===== src/Command/Fuel.antt =====
-- The fuel of the outer loop of the tokenizer: more than the number of bytes changes nothing.
use redis_like_in_memory_dat.Base.{
  ℕ, zero, suc, ◌≤◌, ◌<◌, ◌≡◌, ◌⊎◌, refl, Bytes, [], ◌∷◌, Option, none, some, Bool, true, false,
  if◌then◌else◌, ◌==◌, ◌&&◌, length, arith, inl, inr, Bool-cases, Option-cases,
}
use mathlib.Core.Path.{subst}
use redis_like_in_memory_dat.Command.Token.{
  Piece, ended, closed, pushed, bare, escape_piece, hex_piece, is_hex_digit, is_space, next_piece,
  plain_piece, quoted, skip_spaces, closed_token, ends_token, token_at, tokens,
}

-- The piece leaves at most `n` bytes.
abbrev Leaves : ℕ → Piece → Type 0
Leaves n ended = Unit
Leaves n (closed rest) = length rest ≤ n
Leaves n (pushed b rest) = length rest ≤ n

either : (n : ℕ) (b : Bool) (p q : Piece) → Leaves n p → Leaves n q → Leaves n (if b then p else q)
either n true p q h k = h
either n false p q h k = k

hex_piece-Leaves : (rest : Bytes) → Leaves (length rest) (hex_piece rest)
unfolding hex_piece
hex_piece-Leaves [] = omega arith
hex_piece-Leaves (a ∷ []) = omega arith
hex_piece-Leaves (a ∷ b ∷ rest) = elim (Bool-cases (is_hex_digit a && is_hex_digit b)) [
  | inl both ↦ rw both (omega arith)
  | inr not_both ↦ rw not_both (omega arith)
]

escape_piece-Leaves : (e : ℕ) (rest : Bytes) → Leaves (length rest) (escape_piece e rest)
unfolding escape_piece
escape_piece-Leaves e rest =
    let n = length rest in
    let here : length rest ≤ length rest = omega arith in
    either n (e == b'n') _ _ here (
      either n (e == b'r') _ _ here (
        either n (e == b't') _ _ here (
          either n (e == b'b') _ _ here (
            either n (e == b'a') _ _ here
              (either n (e == b'x') _ _ (hex_piece-Leaves rest) here)))))

plain_piece-Leaves : (c : ℕ) (rest : Bytes) → Leaves (length rest) (plain_piece c rest)
unfolding plain_piece
plain_piece-Leaves c rest = elim (Bool-cases (c == 34)) [
  | inl quote ↦ rw quote (omega arith)
  | inr other ↦ rw other (omega arith)
]

next_piece-Leaves : (c : ℕ) (s : Bytes) → Leaves (length s) (next_piece (c ∷ s))
unfolding next_piece
next_piece-Leaves c [] = plain_piece-Leaves c []
next_piece-Leaves c (e ∷ rest) = elim (Bool-cases (c == 92)) [
  | inl backslash ↦ rw backslash (shorter (escape_piece e rest) (escape_piece-Leaves e rest))
  | inr other ↦ rw other (plain_piece-Leaves c (e ∷ rest))
]
  where
    shorter : (p : Piece) → Leaves (length rest) p → Leaves (suc (length rest)) p
    shorter ended h = tt
    shorter (closed r) h = omega (arith, h)
    shorter (pushed b r) h = omega (arith, h)

Piece-cases :
    (p : Piece)
    → (p ≡ ended) ⊎ ((r : Bytes) × (p ≡ closed r)) ⊎ ((b : ℕ) × (r : Bytes) × (p ≡ pushed b r))
Piece-cases ended = inl refl
Piece-cases (closed r) = inr (inl (r, refl))
Piece-cases (pushed b r) = inr (inr (b, r, refl))

-- The loop of `tokenize` inside quotes gives the same result for any two fuels above the number of bytes:
-- it ends at a closing quote or at the end of the line, and never because the fuel runs out.
quoted_enough : (f g : ℕ) (s : Bytes) → length s < f → length s < g → quoted f s ≡ quoted g s
unfolding quoted
quoted_enough zero g s h k = absurd (omega arith)
quoted_enough (suc f) zero s h k = absurd (omega arith)
quoted_enough (suc f) (suc g) [] h k = unfold next_piece in refl
quoted_enough (suc f) (suc g) (c ∷ s) h k = elim (Piece-cases (next_piece (c ∷ s))) [
  | inl e ↦ rw (e, quoted)
  | inr (inl (r, e)) ↦ rw (e, quoted)
  | inr (inr (b, r, e)) ↦
      let small : length r ≤ length s = subst (Leaves (length s)) e (next_piece-Leaves c s) in
      rw (e, quoted) (rw (quoted_enough f g r (omega (arith, small, h)) (omega (arith, small, k))))
]

-- What follows the token has at most `n` bytes.
abbrev Shrinks : ℕ → Option (Bytes × Bytes) → Type 0
Shrinks n none = Unit
Shrinks n (some (token, left)) = length left ≤ n

quoted-Shrinks : (f : ℕ) (s : Bytes) → Shrinks (length s) (quoted f s)
unfolding quoted
quoted-Shrinks zero s = tt
quoted-Shrinks (suc f) [] = unfold next_piece in tt
quoted-Shrinks (suc f) (c ∷ s) = elim (Piece-cases (next_piece (c ∷ s))) [
  | inl e ↦ rw (e, quoted) tt
  | inr (inl (r, e)) ↦
      let small : length r ≤ length s = subst (Leaves (length s)) e (next_piece-Leaves c s) in
      rw (e, quoted) (omega (arith, small))
  | inr (inr (b, r, e)) ↦
      let small : length r ≤ length s = subst (Leaves (length s)) e (next_piece-Leaves c s) in
      rw (e, quoted)
        (elim (Option-cases (quoted f r)) [
          | inl none_left ↦ rw (none_left, quoted) tt
          | inr ((token, left), got) ↦
              let less : length left ≤ length r =
                subst (Shrinks (length r)) got (quoted-Shrinks f r) in
              rw (got, quoted) (omega (arith, less, small))
        ])
]

bare-le : (s : Bytes) → length (bare s).1 ≤ length s
unfolding bare
bare-le [] = omega arith
bare-le (c ∷ s) = ground (arith, bare-le s)

token_at-Shrinks :
    (c : ℕ) (rest : Bytes) → is_space c ≡ false → Shrinks (length rest) (token_at c rest)
unfolding token_at bare
token_at-Shrinks c rest h = elim (Bool-cases (c == 34)) [
  | inr other ↦ rw (other, h) (bare-le rest)
  | inl quote ↦
      rw quote (after (quoted (suc (length rest)) rest) (quoted-Shrinks (suc (length rest)) rest))
]
  where
    after :
        (o : Option (Bytes × Bytes))
        → Shrinks (length rest) o
        → Shrinks (length rest) (closed_token o)
    after none k = tt
    after (some (token, left)) k = elim (Bool-cases (ends_token left)) [
      | inl ends ↦ rw ends k
      | inr stuck ↦ rw stuck tt
    ]

-- What is left once the spaces are skipped starts with another byte.
skipped :
    (s : Bytes)
    → (skip_spaces s ≡ [])
      ⊎ ((c : ℕ) × (rest : Bytes) × (skip_spaces s ≡ c ∷ rest)
          × (is_space c ≡ false)
          × (length rest < length s))
unfolding skip_spaces
skipped [] = inl refl
skipped (c ∷ s) = elim (Bool-cases (is_space c)) [
  | inr other ↦ inr (c, s, rw other refl, other, omega arith)
  | inl space ↦ elim (skipped s) [
    | inl e ↦ inl (rw space e)
    | inr (d, rest, e, k, l) ↦ inr (d, rest, rw space e, k, omega (arith, l))
  ]
]

-- The loop of `tokenize` gives the same result for any two fuels above the number of bytes.
tokens_enough : (f g : ℕ) (s : Bytes) → length s < f → length s < g → tokens f s ≡ tokens g s
unfolding tokens
tokens_enough zero g s h k = absurd (omega arith)
tokens_enough (suc f) zero s h k = absurd (omega arith)
tokens_enough (suc f) (suc g) s h k = elim (skipped s) [
  | inl e ↦ rw (e, tokens)
  | inr (c, rest, e, other, less) ↦
      rw (e, tokens)
        (elim (Option-cases (token_at c rest)) [
          | inl bad ↦ rw (bad, tokens)
          | inr ((token, left), got) ↦
              let small : length left ≤ length rest =
                subst (Shrinks (length rest)) got (token_at-Shrinks c rest other) in
              rw (got, tokens)
                (rw (
                  tokens_enough f g left (omega (arith, small, less, h))
                    (omega (arith, small, less, k))))
        ])
]
