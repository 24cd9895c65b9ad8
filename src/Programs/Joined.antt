-- ===== src/Programs/Joined.antt =====
-- What `joinOneShot` writes, `tokenize` reads.
use redis_like_in_memory_dat.Base.{
  ℕ, zero, suc, ◌≤◌, ◌<◌, ◌≡◌, ◌⊎◌, refl, sym, ap, ◌∙◌, Bytes, List, [], ◌∷◌, ◌++◌, none, some,
  Bool, true, false, ◌||◌, ◌==◌, length, length-append, append_assoc, append-nil, arith, inl, inr,
  Bool-cases,
}
use redis_like_in_memory_dat.Command.RoundTrip.{plain, closing, Solid, append-Solid}
use redis_like_in_memory_dat.Command.Token.{
  Piece, next_piece, escape_piece, quoted, bare, skip_spaces, ends_token, token_at, tokens,
  tokenize, is_space, strip_line_end,
}
use redis_like_in_memory_dat.Programs.OneShot.{
  has_blank, needs_quotes, escape_quotes, one_part, later_parts, join_one_shot,
}

abbrev starts_with_quote : Bytes → Bool
starts_with_quote [] = false
starts_with_quote (c ∷ s) = c == 34

-- An argument that is put between quotes, or that has no quote in front and no line end behind.
abbrev pub IsSendable : Bytes → Type 0
IsSendable part =
    (needs_quotes part ≡ true)
    ⊎ ((needs_quotes part ≡ false)
        × (starts_with_quote part ≡ false)
        × (strip_line_end part ≡ part))

abbrev pub AllSendable : List Bytes → Type 0
AllSendable [] = Unit {0}
AllSendable (part ∷ parts) = IsSendable part × AllSendable parts

escaped :
    (c : ℕ) (rest : Bytes)
    → (c == 34 || c == 92) ≡ true
    → next_piece (92 ∷ c ∷ rest) ≡ Piece.pushed c rest
unfolding next_piece escape_piece
escaped c rest h = ground (arith, h)

unescaped :
    (c : ℕ) (rest : Bytes)
    → (c == 34 || c == 92) ≡ false
    → next_piece (c ∷ rest) ≡ Piece.pushed c rest
unescaped c rest h = plain c rest (ground (arith, h)) (ground (arith, h))

quoted-escape_quotes :
    (fuel : ℕ) (v left : Bytes)
    → length v < fuel
    → quoted fuel (escape_quotes v ++ 34 ∷ left) ≡ some (v, left)
unfolding quoted escape_quotes
quoted-escape_quotes zero v left h = absurd (omega arith)
quoted-escape_quotes (suc fuel) [] left h = rw (closing left, quoted)
quoted-escape_quotes (suc fuel) (c ∷ v) left h =
    let rest = quoted-escape_quotes fuel v left (omega (arith, h)) in
    elim (Bool-cases (c == 34 || c == 92)) [
      | inl special ↦
          rw (special)
            (rw (escaped c (escape_quotes v ++ 34 ∷ left) special, quoted) (rw (rest, quoted)))
      | inr other ↦
          rw (other)
            (rw (unescaped c (escape_quotes v ++ 34 ∷ left) other, quoted) (rw (rest, quoted)))
    ]

length-le-escape_quotes : (v : Bytes) → length v ≤ length (escape_quotes v)
unfolding escape_quotes
length-le-escape_quotes [] = omega arith
length-le-escape_quotes (c ∷ v) = ground (arith, length-le-escape_quotes v)

bare-append :
    (v left : Bytes) → has_blank v ≡ false → ends_token left ≡ true → bare (v ++ left) ≡ (v, left)
unfolding bare has_blank
bare-append [] [] h e = refl
bare-append [] (c ∷ left) h e = rw e refl
bare-append (c ∷ v) left h e =
    let rest = bare-append v left (ground (arith, h)) e in
    let word_byte : is_space c ≡ false = ground (arith, h) in rw (rest, word_byte) refl

token_at-quoted :
    (part left : Bytes)
    → ends_token left ≡ true
    → token_at 34 (escape_quotes part ++ 34 ∷ left) ≡ some (part, left)
unfolding token_at
token_at-quoted part left e =
    rw
      (quoted-escape_quotes (suc (length (escape_quotes part ++ 34 ∷ left))) part left (
        omega
          (arith, length-append (escape_quotes part) (34 ∷ left), length-le-escape_quotes part)))
      (rw e refl)

token_at-bare :
    (c : ℕ) (v left : Bytes)
    → (c == 34) ≡ false
    → has_blank (c ∷ v) ≡ false
    → ends_token left ≡ true
    → token_at c (v ++ left) ≡ some (c ∷ v, left)
unfolding token_at
token_at-bare c v left h k e = rw h (ap some (bare-append (c ∷ v) left k e))

empty_quoted : needs_quotes [] ≡ true
unfolding needs_quotes
empty_quoted = refl

no_blank : (c : ℕ) (v : Bytes) → needs_quotes (c ∷ v) ≡ has_blank (c ∷ v)
unfolding needs_quotes
no_blank c v = refl

has_blank-space : (c : ℕ) (v : Bytes) → has_blank (c ∷ v) ≡ false → is_space c ≡ false
unfolding has_blank
has_blank-space c v h = ground (arith, h)

tokens-bare :
    (fuel c : ℕ) (v left : Bytes)
    → (c == 34) ≡ false
    → has_blank (c ∷ v) ≡ false
    → ends_token left ≡ true
    → tokens (suc fuel) (c ∷ (v ++ left))
      ≡ (elim (tokens fuel left) [ none ↦ none | some more ↦ some ((c ∷ v) ∷ more) ])
unfolding tokens skip_spaces
tokens-bare fuel c v left h k e =
    rw (has_blank-space c v k, tokens) (rw (token_at-bare c v left h k e, tokens) refl)

-- One argument in front of what ends it.
token-one_part :
    (fuel : ℕ) (part left : Bytes)
    → IsSendable part
    → ends_token left ≡ true
    → tokens (suc fuel) (one_part part ++ left)
      ≡ (elim (tokens fuel left) [ none ↦ none | some more ↦ some (part ∷ more) ])
unfolding tokens one_part skip_spaces
token-one_part fuel part left (inl quotes) e =
    let shape : (escape_quotes part ++ 34 ∷ []) ++ left ≡ escape_quotes part ++ 34 ∷ left =
      append_assoc (escape_quotes part) (34 ∷ []) left in
    rw (quotes, shape) (rw (token_at-quoted part left e, tokens) refl)
token-one_part fuel [] left (inr (bare_part, first, last)) e = cc (bare_part, empty_quoted)
token-one_part fuel (c ∷ v) left (inr (bare_part, first, last)) e =
    let blanks : has_blank (c ∷ v) ≡ false = sym (no_blank c v) ∙ bare_part in
    rw bare_part (tokens-bare fuel c v left first blanks e)

tokens-space : (fuel : ℕ) (s : Bytes) → tokens (suc fuel) (32 ∷ s) ≡ tokens (suc fuel) s
unfolding tokens skip_spaces
tokens-space fuel s = refl

ends-later_parts : (parts : List Bytes) → ends_token (later_parts parts) ≡ true
unfolding later_parts
ends-later_parts [] = refl
ends-later_parts (part ∷ parts) = refl

tokens-parts :
    (fuel : ℕ) (part : Bytes) (parts : List Bytes)
    → IsSendable part
    → AllSendable parts
    → length parts < fuel
    → tokens (suc fuel) (one_part part ++ later_parts parts) ≡ some (part ∷ parts)
unfolding later_parts
tokens-parts zero part parts s ss h = absurd (omega arith)
tokens-parts (suc fuel) part [] s ss h =
    token-one_part (suc fuel) part [] s refl ∙ (unfold tokens skip_spaces in refl)
tokens-parts (suc fuel) part (next ∷ parts) s (s', ss) h =
    token-one_part (suc fuel) part (later_parts (next ∷ parts)) s (ends-later_parts (next ∷ parts))
    ∙ ap (λ o. elim o [ none ↦ none | some more ↦ some (part ∷ more) ])
        (tokens-space fuel (one_part next ++ later_parts parts)
          ∙ tokens-parts fuel next parts s' ss (omega (arith, h)))

one_part-Solid : (part : Bytes) → IsSendable part → Solid (one_part part)
unfolding one_part strip_line_end
one_part-Solid part (inl quotes) =
    rw quotes (append-Solid (34 ∷ escape_quotes part) (34 ∷ []) (34, [], refl, refl))
one_part-Solid [] (inr (bare_part, first, last)) = cc (bare_part, empty_quoted)
one_part-Solid (c ∷ v) (inr (bare_part, first, last)) = rw bare_part (c, v, refl, last)

line-Solid :
    (part : Bytes) (parts : List Bytes)
    → IsSendable part
    → AllSendable parts
    → Solid (one_part part ++ later_parts parts)
unfolding later_parts
line-Solid part [] s ss = rw (append-nil (one_part part)) (one_part-Solid part s)
line-Solid part (next ∷ parts) s (s', ss) =
    append-Solid (one_part part) (32 ∷ (one_part next ++ later_parts parts))
      (append-Solid (32 ∷ []) (one_part next ++ later_parts parts) (line-Solid next parts s' ss))

length-later_parts : (parts : List Bytes) → length parts ≤ length (later_parts parts)
unfolding later_parts
length-later_parts [] = omega arith
length-later_parts (part ∷ parts) =
    omega (arith, length-append (one_part part) (later_parts parts), length-later_parts parts)

length-Solid : (s : Bytes) → Solid s → 1 ≤ length s
length-Solid s (d, r, e, k) = omega (arith, ap length e)

-- What `joinOneShot` makes of one argument or more, `tokenize` reads back as the same arguments, whatever blanks,
-- quotes and backslashes are in them, if each of them that is not put between quotes has no quote in front and no
-- line end behind.
pub tokenize-join_one_shot :
    (part : Bytes) (parts : List Bytes)
    → AllSendable (part ∷ parts)
    → tokenize (join_one_shot (part ∷ parts)) ≡ some (part ∷ parts)
unfolding tokenize join_one_shot
tokenize-join_one_shot part parts (s, ss) =
    let solid = line-Solid part parts s ss in
    rw (solid.3) (
      tokens-parts (length (one_part part ++ later_parts parts)) part parts s ss (
        omega (
          arith,
          length-append (one_part part) (later_parts parts),
          length-later_parts parts,
          length-Solid (one_part part) (one_part-Solid part s),
        )))
