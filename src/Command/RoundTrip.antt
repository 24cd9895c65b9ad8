-- ===== src/Command/RoundTrip.antt =====
-- A quoted token and the escapes of replies: what `escapeForWire` writes, `tokenize` reads.
use redis_like_in_memory_dat.Base.{
  ℕ, zero, suc, ◌+◌, ◌*◌, ◌/◌, ◌%◌, ◌≤◌, ◌<◌, ◌≡◌, refl, sym, ap, ◌∙◌, Bytes, [], ◌∷◌, ◌++◌, some,
  true, false, ◌||◌, ◌==◌, ==_iff, ltb, leb, length, length-append, append_assoc, arith, inl, inr,
  Bool-cases,
}
use redis_like_in_memory_dat.Command.Escape.{escape_byte, escape_for_wire, hex_byte, hex_digit}
use redis_like_in_memory_dat.Command.Token.{
  Piece, next_piece, plain_piece, escape_piece, hex_piece, quoted, tokens, token_at, tokenize,
  strip_line_end, skip_spaces, is_hex_digit, hex_value,
}

-- A hexadecimal digit is read back.
hex_digit-is_hex_digit : (d : ℕ) → d < 16 → is_hex_digit (hex_digit d) ≡ true
hex_digit-is_hex_digit d h = ground (arith, h)

hex_value-hex_digit : (d : ℕ) → d < 16 → hex_value (hex_digit d) ≡ d
hex_value-hex_digit d h = ground (arith, h)

hex_pair :
    (x y : ℕ) (rest : Bytes)
    → is_hex_digit x ≡ true
    → is_hex_digit y ≡ true
    → hex_piece (x ∷ y ∷ rest) ≡ Piece.pushed (hex_value x * 16 + hex_value y) rest
unfolding hex_piece
hex_pair x y rest h k = rw (h, k)

pub plain :
    (b : ℕ) (rest : Bytes)
    → (b == 92) ≡ false
    → (b == 34) ≡ false
    → next_piece (b ∷ rest) ≡ Piece.pushed b rest
unfolding next_piece plain_piece
plain b [] h k = rw k
plain b (c ∷ rest) h k = rw (h, k)

pub closing : (left : Bytes) → next_piece (34 ∷ left) ≡ Piece.closed left
unfolding next_piece plain_piece
closing [] = refl
closing (c ∷ left) = refl

-- The first piece of an escaped byte is the byte, for every byte and whatever follows.
next_piece-escape_byte :
    (b : ℕ) (rest : Bytes) → b < 256 → next_piece (escape_byte b ++ rest) ≡ Piece.pushed b rest
unfolding next_piece escape_byte escape_piece hex_byte
next_piece-escape_byte b rest h = elim (Bool-cases (b == 92)) [
  | inl e ↦ rw e (same 92 e)
  | inr n1 ↦ elim (Bool-cases (b == 10)) [
    | inl e ↦ rw (n1, e) (same 10 e)
    | inr n2 ↦ elim (Bool-cases (b == 13)) [
      | inl e ↦ rw (n1, n2, e) (same 13 e)
      | inr n3 ↦ elim (Bool-cases (b == 9)) [
        | inl e ↦ rw (n1, n2, n3, e) (same 9 e)
        | inr n4 ↦ elim (Bool-cases (b == 34)) [
          | inl e ↦ rw (n1, n2, n3, n4, e) (same 34 e)
          | inr n5 ↦ elim (Bool-cases (ltb b 32 || leb 127 b)) [
            | inl e ↦
                rw (n1, n2, n3, n4, n5, e)
                  (hex_pair (hex_digit (b / 16)) (hex_digit (b % 16)) rest
                      (hex_digit-is_hex_digit (b / 16) (omega (arith, h)))
                      (hex_digit-is_hex_digit (b % 16) (omega arith))
                    ∙ ap (λ v. Piece.pushed v rest) back)
            | inr n6 ↦ rw (n1, n2, n3, n4, n5, n6) (plain b rest n1 n5)
          ]
        ]
      ]
    ]
  ]
]
  where
    same : (k : ℕ) → (b == k) ≡ true → Piece.pushed k rest ≡ Piece.pushed b rest
    same k e = ap (λ x. Piece.pushed x rest) (sym ((==_iff b k).0 e))

    back : hex_value (hex_digit (b / 16)) * 16 + hex_value (hex_digit (b % 16)) ≡ b
    back =
        let high = hex_value-hex_digit (b / 16) (omega (arith, h)) in
        let low = hex_value-hex_digit (b % 16) (omega arith) in omega (arith, high, low)

-- Every element is a byte.
abbrev pub IsBytes : Bytes → Type 0
IsBytes [] = Unit
IsBytes (b ∷ s) = (b < 256) × IsBytes s

quoted-escape_for_wire :
    (fuel : ℕ) (v left : Bytes)
    → IsBytes v
    → length v < fuel
    → quoted fuel (escape_for_wire v ++ 34 ∷ left) ≡ some (v, left)
unfolding quoted escape_for_wire
quoted-escape_for_wire zero v left bytes h = absurd (omega arith)
quoted-escape_for_wire (suc fuel) [] left bytes h = rw (closing left, quoted)
quoted-escape_for_wire (suc fuel) (b ∷ v) left (byte, bytes) h =
    let shape = append_assoc (escape_byte b) (escape_for_wire v) (34 ∷ left) in
    let first = next_piece-escape_byte b (escape_for_wire v ++ 34 ∷ left) byte in
    let rest = quoted-escape_for_wire fuel v left bytes (omega (arith, h)) in
    rw (shape, first, quoted) (rw (rest, quoted))

one-le-escape_byte : (b : ℕ) → 1 ≤ length (escape_byte b)
unfolding escape_byte hex_byte
one-le-escape_byte b = ground arith

length-le-escape_for_wire : (v : Bytes) → length v ≤ length (escape_for_wire v)
unfolding escape_for_wire
length-le-escape_for_wire [] = omega arith
length-le-escape_for_wire (b ∷ v) = omega (
  arith,
  length-append (escape_byte b) (escape_for_wire v),
  one-le-escape_byte b,
  length-le-escape_for_wire v,
)

-- A line that `strip_line_end` leaves alone, and that is not empty.
abbrev pub Solid : Bytes → Type 0
Solid s = (d : ℕ) × (r : Bytes) × (s ≡ d ∷ r) × (strip_line_end s ≡ s)

pub append-Solid : (p s : Bytes) → Solid s → Solid (p ++ s)
unfolding strip_line_end
append-Solid [] s h = h
append-Solid (c ∷ p) s h =
    let (d, r, e, k) = append-Solid p s h in
    (c, p ++ s, refl, rw (k, strip_line_end) (rw (e, strip_line_end)))

-- A quoted token on a line of its own.
abbrev pub quote : Bytes → Bytes
quote v = 34 ∷ (escape_for_wire v ++ 34 ∷ [])

token_at-quote : (v : Bytes) → IsBytes v → token_at 34 (escape_for_wire v ++ 34 ∷ []) ≡ some (v, [])
unfolding token_at
token_at-quote v h = rw (
    quoted-escape_for_wire (suc (length (escape_for_wire v ++ 34 ∷ []))) v [] h
      (omega (arith, length-append (escape_for_wire v) (34 ∷ []), length-le-escape_for_wire v)))

-- The value in a reply, between quotes, is a token of a request: `tokenize` reads back any bytes that
-- `escapeForWire` wrote.
pub tokenize-quote : (v : Bytes) → IsBytes v → tokenize (quote v) ≡ some (v ∷ [])
unfolding tokenize tokens skip_spaces strip_line_end
tokenize-quote v h =
    let solid = append-Solid (34 ∷ escape_for_wire v) (34 ∷ []) (34, [], refl, refl) in
    rw (solid.3) (rw (token_at-quote v h, tokens) refl)
