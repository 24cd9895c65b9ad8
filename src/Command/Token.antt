-- ===== src/Command/Token.antt =====
-- src/CommandParser.cpp: `tokenize`. A position in the line is what is left of it.
use redis_like_in_memory_dat.Base.{
  ℕ, zero, suc, ◌+◌, ◌-◌, ◌*◌, Bytes, List, [], ◌∷◌, Option, none, some, Bool, true, ◌&&◌, ◌||◌,
  if◌then◌else◌, ◌==◌, leb, length,
}

abbrev pub is_space : ℕ → Bool
is_space c = c == 32 || c == 9

abbrev is_line_end : ℕ → Bool
is_line_end c = c == 10 || c == 13

-- The loop that moves `end` before the trailing line ends.
unfoldable pub strip_line_end : Bytes → Bytes
strip_line_end [] = []
strip_line_end (c ∷ s) = elim (strip_line_end s) [
  | [] ↦ if is_line_end c then [] else c ∷ []
  | d ∷ r ↦ c ∷ d ∷ r
]

abbrev pub between : ℕ → ℕ → ℕ → Bool
between low high c = leb low c && leb c high

abbrev pub is_hex_digit : ℕ → Bool
is_hex_digit c = between 48 57 c || between 97 102 c || between 65 70 c

abbrev pub hex_value : ℕ → ℕ
hex_value c =
    if between 48 57 c then c - 48 else if between 97 102 c then c - 97 + 10 else c - 65 + 10

-- One round of the loop inside quotes: the line ends, the quote is closed, or a byte is pushed.
pub data Piece : Type 0 where
  ended : Piece
  closed : Bytes → Piece
  pushed : ℕ → Bytes → Piece

-- After `\x`: two hexadecimal digits, or the letter itself.
unfoldable pub hex_piece : Bytes → Piece
hex_piece (a ∷ b ∷ rest) =
    if is_hex_digit a && is_hex_digit b
    then Piece.pushed (hex_value a * 16 + hex_value b) rest
    else Piece.pushed b'x' (a ∷ b ∷ rest)
hex_piece (a ∷ []) = Piece.pushed b'x' (a ∷ [])
hex_piece [] = Piece.pushed b'x' []

-- After a backslash that is not the last byte.
unfoldable pub escape_piece : ℕ → Bytes → Piece
escape_piece e rest =
    if e == b'n'
    then Piece.pushed 10 rest
    else if e == b'r'
    then Piece.pushed 13 rest
    else if e == b't'
    then Piece.pushed 9 rest
    else if e == b'b'
    then Piece.pushed 8 rest
    else if e == b'a'
    then Piece.pushed 7 rest
    else if e == b'x'
    then hex_piece rest
    else Piece.pushed e rest

unfoldable pub plain_piece : ℕ → Bytes → Piece
plain_piece c rest = if c == 34 then Piece.closed rest else Piece.pushed c rest

unfoldable pub next_piece : Bytes → Piece
next_piece [] = Piece.ended
next_piece (c ∷ []) = plain_piece c []
next_piece (c ∷ e ∷ rest) = if c == 92 then escape_piece e rest else plain_piece c (e ∷ rest)

-- The loop inside quotes, on fuel: the token and what follows the closing quote.
unfoldable pub quoted : ℕ → Bytes → Option (Bytes × Bytes)
quoted zero s = none
quoted (suc fuel) s = elim (next_piece s) [
  | ended ↦ none
  | closed rest ↦ some ([], rest)
  | pushed b rest ↦ elim (quoted fuel rest) [
    | none ↦ none
    | some (token, left) ↦ some (b ∷ token, left)
  ]
]

-- The loop outside quotes.
unfoldable pub bare : Bytes → Bytes × Bytes
bare [] = ([], [])
bare (c ∷ s) = let (token, left) = bare s in if is_space c then ([], c ∷ s) else (c ∷ token, left)

unfoldable pub skip_spaces : Bytes → Bytes
skip_spaces [] = []
skip_spaces (c ∷ s) = let rest = skip_spaces s in if is_space c then rest else c ∷ s

abbrev pub ends_token : Bytes → Bool
ends_token [] = true
ends_token (c ∷ s) = is_space c

-- A closing quote must end the token.
abbrev pub closed_token : Option (Bytes × Bytes) → Option (Bytes × Bytes)
closed_token none = none
closed_token (some (token, left)) = if ends_token left then some (token, left) else none

unfoldable pub token_at : ℕ → Bytes → Option (Bytes × Bytes)
unfolding quoted
token_at c rest =
    if c == 34 then closed_token (quoted (suc (length rest)) rest) else some (bare (c ∷ rest))

-- The outer loop, on fuel. `none` is the one error, "ERR unbalanced quotes in request".
unfoldable pub tokens : ℕ → Bytes → Option (List Bytes)
tokens zero s = none
tokens (suc fuel) s = elim (skip_spaces s) [
  | [] ↦ some []
  | c ∷ rest ↦ elim (token_at c rest) [
    | none ↦ none
    | some (token, left) ↦ elim (tokens fuel left) [ none ↦ none | some more ↦ some (token ∷ more) ]
  ]
]

-- Each token takes a byte at least, so one round more than there are bytes is enough.
unfoldable pub tokenize : Bytes → Option (List Bytes)
unfolding tokens
tokenize line = let s = strip_line_end line in tokens (suc (length s)) s
