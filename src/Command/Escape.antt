-- ===== src/Command/Escape.antt =====
-- src/CommandExecutor.cpp: `escapeForWire`.
use redis_like_in_memory_dat.Base.{
  ℕ, ◌+◌, ◌-◌, ◌/◌, ◌%◌, Bytes, [], ◌∷◌, ◌++◌, if◌then◌else◌, ◌==◌, ltb, leb, ◌||◌,
}

-- A character of "0123456789abcdef".
abbrev pub hex_digit : ℕ → ℕ
hex_digit d = if ltb d 10 then 48 + d else 97 + (d - 10)

-- What `appendHexByte` appends.
unfoldable pub hex_byte : ℕ → Bytes
hex_byte b = 92 ∷ b'x' ∷ hex_digit (b / 16) ∷ hex_digit (b % 16) ∷ []

-- What is appended for one byte.
unfoldable pub escape_byte : ℕ → Bytes
unfolding hex_byte
escape_byte b =
    if b == 92
    then 92 ∷ 92 ∷ []
    else if b == 10
    then 92 ∷ b'n' ∷ []
    else if b == 13
    then 92 ∷ b'r' ∷ []
    else if b == 9
    then 92 ∷ b't' ∷ []
    else if b == 34
    then 92 ∷ 34 ∷ []
    else if ltb b 32 || leb 127 b
    then hex_byte b
    else b ∷ []

unfoldable pub escape_for_wire : Bytes → Bytes
unfolding escape_byte
escape_for_wire [] = []
escape_for_wire (b ∷ raw) = escape_byte b ++ escape_for_wire raw
