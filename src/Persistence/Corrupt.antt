-- ===== src/Persistence/Corrupt.antt =====
-- One altered byte of a payload changes its checksum, and is refused.
use redis_like_in_memory_dat.Base.{
  ℕ, ◌*◌, ◌%◌, ◌≤◌, ◌<◌, ◌≡◌, ◌≢◌, refl, sym, ap, ◌∙◌, arith, Bytes, codes, [], ◌∷◌, ◌++◌, length,
  ◌==◌, word, mul64, bit_xor, Bool-cases, inl, inr,
}
use redis_like_in_memory_dat.Base.Xor.{bit_xor-lt, bit_xor_left, bit_xor_right}
use redis_like_in_memory_dat.HashTable.Hash.{fnv1a, fnv_prime, fnv_offset_basis}
use redis_like_in_memory_dat.Persistence.Clocks.{Reading}
use redis_like_in_memory_dat.Persistence.Decode.{refused, decode}
use redis_like_in_memory_dat.Persistence.Encode.{magic}
use redis_like_in_memory_dat.Persistence.Little.{little, checksum_of}
use redis_like_in_memory_dat.Persistence.Loaded.{checksum_of-lt, decode_summed}

-- Multiplication by the prime has an inverse on words.
unmultiplied : (h : ℕ) → h < word → mul64 h fnv_prime * 14886173955864302971 % word ≡ h
unmultiplied h k = omega arith

mul64_left : (x y : ℕ) → x < word → y < word → mul64 x fnv_prime ≡ mul64 y fnv_prime → x ≡ y
mul64_left x y h k e =
    sym (unmultiplied x h) ∙ ap (λ p. p * 14886173955864302971 % word) e ∙ unmultiplied y k

pub data AllBytes : Bytes → Type 0 where
  no_byte : AllBytes []
  and_byte : {b : ℕ} {s : Bytes} → b < 256 → AllBytes s → AllBytes (b ∷ s)

-- From different hashes, the same bytes lead to different hashes.
fnv1a_left :
    (s : Bytes) (x y : ℕ) → AllBytes s → x < word → y < word → fnv1a x s ≡ fnv1a y s → x ≡ y
unfolding fnv1a
fnv1a_left [] x y f h k e = e
fnv1a_left (b ∷ s) x y (and_byte small f) h k e =
    let stepped =
      fnv1a_left s (mul64 (bit_xor x b) fnv_prime) (mul64 (bit_xor y b) fnv_prime) f (omega arith)
        (omega arith) e in
    let byte : b < word = omega (arith, small) in
    bit_xor_left 64 x y b h k (
      mul64_left (bit_xor x b) (bit_xor y b) (bit_xor-lt 64 x b h byte) (bit_xor-lt 64 y b k byte)
        stepped)

fnv1a_byte :
    (s t : Bytes) (b c hash : ℕ)
    → AllBytes s
    → AllBytes t
    → b < 256
    → c < 256
    → hash < word
    → fnv1a hash (s ++ b ∷ t) ≡ fnv1a hash (s ++ c ∷ t)
    → b ≡ c
unfolding fnv1a
fnv1a_byte [] t b c hash f g h k l e =
    let stepped =
      fnv1a_left t (mul64 (bit_xor hash b) fnv_prime) (mul64 (bit_xor hash c) fnv_prime) g
        (omega arith) (omega arith) e in
    bit_xor_right 64 hash b c l (
      mul64_left (bit_xor hash b) (bit_xor hash c) (bit_xor-lt 64 hash b l (omega (arith, h)))
        (bit_xor-lt 64 hash c l (omega (arith, k))) stepped)
fnv1a_byte (a ∷ s) t b c hash (and_byte small f) g h k l e =
    fnv1a_byte s t b c (mul64 (bit_xor hash a) fnv_prime) f g h k (omega arith) e

magic-AllBytes : (s : Bytes) → AllBytes s → AllBytes (magic ++ s)
magic-AllBytes s f = and_byte (omega arith) (
    and_byte (omega arith) (
      and_byte (omega arith)
        (and_byte (omega arith) (and_byte (omega arith) (and_byte (omega arith) f)))))

-- A payload of at least ten bytes after the magic bytes, of which one byte is altered under the checksum
-- of what was saved, is refused as corrupt.
pub decode_altered :
    (tick now : ℕ) (clock : ℕ → Reading) (s t : Bytes) (b c : ℕ)
    → AllBytes s
    → AllBytes t
    → b < 256
    → c < 256
    → b ≢ c
    → 10 ≤ length (s ++ c ∷ t)
    → decode tick now clock
        ((magic ++ (s ++ c ∷ t)) ++ little 8 (checksum_of (magic ++ (s ++ b ∷ t))))
      ≡ refused (codes "snapshot checksum mismatch -- the file is corrupt")
unfolding checksum_of
decode_altered tick now clock s t b c f g h k other long =
    let sum = checksum_of (magic ++ (s ++ b ∷ t)) in
    let met = checksum_of (magic ++ (s ++ c ∷ t)) in
    decode_summed tick now clock (s ++ c ∷ t) sum long (checksum_of-lt (magic ++ (s ++ b ∷ t)))
    ∙ elim (Bool-cases (sum == met)) [
      | inl same ↦ absurd (
          other (
            fnv1a_byte (magic ++ s) t b c fnv_offset_basis (magic-AllBytes s f) g h k (omega arith)
              (ground (arith, same))))
      | inr unequal ↦ rw unequal refl
    ]
