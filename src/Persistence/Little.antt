-- ===== src/Persistence/Little.antt =====
-- src/Persistence.cpp: `appendLE`, `readLE` and `checksumOf`.
use redis_like_in_memory_dat.Base.{
  ℕ, zero, suc, ◌+◌, ◌*◌, ◌/◌, ◌%◌, ◌^◌, ◌<◌, ◌≡◌, refl, Bytes, [], ◌∷◌, ◌++◌, Option, none, some,
  arith, length,
}
use native.Mathlib.Nat.{pow-suc}
use redis_like_in_memory_dat.HashTable.Hash.{fnv1a, fnv_offset_basis}

-- What `appendLE` appends: the `count` low bytes of `value`, the lowest first.
unfoldable pub little : ℕ → ℕ → Bytes
little zero value = []
little (suc count) value = (value % 256) ∷ little count (value / 256)

-- `readLE`: the number, and what follows it. The bytes are disjoint, so `|=` adds them. Too few bytes
-- are `none`.
unfoldable pub read_little : ℕ → Bytes → Option (ℕ × Bytes)
read_little zero s = some (0, s)
read_little (suc count) [] = none
read_little (suc count) (byte ∷ s) = elim (read_little count s) [
  | none ↦ none
  | some (value, rest) ↦ some (byte + value * 256, rest)
]

-- `checksumOf`: FNV-1a, without the finalizer of `hashKey`.
unfoldable pub checksum_of : Bytes → ℕ
unfolding fnv1a
checksum_of payload = fnv1a fnv_offset_basis payload

pub length-little : (count value : ℕ) → length (little count value) ≡ count
unfolding little
length-little zero value = refl
length-little (suc count) value = omega (arith, length-little count (value / 256))

-- A number that fits is read back, and what follows it is left.
pub read_little-little :
    (count value : ℕ) (rest : Bytes)
    → value < 256 ^ count
    → read_little count (little count value ++ rest) ≡ some (value, rest)
unfolding little read_little
read_little-little zero value rest h = let e : 0 ≡ value = omega arith in rw e
read_little-little (suc count) value rest h =
    let e : value % 256 + value / 256 * 256 ≡ value = omega arith in
    rw
      (
        read_little-little count (value / 256) rest (omega (arith, h, pow-suc 256 count)),
        read_little,
      )
      (rw e)
