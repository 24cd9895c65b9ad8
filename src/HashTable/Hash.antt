-- ===== src/HashTable/Hash.antt =====
-- src/HashTable.cpp: `hashKey`, `roundUpToPowerOfTwo`, `bucketIndexFor`. A `std::uint64_t` is a
-- number below 2 ^ 64, and each product is reduced.
use redis_like_in_memory_dat.Base.{
  ℕ, ◌+◌, ◌-◌, ◌/◌, ◌%◌, ◌^◌, ◌<◌, ◌≡◌, refl, Bytes, [], ◌∷◌, bit_xor, bit_or, bit_and, mul64,
  bit_and-le, leb, if◌then◌else◌, codes, arith,
}

abbrev pub fnv_offset_basis : ℕ
fnv_offset_basis = 0xcbf29ce484222325

abbrev pub fnv_prime : ℕ
fnv_prime = 0x100000001b3

-- The FNV-1a loop over the bytes.
unfoldable pub fnv1a : ℕ → Bytes → ℕ
fnv1a hash [] = hash
fnv1a hash (ch ∷ rest) = fnv1a (mul64 (bit_xor hash ch) fnv_prime) rest

-- `hash ^= hash >> 33`
abbrev fold33 : ℕ → ℕ
fold33 hash = bit_xor hash (hash / 2 ^ 33)

-- The splitmix64 finalizer.
unfoldable pub avalanche : ℕ → ℕ
avalanche hash = fold33 (mul64 (fold33 (mul64 (fold33 hash) 0xff51afd7ed558ccd)) 0xc4ceb9fe1a85ec53)

unfoldable pub hash_key : Bytes → ℕ
unfolding fnv1a avalanche
hash_key key = avalanche (fnv1a fnv_offset_basis key)

-- `n |= n >> s`
abbrev pub smear : ℕ → ℕ → ℕ
smear n s = bit_or n (n / 2 ^ s)

-- `std::size_t` has 64 bits, so the last smear is made.
unfoldable pub round_up_to_power_of_two : ℕ → ℕ
round_up_to_power_of_two n =
    if leb n 1
    then 1
    else (smear (smear (smear (smear (smear (smear (n - 1) 1) 2) 4) 8) 16) 32 + 1) % 2 ^ 64

-- The bucket of a key in a table of `n` buckets: a mask, `hash & (n - 1)`.
unfoldable pub bucket_index : ℕ → Bytes → ℕ
bucket_index n key = bit_and (hash_key key) (n - 1)

-- The bucket of a key is inside a table that has buckets, whether their number is a power of two or not.
pub bucket_index-lt : (n : ℕ) (key : Bytes) → 0 < n → bucket_index n key < n
unfolding bucket_index
bucket_index-lt n key h = omega (arith, bit_and-le (hash_key key) (n - 1))

round_up_17 : round_up_to_power_of_two 17 ≡ 32
unfolding round_up_to_power_of_two
round_up_17 = refl

hash_of_a : hash_key (codes "a") ≡ 9413272369427828315
unfolding hash_key
hash_of_a = refl
