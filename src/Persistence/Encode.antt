-- ===== src/Persistence/Encode.antt =====
-- src/Persistence.cpp: `snapshot::encode`. `tick` is that of the system clock, and `clock i` the reading
-- for the live entry `i`.
use redis_like_in_memory_dat.Base.{
  ℕ, suc, ◌*◌, Bytes, codes, List, [], ◌∷◌, ◌++◌, Option, none, some, if◌then◌else◌, length,
}
use redis_like_in_memory_dat.Entry.{Entry, is_expired_at}
use redis_like_in_memory_dat.Persistence.Clocks.{Reading, to_wall_clock_millis}
use redis_like_in_memory_dat.Persistence.Little.{little, checksum_of}

abbrev pub magic : Bytes
magic = codes "VCACHE"

abbrev pub format_version : ℕ
format_version = 1

-- 512 MiB
abbrev pub max_field_length : ℕ
max_field_length = 512 * 1024 * 1024

-- The loop that gathers the entries that have not expired at `now`.
unfoldable pub live_at : ℕ → List Entry → List Entry
live_at now [] = []
live_at now (e ∷ es) = if is_expired_at e now then live_at now es else e ∷ live_at now es

abbrev pub expires_at : ℕ → Reading → Option ℕ → ℕ
expires_at tick r none = 0
expires_at tick r (some expiry) = to_wall_clock_millis tick r expiry

unfoldable pub encode_entry : ℕ → Reading → Entry → Bytes → Bytes
encode_entry tick r e rest =
    little 4 (length e.key)
    ++ (e.key
        ++ (little 4 (length e.value)
            ++ (e.value ++ (little 8 (expires_at tick r e.expiration) ++ rest))))

-- The loop over the live entries, before `rest`.
unfoldable pub encode_entries : ℕ → (ℕ → Reading) → ℕ → List Entry → Bytes → Bytes
encode_entries tick clock i [] rest = rest
encode_entries tick clock i (e ∷ es) rest =
    encode_entry tick (clock i) e (encode_entries tick clock (suc i) es rest)

unfoldable pub payload_of : ℕ → (ℕ → Reading) → List Entry → Bytes
payload_of tick clock live =
    magic
    ++ (little 2 format_version ++ (little 8 (length live) ++ encode_entries tick clock 0 live []))

unfoldable pub encode : ℕ → ℕ → (ℕ → Reading) → List Entry → Bytes
encode tick now clock entries =
    let payload = payload_of tick clock (live_at now entries) in
    payload ++ little 8 (checksum_of payload)
