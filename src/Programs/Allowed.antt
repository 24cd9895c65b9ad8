-- ===== src/Programs/Allowed.antt =====
-- What the arguments of the server can come to.
use redis_like_in_memory_dat.Base.{
  ℕ, ◌^◌, ◌≤◌, ◌<◌, ◌≡◌, refl, Bytes, codes, str_eq, List, [], ◌∷◌, Option, none, some, Bool, true,
  false, ◌==◌, if◌then◌else◌, length, arith, inl, inr, Bool-cases, Option-cases, word,
}
use redis_like_in_memory_dat.Programs.Arguments.{
  Parsed, accepted, help, refusal, is_help, takes_value, set_max_memory, set_interval, set_number,
  is_port, is_outside, apply_option, then_parse, parse_arguments, attempted,
}
use redis_like_in_memory_dat.Programs.ByteSize.{parse_byte_size, parse_byte_size-exact}
use redis_like_in_memory_dat.Programs.Numbers.{sto, whole_number, int_half, long_half}
use redis_like_in_memory_dat.Protocol.Count.{ℤ, pos, negsuc}
use redis_like_in_memory_dat.Server.Start.{ServerConfig}

-- What the server relies on.
pub record IsAllowed (c : ServerConfig) : Type 0 where
  pub port_fits : c.port < 2 ^ 16
  pub some_thread : 1 ≤ c.thread_count
  pub few_threads : c.thread_count ≤ 4096
  pub some_shard : 1 ≤ c.shard_count
  pub few_shards : c.shard_count ≤ 4096
  pub memory_fits : c.max_memory_bytes < word

abbrev Allows : Parsed → Type 0
Allows (accepted c) = IsAllowed c
Allows _ = Unit {0}

within :
    (d : ServerConfig) {c : ServerConfig}
    → IsAllowed c
    → d.port < 2 ^ 16
    → (1 ≤ d.thread_count) × (d.thread_count ≤ 4096)
    → (1 ≤ d.shard_count) × (d.shard_count ≤ 4096)
    → d.max_memory_bytes ≡ c.max_memory_bytes
    → IsAllowed d
within d a port threads shards e = omega (arith, a.memory_fits, port, threads, shards, e)

number-Allows :
    (argument value : Bytes) (n : Option ℤ) (c : ServerConfig)
    → IsAllowed c
    → Allows (set_number argument value n c)
unfolding set_number
number-Allows argument value none c a = tt
number-Allows argument value (some (negsuc n)) c a = tt
number-Allows argument value (some (pos n)) c a = elim (Bool-cases (is_outside argument (pos n))) [
  | inl outside ↦ rw outside tt
  | inr inside ↦ rw inside (elim (Bool-cases (is_port argument)) [
    | inl port ↦
        let le : n ≤ 65535 = ground (arith, rw port at inside) in
        rw port (
          within (record c { port = n }) a (omega (arith, le)) (a.some_thread, a.few_threads)
            (a.some_shard, a.few_shards) refl)
    | inr other ↦
        let some_of : 1 ≤ n = ground (arith, rw other at inside) in
        let few : n ≤ 4096 = ground (arith, rw other at inside) in
        rw other (elim (Bool-cases (str_eq argument (codes "--shards"))) [
          | inl shards ↦ rw shards (
              within (record c { shard_count = n }) a a.port_fits (a.some_thread, a.few_threads)
                (some_of, few) refl)
          | inr threads ↦ rw threads (
              within (record c { thread_count = n }) a a.port_fits (some_of, few)
                (a.some_shard, a.few_shards) refl)
        ])
  ])
]

interval-Allows :
    (value : Bytes) (r : ℤ × ℕ) (c : ServerConfig) → IsAllowed c → Allows (set_interval value r c)
unfolding set_interval
interval-Allows value (negsuc n, consumed) c a = tt
interval-Allows value (pos n, consumed) c a = elim (Bool-cases (consumed == length value)) [
  | inr left_over ↦ rw left_over tt
  | inl whole ↦
      rw whole
        (within _ a a.port_fits (a.some_thread, a.few_threads) (a.some_shard, a.few_shards) refl)
]

memory-Allows :
    (value : Bytes) (c : ServerConfig)
    → IsAllowed c
    → Allows (set_max_memory value (parse_byte_size value) c)
unfolding set_max_memory
memory-Allows value c a = elim (Option-cases (parse_byte_size value)) [
  | inl no_size ↦ rw no_size tt
  | inr (bytes, e) ↦
      let (n, m, k, l, exact, fits) = parse_byte_size-exact value bytes e in
      rw e (record {
        port_fits = a.port_fits;
        some_thread = a.some_thread;
        few_threads = a.few_threads;
        some_shard = a.some_shard;
        few_shards = a.few_shards;
        memory_fits = fits;
      })
]

if_Allows : (b : Bool) (x y : Parsed) → Allows x → Allows y → Allows (if b then x else y)
if_Allows true x y h k = h
if_Allows false x y h k = k

option-Allows :
    (argument value : Bytes) (c : ServerConfig)
    → IsAllowed c
    → Allows (apply_option argument value c)
unfolding apply_option
option-Allows argument value c a =
    let same : (d : ServerConfig)
        → d.port ≡ c.port
        → d.thread_count ≡ c.thread_count
        → d.shard_count ≡ c.shard_count
        → d.max_memory_bytes ≡ c.max_memory_bytes
        → IsAllowed d =
      λ d e f g h.
        within d a (omega (arith, a.port_fits, e))
          (omega (arith, a.some_thread, f), omega (arith, a.few_threads, f))
          (omega (arith, a.some_shard, g), omega (arith, a.few_shards, g)) h in
    if_Allows (str_eq argument (codes "--bind")) _ _
      (same (record c { bind_address = value }) refl refl refl refl)
      (if_Allows (str_eq argument (codes "--dbfile")) _ _
        (same (record c { snapshot_path = value }) refl refl refl refl)
        (if_Allows (str_eq argument (codes "--max-memory")) _ _ (memory-Allows value c a) (
          if_Allows (str_eq argument (codes "--save-interval")) _ _
            (interval-Allows value (attempted (sto long_half value)) c a)
            (number-Allows argument value (whole_number int_half value) c a))))

then_Allows :
    (p : Parsed) (rest : ServerConfig → Parsed)
    → Allows p
    → ((c : ServerConfig) → IsAllowed c → Allows (rest c))
    → Allows (then_parse p rest)
then_Allows (accepted c) rest h k = k c h
then_Allows help rest h k = tt
then_Allows (refusal text) rest h k = tt

parse-Allows :
    (arguments : List Bytes) (c : ServerConfig) → IsAllowed c → Allows (parse_arguments arguments c)
unfolding parse_arguments
parse-Allows [] c a = a
parse-Allows (argument ∷ []) c a =
    if_Allows (is_help argument) _ _ tt (if_Allows (takes_value argument) _ _ tt tt)
parse-Allows (argument ∷ value ∷ arguments) c a = if_Allows (is_help argument) _ _ tt (
    if_Allows (takes_value argument) _ _
      (then_Allows (apply_option argument value c) (parse_arguments arguments)
        (option-Allows argument value c a) (parse-Allows arguments))
      tt)

-- Whatever arguments the server accepts, from a configuration in bounds they give one in bounds: a port of 16
-- bits, between 1 and 4096 threads and shards each, and a memory limit below 2⁶⁴.
pub parse_arguments-IsAllowed :
    (arguments : List Bytes) (config result : ServerConfig)
    → IsAllowed config
    → parse_arguments arguments config ≡ accepted result
    → IsAllowed result
parse_arguments-IsAllowed arguments config result a h = rw h at (parse-Allows arguments config a)
