-- ===== src/Programs/Arguments.antt =====
-- server/main.cpp: `parseArguments`. An argument of `main` is its bytes. A refusal is the text on `std::cerr`,
-- without the line ends; the help text is left out.
use redis_like_in_memory_dat.Base.{
  ℕ, ◌*◌, Bytes, codes, str_eq, List, [], ◌∷◌, ◌++◌, Option, none, some, Bool, true, not, ◌||◌,
  ◌==◌, if◌then◌else◌, ltb, word, length, ◌%◌,
}
use redis_like_in_memory_dat.Programs.ByteSize.{parse_byte_size}
use redis_like_in_memory_dat.Programs.Numbers.{sto, whole_number, int_half, long_half}
use redis_like_in_memory_dat.Protocol.Count.{ℤ, pos, negsuc}
use redis_like_in_memory_dat.Server.Start.{ServerConfig}

-- What the arguments come to.
pub data Parsed : Type 0 where
  accepted : ServerConfig → Parsed
  help : Parsed
  refusal : Bytes → Parsed

abbrev pub is_help : Bytes → Bool
is_help a = str_eq a (codes "--help") || str_eq a (codes "-h")

abbrev pub takes_value : Bytes → Bool
takes_value a =
    str_eq a (codes "--port")
    || (str_eq a (codes "--bind")
        || (str_eq a (codes "--threads")
            || (str_eq a (codes "--dbfile")
                || (str_eq a (codes "--save-interval")
                    || (str_eq a (codes "--max-memory") || str_eq a (codes "--shards"))))))

abbrev pub invalid_value : Bytes → Bytes → Bytes
invalid_value argument value =
    codes "error: invalid value for " ++ argument ++ codes ": '" ++ value ++ codes "'"

unfoldable pub set_max_memory : Bytes → Option ℕ → ServerConfig → Parsed
set_max_memory value none config = refusal (
    codes "error: invalid value for --max-memory: '"
    ++ value
    ++ codes "' (expected e.g. 100MB, 512kb, or a byte count)")
set_max_memory value (some bytes) config = accepted (record config { max_memory_bytes = bytes })

-- What the `try` leaves: the number and how much was read, nothing of either after an exception.
abbrev pub attempted : Option (ℤ × ℕ) → ℤ × ℕ
attempted none = (pos 0, 0)
attempted (some r) = r

-- `std::chrono::seconds` becomes `std::chrono::milliseconds`, a product that wraps in 64 bits.
unfoldable pub set_interval : Bytes → ℤ × ℕ → ServerConfig → Parsed
set_interval value (negsuc n, consumed) config =
    refusal (invalid_value (codes "--save-interval") value)
set_interval value (pos seconds, consumed) config =
    if not (consumed == length value)
    then refusal (invalid_value (codes "--save-interval") value)
    else accepted (record config { save_interval = seconds * 1000 % word })

abbrev pub is_port : Bytes → Bool
is_port argument = str_eq argument (codes "--port")

abbrev pub minimum : Bytes → ℕ
minimum argument = if is_port argument then 0 else 1

abbrev pub maximum : Bytes → ℕ
maximum argument = if is_port argument then 65535 else 4096

abbrev pub out_of_range : Bytes → Bytes
out_of_range argument =
    codes "error: "
    ++ argument
    ++ codes " must be between "
    ++ (if is_port argument then codes "0 and 65535" else codes "1 and 4096")

abbrev pub is_outside : Bytes → ℤ → Bool
is_outside argument (negsuc n) = true
is_outside argument (pos n) = ltb n (minimum argument) || ltb (maximum argument) n

abbrev pub magnitude : ℤ → ℕ
magnitude (pos n) = n
magnitude (negsuc n) = 0

abbrev pub with_number : Bytes → ℕ → ServerConfig → ServerConfig
with_number argument n config =
    if is_port argument
    then record config { port = n }
    else if str_eq argument (codes "--shards")
    then record config { shard_count = n }
    else record config { thread_count = n }

unfoldable pub set_number : Bytes → Bytes → Option ℤ → ServerConfig → Parsed
set_number argument value none config = refusal (invalid_value argument value)
set_number argument value (some n) config =
    if is_outside argument n
    then refusal (out_of_range argument)
    else accepted (with_number argument (magnitude n) config)

-- An option that takes a value.
unfoldable pub apply_option : Bytes → Bytes → ServerConfig → Parsed
unfolding set_max_memory set_interval set_number whole_number sto parse_byte_size
apply_option argument value config =
    if str_eq argument (codes "--bind")
    then accepted (record config { bind_address = value })
    else if str_eq argument (codes "--dbfile")
    then accepted (record config { snapshot_path = value })
    else if str_eq argument (codes "--max-memory")
    then set_max_memory value (parse_byte_size value) config
    else if str_eq argument (codes "--save-interval")
    then set_interval value (attempted (sto long_half value)) config
    else set_number argument value (whole_number int_half value) config

abbrev pub unknown_option : Bytes → Parsed
unknown_option argument = refusal (codes "error: unknown option '" ++ argument ++ codes "'")

abbrev pub then_parse : Parsed → (ServerConfig → Parsed) → Parsed
then_parse (accepted config) rest = rest config
then_parse help rest = help
then_parse (refusal text) rest = refusal text

-- The loop over `argv`, from its second element on.
unfoldable pub parse_arguments : List Bytes → ServerConfig → Parsed
unfolding apply_option
parse_arguments [] config = accepted config
parse_arguments (argument ∷ []) config =
    if is_help argument
    then help
    else if takes_value argument
    then refusal (codes "error: " ++ argument ++ codes " requires a value")
    else unknown_option argument
parse_arguments (argument ∷ value ∷ arguments) config =
    if is_help argument
    then help
    else if takes_value argument
    then then_parse (apply_option argument value config) (parse_arguments arguments)
    else unknown_option argument
