-- ===== src/Command/Parse.antt =====
-- include/CommandParser.h, src/CommandParser.cpp: the table of commands and `CommandParser::parse`.
use redis_like_in_memory_dat.Base.{
  ℕ, ◌+◌, ◌-◌, ◌*◌, ◌^◌, Bytes, codes, str_eq, List, [], ◌∷◌, ◌++◌, map, Option, none, some, Bool,
  true, false, not, ◌&&◌, ◌||◌, if◌then◌else◌, ◌==◌, ltb, leb, length, take, get_or,
}
use redis_like_in_memory_dat.Command.Token.{tokenize, between}
use redis_like_in_memory_dat.Protocol.Count.{ℤ, pos, negsuc, not_digit}

pub data CommandType : Type 0 where
  empty set get del exists keys save : CommandType

pub record Command : Type 0 where
  pub type : CommandType
  pub key : Bytes
  pub value : Bytes
  pub expire_seconds : Option ℕ

pub data ParseResult : Type 0 where
  success : Command → ParseResult
  failure : Bytes → ParseResult

pub record CommandSpec : Type 0 where
  pub name : Bytes
  pub type : CommandType
  pub min_args : ℕ
  pub max_args : ℕ

abbrev spec : Bytes → CommandType → ℕ → ℕ → CommandSpec
spec name type low high = record { name = name; type = type; min_args = low; max_args = high }

unfoldable pub commands : List CommandSpec
commands =
    spec (codes "SET") CommandType.set 2 4
    ∷ spec (codes "GET") CommandType.get 1 1
    ∷ spec (codes "DEL") CommandType.del 1 1
    ∷ spec (codes "EXISTS") CommandType.exists 1 1
    ∷ spec (codes "KEYS") CommandType.keys 0 0
    ∷ spec (codes "SAVE") CommandType.save 0 0
    ∷ []

abbrev pub max_echoed_verb_length : ℕ
max_echoed_verb_length = 32

abbrev pub max_expire_seconds : ℕ
max_expire_seconds = 100 * 365 * 24 * 60 * 60

unfoldable pub to_upper_ascii : Bytes → Bytes
to_upper_ascii text = map (λ c. if between 97 122 c then c - 97 + 65 else c) text

-- The loop of `findCommand` over the table.
unfoldable pub find_command : Bytes → List CommandSpec → Option CommandSpec
find_command verb [] = none
find_command verb (s ∷ ss) =
    let more = find_command verb ss in if str_eq verb s.name then some s else more

-- The digits that `std::from_chars` reads up to the end of the text.
unfoldable pub read_digits : ℕ → Bytes → Option ℕ
read_digits value [] = some value
read_digits value (c ∷ rest) =
    let more = read_digits (value * 10 + (c - 48)) rest in if not_digit c then none else more

abbrev digits_of : Bytes → Option ℕ
digits_of [] = none
digits_of (c ∷ rest) = read_digits 0 (c ∷ rest)

-- A value outside `std::int64_t` is `std::errc::result_out_of_range`.
abbrev as_positive : Option ℕ → Option ℤ
as_positive none = none
as_positive (some n) = if ltb n (2 ^ 63) then some (pos n) else none

abbrev as_negative : Option ℕ → Option ℤ
as_negative none = none
as_negative (some n) =
    if n == 0 then some (pos 0) else if leb n (2 ^ 63) then some (negsuc (n - 1)) else none

unfoldable pub parse_int64 : Bytes → Option ℤ
unfolding read_digits
parse_int64 [] = none
parse_int64 (c ∷ rest) =
    if c == b'-' then as_negative (digits_of rest) else as_positive (digits_of (c ∷ rest))

abbrev pub printable : ℕ → Bool
printable b = leb 32 b && ltb b 127

unfoldable pub sanitize_for_echo : Bytes → Bytes
sanitize_for_echo verb =
    map (λ b. if printable b then b else b'?') (take max_echoed_verb_length verb)
    ++ (if ltb max_echoed_verb_length (length verb) then codes "..." else [])

abbrev pub empty_command : Command
empty_command = record { type = CommandType.empty; key = []; value = []; expire_seconds = none }

abbrev with_expiry : Command → ℕ → ParseResult
with_expiry command n =
    if n == 0 || ltb max_expire_seconds n
    then ParseResult.failure (codes "ERR invalid expire time in 'SET' command")
    else ParseResult.success (record command { expire_seconds = some n })

-- `seconds` is read, and must be positive and at most a hundred years.
unfoldable pub set_expiry : Command → Option ℤ → ParseResult
set_expiry command none = ParseResult.failure (codes "ERR value is not an integer or out of range")
set_expiry command (some (negsuc n)) =
    ParseResult.failure (codes "ERR invalid expire time in 'SET' command")
set_expiry command (some (pos n)) = with_expiry command n

abbrev pub is_set : CommandType → Bool
is_set CommandType.set = true
is_set _ = false

unfoldable pub not_ex : List Bytes → Bool
unfolding to_upper_ascii
not_ex args =
    not (length args == 4) || not (str_eq (to_upper_ascii (get_or args 2 [])) (codes "EX"))

-- The tail `EX <seconds>` of `SET`; `args` does not count the verb.
unfoldable pub parse_options : Command → List Bytes → ParseResult
parse_options command args =
    if is_set command.type && ltb 2 (length args)
    then (if not_ex args
        then ParseResult.failure (codes "ERR syntax error")
        else set_expiry command (parse_int64 (get_or args 3 [])))
    else ParseResult.success command

unfoldable pub parse_args : CommandSpec → List Bytes → ParseResult
parse_args s args =
    if ltb (length args) s.min_args || ltb s.max_args (length args)
    then ParseResult.failure
        (codes "ERR wrong number of arguments for '" ++ s.name ++ codes "' command")
    else parse_options
        (record {
          type = s.type;
          key = get_or args 0 [];
          value = get_or args 1 [];
          expire_seconds = none;
        })
        args

unfoldable pub parse : Bytes → ParseResult
parse line = elim (tokenize line) [
  | none ↦ ParseResult.failure (codes "ERR unbalanced quotes in request")
  | some [] ↦ ParseResult.success empty_command
  | some (verb ∷ args) ↦ elim (find_command (to_upper_ascii verb) commands) [
    | none ↦
        ParseResult.failure (codes "ERR unknown command '" ++ sanitize_for_echo verb ++ codes "'")
    | some s ↦ parse_args s args
  ]
]

-- `CommandParser::name`
unfoldable pub name : CommandType → Bytes
name CommandType.set = codes "SET"
name CommandType.get = codes "GET"
name CommandType.del = codes "DEL"
name CommandType.exists = codes "EXISTS"
name CommandType.keys = codes "KEYS"
name CommandType.save = codes "SAVE"
name CommandType.empty = []
