-- ===== src/Programs/ClientMain.antt =====
-- client/main.cpp: `parseArguments`, `printReply` and `main`. The standard output and the standard error are the
-- bytes written to them. The exchange of each command with the server is a parameter: what `send` and `recv` come
-- to. The two help texts are left out.
use redis_like_in_memory_dat.Base.{
  ℕ, suc, Bytes, codes, str_eq, List, [], ◌∷◌, ◌++◌, Option, none, some, Bool, true, false, not,
  ◌||◌, ◌&&◌, if◌then◌else◌, ◌==◌, ltb, length,
}
use redis_like_in_memory_dat.Base.Calls.{Result}
use redis_like_in_memory_dat.Client.Command.{Reply, VCacheClient, Answer, command}
use redis_like_in_memory_dat.Client.Connect.{Lookup, connect}
use redis_like_in_memory_dat.Client.Receive.{Receipt}
use redis_like_in_memory_dat.Programs.Numbers.{whole_number, int_half}
use redis_like_in_memory_dat.Programs.OneShot.{join_one_shot}
use redis_like_in_memory_dat.Protocol.Count.{ℤ, pos, negsuc, to_string}
use redis_like_in_memory_dat.Protocol.Tag.{ReplyType}

pub record Options : Type 0 where
  pub host : Bytes
  pub port : ℕ
  pub one_shot : List Bytes
  pub show_help : Bool

abbrev pub default_options : Options
default_options = record { host = codes "127.0.0.1"; port = 6379; one_shot = []; show_help = false }

-- The options, or the text on `std::cerr`.
pub data ParsedOptions : Type 0 where
  options : Options → ParsedOptions
  rejection : Bytes → ParsedOptions

abbrev pub is_help : Bytes → Bool
is_help a = str_eq a (codes "--help") || str_eq a (codes "-h")

abbrev pub invalid_port : Bytes → ParsedOptions
invalid_port value = rejection (codes "error: invalid port '" ++ value ++ codes "'")

unfoldable pub set_port : Bytes → Option ℤ → Options → ParsedOptions
set_port value none o = invalid_port value
set_port value (some (negsuc n)) o = invalid_port value
set_port value (some (pos n)) o =
    if ltb n 1 || ltb 65535 n then invalid_port value else options (record o { port = n })

unfoldable pub apply_option : Bytes → Bytes → Options → ParsedOptions
unfolding set_port whole_number
apply_option argument value o =
    if str_eq argument (codes "--host")
    then options (record o { host = value })
    else set_port value (whole_number int_half value) o

abbrev pub then_options : ParsedOptions → (Options → ParsedOptions) → ParsedOptions
then_options (options o) rest = rest o
then_options (rejection text) rest = rejection text

-- The loop over `argv`, from its second element on.
unfoldable pub parse_arguments : List Bytes → Options → ParsedOptions
unfolding apply_option
parse_arguments [] o = options o
parse_arguments (argument ∷ []) o =
    if is_help argument
    then options (record o { show_help = true })
    else if str_eq argument (codes "--host") || str_eq argument (codes "--port")
    then rejection (codes "error: " ++ argument ++ codes " requires a value")
    else options (record o { one_shot = o.one_shot ++ argument ∷ [] })
parse_arguments (argument ∷ value ∷ arguments) o =
    if is_help argument
    then options (record o { show_help = true })
    else if str_eq argument (codes "--host") || str_eq argument (codes "--port")
    then then_options (apply_option argument value o) (parse_arguments arguments)
    else options (record o { one_shot = o.one_shot ++ argument ∷ value ∷ arguments })

-- What has been written to `std::cout` and to `std::cerr`.
pub record Printed : Type 0 where
  pub out : Bytes
  pub err : Bytes

abbrev pub print_out : Bytes → Printed → Printed
print_out text p = record p { out = p.out ++ text }

abbrev pub print_err : Bytes → Printed → Printed
print_err text p = record p { err = p.err ++ text }

-- The numbered keys, from `i` on.
unfoldable pub print_keys : ℕ → List Bytes → Bytes
print_keys i [] = []
print_keys i (key ∷ keys) =
    to_string i ++ codes ") " ++ 34 ∷ (key ++ 34 ∷ 10 ∷ print_keys (suc i) keys)

abbrev pub counted_keys : ℕ → Bytes
counted_keys n = codes "(" ++ to_string n ++ (if n == 1 then codes " key)" else codes " keys)")

unfoldable pub print_array : List Bytes → Bytes
unfolding print_keys
print_array [] = codes "(empty list)" ++ 10 ∷ []
print_array (key ∷ keys) = counted_keys (length (key ∷ keys)) ++ 10 ∷ print_keys 1 (key ∷ keys)

unfoldable pub print_reply : Reply → Printed → Printed
unfolding print_array
print_reply reply p = elim reply.type [
  | ReplyType.status ↦ print_out (reply.payload ++ 10 ∷ []) p
  | ReplyType.integer ↦ print_out (reply.payload ++ 10 ∷ []) p
  | ReplyType.value ↦ print_out (reply.payload ++ 10 ∷ []) p
  | ReplyType.nil ↦ print_out (codes "(nil)" ++ 10 ∷ []) p
  | ReplyType.error ↦ print_err (reply.payload ++ 10 ∷ []) p
  | ReplyType.array ↦ print_out (print_array reply.elements) p
  | ReplyType.unknown ↦ print_err (codes "(unrecognised reply)" ++ 10 ∷ []) p
]

abbrev pub is_error : ReplyType → Bool
is_error ReplyType.error = true
is_error _ = false

-- What `main` has come to: a status and what is printed; or it is still in an exchange.
pub data ClientEnd : Type 0 where
  ended : ℕ → Printed → ClientEnd
  in_exchange : Printed → ClientEnd

-- What the calls of `send` of a command come to, and the text of an earlier `errno`.
abbrev pub Sends : Type 0
Sends = Bytes × List Result

abbrev pub transport_failure : Reply → Printed → ClientEnd
transport_failure reply p =
    ended 1 (print_err (codes "error: " ++ reply.transport_error ++ 10 ∷ []) p)

-- The end of a one-shot command.
unfoldable pub after_one_shot : Answer → Printed → ClientEnd
unfolding print_reply
after_one_shot Answer.no_answer p = in_exchange p
after_one_shot (Answer.answer reply c receipts) p =
    if not reply.delivered
    then transport_failure reply p
    else ended (if is_error reply.type then 1 else 0) (print_reply reply p)

-- `find_first_not_of(" \t\r") == npos`
unfoldable pub is_blank_line : Bytes → Bool
is_blank_line [] = true
is_blank_line (c ∷ s) = (c == 32 || (c == 9 || c == 13)) && is_blank_line s

abbrev pub prompt : Bool → Printed → Printed
prompt interactive p = if interactive then print_out (codes "vcache> ") p else p

-- The list of the commands, which `printCommands` prints, is an argument.
module _ (commands : Bytes) where
  -- The loop over the lines that `std::getline` gives, and its end.
  unfoldable pub prompt_loop :
      Bool → List Bytes → List Sends → List Receipt → VCacheClient → Printed → ClientEnd
  unfolding print_reply is_blank_line
  prompt_loop interactive [] sends receipts c p =
      ended 0 (let p' = prompt interactive p in if interactive then print_out (10 ∷ []) p' else p')
  prompt_loop interactive (line ∷ lines) sends receipts c p =
      let p' = prompt interactive p in
      let helped = prompt_loop interactive lines sends receipts c (print_out commands p') in
      let skipped = prompt_loop interactive lines sends receipts c p' in
      let asked : ClientEnd = elim sends [
        | [] ↦ in_exchange p'
        | (stale, results) ∷ more ↦ elim (command stale line results receipts c).1 [
          | Answer.no_answer ↦ in_exchange p'
          | Answer.answer reply c' left ↦
              let answered = prompt_loop interactive lines more left c' (print_reply reply p') in
              if not reply.delivered then transport_failure reply p' else answered
        ]
      ] in
      if str_eq line (codes "exit") || str_eq line (codes "quit")
      then ended 0 p'
      else if str_eq line (codes "help")
      then helped
      else if is_blank_line line
      then skipped
      else asked

  abbrev pub greeting : Bool → Options → Printed → Printed
  greeting interactive o p =
      if interactive
      then print_out
          (codes "Connected to "
            ++ o.host
            ++ codes ":"
            ++ to_string o.port
            ++ 10 ∷ codes "Type 'help' for commands, 'exit' to quit."
            ++ 10 ∷ [])
          p
      else p

  -- What follows the connection: one command, or the prompt.
  unfoldable pub after_connect :
      Options
      → Bool
      → List Bytes
      → List Sends
      → List Receipt
      → VCacheClient × Bool × Bytes
      → ClientEnd
  unfolding after_one_shot prompt_loop
  after_connect o interactive lines sends receipts (c, false, text) =
      ended 1 (record { out = []; err = codes "error: " ++ text ++ 10 ∷ [] })
  after_connect o interactive lines sends receipts (c, true, text) =
      let silent : Printed = record { out = []; err = [] } in
      elim o.one_shot [
        | [] ↦ prompt_loop interactive lines sends receipts c (greeting interactive o silent)
        | part ∷ parts ↦ elim sends [
          | [] ↦ in_exchange silent
          | (stale, results) ∷ more ↦
              after_one_shot (command stale (join_one_shot (part ∷ parts)) results receipts c).1
                silent
        ]
      ]

  -- `main`; `usage` is what `printUsage` prints.
  unfoldable pub main :
      Bytes
      → List Bytes
      → Lookup
      → Bytes
      → Bool
      → List Bytes
      → List Sends
      → List Receipt
      → ClientEnd
  unfolding after_connect parse_arguments connect
  main usage arguments lookup why interactive lines sends receipts =
      elim (parse_arguments arguments default_options) [
        | rejection text ↦ ended 2 (record { out = []; err = text ++ 10 ∷ [] })
        | options o ↦
            if o.show_help
            then ended 0 (record { out = usage; err = [] })
            else after_connect o interactive lines sends receipts
                (connect o.host o.port lookup why (record { connected = false; buffer = [] }))
      ]
