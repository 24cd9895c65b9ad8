-- ===== src/Tests/Commands.antt =====
-- Request lines and their replies.
use redis_like_in_memory_dat.Base.{◌≡◌, refl, codes, str_eq, [], ◌∷◌, some, none, true, arith}
use redis_like_in_memory_dat.Command.Escape.{escape_for_wire}
use redis_like_in_memory_dat.Command.Execute.{execute}
use redis_like_in_memory_dat.Command.Parse.{
  Command, success, failure, parse, parse_args, parse_options, set_expiry, not_ex, parse_int64,
  read_digits, commands, find_command, to_upper_ascii, sanitize_for_echo,
}
use redis_like_in_memory_dat.Command.Replies.{all_printable, error_printable}
use redis_like_in_memory_dat.Command.RoundTrip.{quote, tokenize-quote}
use redis_like_in_memory_dat.Command.Session.{set_command, get_command, set_then_get}
use redis_like_in_memory_dat.Command.Token.{
  tokenize, tokens, token_at, quoted, bare, next_piece, plain_piece, escape_piece, hex_piece,
  skip_spaces, strip_line_end,
}
use redis_like_in_memory_dat.Database.Engine.{Database}
use redis_like_in_memory_dat.Programs.ByteSize.{
  parse_byte_size, split_digits, multiplier_of, stoull, scaled,
}
use redis_like_in_memory_dat.Programs.OneShot.{join_one_shot}
use redis_like_in_memory_dat.Protocol.Encode
use redis_like_in_memory_dat.Tests.Databases.{fresh, fresh-IsSound, fresh-AllFit, roomy}
use redis_like_in_memory_dat.Tests.Tables.{sizes, key_a}

program : Unit {0}
unfolding parse tokenize tokens token_at quoted bare next_piece plain_piece escape_piece hex_piece
    skip_spaces strip_line_end commands find_command to_upper_ascii parse_args parse_options
    set_expiry not_ex parse_int64 read_digits sanitize_for_echo str_eq join_one_shot parse_byte_size
    split_digits multiplier_of stoull scaled
program = tt

pub set_line : parse (codes "set a 1") ≡ success (set_command key_a (codes "1"))
unfolding program
set_line = refl

pub get_line : parse (codes "GET \"a\"  ") ≡ success (get_command key_a)
unfolding program
get_line = refl

expiring : Command
expiring = record (set_command key_a (codes "1")) { expire_seconds = some 60 }

expiring_line : parse (codes "SET a 1 ex 60") ≡ success expiring
unfolding program expiring
expiring_line = refl

unbalanced : parse (codes "GET \"a") ≡ failure (codes "ERR unbalanced quotes in request")
unfolding program
unbalanced = refl

unknown : parse (7 ∷ codes "oo") ≡ failure (codes "ERR unknown command '?oo'")
unfolding program
unknown = refl

tokenize-quote_example :
    tokenize (quote (34 ∷ 0 ∷ 200 ∷ 92 ∷ 10 ∷ [])) ≡ some ((34 ∷ 0 ∷ 200 ∷ 92 ∷ 10 ∷ []) ∷ [])
tokenize-quote_example =
    tokenize-quote (34 ∷ 0 ∷ 200 ∷ 92 ∷ 10 ∷ [])
      (omega arith, (omega arith, (omega arith, (omega arith, (omega arith, tt)))))

error_printable_example : all_printable (codes "ERR unknown command '?oo'") ≡ true
error_printable_example =
    error_printable (7 ∷ codes "oo") (codes "ERR unknown command '?oo'") unknown

set_then_get_example :
    (db : Database) × (db' : Database) × (execute sizes none 5 (λ i. 9) (codes "set a 1") fresh
      ≡ some (db, some (Encode.status (codes "OK"))))
    × (execute sizes none 9 (λ i. 9) (codes "GET \"a\"  ") db
        ≡ some (db', some (Encode.value (escape_for_wire (codes "1")))))
set_then_get_example =
    set_then_get sizes none 5 9 (λ i. 9) (codes "set a 1") (codes "GET \"a\"  ") key_a (codes "1")
      fresh fresh-IsSound fresh-AllFit roomy set_line get_line

one_shot_blank :
    tokenize (join_one_shot (codes "SET" ∷ codes "a b" ∷ []))
    ≡ some (codes "SET" ∷ codes "a b" ∷ [])
unfolding program
one_shot_blank = refl

-- An argument with quotes and no blank is not quoted again, so the server takes its quotes off.
one_shot_quotes :
    tokenize (join_one_shot (codes "GET" ∷ codes "\"a\"" ∷ []))
    ≡ some (codes "GET" ∷ codes "a" ∷ [])
unfolding program
one_shot_quotes = refl

two_kilobytes : parse_byte_size (codes "2kb") ≡ some 2048
unfolding program
two_kilobytes = refl
