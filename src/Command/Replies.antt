-- ===== src/Command/Replies.antt =====
-- What a request line can lead to: error texts that are safe to print, and times to live that are safe
-- to add to the clock.
use redis_like_in_memory_dat.Base.{
  ℕ, zero, suc, ◌≤◌, ◌<◌, ◌≡◌, refl, Bytes, codes, str_eq, List, [], ◌∷◌, ◌++◌, map, Option, none,
  some, Bool, true, ◌&&◌, ◌||◌, if◌then◌else◌, ◌==◌, ltb, length, take, get_or, arith, inl, inr,
  Bool-cases, Option-cases, length-append,
}
use mathlib.Core.Path.{subst}
use redis_like_in_memory_dat.Command.Escape.{escape_byte, escape_for_wire, hex_byte}
use redis_like_in_memory_dat.Command.RoundTrip.{IsBytes}
use redis_like_in_memory_dat.Command.Token.{tokenize}
use redis_like_in_memory_dat.Command.Parse.{
  Command, CommandSpec, ParseResult, success, failure, commands, find_command, is_set,
  max_echoed_verb_length, max_expire_seconds, not_ex, parse, parse_args, parse_int64, parse_options,
  printable, sanitize_for_echo, set_expiry, to_upper_ascii,
}
use redis_like_in_memory_dat.Protocol.Count.{ℤ, pos, negsuc}

unfoldable pub all_printable : Bytes → Bool
all_printable [] = true
all_printable (b ∷ s) = printable b && all_printable s

pub all_printable-append :
    (s t : Bytes) → all_printable s ≡ true → all_printable t ≡ true → all_printable (s ++ t) ≡ true
unfolding all_printable
all_printable-append [] t h k = k
all_printable-append (b ∷ s) t h k = ground (arith, all_printable-append s t)

framed :
    (text : Bytes)
    → all_printable text ≡ true
    → (before after : Bytes) → all_printable before ≡ true
    → all_printable after ≡ true
    → all_printable (before ++ text ++ after) ≡ true
framed text h before after k l =
    all_printable-append (before ++ text) after (all_printable-append before text k h) l

all_printable-shown :
    (n : ℕ) (s : Bytes)
    → all_printable (map (λ b. if printable b then b else b'?') (take n s)) ≡ true
unfolding all_printable
all_printable-shown zero s = refl
all_printable-shown (suc n) [] = refl
all_printable-shown (suc n) (b ∷ s) = ground (arith, all_printable-shown n s)

-- `sanitizeForEcho` gives printable text, whatever the bytes of the verb.
sanitize_for_echo-printable : (verb : Bytes) → all_printable (sanitize_for_echo verb) ≡ true
unfolding sanitize_for_echo all_printable
sanitize_for_echo-printable verb =
    all_printable-append
      (map (λ b. if printable b then b else b'?') (take max_echoed_verb_length verb))
      (if ltb max_echoed_verb_length (length verb) then codes "..." else [])
      (all_printable-shown max_echoed_verb_length verb) (ground arith)

shown-le : (n : ℕ) (s : Bytes) → length (map (λ b. if printable b then b else b'?') (take n s)) ≤ n
shown-le zero s = omega arith
shown-le (suc n) [] = omega arith
shown-le (suc n) (b ∷ s) = omega (arith, shown-le n s)

-- `sanitizeForEcho` gives at most 35 bytes, however long the verb is.
sanitize_for_echo-length : (verb : Bytes) → length (sanitize_for_echo verb) ≤ 35
unfolding sanitize_for_echo
sanitize_for_echo-length verb = ground (
  arith,
  length-append (map (λ b. if printable b then b else b'?') (take max_echoed_verb_length verb))
      (if ltb max_echoed_verb_length (length verb) then codes "..." else []),
  shown-le max_echoed_verb_length verb,
)

abbrev InRange : Option ℕ → Type 0
InRange none = Unit
InRange (some n) = (1 ≤ n) × (n ≤ max_expire_seconds)

-- An error is printable, and a command's time to live is in range.
abbrev IsSafe : ParseResult → Type 0
IsSafe (failure text) = all_printable text ≡ true
IsSafe (success command) = InRange command.expire_seconds

set_expiry-IsSafe : (command : Command) (o : Option ℤ) → IsSafe (set_expiry command o)
unfolding set_expiry all_printable
set_expiry-IsSafe command none = refl
set_expiry-IsSafe command (some (negsuc n)) = refl
set_expiry-IsSafe command (some (pos n)) = elim (Bool-cases (n == 0 || ltb max_expire_seconds n)) [
  | inl out ↦ rw out refl
  | inr within ↦ rw within (ground (arith, within))
]

parse_options-IsSafe :
    (command : Command) (args : List Bytes)
    → InRange command.expire_seconds
    → IsSafe (parse_options command args)
unfolding parse_options all_printable
parse_options-IsSafe command args h =
    elim (Bool-cases (is_set command.type && ltb 2 (length args))) [
      | inr short ↦ rw short h
      | inl tail ↦ elim (Bool-cases (not_ex args)) [
        | inl wrong ↦ rw (tail, wrong) refl
        | inr right ↦ rw (tail, right) (set_expiry-IsSafe command (parse_int64 (get_or args 3 [])))
      ]
    ]

-- The fixed parts of the two texts that quote something.
fixed_parts :
    (all_printable (codes "ERR wrong number of arguments for '") ≡ true)
    × (all_printable (codes "' command") ≡ true)
    × (all_printable (codes "ERR unknown command '") ≡ true)
    × (all_printable (codes "'") ≡ true)
unfolding all_printable
fixed_parts = (refl, refl, refl, refl)

parse_args-IsSafe :
    (s : CommandSpec) (args : List Bytes) → all_printable s.name ≡ true → IsSafe (parse_args s args)
unfolding parse_args
parse_args-IsSafe s args h =
    elim (Bool-cases (ltb (length args) s.min_args || ltb s.max_args (length args))) [
      | inl wrong ↦ rw wrong (
          framed s.name h (codes "ERR wrong number of arguments for '") (codes "' command")
            fixed_parts.0 fixed_parts.1)
      | inr right ↦ rw right (parse_options-IsSafe _ args tt)
    ]

abbrev PrintableNames : List CommandSpec → Type 0
PrintableNames [] = Unit
PrintableNames (s ∷ ss) = (all_printable s.name ≡ true) × PrintableNames ss

names-printable :
    (verb : Bytes) (ss : List CommandSpec) (s : CommandSpec)
    → PrintableNames ss
    → find_command verb ss ≡ some s
    → all_printable s.name ≡ true
unfolding find_command
names-printable verb [] s names h = cc
names-printable verb (x ∷ ss) s (name, names) h = elim (Bool-cases (str_eq verb x.name)) [
  | inl same ↦
      let e : x ≡ s = ground (arith, h, same) in subst (λ y. all_printable y.name ≡ true) e name
  | inr other ↦ names-printable verb ss s names (ground (arith, h, other))
]

commands-PrintableNames : PrintableNames commands
unfolding commands all_printable
commands-PrintableNames = (refl, (refl, (refl, (refl, (refl, (refl, tt))))))

parse-IsSafe : (line : Bytes) → IsSafe (parse line)
unfolding parse
parse-IsSafe line = elim (Option-cases (tokenize line)) [
  | inl bad ↦ rw (bad, parse) (unfold all_printable in refl)
  | inr ([], blank) ↦ rw (blank, parse) tt
  | inr (verb ∷ args, split) ↦ elim (Option-cases (find_command (to_upper_ascii verb) commands)) [
    | inl unknown ↦
        rw (split, parse)
          (rw (unknown, parse)
            (framed (sanitize_for_echo verb) (sanitize_for_echo-printable verb)
              (codes "ERR unknown command '") (codes "'") fixed_parts.2 fixed_parts.3))
    | inr (s, known) ↦
        rw (split, parse)
          (rw (known, parse)
            (parse_args-IsSafe s args
              (names-printable (to_upper_ascii verb) commands s commands-PrintableNames known)))
  ]
]

-- Whatever bytes a request line holds, an error that `parse` answers is printable ASCII, without control
-- bytes: a client cannot make the server forge a line of a reply.
pub error_printable : (line text : Bytes) → parse line ≡ failure text → all_printable text ≡ true
error_printable line text h = subst IsSafe h (parse-IsSafe line)

-- A command that `parse` accepts with a time to live has between one second and a hundred years of it.
pub expire_in_range :
    (line : Bytes) (command : Command) (n : ℕ)
    → parse line ≡ success command
    → command.expire_seconds ≡ some n
    → (1 ≤ n) × (n ≤ max_expire_seconds)
expire_in_range line command n h k = subst InRange k (subst IsSafe h (parse-IsSafe line))

escape_byte-printable : (b : ℕ) → b < 256 → all_printable (escape_byte b) ≡ true
unfolding escape_byte hex_byte all_printable
escape_byte-printable b h = ground (arith, h)

-- `escapeForWire` of any bytes is printable ASCII: one line, without control bytes.
pub escape_for_wire-printable : (v : Bytes) → IsBytes v → all_printable (escape_for_wire v) ≡ true
unfolding escape_for_wire
escape_for_wire-printable [] h = unfold all_printable in refl
escape_for_wire-printable (b ∷ v) (byte, h) =
    all_printable-append (escape_byte b) (escape_for_wire v) (escape_byte-printable b byte)
      (escape_for_wire-printable v h)
