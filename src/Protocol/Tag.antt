-- ===== src/Protocol/Tag.antt =====
-- include/Protocol.h: the tags of replies, and `parse`.
use redis_like_in_memory_dat.Base.{ℕ, Bytes, [], ◌∷◌, ◌≡◌, ◌≢◌, refl, if◌then◌else◌, ◌==◌}

pub data ReplyType : Type 0 where
  status error value nil integer array unknown : ReplyType

-- The leading byte of a reply: `+ - $ _ : * ?`.
unfoldable pub tag : ReplyType → ℕ
tag ReplyType.status = b'+'
tag ReplyType.error = b'-'
tag ReplyType.value = b'$'
tag ReplyType.nil = b'_'
tag ReplyType.integer = b':'
tag ReplyType.array = b'*'
tag ReplyType.unknown = b'?'

pub record TaggedLine : Type 0 where
  pub type : ReplyType
  pub payload : Bytes

abbrev nothing : TaggedLine
nothing = record { type = ReplyType.unknown; payload = [] }

abbrev of_type : ReplyType → Bytes → TaggedLine
of_type t rest = record { type = t; payload = rest }

-- `parse`: an unknown tag leaves the payload empty.
unfoldable pub parse : Bytes → TaggedLine
parse [] = nothing
parse (c ∷ rest) =
    if c == b'+'
    then of_type ReplyType.status rest
    else if c == b'-'
    then of_type ReplyType.error rest
    else if c == b'$'
    then of_type ReplyType.value rest
    else if c == b'_'
    then of_type ReplyType.nil rest
    else if c == b':'
    then of_type ReplyType.integer rest
    else if c == b'*'
    then of_type ReplyType.array rest
    else nothing

-- A line of any type but `unknown` is parsed as its type and its payload, whatever the payload holds: a
-- stored value that looks like an error or an array header stays a value.
parse-tag :
    (t : ReplyType) (payload : Bytes)
    → t ≢ ReplyType.unknown
    → parse (tag t ∷ payload) ≡ record { type = t; payload = payload }
unfolding parse tag
parse-tag ReplyType.unknown payload h = absurd (h refl)
parse-tag ReplyType.status payload h = refl
parse-tag _ payload h = refl
