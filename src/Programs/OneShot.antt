-- ===== src/Programs/OneShot.antt =====
-- client/main.cpp: `joinOneShot`, which makes one request line of the arguments of the command line.
use redis_like_in_memory_dat.Base.{
  Bytes, List, [], ◌∷◌, ◌++◌, Bool, true, false, ◌||◌, if◌then◌else◌, ◌==◌,
}

-- `find` of a blank in an argument.
unfoldable pub has_blank : Bytes → Bool
has_blank [] = false
has_blank (c ∷ s) = c == 32 || c == 9 || has_blank s

unfoldable pub needs_quotes : Bytes → Bool
unfolding has_blank
needs_quotes [] = true
needs_quotes (c ∷ s) = has_blank (c ∷ s)

-- The loop over the characters of a quoted argument.
unfoldable pub escape_quotes : Bytes → Bytes
escape_quotes [] = []
escape_quotes (c ∷ s) =
    let rest = escape_quotes s in if c == 34 || c == 92 then 92 ∷ c ∷ rest else c ∷ rest

unfoldable pub one_part : Bytes → Bytes
unfolding needs_quotes escape_quotes
one_part part = if needs_quotes part then 34 ∷ (escape_quotes part ++ 34 ∷ []) else part

-- The arguments after the first, each behind a blank.
unfoldable pub later_parts : List Bytes → Bytes
unfolding one_part
later_parts [] = []
later_parts (part ∷ parts) = 32 ∷ (one_part part ++ later_parts parts)

unfoldable pub join_one_shot : List Bytes → Bytes
unfolding one_part later_parts
join_one_shot [] = []
join_one_shot (part ∷ parts) = one_part part ++ later_parts parts
