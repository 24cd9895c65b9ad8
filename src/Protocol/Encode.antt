-- ===== src/Protocol/Encode.antt =====
-- include/Protocol.h: the encoding half.
use redis_like_in_memory_dat.Base.{ℕ, Bytes, [], ◌∷◌, ◌≡◌, ◌≤◌, refl, some}
use redis_like_in_memory_dat.Protocol.Count.{
  ℤ, to_string, to_string_ℤ, parse_count, parse_count-to_string,
}
use redis_like_in_memory_dat.Protocol.Tag.{ReplyType, tag, parse}

unfoldable pub status : Bytes → Bytes
unfolding tag
status text = tag ReplyType.status ∷ text

unfoldable pub error : Bytes → Bytes
unfolding tag
error text = tag ReplyType.error ∷ text

unfoldable pub value : Bytes → Bytes
unfolding tag
value escaped = tag ReplyType.value ∷ escaped

unfoldable pub nil : Bytes
unfolding tag
nil = tag ReplyType.nil ∷ []

unfoldable pub integer : ℤ → Bytes
unfolding tag
integer number = tag ReplyType.integer ∷ to_string_ℤ number

unfoldable pub array_header : ℕ → Bytes
unfolding tag
array_header count = tag ReplyType.array ∷ to_string count

-- A client that reads an array header of up to a hundred million elements sees an array, and reads back
-- the number of lines that follow.
array_header-parse :
    (n : ℕ)
    → n ≤ 100000000
    → ((parse (array_header n)).type ≡ ReplyType.array)
      × (parse_count (parse (array_header n)).payload ≡ some n)
unfolding array_header parse tag
array_header-parse n h = (refl, parse_count-to_string n h)
