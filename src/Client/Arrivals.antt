-- ===== src/Client/Arrivals.antt =====
-- Lines that the client reads, however the stream arrives.
use redis_like_in_memory_dat.Base.{
  ◌≡◌, refl, sym, ◌∙◌, arith, Bytes, List, [], ◌∷◌, ◌++◌, some, true, false, append_assoc,
  append-nil, Option-cases, inl, inr, ◌==◌,
}
use redis_like_in_memory_dat.Client.Receive.{Receipt, bytes, LineRead, read_line}
use redis_like_in_memory_dat.Command.Replies.{all_printable}
use redis_like_in_memory_dat.Server.Framing.{joined}
use redis_like_in_memory_dat.Server.Lines.{find_line, find_step-some}

unfoldable pub receipts_of : List Bytes → List Receipt
receipts_of [] = []
receipts_of (chunk ∷ chunks) = bytes chunk ∷ receipts_of chunks

find_line-append :
    (s t line rest : Bytes)
    → find_line s ≡ some (line, rest)
    → find_line (s ++ t) ≡ some (line, rest ++ t)
unfolding find_line
find_line-append [] t line rest h = cc
find_line-append (c ∷ s) t line rest h =
    elim (find_step-some (c == 10) c s line rest (find_line s) h) [
      | inl (newline, e, e') ↦ rw (newline, e, e') refl
      | inr (line', (other, more, e)) ↦ rw (other, e, find_line-append s t line' rest more) refl
    ]

-- Printable text has no newline.
pub find_line-printable :
    (line rest : Bytes)
    → all_printable line ≡ true
    → find_line (line ++ 10 ∷ rest) ≡ some (line, rest)
unfolding find_line all_printable
find_line-printable [] rest h = refl
find_line-printable (c ∷ line) rest h =
    let e = find_line-printable line rest (ground (arith, h)) in
    let other : (c == 10) ≡ false = ground (arith, h) in rw (e, other) refl

-- The stream is what is in the buffer and what will arrive.
pub read_line-found :
    (chunks : List Bytes) (buffer line rest : Bytes)
    → find_line (buffer ++ joined chunks) ≡ some (line, rest)
    → (left : List Bytes) × (buffer' : Bytes) × (read_line (receipts_of chunks) buffer
        ≡ LineRead.got line buffer' (receipts_of left))
      × (buffer' ++ joined left ≡ rest)
unfolding joined receipts_of read_line
read_line-found [] buffer line rest h =
    let e : find_line buffer ≡ some (line, rest) = rw (append-nil buffer) at h in
    ([], rest, rw (e, read_line) refl, append-nil rest)
read_line-found (chunk ∷ chunks) buffer line rest h = elim (Option-cases (find_line buffer)) [
  | inl none_yet ↦
      let (left, buffer', e, e') =
        read_line-found chunks (buffer ++ chunk) line rest
          (rw (sym (append_assoc buffer chunk (joined chunks))) at h) in
      (left, buffer', rw (none_yet, read_line) e, e')
  | inr ((line', rest'), found) ↦
      let e = sym (find_line-append buffer (chunk ++ joined chunks) line' rest' found) ∙ h in
      (chunk ∷ chunks, rest', rw (found, read_line) cc, cc)
]
