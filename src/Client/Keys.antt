-- ===== src/Client/Keys.antt =====
-- The client reads back what the server's executor answers.
use redis_like_in_memory_dat.Base.{
  ℕ, zero, suc, ◌+◌, ◌/◌, ◌%◌, ◌≤◌, ◌≡◌, refl, ap, ◌∙◌, arith, Bytes, List, [], ◌∷◌, ◌++◌, map,
  none, true, append_assoc, append-nil, length, ltb, Bool-cases, inl, inr,
}
use redis_like_in_memory_dat.Base.Calls.{Result, Run}
use redis_like_in_memory_dat.Client.Arrivals.{receipts_of, find_line-printable, read_line-found}
use redis_like_in_memory_dat.Client.Command.{
  Reply, no_reply, connected_with, Answer, with_element, read_elements, read_reply, read_first,
  command,
}
use redis_like_in_memory_dat.Client.Receive.{Receipt, client_send_all}
use redis_like_in_memory_dat.Command.Escape.{escape_for_wire}
use redis_like_in_memory_dat.Command.Execute.{key_lines}
use redis_like_in_memory_dat.Command.Replies.{all_printable, escape_for_wire-printable}
use redis_like_in_memory_dat.Command.RoundTrip.{IsBytes}
use redis_like_in_memory_dat.Protocol.Count.{decimal, to_string, parse_count-to_string}
use redis_like_in_memory_dat.Protocol.Encode
use redis_like_in_memory_dat.Protocol.Tag.{ReplyType, tag, parse}
use redis_like_in_memory_dat.Server.Framing.{joined}

pub data AllKeys : List Bytes → Type 0 where
  no_key : AllKeys []
  and_key : {key : Bytes} {keys : List Bytes} → IsBytes key → AllKeys keys → AllKeys (key ∷ keys)

-- The lines of the elements, each with its newline.
unfoldable element_lines : List Bytes → Bytes → Bytes
element_lines [] tail = tail
element_lines (key ∷ keys) tail = Encode.value (escape_for_wire key) ++ 10 ∷ element_lines keys tail

key_lines-eq :
    (keys : List Bytes) (tail : Bytes) → key_lines keys ++ 10 ∷ tail ≡ 10 ∷ element_lines keys tail
unfolding key_lines element_lines
key_lines-eq [] tail = refl
key_lines-eq (key ∷ keys) tail = ap (◌∷◌ 10) (
    append_assoc (Encode.value (escape_for_wire key)) (key_lines keys) (10 ∷ tail)
    ∙ ap (◌++◌ (Encode.value (escape_for_wire key))) (key_lines-eq keys tail))

value-printable :
    (key : Bytes) → IsBytes key → all_printable (Encode.value (escape_for_wire key)) ≡ true
unfolding all_printable Encode.value tag
value-printable key h = escape_for_wire-printable key h

read_elements-element_lines :
    (keys : List Bytes) (reply : Reply) (chunks : List Bytes) (buffer tail : Bytes)
    → AllKeys keys
    → buffer ++ joined chunks ≡ element_lines keys tail
    → (left : List Bytes) × (buffer' : Bytes) × (read_elements
          (length keys)
          reply
          buffer
          (receipts_of chunks)
        ≡ Answer.answer
            (record reply {
              delivered = true;
              elements = reply.elements ++ map escape_for_wire keys;
            })
            (connected_with buffer')
            (receipts_of left))
      × (buffer' ++ joined left ≡ tail)
unfolding read_elements element_lines parse Encode.value tag
read_elements-element_lines [] reply chunks buffer tail f h =
    (chunks, buffer, rw (append-nil reply.elements) refl, h)
read_elements-element_lines (key ∷ keys) reply chunks buffer tail (and_key f fs) h =
    let (left, buffer', e, rest) =
      read_line-found chunks buffer (Encode.value (escape_for_wire key)) (element_lines keys tail) (
        rw h (
          find_line-printable (Encode.value (escape_for_wire key)) (element_lines keys tail)
            (value-printable key f))) in
    let (left', buffer'', e', rest') =
      read_elements-element_lines keys (with_element reply (escape_for_wire key)) left buffer' tail
        fs rest in
    let grown =
      ap
        (λ es.
          Answer.answer (record reply { delivered = true; elements = es }) (connected_with buffer'')
            (receipts_of left'))
        (append_assoc reply.elements (escape_for_wire key ∷ []) (map escape_for_wire keys)) in
    (left', buffer'', rw (e, read_elements) (e' ∙ grown), rest')

pub decimal-printable :
    (fuel n : ℕ) (rest : Bytes)
    → all_printable rest ≡ true
    → all_printable (decimal fuel n rest) ≡ true
unfolding all_printable decimal
decimal-printable zero n rest h = h
decimal-printable (suc fuel) n rest h = elim (Bool-cases (ltb n 10)) [
  | inl small ↦ rw small (ground (arith, h, small))
  | inr large ↦
      rw large (decimal-printable fuel (n / 10) ((48 + n % 10) ∷ rest) (ground (arith, h)))
]

array_header-printable : (n : ℕ) → all_printable (Encode.array_header n) ≡ true
unfolding all_printable Encode.array_header tag to_string
array_header-printable n = decimal-printable 20 n [] refl

read_reply-array_header :
    (n : ℕ) (buffer : Bytes) (receipts : List Receipt)
    → n ≤ 100000000
    → read_reply (Encode.array_header n) buffer receipts
      ≡ read_elements n (record no_reply { type = ReplyType.array }) buffer receipts
unfolding read_reply parse Encode.array_header tag
read_reply-array_header n buffer receipts h = rw (parse_count-to_string n h, read_reply) refl

-- A connected client, whose request line has been sent and whose buffer is empty. The server's reply to
-- `KEYS`, of up to a hundred million keys, with its newline, arrives in any chunks: the client returns the
-- keys, escaped and in the server's order, and stays connected.
pub command-key_lines :
    (stale line out : Bytes) (results sent : List Result) (keys chunks : List Bytes)
    → AllKeys keys
    → length keys ≤ 100000000
    → client_send_all stale results (line ++ 10 ∷ []) [] ≡ (out, Run.returned none sent)
    → joined chunks ≡ (Encode.array_header (length keys) ++ key_lines keys) ++ 10 ∷ []
    → (left : List Bytes) × (buffer : Bytes) × (command stale line results
          (receipts_of chunks)
          (connected_with [])
        ≡ (
          out,
          Answer.answer
              (record no_reply {
                delivered = true;
                type = ReplyType.array;
                elements = map escape_for_wire keys;
              })
              (connected_with buffer)
              (receipts_of left),
        ))
      × (buffer ++ joined left ≡ [])
unfolding command read_first
command-key_lines stale line out results sent keys chunks f h k e =
    let header = Encode.array_header (length keys) in
    let stream : [] ++ joined chunks ≡ header ++ 10 ∷ element_lines keys [] =
      e
      ∙ append_assoc header (key_lines keys) (10 ∷ [])
      ∙ ap (◌++◌ header) (key_lines-eq keys []) in
    let (left, buffer, first, rest) = read_line-found chunks [] header (element_lines keys []) (
      rw stream (
        find_line-printable header (element_lines keys [])
          (array_header-printable (length keys)))) in
    let (left', buffer', elements, rest') =
      read_elements-element_lines keys (record no_reply { type = ReplyType.array }) left buffer [] f
        rest in
    (
      left',
      buffer',
      rw (k, first)
          (ap (λ a. (out, a))
            (read_reply-array_header (length keys) buffer (receipts_of left) h ∙ elements)),
      rest',
    )
