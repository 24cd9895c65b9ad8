-- ===== src/Client/Command.antt =====
-- src/VCacheClient.cpp: `command` and `disconnect`. A `Reply` is built as the fields are set.
use redis_like_in_memory_dat.Base.{
  ℕ, zero, suc, Bytes, codes, List, [], ◌∷◌, ◌++◌, none, some, Bool, true, false, if◌then◌else◌,
  not,
}
use redis_like_in_memory_dat.Base.Calls.{Result, Run}
use redis_like_in_memory_dat.Client.Receive.{Receipt, LineRead, client_send_all, read_line}
use redis_like_in_memory_dat.Protocol.Count.{parse_count}
use redis_like_in_memory_dat.Protocol.Tag.{ReplyType, parse}

pub record Reply : Type 0 where
  pub delivered : Bool
  pub type : ReplyType
  pub payload : Bytes
  pub elements : List Bytes
  pub transport_error : Bytes

-- A `Reply` before anything has arrived.
abbrev pub no_reply : Reply
no_reply = record {
  delivered = false;
  type = ReplyType.unknown;
  payload = [];
  elements = [];
  transport_error = [];
}

-- `fd_ >= 0`, and `buffer_`.
pub record VCacheClient : Type 0 where
  pub connected : Bool
  pub buffer : Bytes

abbrev pub connected_with : Bytes → VCacheClient
connected_with buffer = record { connected = true; buffer = buffer }

unfoldable pub disconnect : VCacheClient → VCacheClient
disconnect c = record { connected = false; buffer = [] }

-- What `command` returns, with the client and the receipts left, or no return yet.
pub data Answer : Type 0 where
  answer : Reply → VCacheClient → List Receipt → Answer
  no_answer : Answer

-- The error returns: the reply keeps what it has.
unfoldable pub broken_off : Reply → Bytes → VCacheClient → List Receipt → Answer
unfolding disconnect
broken_off reply text c receipts =
    Answer.answer (record reply { transport_error = text }) (disconnect c) receipts

abbrev pub with_element : Reply → Bytes → Reply
with_element reply payload = record reply { elements = reply.elements ++ payload ∷ [] }

abbrev pub is_unknown : ReplyType → Bool
is_unknown ReplyType.unknown = true
is_unknown _ = false

-- The loop over the elements, `count` of them to go, and the return.
unfoldable pub read_elements : ℕ → Reply → Bytes → List Receipt → Answer
unfolding broken_off
read_elements zero reply buffer receipts =
    Answer.answer (record reply { delivered = true }) (connected_with buffer) receipts
read_elements (suc count) reply buffer receipts = elim (read_line receipts buffer) [
  | LineRead.still_reading ↦ Answer.no_answer
  | LineRead.no_line text left ↦ broken_off reply text (connected_with buffer) left
  | LineRead.got line rest left ↦
      let head = parse line in
      let more = read_elements count (with_element reply head.payload) rest left in
      if is_unknown head.type
      then broken_off reply (codes "unrecognised element tag in: " ++ line) (connected_with rest)
          left
      else more
]

-- What is made of the first line.
unfoldable pub read_reply : Bytes → Bytes → List Receipt → Answer
unfolding broken_off read_elements
read_reply line buffer receipts =
    let head = parse line in
    let reply = record no_reply { type = head.type; payload = head.payload } in
    elim head.type [
      | ReplyType.unknown ↦
          broken_off no_reply (codes "unrecognised reply tag in: " ++ line) (connected_with buffer)
            receipts
      | ReplyType.array ↦ elim (parse_count head.payload) [
        | none ↦
            broken_off reply (codes "malformed array header: " ++ line) (connected_with buffer)
              receipts
        | some count ↦ read_elements count (record reply { payload = [] }) buffer receipts
      ]
      | _ ↦ Answer.answer (record reply { delivered = true }) (connected_with buffer) receipts
    ]

unfoldable pub read_first : LineRead → Answer
unfolding read_reply
read_first LineRead.still_reading = Answer.no_answer
read_first (LineRead.no_line text left) = broken_off no_reply text (connected_with []) left
read_first (LineRead.got line rest left) = read_reply line rest left

-- `command`, with the bytes that the socket has taken.
unfoldable pub command : Bytes → Bytes → List Result → List Receipt → VCacheClient → Bytes × Answer
unfolding client_send_all read_first
command stale command_line results receipts c =
    if not c.connected
    then (
      [],
      Answer.answer (record no_reply { transport_error = codes "not connected" }) c receipts,
    )
    else (let (out, sent) = client_send_all stale results (command_line ++ 10 ∷ []) [] in
        (
          out,
          elim sent [
            | Run.waiting ↦ Answer.no_answer
            | Run.returned (some text) left ↦
                broken_off no_reply (codes "send failed: " ++ text) c receipts
            | Run.returned none left ↦ read_first (read_line receipts c.buffer)
          ],
        ))
