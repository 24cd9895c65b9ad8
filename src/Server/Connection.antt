-- ===== src/Server/Connection.antt =====
-- src/Server.cpp: `handleConnection`. The executor and the socket are parameters: `executes` returns
-- `none` on a fault, and `sends` is `sendLine`.
use redis_like_in_memory_dat.Base.{
  ℕ, zero, suc, Bytes, codes, List, [], ◌∷◌, ◌++◌, Option, none, some, ltb, if◌then◌else◌, length,
}
use redis_like_in_memory_dat.Protocol.Encode
use redis_like_in_memory_dat.Server.Lines.{find_line}

-- What `sendLine` comes to: true, false, or no return yet.
pub data Sending : Type 0 where
  delivered : Sending
  lost : Sending
  blocked : Sending

-- What a turn of the loop in `handleConnection` begins with: the flag `running_` is false, or `recv` has
-- returned.
pub data Event : Type 0 where
  stopped : Event
  interrupted : Event
  broken : Event
  closed : Event
  received : Bytes → Event

-- Where a connection stands: in `recv`, with a line unfinished; returned; in `send`; or at a fault.
pub data Served (W : Type 0) : Type 0 where
  reading : W → Bytes → Served W
  ended : W → Served W
  sending : W → Served W
  fault : Served W

abbrev pub then_serve : {W : Type 0} → Served W → (W → Bytes → Served W) → Served W
then_serve (reading w pending) f = f w pending
then_serve (ended w) f = ended w
then_serve (sending w) f = sending w
then_serve fault f = fault

-- After a reply, the loop goes on with `rest`.
abbrev pub after_send : {W : Type 0} → Bytes → W × Sending → Served W
after_send rest (w, delivered) = reading w rest
after_send rest (w, lost) = ended w
after_send rest (w, blocked) = sending w

abbrev pub after_refusal : {W : Type 0} → W × Sending → Served W
after_refusal (w, delivered) = ended w
after_refusal (w, lost) = ended w
after_refusal (w, blocked) = sending w

module _ {W : Type 0} (executes : Bytes → W → Option (W × Option Bytes))
    (sends : Bytes → W → W × Sending) where
  -- What `execute` returned is sent, before `rest`.
  unfoldable pub answer : Bytes → Option (W × Option Bytes) → Served W
  answer rest none = fault
  answer rest (some (w, none)) = reading w rest
  answer rest (some (w, some reply)) = after_send rest (sends reply w)

  unfoldable pub respond : Bytes → Bytes → W → Served W
  unfolding answer
  respond line rest w = answer rest (executes line w)

  -- The inner loop. Each turn takes a byte at least.
  unfoldable pub serve_lines : ℕ → Bytes → W → Served W
  unfolding respond
  serve_lines zero pending w = reading w pending
  serve_lines (suc fuel) pending w = elim (find_line pending) [
    | none ↦ reading w pending
    | some (line, rest) ↦
        then_serve (respond line rest w) (λ w' pending'. serve_lines fuel pending' w')
  ]

  unfoldable pub handle_connection : ℕ → List Event → Bytes → W → Served W
  unfolding serve_lines
  handle_connection max_request_bytes [] pending w = reading w pending
  handle_connection max_request_bytes (stopped ∷ events) pending w = ended w
  handle_connection max_request_bytes (interrupted ∷ events) pending w =
      handle_connection max_request_bytes events pending w
  handle_connection max_request_bytes (broken ∷ events) pending w = ended w
  handle_connection max_request_bytes (closed ∷ events) pending w = ended w
  handle_connection max_request_bytes (received chunk ∷ events) pending w =
      then_serve (serve_lines (length (pending ++ chunk)) (pending ++ chunk) w) (λ w' rest.
        let more = handle_connection max_request_bytes events rest w' in
        if ltb max_request_bytes (length rest)
        then after_refusal (sends (Encode.error (codes "ERR request too large")) w')
        else more)

  -- Line by line, with the end of the stream left.
  unfoldable pub serve_each : List Bytes → Bytes → W → Served W
  unfolding respond
  serve_each [] end w = reading w end
  serve_each (line ∷ lines) end w =
      then_serve (respond line end w) (λ w' pending. serve_each lines end w')
