-- ===== src/Server/Framing.antt =====
-- The requests that a connection serves do not depend on how the stream arrives.
use redis_like_in_memory_dat.Base.{
  ℕ, zero, suc, ◌≤◌, ◌≡◌, refl, sym, ap, ◌∙◌, arith, Bytes, codes, List, [], ◌∷◌, ◌++◌, Option,
  none, some, ltb, false, if◌then◌else◌, length, append_assoc, append-nil, Option-cases, inl, inr,
}
use redis_like_in_memory_dat.Protocol.Encode
use redis_like_in_memory_dat.Server.Connection.{
  Sending, Event, received, Served, reading, then_serve, after_send, after_refusal, answer, respond,
  serve_lines, handle_connection, serve_each, delivered, lost, blocked, ended, sending, fault,
}
use redis_like_in_memory_dat.Server.Lines.{
  find_line, cut, cut-none, cut-some, cut-append, cut-end, find_line-shorter, first, length_end-le,
}

-- What arrives, in all.
unfoldable pub joined : List Bytes → Bytes
joined [] = []
joined (chunk ∷ chunks) = chunk ++ joined chunks

unfoldable pub arrivals : List Bytes → List Event
arrivals [] = []
arrivals (chunk ∷ chunks) = received chunk ∷ arrivals chunks

-- Every line, and the end, has at most `most` bytes.
pub data AllShort (most : ℕ) : List Bytes → Bytes → Type 0 where
  short_end : {end : Bytes} → length end ≤ most → AllShort most [] end
  short_line :
      {line end : Bytes} {lines : List Bytes}
      → length line ≤ most
      → AllShort most lines end
      → AllShort most (line ∷ lines) end

first-le :
    (most : ℕ) (lines : List Bytes) (end : Bytes)
    → AllShort most lines end
    → first (lines, end) ≤ most
first-le most [] end (short_end h) = h
first-le most (line ∷ lines) end (short_line h hs) = h

AllShort-right :
    (most : ℕ) (lines lines' : List Bytes) (end : Bytes)
    → AllShort most (lines ++ lines') end
    → AllShort most lines' end
AllShort-right most [] lines' end h = h
AllShort-right most (line ∷ lines) lines' end (short_line h hs) =
    AllShort-right most lines lines' end hs

module _ {W : Type 0} where
  then_serve_assoc :
      (r : Served W) (f g : W → Bytes → Served W)
      → then_serve (then_serve r f) g ≡ then_serve r (λ w rest. then_serve (f w rest) g)
  then_serve_assoc (reading w rest) f g = refl
  then_serve_assoc (ended w) f g = refl
  then_serve_assoc (sending w) f g = refl
  then_serve_assoc fault f g = refl

  after_send-then :
      (s : W × Sending) (rest rest' : Bytes) (f g : W → Bytes → Served W)
      → ((w : W) → f w rest ≡ g w rest')
      → then_serve (after_send rest s) f ≡ then_serve (after_send rest' s) g
  after_send-then (w, delivered) rest rest' f g h = h w
  after_send-then (w, lost) rest rest' f g h = refl
  after_send-then (w, blocked) rest rest' f g h = refl

module _ {W : Type 0} (executes : Bytes → W → Option (W × Option Bytes))
    (sends : Bytes → W → W × Sending) where
  answer-then :
      (rest rest' : Bytes) (o : Option (W × Option Bytes)) (f g : W → Bytes → Served W)
      → ((w : W) → f w rest ≡ g w rest')
      → then_serve (answer executes sends rest o) f ≡ then_serve (answer executes sends rest' o) g
  unfolding answer
  answer-then rest rest' none f g h = refl
  answer-then rest rest' (some (w, none)) f g h = h w
  answer-then rest rest' (some (w, some reply)) f g h =
      after_send-then (sends reply w) rest rest' f g h

  -- What is left after a line is what was before it, if the connection goes on.
  respond-then :
      (line rest rest' : Bytes) (w : W) (f g : W → Bytes → Served W)
      → ((w' : W) → f w' rest ≡ g w' rest')
      → then_serve (respond executes sends line rest w) f
        ≡ then_serve (respond executes sends line rest' w) g
  unfolding respond
  respond-then line rest rest' w f g h = answer-then rest rest' (executes line w) f g h

  serve_each-then :
      (lines lines' : List Bytes) (end end' : Bytes) (w : W) (f : W → Bytes → Served W)
      → ((w' : W) → f w' end ≡ serve_each executes sends lines' end' w')
      → then_serve (serve_each executes sends lines end w) f
        ≡ serve_each executes sends (lines ++ lines') end' w
  unfolding serve_each
  serve_each-then [] lines' end end' w f h = h w
  serve_each-then (line ∷ lines) lines' end end' w f h =
      then_serve_assoc (respond executes sends line end w)
        (λ w' rest. serve_each executes sends lines end w') f
      ∙ respond-then line end end' w
          (λ w' rest. then_serve (serve_each executes sends lines end w') f)
          (λ w' rest. serve_each executes sends (lines ++ lines') end' w')
          (λ w'. serve_each-then lines lines' end end' w' f h)

  -- Enough fuel for the inner loop is the length of what is pending: all its lines are served in turn, until
  -- one ends the connection, and its end is left.
  serve_lines-serve_each :
      (fuel : ℕ) (pending : Bytes) (w : W)
      → length pending ≤ fuel
      → serve_lines executes sends fuel pending w
        ≡ serve_each executes sends (cut pending).0 (cut pending).1 w
  unfolding serve_lines serve_each cut
  serve_lines-serve_each zero [] w h = refl
  serve_lines-serve_each zero (b ∷ pending) w h = absurd (omega (arith, h))
  serve_lines-serve_each (suc fuel) pending w h = elim (Option-cases (find_line pending)) [
    | inl none_left ↦ rw (cut-none pending none_left, none_left, serve_lines) refl
    | inr ((line, rest), found) ↦
        rw (cut-some pending line rest found, found, serve_lines)
          (respond-then line rest (cut rest).1 w
            (λ w' pending'. serve_lines executes sends fuel pending' w')
            (λ w' pending'. serve_each executes sends (cut rest).0 (cut rest).1 w')
            (λ w'.
              serve_lines-serve_each fuel rest w'
                (omega (arith, h, find_line-shorter pending line rest found))))
  ]

  handle_chunks :
      (most : ℕ) (chunks : List Bytes) (pending : Bytes) (w : W)
      → cut pending ≡ ([], pending)
      → AllShort most (cut (pending ++ joined chunks)).0 (cut (pending ++ joined chunks)).1
      → handle_connection executes sends most (arrivals chunks) pending w
        ≡ serve_each executes sends
            (cut (pending ++ joined chunks)).0
            (cut (pending ++ joined chunks)).1
            w
  unfolding handle_connection serve_each joined arrivals
  handle_chunks most [] pending w e h = rw (append-nil pending, e) refl
  handle_chunks most (chunk ∷ chunks) pending w e h =
      let s = pending ++ chunk in
      let (lines, end) = cut s in
      let whole : cut (pending ++ (chunk ++ joined chunks))
          ≡ (lines ++ (cut (end ++ joined chunks)).0, (cut (end ++ joined chunks)).1) =
        ap cut (sym (append_assoc pending chunk (joined chunks))) ∙ cut-append s (joined chunks) in
      let short : AllShort most (cut (end ++ joined chunks)).0 (cut (end ++ joined chunks)).1 =
        AllShort-right most lines (cut (end ++ joined chunks)).0 (cut (end ++ joined chunks)).1
          (rw whole at h) in
      let kept : ltb most (length end) ≡ false = ground (
        arith,
        length_end-le s (joined chunks),
        first-le most (cut (end ++ joined chunks)).0 (cut (end ++ joined chunks)).1 short,
      ) in
      rw (whole, serve_lines-serve_each (length s) s w (omega arith), handle_connection)
        (serve_each-then lines (cut (end ++ joined chunks)).0 end (cut (end ++ joined chunks)).1 w
          (λ w' rest.
            let more = handle_connection executes sends most (arrivals chunks) rest w' in
            if ltb most (length rest)
            then after_refusal (sends (Encode.error (codes "ERR request too large")) w')
            else more)
          (λ w'. rw kept (handle_chunks most chunks end w' (cut-end s) short)))

  -- Requests arrive in any number of chunks, cut anywhere; no line of what has arrived, and no unfinished one,
  -- exceeds the limit. The connection serves exactly the lines of the whole stream, in their order, until
  -- one ends it, and keeps the unfinished line.
  pub handle_connection-serve_each :
      (max_request_bytes : ℕ) (chunks : List Bytes) (w : W)
      → AllShort max_request_bytes (cut (joined chunks)).0 (cut (joined chunks)).1
      → handle_connection executes sends max_request_bytes (arrivals chunks) [] w
        ≡ serve_each executes sends (cut (joined chunks)).0 (cut (joined chunks)).1 w
  unfolding cut
  handle_connection-serve_each max_request_bytes chunks w h =
      handle_chunks max_request_bytes chunks [] w (cut-end []) h
