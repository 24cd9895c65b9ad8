-- ===== src/Client/Receive.antt =====
-- src/VCacheClient.cpp: `sendAll` and `readLine`.
use redis_like_in_memory_dat.Base.{
  zero, suc, Bytes, codes, List, [], ◌∷◌, ◌++◌, Option, none, some, take, drop,
}
use redis_like_in_memory_dat.Base.Calls.{Result, done, interrupted, broke, Run}
use redis_like_in_memory_dat.Server.Lines.{find_line}

-- As the server's, but a `send` that takes nothing is an error; `stale` is the text of the `errno` that an
-- earlier call left. At the end, `none`, or the text of the error.
unfoldable pub client_send_all : Bytes → List Result → Bytes → Bytes → Bytes × Run (Option Bytes)
client_send_all stale results [] out = (out, Run.returned none results)
client_send_all stale [] (b ∷ left) out = (out, Run.waiting)
client_send_all stale (done zero ∷ results) (b ∷ left) out =
    (out, Run.returned (some stale) results)
client_send_all stale (done (suc n) ∷ results) (b ∷ left) out =
    client_send_all stale results (drop n left) (out ++ b ∷ take n left)
client_send_all stale (interrupted text ∷ results) (b ∷ left) out =
    client_send_all stale results (b ∷ left) out
client_send_all stale (broke text ∷ results) (b ∷ left) out =
    (out, Run.returned (some text) results)

-- What `recv` returns: bytes, 0, or an error: `EINTR`, `EAGAIN` after the time limit, or another.
pub data Receipt : Type 0 where
  bytes : Bytes → Receipt
  closed : Receipt
  retried : Receipt
  timed_out : Receipt
  unread : Bytes → Receipt

-- A line, with the buffer and the receipts that are left; the text of an error; or no return yet.
pub data LineRead : Type 0 where
  got : Bytes → Bytes → List Receipt → LineRead
  no_line : Bytes → List Receipt → LineRead
  still_reading : LineRead

unfoldable pub read_line : List Receipt → Bytes → LineRead
read_line [] buffer = elim (find_line buffer) [
  | some (line, rest) ↦ LineRead.got line rest []
  | none ↦ LineRead.still_reading
]
read_line (r ∷ receipts) buffer = elim (find_line buffer) [
  | some (line, rest) ↦ LineRead.got line rest (r ∷ receipts)
  | none ↦ elim r [
    | bytes chunk ↦ read_line receipts (buffer ++ chunk)
    | retried ↦ read_line receipts buffer
    | closed ↦ LineRead.no_line (codes "server closed the connection") receipts
    | timed_out ↦ LineRead.no_line (codes "timed out waiting for a reply") receipts
    | unread text ↦ LineRead.no_line (codes "read failed: " ++ text) receipts
  ]
]
