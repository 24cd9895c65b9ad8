-- ===== src/Server/Send.antt =====
-- src/Server.cpp: `sendAll` and `sendLine`.
use redis_like_in_memory_dat.Base.{Bytes, List, [], ◌∷◌, ◌++◌, Bool, true, false, take, drop}
use redis_like_in_memory_dat.Base.Calls.{Result, done, interrupted, broke, Run}

-- The bytes that are left, and those that the socket has taken so far.
unfoldable pub send_all : List Result → Bytes → Bytes → Bytes × Run Bool
send_all results [] out = (out, Run.returned true results)
send_all [] (b ∷ left) out = (out, Run.waiting)
send_all (done n ∷ results) (b ∷ left) out =
    send_all results (drop n (b ∷ left)) (out ++ take n (b ∷ left))
send_all (interrupted text ∷ results) (b ∷ left) out = send_all results (b ∷ left) out
send_all (broke text ∷ results) (b ∷ left) out = (out, Run.returned false results)

unfoldable pub send_line : List Result → Bytes → Bytes → Bytes × Run Bool
unfolding send_all
send_line results line out = send_all results (line ++ 10 ∷ []) out
