-- ===== src/Programs/KeysShown.antt =====
-- `vcache-cli KEYS`: from the server's reply to what is printed.
use redis_like_in_memory_dat.Base.{
  ◌≤◌, ◌≡◌, refl, ap, Bytes, codes, str_eq, List, [], ◌∷◌, ◌++◌, none, Bool, true, map, length,
}
use redis_like_in_memory_dat.Base.Calls.{Result, Run}
use redis_like_in_memory_dat.Client.Arrivals.{receipts_of}
use redis_like_in_memory_dat.Client.Command.{Answer, command, no_reply, connected_with}
use redis_like_in_memory_dat.Client.Connect.{resolved, Tried, connects, connect, try_addresses}
use redis_like_in_memory_dat.Client.Keys.{AllKeys, command-key_lines}
use redis_like_in_memory_dat.Client.Receive.{client_send_all}
use redis_like_in_memory_dat.Command.Escape.{escape_for_wire}
use redis_like_in_memory_dat.Command.Execute.{key_lines}
use redis_like_in_memory_dat.Programs.ClientMain.{
  ended, Sends, print_array, print_reply, after_one_shot, after_connect, parse_arguments, main,
}
use redis_like_in_memory_dat.Programs.OneShot.{join_one_shot}
use redis_like_in_memory_dat.Programs.Shown.{heading, numbered, cut-print_array}
use redis_like_in_memory_dat.Protocol.Encode
use redis_like_in_memory_dat.Protocol.Tag.{ReplyType}
use redis_like_in_memory_dat.Server.Framing.{joined}
use redis_like_in_memory_dat.Server.Lines.{cut}

answered :
    (out : Bytes) (keys : List Bytes) (buffer : Bytes) (left : List Bytes) (r : Bytes × Answer)
    → r ≡ (
      out,
      Answer.answer
          (record no_reply {
            delivered = true;
            type = ReplyType.array;
            elements = map escape_for_wire keys;
          })
          (connected_with buffer)
          (receipts_of left),
    )
    → after_one_shot r.1 (record { out = []; err = [] })
      ≡ ended 0 (record { out = print_array (map escape_for_wire keys); err = [] })
unfolding after_one_shot
answered out keys buffer left r e =
    rw (ap (λ (p : Bytes × Answer). p.1) e) (unfold print_reply in refl)

-- `vcache-cli KEYS`, where the first address that is found connects and the request line is sent whole: when the
-- reply of the server to `KEYS`, of up to a hundred million keys, arrives in any chunks, the program ends with
-- status 0 and prints nothing as an error. What it prints is, line by line, the number of the keys, or that there
-- are none, and then one line for each key, whatever bytes it has, in the order of the server: the keys are escaped,
-- between quotes and numbered from 1 on.
pub main_keys :
    (usage why stale out : Bytes) (candidates : List Tried) (interactive : Bool)
    (lines : List Bytes) (more : List Sends) (results sent : List Result) (keys chunks : List Bytes)
    → AllKeys keys
    → length keys ≤ 100000000
    → client_send_all stale results (codes "KEYS" ++ 10 ∷ []) [] ≡ (out, Run.returned none sent)
    → joined chunks ≡ (Encode.array_header (length keys) ++ key_lines keys) ++ 10 ∷ []
    → (printed : Bytes) × (main [] usage
          (codes "KEYS" ∷ [])
          (resolved (connects ∷ candidates))
          why
          interactive
          lines
          ((stale, results) ∷ more)
          (receipts_of chunks)
        ≡ ended 0 (record { out = printed; err = [] }))
      × (cut printed ≡ (heading keys ∷ numbered 1 keys, []))
unfolding main after_connect parse_arguments connect try_addresses join_one_shot str_eq
main_keys usage why stale out candidates interactive lines more results sent keys chunks f h k e =
    let (left, buffer, answer, rest) =
      command-key_lines stale (codes "KEYS") out results sent keys chunks f h k e in
    (
      print_array (map escape_for_wire keys),
      answered out keys buffer left
          (command stale (codes "KEYS") results (receipts_of chunks) (connected_with [])) answer,
      cut-print_array keys f,
    )
