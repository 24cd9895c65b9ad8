-- ===== src/Tests/Connections.antt =====
-- A connection to a small database, from both ends, and the start of a server.
use redis_like_in_memory_dat.Base.{
  ℕ, ◌+◌, ◌≤◌, ◌≡◌, refl, Bytes, codes, List, [], ◌∷◌, ◌++◌, map, some, none, true, false, arith,
  replicate, length,
}
use redis_like_in_memory_dat.Base.Calls.{Run}
use redis_like_in_memory_dat.Client.Arrivals.{receipts_of}
use redis_like_in_memory_dat.Client.Command.{Answer, no_reply, connected_with, command}
use redis_like_in_memory_dat.Client.Keys.{AllKeys, no_key, and_key, command-key_lines}
use redis_like_in_memory_dat.Client.Receive.{client_send_all}
use redis_like_in_memory_dat.Command.Escape.{escape_for_wire, escape_byte}
use redis_like_in_memory_dat.Command.Execute.{key_lines}
use redis_like_in_memory_dat.Database.Engine.{Database, set_max_memory, limit_from}
use redis_like_in_memory_dat.Persistence.Completes.{calls}
use redis_like_in_memory_dat.Persistence.Outcome.{LoadStatus, LoadOutcome}
use redis_like_in_memory_dat.Persistence.Store.{SnapshotStore, make_store, failed_load}
use redis_like_in_memory_dat.Protocol.Count.{to_string, decimal}
use redis_like_in_memory_dat.Protocol.Encode
use redis_like_in_memory_dat.Protocol.Tag.{ReplyType, tag}
use redis_like_in_memory_dat.Server.ClosedOnce.{Each, IsKept, acts-IsKept}
use redis_like_in_memory_dat.Server.Connection.{reading, handle_connection, serve_each}
use redis_like_in_memory_dat.Server.Framing.{
  AllShort, short_end, short_line, joined, arrivals, handle_connection-serve_each,
}
use redis_like_in_memory_dat.Server.Lines.{cut}
use redis_like_in_memory_dat.Server.Peer.{Peer, executes_on, sends_on}
use redis_like_in_memory_dat.Server.Registry.{
  Act, accepts, clears, shuts_down, registers, tests, finishes, closes_fd, acts, listening,
}
use redis_like_in_memory_dat.Server.Start.{
  ServerConfig, Server, make_server, StartCalls, opened, failed, start, start_from, set_up_store,
  store_for, sockets_if, open_socket,
}
use redis_like_in_memory_dat.Server.StartSafe.{Settled, start-Settled}
use redis_like_in_memory_dat.Server.Transcript.{handle_connection-set_then_get}
use redis_like_in_memory_dat.Tests.Commands.{set_line, get_line}
use redis_like_in_memory_dat.Tests.Databases.{fresh, fresh-IsSound, fresh-AllFit, roomy}
use redis_like_in_memory_dat.Tests.Tables.{sizes, key_a, key_b}

abbrev sends : List ℕ
sends = replicate 9 0

abbrev peer : Peer
peer = record { db = fresh; requests = 0; results = calls sends; output = [] }

abbrev first_line : Bytes
first_line = codes "set a 1"

abbrev second_line : Bytes
second_line = codes "GET \"a\"  "

-- Two requests, cut inside the first one.
abbrev pieces : List Bytes
pieces = codes "set" ∷ (codes " a 1" ++ 10 ∷ second_line ++ 10 ∷ []) ∷ []

pieces-cut : cut (joined pieces) ≡ (first_line ∷ second_line ∷ [], [])
unfolding cut joined
pieces-cut = refl

pieces-AllShort : AllShort 100 (cut (joined pieces)).0 (cut (joined pieces)).1
unfolding cut joined
pieces-AllShort = short_line (omega arith) (short_line (omega arith) (short_end (omega arith)))

handle_connection-serve_each_example :
    handle_connection
      (executes_on sizes none (λ i. 5) (λ i j. 9))
      sends_on
      100
      (arrivals pieces)
      []
      peer
    ≡ serve_each
        (executes_on sizes none (λ i. 5) (λ i j. 9))
        sends_on
        (cut (joined pieces)).0
        (cut (joined pieces)).1
        peer
handle_connection-serve_each_example =
    handle_connection-serve_each (executes_on sizes none (λ i. 5) (λ i j. 9)) sends_on 100 pieces
      peer pieces-AllShort

short_value : 6 + length (escape_for_wire (codes "1")) ≤ length sends
unfolding escape_for_wire escape_byte
short_value = omega arith

handle_connection-set_then_get_example :
    (p : Peer) × (handle_connection
        (executes_on sizes none (λ i. 5) (λ r i. 9))
        sends_on
        100
        (arrivals pieces)
        []
        peer
      ≡ reading p [])
    × (p.output
        ≡ ([] ++ (Encode.status (codes "OK") ++ 10 ∷ []))
          ++ (Encode.value (escape_for_wire (codes "1")) ++ 10 ∷ []))
handle_connection-set_then_get_example =
    handle_connection-set_then_get sizes none (λ i. 5) (λ i. 9) 100 pieces first_line second_line
      key_a (codes "1") peer sends fresh-IsSound fresh-AllFit roomy set_line get_line pieces-cut
      (omega arith) (omega arith) refl short_value

abbrev pub two_keys : List Bytes
two_keys = key_a ∷ key_b ∷ []

-- "*2\n$a\n$b\n", cut inside the second line
abbrev pub answer_pieces : List Bytes
answer_pieces = (42 ∷ 50 ∷ 10 ∷ 36 ∷ []) ∷ (97 ∷ 10 ∷ 36 ∷ 98 ∷ 10 ∷ []) ∷ []

pub two_keys-AllKeys : AllKeys two_keys
two_keys-AllKeys = and_key (omega arith, tt) (and_key (omega arith, tt) no_key)

pub keys_sent :
    client_send_all [] (calls (4 ∷ [])) (codes "KEYS" ++ 10 ∷ []) []
    ≡ (codes "KEYS" ++ 10 ∷ [], Run.returned none [])
unfolding client_send_all calls
keys_sent = refl

pub keys_arrive :
    joined answer_pieces ≡ (Encode.array_header (length two_keys) ++ key_lines two_keys) ++ 10 ∷ []
unfolding joined Encode.array_header tag to_string decimal key_lines Encode.value escape_for_wire
    escape_byte
keys_arrive = refl

command-key_lines_example :
    (left : List Bytes) × (buffer : Bytes) × (command []
        (codes "KEYS")
        (calls (4 ∷ []))
        (receipts_of answer_pieces)
        (connected_with [])
      ≡ (
        codes "KEYS" ++ 10 ∷ [],
        Answer.answer
            (record no_reply {
              delivered = true;
              type = ReplyType.array;
              elements = map escape_for_wire two_keys;
            })
            (connected_with buffer)
            (receipts_of left),
      ))
    × (buffer ++ joined left ≡ [])
command-key_lines_example =
    command-key_lines [] (codes "KEYS") (codes "KEYS" ++ 10 ∷ []) (calls (4 ∷ [])) [] two_keys
      answer_pieces two_keys-AllKeys (omega arith) keys_sent keys_arrive

abbrev bare : Database
bare = record { shards = []; shard_mask = 0; shard_shift = 0; max_memory_bytes = 0 }

abbrev config : ServerConfig
config = record {
  bind_address = codes "127.0.0.1";
  port = 6379;
  shard_count = 64;
  thread_count = 64;
  max_queued_connections = 128;
  sweeper_interval = 100;
  snapshot_path = codes "dump.vcs";
  save_interval = 0;
  restore_on_start = true;
  max_memory_bytes = 0;
}

abbrev start_calls : StartCalls
start_calls = record {
  socket = failed (codes "Too many open files");
  set_reuse = none;
  is_address = true;
  bind = none;
  listen = none;
  getsockname = opened 6379;
  pipe = opened (4, 5);
}

abbrev pub damaged : SnapshotStore → Database → Database × LoadOutcome
damaged store db = (db, failed_load (codes "bad"))

abbrev pub absent : SnapshotStore → Database → Database × LoadOutcome
absent store db = (db, record { status = LoadStatus.not_found; entries_loaded = 0; error = [] })

abbrev unopened : Server
unopened = record make_server {
  store = some (make_store (codes "dump.vcs"));
  error = codes "socket failed: Too many open files";
}

not_opened : start sizes config start_calls absent make_server bare ≡ some (bare, unopened, false)
unfolding start start_from set_up_store store_for sockets_if open_socket set_max_memory limit_from
not_opened = refl

start-Settled_example : Settled (unopened, false)
start-Settled_example =
    start-Settled sizes config start_calls absent bare bare unopened false not_opened

-- Of two connections, one is served when the server stops, and one is registered after that.
abbrev stopping : List Act
stopping =
    accepts
    ∷ accepts
    ∷ registers 0
    ∷ tests 0
    ∷ clears
    ∷ shuts_down
    ∷ registers 1
    ∷ tests 1
    ∷ finishes 0
    ∷ closes_fd 1
    ∷ closes_fd 0
    ∷ []

acts-IsKept_example :
    Each (IsKept (acts stopping listening).is_shut_down) (acts stopping listening).connections
acts-IsKept_example = acts-IsKept stopping
