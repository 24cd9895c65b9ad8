-- ===== src/Tests/Programs.antt =====
-- The two programs at given arguments.
use redis_like_in_memory_dat.Base.{
  ℕ, ◌≡◌, refl, Bytes, codes, str_eq, List, [], ◌∷◌, ◌++◌, none, some, true, arith, inl, inr,
}
use redis_like_in_memory_dat.Client.Arrivals.{receipts_of}
use redis_like_in_memory_dat.Client.Connect.{resolved, connects}
use redis_like_in_memory_dat.Command.Token.{tokenize, strip_line_end}
use redis_like_in_memory_dat.Database.Engine
use redis_like_in_memory_dat.Database.Engine.{Database, set_max_memory}
use redis_like_in_memory_dat.Database.Shard.{evict_to_fit}
use redis_like_in_memory_dat.HashTable.Table.{default_bucket_count}
use redis_like_in_memory_dat.Persistence.Completes.{calls}
use redis_like_in_memory_dat.Persistence.Disk.{Disk}
use redis_like_in_memory_dat.Persistence.Store.{make_store}
use redis_like_in_memory_dat.Programs.Allowed.{IsAllowed, parse_arguments-IsAllowed}
use redis_like_in_memory_dat.Programs.Arguments
use redis_like_in_memory_dat.Programs.Arguments.{accepted}
use redis_like_in_memory_dat.Programs.ClientMain
use redis_like_in_memory_dat.Programs.ClientMain.{print_array}
use redis_like_in_memory_dat.Programs.FinalSave.{Told, main-Told, main_damaged}
use redis_like_in_memory_dat.Programs.Joined.{AllSendable, tokenize-join_one_shot}
use redis_like_in_memory_dat.Programs.KeysShown.{main_keys}
use redis_like_in_memory_dat.Programs.OneShot.{needs_quotes, has_blank, join_one_shot}
use redis_like_in_memory_dat.Programs.ServerMain
use redis_like_in_memory_dat.Programs.ServerMain.{default_config, LastSave, needs_file}
use redis_like_in_memory_dat.Programs.Shown.{heading, numbered}
use redis_like_in_memory_dat.Server.Lines.{cut}
use redis_like_in_memory_dat.Server.Start
use redis_like_in_memory_dat.Server.Start.{
  ServerConfig, Server, StartCalls, make_server, opened, start,
}
use redis_like_in_memory_dat.Tests.Connections.{
  two_keys, two_keys-AllKeys, answer_pieces, keys_sent, keys_arrive, absent, damaged,
}
use redis_like_in_memory_dat.Tests.Tables.{sizes}

abbrev arguments : List Bytes
arguments = codes "--dbfile" ∷ codes "dump.vcs" ∷ codes "--shards" ∷ codes "1" ∷ []

abbrev one_shard : ServerConfig
one_shard = record default_config { snapshot_path = codes "dump.vcs"; shard_count = 1 }

arguments-accepted : Arguments.parse_arguments arguments default_config ≡ accepted one_shard
unfolding Arguments.parse_arguments Arguments.apply_option Arguments.set_number str_eq
arguments-accepted = refl

abbrev before : Database
before = Engine.new default_bucket_count 1

no_limit : set_max_memory sizes 0 before ≡ some before
unfolding Engine.set_max_memory Engine.limit_from Engine.new Engine.round_up_to_power_of_two
    evict_to_fit
no_limit = refl

abbrev start_calls : StartCalls
start_calls = record {
  socket = opened 3;
  set_reuse = none;
  is_address = true;
  bind = none;
  listen = none;
  getsockname = opened 6379;
  pipe = opened (4, 5);
}

abbrev up : Server
up =
    (Start.start_threads one_shard (record make_server {
      listen_fd = some 3;
      shutdown_pipe = some (4, 5);
      store = some (make_store (codes "dump.vcs"));
      bound_port = 6379;
    }))

started : start sizes one_shard start_calls absent make_server before ≡ some (before, up, true)
unfolding Start.start Start.start_from Start.set_up_store Start.store_for Start.sockets_if
    Start.open_socket Start.start_threads
started = rw no_limit refl

abbrev disk : Disk
disk = record { target = none; temp = none }

abbrev last : LastSave
last = record {
  tick = 1;
  moments = λ i. 5;
  now = 6;
  clock = λ i. record { steady = 5; system = 1000 };
  results = calls (100 ∷ 100 ∷ 100 ∷ 100 ∷ []);
}

abbrev runs : Database → Server → Disk → Database × ℕ × Disk
runs db s d = (db, 0, d)

main-Told_example :
    Told last before disk (ServerMain.main sizes start_calls absent runs last disk arguments)
main-Told_example =
    main-Told sizes start_calls absent runs last disk arguments one_shard before up
      (make_store (codes "dump.vcs")) arguments-accepted refl started
      (unfold Start.start_threads in refl)

main_damaged_example :
    ServerMain.main sizes start_calls damaged runs last disk arguments
    ≡ ServerMain.ended 1
        (codes "error: cannot load snapshot '" ++ codes "dump.vcs" ++ codes "': " ++ codes "bad")
        disk
main_damaged_example =
    main_damaged sizes start_calls damaged runs last disk arguments one_shard before b'd'
      (codes "ump.vcs") arguments-accepted refl refl no_limit refl

default-IsAllowed : IsAllowed default_config
default-IsAllowed = record {
  port_fits = omega arith;
  some_thread = omega arith;
  few_threads = omega arith;
  some_shard = omega arith;
  few_shards = omega arith;
  memory_fits = omega arith;
}

parse_arguments-IsAllowed_example : IsAllowed one_shard
parse_arguments-IsAllowed_example =
    parse_arguments-IsAllowed arguments default_config one_shard default-IsAllowed
      arguments-accepted

abbrev parts : List Bytes
parts = codes "k" ∷ codes "a \"b\\" ∷ []

all_sendable : AllSendable (codes "SET" ∷ parts)
unfolding needs_quotes has_blank strip_line_end
all_sendable = (inr (refl, refl, refl), (inr (refl, refl, refl), (inl refl, tt)))

tokenize-join_one_shot_example :
    tokenize (join_one_shot (codes "SET" ∷ parts)) ≡ some (codes "SET" ∷ parts)
tokenize-join_one_shot_example = tokenize-join_one_shot (codes "SET") parts all_sendable

main_keys_example :
    (printed : Bytes) × (ClientMain.main [] []
        (codes "KEYS" ∷ [])
        (resolved (connects ∷ []))
        []
        true
        []
        (([], calls (4 ∷ [])) ∷ [])
        (receipts_of answer_pieces)
      ≡ ClientMain.ended 0 (record { out = printed; err = [] }))
    × (cut printed ≡ (heading two_keys ∷ numbered 1 two_keys, []))
main_keys_example =
    main_keys [] [] [] (codes "KEYS" ++ 10 ∷ []) [] true [] [] (calls (4 ∷ [])) [] two_keys
      answer_pieces two_keys-AllKeys (omega arith) keys_sent keys_arrive
