-- ===== src/Server/Start.antt =====
-- src/Server.cpp: the state of a `Server`, `start` and `closeSockets`.
use redis_like_in_memory_dat.Base.{
  ℕ, Bytes, codes, [], ◌∷◌, ◌++◌, Option, none, some, Bool, true, false, not, ltb, ◌^◌, ◌&&◌,
  if◌then◌else◌,
}
use redis_like_in_memory_dat.Database.Engine.{Database, set_max_memory}
use redis_like_in_memory_dat.HashTable.Table.{Sizes}
use redis_like_in_memory_dat.Persistence.Outcome.{LoadStatus, LoadOutcome}
use redis_like_in_memory_dat.Persistence.Store.{SnapshotStore, make_store}
use redis_like_in_memory_dat.ThreadPool.Pool.{ThreadPool, make_pool}

-- The fields that the program sets and `start` reads; the intervals in milliseconds.
pub record ServerConfig : Type 0 where
  pub bind_address : Bytes
  pub port : ℕ
  pub thread_count : ℕ
  pub max_queued_connections : ℕ
  pub sweeper_interval : ℕ
  pub snapshot_path : Bytes
  pub save_interval : ℕ
  pub restore_on_start : Bool
  pub shard_count : ℕ
  pub max_memory_bytes : ℕ

-- `count() > 0` of an interval, the pattern of a signed 64-bit count: negative from 2⁶³ on.
abbrev pub is_positive : ℕ → Bool
is_positive interval = ltb 0 interval && ltb interval (2 ^ 63)

-- A task of the pool is the descriptor of a connection. `is_sweeping` and `is_saving`: the background
-- threads have been started.
pub record Server : Type 0 where
  pub listen_fd : Option ℕ
  pub shutdown_pipe : Option (ℕ × ℕ)
  pub pool : Option (ThreadPool ℕ)
  pub store : Option SnapshotStore
  pub is_sweeping : Bool
  pub is_saving : Bool
  pub bound_port : ℕ
  pub restored_entry_count : ℕ
  pub error : Bytes

-- `Server(database, config)`
abbrev pub make_server : Server
make_server = record {
  listen_fd = none;
  shutdown_pipe = none;
  pool = none;
  store = none;
  is_sweeping = false;
  is_saving = false;
  bound_port = 0;
  restored_entry_count = 0;
  error = [];
}

-- What a system call opens, or the text of its error.
pub data Opened {ℓ} (A : Type ℓ) : Type ℓ where
  opened : A → Opened A
  failed : Bytes → Opened A

-- What the system calls of `start` come to: a descriptor or a port, or the text of an error; `none` is
-- success where there is nothing else.
pub record StartCalls : Type 0 where
  pub socket : Opened ℕ
  pub set_reuse : Option Bytes
  pub is_address : Bool
  pub bind : Option Bytes
  pub listen : Option Bytes
  pub getsockname : Opened ℕ
  pub pipe : Opened (ℕ × ℕ)

abbrev pub describe_failure : Bytes → Bytes → Bytes
describe_failure what text = what ++ codes " failed: " ++ text

abbrev pub close_sockets : Server → Server
close_sockets s = record s { listen_fd = none; shutdown_pipe = none }

abbrev pub close_with : Bytes → Server → Server × Bool
close_with text s = (close_sockets (record s { error = text }), false)

-- The threads, once the sockets are there.
unfoldable pub start_threads : ServerConfig → Server → Server
start_threads config s = record s {
  pool = some (make_pool config.thread_count config.max_queued_connections);
  is_sweeping = ltb 0 config.sweeper_interval;
  is_saving = (elim s.store [ none ↦ false | some store ↦ is_positive config.save_interval ]);
}

unfoldable pub open_pipe : ServerConfig → Opened (ℕ × ℕ) → Server → Server × Bool
unfolding start_threads
open_pipe config (failed text) s = close_with (describe_failure (codes "pipe") text) s
open_pipe config (opened ends) s =
    (start_threads config (record s { shutdown_pipe = some ends }), true)

unfoldable pub name_socket : ServerConfig → StartCalls → Opened ℕ → Server → Server × Bool
unfolding open_pipe
name_socket config calls (failed text) s =
    close_with (describe_failure (codes "getsockname") text) s
name_socket config calls (opened port) s =
    open_pipe config calls.pipe (record s { bound_port = port })

unfoldable pub listen_on : ServerConfig → StartCalls → Option Bytes → Server → Server × Bool
unfolding name_socket
listen_on config calls (some text) s = close_with (describe_failure (codes "listen") text) s
listen_on config calls none s = name_socket config calls calls.getsockname s

unfoldable pub bind_to : ServerConfig → StartCalls → Option Bytes → Server → Server × Bool
unfolding listen_on
bind_to config calls (some text) s = close_with (describe_failure (codes "bind") text) s
bind_to config calls none s = listen_on config calls calls.listen s

unfoldable pub set_options : ServerConfig → StartCalls → Option Bytes → Server → Server × Bool
unfolding bind_to
set_options config calls (some text) s =
    close_with (describe_failure (codes "setsockopt(SO_REUSEADDR)") text) s
set_options config calls none s =
    if not calls.is_address
    then close_with (codes "invalid bind address: " ++ config.bind_address) s
    else bind_to config calls calls.bind s

unfoldable pub open_socket : ServerConfig → StartCalls → Opened ℕ → Server → Server × Bool
unfolding set_options
open_socket config calls (failed text) s =
    (record s { error = describe_failure (codes "socket") text }, false)
open_socket config calls (opened fd) s =
    set_options config calls calls.set_reuse (record s { listen_fd = some fd })

-- What a load, by its status, leaves of the server, and whether `start` goes on.
unfoldable pub after_load : ServerConfig → LoadOutcome → LoadStatus → Server → Server × Bool
after_load config outcome LoadStatus.failed s = (
  record s {
    store = none;
    error = codes "cannot load snapshot '" ++ config.snapshot_path ++ codes "': " ++ outcome.error;
  },
  false,
)
after_load config outcome _ s = (record s { restored_entry_count = outcome.entries_loaded }, true)

-- The store of a path, loaded or not, with the database; `load` is that of the store.
unfoldable pub store_for :
    ServerConfig
    → (SnapshotStore → Database → Database × LoadOutcome)
    → Bytes
    → Bool
    → Server
    → Database
    → Database × Server × Bool
unfolding after_load
store_for config load [] restores s db = (db, s, true)
store_for config load (c ∷ path) false s db =
    (db, record s { store = some (make_store (c ∷ path)) }, true)
store_for config load (c ∷ path) true s db =
    let store = make_store (c ∷ path) in
    let (db', outcome) = load store db in
    let (s', goes_on) =
      after_load config outcome outcome.status (record s { store = some store }) in
    (db', s', goes_on)

unfoldable pub set_up_store :
    ServerConfig
    → (SnapshotStore → Database → Database × LoadOutcome)
    → Server
    → Database
    → Database × Server × Bool
unfolding store_for
set_up_store config load s db =
    store_for config load config.snapshot_path config.restore_on_start s db

unfoldable pub sockets_if : Bool → ServerConfig → StartCalls → Server → Server × Bool
unfolding open_socket
sockets_if false config calls s = (s, false)
sockets_if true config calls s = open_socket config calls calls.socket s

-- What follows `setMaxMemory`, of which `none` is a fault.
unfoldable pub start_from :
    ServerConfig
    → StartCalls
    → (SnapshotStore → Database → Database × LoadOutcome)
    → Server
    → Option Database
    → Option (Database × Server × Bool)
unfolding set_up_store sockets_if
start_from config calls load s none = none
start_from config calls load s (some db) =
    let (db', s', goes_on) = set_up_store config load s db in
    let (s'', up) = sockets_if goes_on config calls s' in some (db', s'', up)

unfoldable pub start :
    Sizes
    → ServerConfig
    → StartCalls
    → (SnapshotStore → Database → Database × LoadOutcome)
    → Server
    → Database
    → Option (Database × Server × Bool)
unfolding start_from
start sz config calls load s db =
    start_from config calls load s (set_max_memory sz config.max_memory_bytes db)
