-- ===== src/Server/StartSafe.antt =====
-- A start that fails leaves nothing open, and one of a damaged snapshot fails.
use redis_like_in_memory_dat.Base.{
  ℕ, ◌≡◌, refl, Bytes, codes, [], ◌∷◌, ◌++◌, Option, none, some, Bool, true, false, not,
  if◌then◌else◌,
}
use mathlib.Core.Path.{subst}
use redis_like_in_memory_dat.Database.Engine.{Database, set_max_memory}
use redis_like_in_memory_dat.HashTable.Table.{Sizes}
use redis_like_in_memory_dat.Persistence.Outcome.{LoadStatus, LoadOutcome}
use redis_like_in_memory_dat.Persistence.Store.{SnapshotStore, make_store}
use redis_like_in_memory_dat.Server.Start.{
  ServerConfig, Server, make_server, StartCalls, Opened, opened, failed, open_pipe, name_socket,
  listen_on, bind_to, set_options, open_socket, after_load, store_for, set_up_store, sockets_if,
  start_from, start, start_threads,
}
use redis_like_in_memory_dat.ThreadPool.Pool.{ThreadPool}

-- No thread has been started.
pub record IsIdle (s : Server) : Type 0 where
  pub no_pool : s.pool ≡ none
  pub no_sweeper : s.is_sweeping ≡ false
  pub no_scheduler : s.is_saving ≡ false

-- Everything that `run` needs is there.
pub record IsUp (s : Server) : Type 0 where
  pub fd : ℕ
  pub ends : ℕ × ℕ
  pub pool : ThreadPool ℕ
  pub has_socket : s.listen_fd ≡ some fd
  pub has_pipe : s.shutdown_pipe ≡ some ends
  pub has_pool : s.pool ≡ some pool

-- No descriptor is open, and no thread has been started.
pub record IsDown (s : Server) : Type 0 where
  pub no_socket : s.listen_fd ≡ none
  pub no_pipe : s.shutdown_pipe ≡ none
  pub idle : IsIdle s

abbrev pub Settled : Server × Bool → Type 0
Settled (s, true) = IsUp s
Settled (s, false) = IsDown s

abbrev HasSocket : Server → Type 0
HasSocket s = (fd : ℕ) × (s.listen_fd ≡ some fd)

closed :
    (s : Server) (text : Bytes)
    → IsIdle s
    → IsDown (record s { listen_fd = none; shutdown_pipe = none; error = text })
closed s text i = record {
  no_socket = refl;
  no_pipe = refl;
  idle = record { no_pool = i.no_pool; no_sweeper = i.no_sweeper; no_scheduler = i.no_scheduler };
}

kept :
    (s : Server) (text : Bytes) (store : Option SnapshotStore) (count : ℕ)
    → IsDown s
    → IsDown (record s { error = text; store = store; restored_entry_count = count })
kept s text store count d = record {
  no_socket = d.no_socket;
  no_pipe = d.no_pipe;
  idle = record {
    no_pool = d.idle.no_pool;
    no_sweeper = d.idle.no_sweeper;
    no_scheduler = d.idle.no_scheduler;
  };
}

module _ (config : ServerConfig) (calls : StartCalls) where
  open_pipe-Settled :
      (r : Opened (ℕ × ℕ)) (s : Server) → IsIdle s → HasSocket s → Settled (open_pipe config r s)
  unfolding open_pipe start_threads
  open_pipe-Settled (failed text) s i h = closed s _ i
  open_pipe-Settled (opened ends) s i (fd, h) = record {
    fd = fd;
    ends = ends;
    pool = _;
    has_socket = h;
    has_pipe = refl;
    has_pool = refl;
  }

  name_socket-Settled :
      (r : Opened ℕ) (s : Server) → IsIdle s → HasSocket s → Settled (name_socket config calls r s)
  unfolding name_socket
  name_socket-Settled (failed text) s i h = closed s _ i
  name_socket-Settled (opened port) s i h =
      open_pipe-Settled calls.pipe (record s { bound_port = port })
        (record { no_pool = i.no_pool; no_sweeper = i.no_sweeper; no_scheduler = i.no_scheduler }) h

  listen_on-Settled :
      (r : Option Bytes) (s : Server)
      → IsIdle s
      → HasSocket s
      → Settled (listen_on config calls r s)
  unfolding listen_on
  listen_on-Settled (some text) s i h = closed s _ i
  listen_on-Settled none s i h = name_socket-Settled calls.getsockname s i h

  bind_to-Settled :
      (r : Option Bytes) (s : Server) → IsIdle s → HasSocket s → Settled (bind_to config calls r s)
  unfolding bind_to
  bind_to-Settled (some text) s i h = closed s _ i
  bind_to-Settled none s i h = listen_on-Settled calls.listen s i h

  choice-Settled :
      (b : Bool) (text : Bytes) (s : Server)
      → IsIdle s
      → HasSocket s
      → Settled (
          if not b
          then (record s { listen_fd = none; shutdown_pipe = none; error = text }, false)
          else bind_to config calls calls.bind s)
  choice-Settled true text s i h = bind_to-Settled calls.bind s i h
  choice-Settled false text s i h = closed s text i

  set_options-Settled :
      (r : Option Bytes) (s : Server)
      → IsIdle s
      → HasSocket s
      → Settled (set_options config calls r s)
  unfolding set_options
  set_options-Settled (some text) s i h = closed s _ i
  set_options-Settled none s i h = choice-Settled calls.is_address _ s i h

  open_socket-Settled :
      (r : Opened ℕ) (s : Server) → IsDown s → Settled (open_socket config calls r s)
  unfolding open_socket
  open_socket-Settled (failed text) s d = record {
    no_socket = d.no_socket;
    no_pipe = d.no_pipe;
    idle = record {
      no_pool = d.idle.no_pool;
      no_sweeper = d.idle.no_sweeper;
      no_scheduler = d.idle.no_scheduler;
    };
  }
  open_socket-Settled (opened fd) s d =
      set_options-Settled calls.set_reuse (record s { listen_fd = some fd })
        (record {
          no_pool = d.idle.no_pool;
          no_sweeper = d.idle.no_sweeper;
          no_scheduler = d.idle.no_scheduler;
        })
        (fd, refl)

  sockets_if-Settled : (b : Bool) (s : Server) → IsDown s → Settled (sockets_if b config calls s)
  unfolding sockets_if
  sockets_if-Settled false s d = d
  sockets_if-Settled true s d = open_socket-Settled calls.socket s d

  after_load-IsDown :
      (outcome : LoadOutcome) (status : LoadStatus) (s : Server)
      → IsDown s
      → IsDown (after_load config outcome status s).0
  unfolding after_load
  after_load-IsDown outcome LoadStatus.failed s d = kept s _ none s.restored_entry_count d
  after_load-IsDown outcome LoadStatus.loaded s d = kept s s.error s.store outcome.entries_loaded d
  after_load-IsDown outcome LoadStatus.not_found s d =
      kept s s.error s.store outcome.entries_loaded d

  store_for-IsDown :
      (load : SnapshotStore → Database → Database × LoadOutcome) (path : Bytes) (restores : Bool)
      (s : Server) (db : Database)
      → IsDown s
      → IsDown (store_for config load path restores s db).1
  unfolding store_for
  store_for-IsDown load [] restores s db d = d
  store_for-IsDown load (c ∷ path) false s db d =
      kept s s.error (some (make_store (c ∷ path))) s.restored_entry_count d
  store_for-IsDown load (c ∷ path) true s db d =
      let (db', outcome) = load (make_store (c ∷ path)) db in
      after_load-IsDown outcome outcome.status (record s { store = some (make_store (c ∷ path)) })
        (kept s s.error (some (make_store (c ∷ path))) s.restored_entry_count d)

new-IsDown : IsDown make_server
new-IsDown = record {
  no_socket = refl;
  no_pipe = refl;
  idle = record { no_pool = refl; no_sweeper = refl; no_scheduler = refl };
}

StartedWell : Option (Database × Server × Bool) → Type 0
StartedWell none = Unit {0}
StartedWell (some (db, s, up)) = Settled (s, up)

start_from-StartedWell :
    (config : ServerConfig) (calls : StartCalls)
    (load : SnapshotStore → Database → Database × LoadOutcome) (o : Option Database)
    → StartedWell (start_from config calls load make_server o)
unfolding start_from set_up_store StartedWell
start_from-StartedWell config calls load none = tt
start_from-StartedWell config calls load (some db) =
    let (db', s, goes_on) = set_up_store config load make_server db in
    sockets_if-Settled config calls goes_on s (
      store_for-IsDown config calls load config.snapshot_path config.restore_on_start make_server db
        new-IsDown)

-- Whichever of its system calls fail, and whatever the load comes to: a new server of which `start` returns
-- true has a listening socket, a shutdown pipe and a pool, and one of which it returns false has no
-- descriptor open and has started no thread.
pub start-Settled :
    (sz : Sizes) (config : ServerConfig) (calls : StartCalls)
    (load : SnapshotStore → Database → Database × LoadOutcome) (db db' : Database) (s : Server)
    (up : Bool)
    → start sz config calls load make_server db ≡ some (db', s, up)
    → Settled (s, up)
unfolding start StartedWell
start-Settled sz config calls load db db' s up h =
    subst StartedWell h
      (start_from-StartedWell config calls load (set_max_memory sz config.max_memory_bytes db))

-- A server with a snapshot file, which it is to restore: when the load fails, `start` returns false, nothing
-- is open, and there is no store, so that nothing can write over the file; the error quotes the path and the
-- error of the load.
pub start_damaged :
    (sz : Sizes) (config : ServerConfig) (calls : StartCalls)
    (load : SnapshotStore → Database → Database × LoadOutcome) (db limited : Database) (c : ℕ)
    (path : Bytes)
    → config.snapshot_path ≡ c ∷ path
    → config.restore_on_start ≡ true
    → set_max_memory sz config.max_memory_bytes db ≡ some limited
    → (load (make_store (c ∷ path)) limited).1.status ≡ LoadStatus.failed
    → (db' : Database) × (s : Server) × (start sz config calls load make_server db
        ≡ some (db', s, false))
      × (s.store ≡ none)
      × IsDown s
      × (s.error
          ≡ codes "cannot load snapshot '"
            ++ config.snapshot_path
            ++ codes "': "
            ++ (load (make_store (c ∷ path)) limited).1.error)
unfolding start start_from set_up_store store_for after_load sockets_if
start_damaged sz config calls load db limited c path e e' h k =
    let s = record make_server {
      error =
          codes "cannot load snapshot '"
          ++ config.snapshot_path
          ++ codes "': "
          ++ (load (make_store (c ∷ path)) limited).1.error;
    } in
    (
      (load (make_store (c ∷ path)) limited).0,
      s,
      rw (h, start, e, e', k, after_load) refl,
      refl,
      kept make_server s.error none 0 new-IsDown,
      refl,
    )
