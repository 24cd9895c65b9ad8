-- ===== src/Server/Registry.antt =====
-- src/Server.cpp: `serveConnection`, `shutdownActiveConnections` and the end of `run`, which interleave on
-- `activeConnections_`, on `running_` and on the descriptors. Each critical section of `connectionsMutex_` is
-- a step.
use redis_like_in_memory_dat.Base.{
  ℕ, zero, suc, List, [], ◌∷◌, ◌++◌, map, Bool, true, false, if◌then◌else◌,
}

-- Where the worker of a connection is: not in `serveConnection` yet; past the insertion; in
-- `handleConnection`; past it; or past the `close`.
pub data Phase : Type 0 where
  queued registered serving leaving closed : Phase

-- A connection: whether its descriptor is in `activeConnections_`, whether `shutdown` has been called on it,
-- and how often `close` has.
pub record Connection : Type 0 where
  pub phase : Phase
  pub is_active : Bool
  pub is_interrupted : Bool
  pub closes : ℕ

abbrev pub new_connection : Connection
new_connection = record { phase = queued; is_active = false; is_interrupted = false; closes = 0 }

-- `activeConnections_.insert`
unfoldable pub register : Phase → Connection → Connection
register queued c = record c { phase = registered; is_active = true }
register _ c = c

-- `if (running_)`
unfoldable pub test_running : Phase → Bool → Connection → Connection
test_running registered true c = record c { phase = serving }
test_running registered false c = record c { phase = leaving }
test_running _ running c = c

-- The return of `handleConnection`
unfoldable pub finish : Phase → Connection → Connection
finish serving c = record c { phase = leaving }
finish _ c = c

-- `erase` and `close`
unfoldable pub close_connection : Phase → Connection → Connection
close_connection leaving c = record c { phase = closed; is_active = false; closes = suc c.closes }
close_connection _ c = c

-- `shutdown` on a connection that is in the set
unfoldable pub interrupt : Bool → Connection → Connection
interrupt true c = record c { is_interrupted = true }
interrupt false c = c

-- `running_`, whether `shutdownActiveConnections` has run, and the connections that have been accepted.
pub record Connections : Type 0 where
  pub is_running : Bool
  pub is_shut_down : Bool
  pub connections : List Connection

-- A step of the worker of a connection, of the accept loop, of `stop`, or of the end of `run`.
pub data Act : Type 0 where
  accepts clears shuts_down : Act
  registers tests finishes closes_fd : ℕ → Act

abbrev pub change : (Connection → Connection) → ℕ → List Connection → List Connection
change f i [] = []
change f zero (c ∷ cs) = f c ∷ cs
change f (suc i) (c ∷ cs) = c ∷ change f i cs

abbrev with_change : (Connection → Connection) → ℕ → Connections → Connections
with_change f i s = record s { connections = change f i s.connections }

-- `run` clears the flag before it shuts the connections down, and accepts none after that.
unfoldable pub act : Act → Connections → Connections
unfolding register test_running finish close_connection interrupt
act accepts s =
    if s.is_shut_down then s else record s { connections = s.connections ++ new_connection ∷ [] }
act clears s = record s { is_running = false }
act shuts_down s = record {
  is_running = false;
  is_shut_down = true;
  connections = map (λ c. interrupt c.is_active c) s.connections;
}
act (registers i) s = with_change (λ c. register c.phase c) i s
act (tests i) s = with_change (λ c. test_running c.phase s.is_running c) i s
act (finishes i) s = with_change (λ c. finish c.phase c) i s
act (closes_fd i) s = with_change (λ c. close_connection c.phase c) i s

unfoldable pub acts : List Act → Connections → Connections
unfolding act
acts [] s = s
acts (a ∷ rest) s = acts rest (act a s)

-- The server that begins to accept.
abbrev pub listening : Connections
listening = record { is_running = true; is_shut_down = false; connections = [] }
