-- ===== src/Server/Peer.antt =====
-- src/Server.cpp: `handleConnection` with its executor and its socket.
use redis_like_in_memory_dat.Base.{
  ℕ, suc, ◌+◌, ◌≤◌, ◌≡◌, refl, ap, ◌∙◌, arith, Bytes, List, [], ◌∷◌, ◌++◌, Option, none, some, Bool,
  true, false, length, take, drop, append_assoc, append-nil, length-append,
}
use redis_like_in_memory_dat.Base.Calls.{Result, Run}
use redis_like_in_memory_dat.Command.Execute.{execute}
use redis_like_in_memory_dat.Database.Engine.{Database}
use redis_like_in_memory_dat.HashTable.Table.{Sizes}
use redis_like_in_memory_dat.Persistence.Atomic.{take-drop}
use redis_like_in_memory_dat.Persistence.Completes.{calls, length-drop}
use redis_like_in_memory_dat.Persistence.Outcome.{SaveOutcome}
use redis_like_in_memory_dat.Server.Connection.{Sending, delivered, lost, blocked, reading, respond}
use redis_like_in_memory_dat.Server.Send.{send_all, send_line}

-- The database, the number of requests so far, the results of the `send`s to come, and what the socket has
-- taken.
pub record Peer : Type 0 where
  pub db : Database
  pub requests : ℕ
  pub results : List Result
  pub output : Bytes

abbrev sent : Peer → Bytes × Run Bool → Peer × Sending
sent p (out, Run.waiting) = (record p { results = []; output = out }, blocked)
sent p (out, Run.returned true results) = (record p { results = results; output = out }, delivered)
sent p (out, Run.returned false results) = (record p { results = results; output = out }, lost)

-- `sendLine` on the socket
unfoldable pub sends_on : Bytes → Peer → Peer × Sending
unfolding send_line
sends_on line p = sent p (send_line p.results line p.output)

abbrev executed : Peer → Option (Database × Option Bytes) → Option (Peer × Option Bytes)
executed p none = none
executed p (some (db, reply)) = some (record p { db = db; requests = suc p.requests }, reply)

-- `executor.execute` at the moment of each request
unfoldable pub executes_on :
    Sizes
    → Option (Database → SaveOutcome)
    → (ℕ → ℕ)
    → (ℕ → ℕ → ℕ)
    → Bytes
    → Peer
    → Option (Peer × Option Bytes)
executes_on sz store now clock line p =
    executed p (execute sz store (now p.requests) (clock p.requests) line p.db)

-- Enough `send`s that succeed take everything.
pub record IsSent (spare : ℕ) (all : Bytes) (w : Bytes × Run Bool) : Type 0 where
  pub left : List ℕ
  pub sent_all : w ≡ (all, Run.returned true (calls left))
  pub enough : spare ≤ length left

send_all-IsSent :
    (spare : ℕ) (ns : List ℕ) (left out : Bytes)
    → length left + spare ≤ length ns
    → IsSent spare (out ++ left) (send_all (calls ns) left out)
unfolding send_all calls
send_all-IsSent spare ns [] out h = record {
  left = ns;
  sent_all = rw (append-nil out) refl;
  enough = omega (arith, h);
}
send_all-IsSent spare [] (b ∷ left) out h = absurd (omega (arith, h))
send_all-IsSent spare (n ∷ ns) (b ∷ left) out h =
    let rest =
      send_all-IsSent spare ns (drop n left) (out ++ b ∷ take n left)
        (omega (arith, h, length-drop n left)) in
    let whole : (out ++ b ∷ take n left) ++ drop n left ≡ out ++ b ∷ left =
      append_assoc out (b ∷ take n left) (drop n left)
      ∙ ap (λ s. out ++ b ∷ s) (take-drop n left) in
    record {
      left = rest.left;
      sent_all = rest.sent_all ∙ ap (λ s. (s, Run.returned true (calls rest.left))) whole;
      enough = rest.enough;
    }

-- A reply is delivered whole, with its newline.
sends_on-delivered :
    (spare : ℕ) (ns : List ℕ) (line : Bytes) (p : Peer)
    → p.results ≡ calls ns
    → length line + 1 + spare ≤ length ns
    → (left : List ℕ) × (spare ≤ length left)
      × (sends_on line p
          ≡ (record p { results = calls left; output = p.output ++ (line ++ 10 ∷ []) }, delivered))
unfolding sends_on send_line
sends_on-delivered spare ns line p e h =
    let s =
      send_all-IsSent spare ns (line ++ 10 ∷ []) p.output
        (omega (arith, h, length-append line (10 ∷ []))) in
    (s.left, s.enough, rw (e, s.sent_all) refl)

-- One request that the executor answers, when the socket takes the answer.
pub respond-answered :
    (sz : Sizes) (store : Option (Database → SaveOutcome)) (now : ℕ → ℕ) (clock : ℕ → ℕ → ℕ)
    (spare : ℕ) (ns : List ℕ) (line rest reply : Bytes) (p : Peer) (db : Database)
    → execute sz store (now p.requests) (clock p.requests) line p.db ≡ some (db, some reply)
    → p.results ≡ calls ns
    → length reply + 1 + spare ≤ length ns
    → (left : List ℕ) × (spare ≤ length left)
      × (respond (executes_on sz store now clock) sends_on line rest p
          ≡ reading
              (record {
                db = db;
                requests = suc p.requests;
                results = calls left;
                output = p.output ++ (reply ++ 10 ∷ []);
              })
              rest)
unfolding executes_on respond
respond-answered sz store now clock spare ns line rest reply p db e f h =
    let (left, enough, e') =
      sends_on-delivered spare ns reply (record p { db = db; requests = suc p.requests }) f h in
    (left, enough, rw (e, respond, e') refl)
