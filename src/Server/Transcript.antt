-- ===== src/Server/Transcript.antt =====
-- A session over a connection: a `SET` and a `GET`, byte by byte.
use redis_like_in_memory_dat.Base.{
  ℕ, suc, ◌+◌, ◌≤◌, ◌≡◌, refl, ◌∙◌, arith, Bytes, codes, List, [], ◌∷◌, ◌++◌, Option, true, length,
}
use redis_like_in_memory_dat.Command.Escape.{escape_for_wire}
use redis_like_in_memory_dat.Command.Parse.{success, parse}
use redis_like_in_memory_dat.Command.Session.{set_then_get, set_command, get_command}
use redis_like_in_memory_dat.Database.Engine.{Database, fits_within_limit}
use redis_like_in_memory_dat.Database.Sound.{IsSound, AllFit}
use redis_like_in_memory_dat.HashTable.Table.{Sizes}
use redis_like_in_memory_dat.Persistence.Completes.{calls}
use redis_like_in_memory_dat.Persistence.Outcome.{SaveOutcome}
use redis_like_in_memory_dat.Protocol.Encode
use redis_like_in_memory_dat.Server.Connection.{reading, handle_connection, serve_each}
use redis_like_in_memory_dat.Server.Framing.{
  AllShort, short_end, short_line, joined, arrivals, handle_connection-serve_each,
}
use redis_like_in_memory_dat.Server.Lines.{cut}
use redis_like_in_memory_dat.Server.Peer.{Peer, executes_on, sends_on, respond-answered}

-- A connection to a sound database of which every shard fits in memory and whose limit the entry keeps. A
-- line that parses as a `SET` without a time to live, and one that parses as a `GET` of the same key, both
-- within the limit of a request, arrive in any chunks; there are as many successful `send`s as bytes of the
-- replies. The client is sent "+OK" and the value, tagged and escaped, each with a newline.
pub handle_connection-set_then_get :
    (sz : Sizes) (store : Option (Database → SaveOutcome)) (now : ℕ → ℕ) (clock : ℕ → ℕ) (most : ℕ)
    (chunks : List Bytes) (first second key value : Bytes) (p : Peer) (ns : List ℕ)
    → IsSound p.db
    → AllFit p.db
    → fits_within_limit sz p.db key value ≡ true
    → parse first ≡ success (set_command key value)
    → parse second ≡ success (get_command key)
    → cut (joined chunks) ≡ (first ∷ second ∷ [], [])
    → length first ≤ most
    → length second ≤ most
    → p.results ≡ calls ns
    → 6 + length (escape_for_wire value) ≤ length ns
    → (p' : Peer) × (handle_connection
          (executes_on sz store now (λ r. clock))
          sends_on
          most
          (arrivals chunks)
          []
          p
        ≡ reading p' [])
      × (p'.output
          ≡ (p.output ++ (Encode.status (codes "OK") ++ 10 ∷ []))
            ++ (Encode.value (escape_for_wire value) ++ 10 ∷ []))
unfolding serve_each
handle_connection-set_then_get sz store now clock most chunks first second key value p ns v fits
      room h k c l m e n =
    let (db', db'', set_reply, get_reply) =
      set_then_get sz store (now p.requests) (now (suc p.requests)) clock first second key value
        p.db v fits room h k in
    let spare = 2 + length (escape_for_wire value) in
    let short : AllShort most (cut (joined chunks)).0 (cut (joined chunks)).1 =
      rw c (short_line l (short_line m (short_end (omega arith)))) in
    let (left, enough, stored) =
      respond-answered sz store now (λ r. clock) spare ns first [] (Encode.status (codes "OK")) p
        db' set_reply e (unfold Encode.status in omega (arith, n)) in
    let p₁ : Peer = record {
      db = db';
      requests = suc p.requests;
      results = calls left;
      output = p.output ++ (Encode.status (codes "OK") ++ 10 ∷ []);
    } in
    let (left', enough', read) =
      respond-answered sz store now (λ r. clock) 0 left second []
        (Encode.value (escape_for_wire value)) p₁ db'' get_reply refl
        (unfold Encode.value in omega (arith, enough)) in
    (
      record {
        db = db'';
        requests = suc (suc p.requests);
        results = calls left';
        output = p₁.output ++ (Encode.value (escape_for_wire value) ++ 10 ∷ []);
      },
      handle_connection-serve_each (executes_on sz store now (λ r. clock)) sends_on most chunks p
            short
          ∙ rw (c, stored, read) refl,
      refl,
    )
