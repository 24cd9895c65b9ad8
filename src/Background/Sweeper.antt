-- ===== src/Background/Sweeper.antt =====
-- include/ExpirationSweeper.h and src/ExpirationSweeper.cpp. The end of each wait is an event: `stop` has
-- been requested, or the interval is over; the shards' clocks come with the latter.
use redis_like_in_memory_dat.Base.{ℕ, suc, ◌+◌, List, [], ◌∷◌, ◌==◌, if◌then◌else◌}
use redis_like_in_memory_dat.Database.Engine.{Database, remove_expired}

pub data Wait {ℓ} (A : Type ℓ) : Type ℓ where
  stop_requested : Wait A
  elapsed : A → Wait A

pub record ExpirationSweeper : Type 0 where
  pub buckets_per_pass : ℕ
  pub total_reclaimed : ℕ
  pub passes : ℕ

-- `ExpirationSweeper(database, config)`
unfoldable pub make_sweeper : ℕ → ExpirationSweeper
make_sweeper buckets_per_pass = record {
  buckets_per_pass = (if buckets_per_pass == 0 then 1 else buckets_per_pass);
  total_reclaimed = 0;
  passes = 0;
}

-- One pass.
unfoldable pub sweep : (ℕ → ℕ) → ExpirationSweeper → Database → ExpirationSweeper × Database
sweep clock s db =
    let (db', reclaimed) = remove_expired s.buckets_per_pass clock db in
    (record s { total_reclaimed = s.total_reclaimed + reclaimed; passes = suc s.passes }, db')

-- `sweepLoop`; clients may change the database between the passes, by the functions that come with the
-- events.
unfoldable pub sweep_loop :
    List (Wait ((ℕ → ℕ) × (Database → Database)))
    → ExpirationSweeper
    → Database
    → ExpirationSweeper × Database
unfolding sweep
sweep_loop [] s db = (s, db)
sweep_loop (stop_requested ∷ waits) s db = (s, db)
sweep_loop (elapsed (clock, others) ∷ waits) s db =
    let (s', db') = sweep clock s (others db) in sweep_loop waits s' db'
