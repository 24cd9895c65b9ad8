-- ===== src/Persistence/Outcome.antt =====
-- include/Persistence.h: what saving and loading came to.
use redis_like_in_memory_dat.Base.{ℕ, Bytes, Bool}

pub record SaveOutcome : Type 0 where
  pub ok : Bool
  pub entries_written : ℕ
  pub bytes_written : ℕ
  pub error : Bytes

pub data LoadStatus : Type 0 where
  loaded : LoadStatus
  not_found : LoadStatus
  failed : LoadStatus

pub record LoadOutcome : Type 0 where
  pub status : LoadStatus
  pub entries_loaded : ℕ
  pub error : Bytes
