-- ===== src/Entry.antt =====
-- include/Entry.h: one record of the database. A `Clock::time_point` is the number of nanoseconds
-- of the steady clock; the clock is read by the caller, which passes the instant in.
use redis_like_in_memory_dat.Base.{ℕ, Bytes, Bool, true, false, Option, none, some, leb}

pub record Entry : Type 0 where
  pub key : Bytes
  pub value : Bytes
  pub expiration : Option ℕ

-- `Entry(k, v)`
abbrev pub make_entry : Bytes → Bytes → Entry
make_entry k v = record { key = k; value = v; expiration = none }

unfoldable pub has_expiration : Entry → Bool
has_expiration e = elim e.expiration [ none ↦ false | some t ↦ true ]

unfoldable pub is_expired_at : Entry → ℕ → Bool
is_expired_at e now = elim e.expiration [ none ↦ false | some t ↦ leb t now ]
