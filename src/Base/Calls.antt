-- ===== src/Base/Calls.antt =====
-- System calls, and runs that wait for them. The results of the calls to come are a list: a run that has
-- used them up is inside the next call.
use Prim.Native.Nat.{ℕ}
use mathlib.Core.List.{List}
use mathlib.Core.Option.{Option, none, some}
use redis_like_in_memory_dat.Base.Text.{Bytes}

-- What a system call comes to: a count or a descriptor, or an error, `EINTR` or another, with the text
-- that `strerror` has for it.
pub data Result : Type 0 where
  done : ℕ → Result
  interrupted : Bytes → Result
  broke : Bytes → Result

abbrev pub error_of : Result → Option Bytes
error_of (done n) = none
error_of (interrupted text) = some text
error_of (broke text) = some text

-- A run that may not have returned; a value that it has returned stands before the results that are left.
pub data Run {ℓ} (A : Type ℓ) : Type ℓ where
  returned : A → List Result → Run A
  waiting : Run A
