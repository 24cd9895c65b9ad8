-- ===== src/Persistence/Clocks.antt =====
-- src/Persistence.cpp: `toWallClockMillis` and `fromWallClockMillis`. The steady clock counts
-- nanoseconds; the system clock counts ticks of `tick` nanoseconds, a divisor of a millisecond, since
-- the epoch. A reading of both is made for each entry.
use redis_like_in_memory_dat.Base.{ℕ, ◌+◌, ◌-◌, ◌*◌, ◌/◌, ◌^◌, if◌then◌else◌, leb, ltb}

pub record Reading : Type 0 where
  pub steady : ℕ
  pub system : ℕ

abbrev pub millisecond : ℕ
millisecond = 1000000

abbrev pub ticks_of_milli : ℕ → ℕ
ticks_of_milli tick = millisecond / tick

-- The tick of the system clock at which a deadline of the steady clock falls. The remaining duration may be
-- negative, and is truncated towards zero; the system clock is later than the epoch by more than that.
abbrev pub moment : ℕ → Reading → ℕ → ℕ
moment tick r expiry =
    if leb r.steady expiry
    then r.system + (expiry - r.steady) / tick
    else r.system - (r.steady - expiry) / tick

-- Exact where a `system_clock::time_point` of 64 bits holds the moment.
unfoldable pub to_wall_clock_millis : ℕ → Reading → ℕ → ℕ
to_wall_clock_millis tick r expiry = moment tick r expiry / ticks_of_milli tick

-- What a number of milliseconds comes to: a moment that has passed, a deadline, or an overflow of a signed count
-- of 64 bits, which is undefined.
pub data Expiry : Type 0 where
  lapsed : Expiry
  ahead : ℕ → Expiry
  overflow : Expiry

-- The moment is `whole` ticks after the epoch.
abbrev pub from_whole : ℕ → Reading → ℕ → Expiry
from_whole tick r whole =
    if leb (2 ^ 63) whole
    then overflow
    else if leb whole r.system
    then lapsed
    else if leb (2 ^ 63) (r.steady + (whole - r.system) * tick)
    then overflow
    else ahead (r.steady + (whole - r.system) * tick)

-- `millis` is the pattern of a `std::int64_t`, negative from 2⁶³ on.
unfoldable pub from_wall_clock_millis : ℕ → Reading → ℕ → Expiry
from_wall_clock_millis tick r millis =
    if leb (2 ^ 63) millis
    then if ltb (2 ^ 63) ((2 ^ 64 - millis) * ticks_of_milli tick + r.system)
      then overflow
      else lapsed
    else from_whole tick r (millis * ticks_of_milli tick)
