-- ===== src/Server/Threads.antt =====
-- The background threads of a run, at the stages of its end.
use redis_like_in_memory_dat.Base.{◌≡◌, refl, Option, none, some, Bool, true, false}
use mathlib.Core.Option
use redis_like_in_memory_dat.Background.Thread.{
  Thread, absent, looping, BackgroundThread, request_stop, join, leave_loop,
}
use redis_like_in_memory_dat.Server.Ending.{thread_if, left, join_if}

-- A background thread, if there is one, that has not been asked to stop; that has been; that has been joined.
pub data AtWork : Option BackgroundThread → Type 0 where
  none_at_work : AtWork none
  at_work : AtWork (some (record { is_running = true; stop_requested = false; thread = looping }))

pub data Asked : Option BackgroundThread → Type 0 where
  none_asked : Asked none
  still_looping :
      Asked (some (record { is_running = true; stop_requested = true; thread = looping }))
  has_left :
      Asked (some (record { is_running = true; stop_requested = true; thread = Thread.returned }))

pub data Gone : Option BackgroundThread → Type 0 where
  none_gone : Gone none
  gone : Gone (some (record { is_running = false; stop_requested = true; thread = absent }))

pub thread_if-AtWork : (b : Bool) → AtWork (thread_if b)
thread_if-AtWork true = at_work
thread_if-AtWork false = none_at_work

pub request-Asked : {o : Option BackgroundThread} → AtWork o → Asked (Option.map request_stop o)
request-Asked none_at_work = none_asked
request-Asked at_work = still_looping

-- What is kept of one thread while the other parts move.
pub record Keeps (o o' : Option BackgroundThread) : Type 0 where
  pub works_on : AtWork o → AtWork o'
  pub asked_on : Asked o → Asked o'
  pub gone_on : Gone o → Gone o'

pub left-AtWork : {o : Option BackgroundThread} → AtWork o → AtWork (Option.map left o)
unfolding leave_loop
left-AtWork none_at_work = none_at_work
left-AtWork at_work = at_work

pub left-Asked : {o : Option BackgroundThread} → Asked o → Asked (Option.map left o)
unfolding leave_loop
left-Asked none_asked = none_asked
left-Asked still_looping = has_left
left-Asked has_left = has_left

pub left-Gone : {o : Option BackgroundThread} → Gone o → Gone (Option.map left o)
unfolding leave_loop
left-Gone none_gone = none_gone
left-Gone gone = gone

pub left-Keeps : (o : Option BackgroundThread) → Keeps o (Option.map left o)
left-Keeps o = record { works_on = left-AtWork; asked_on = left-Asked; gone_on = left-Gone }

pub Keeps-refl : (o : Option BackgroundThread) → Keeps o o
Keeps-refl o = record { works_on = λ h. h; asked_on = λ h. h; gone_on = λ h. h }

abbrev pub Joined : Option (Option BackgroundThread) → Type 0
Joined none = Unit {0}
Joined (some o) = Gone o

pub join_if-Joined : {o : Option BackgroundThread} → Asked o → Joined (join_if o)
unfolding join_if join
join_if-Joined none_asked = none_gone
join_if-Joined still_looping = tt
join_if-Joined has_left = gone

pub join_if-some :
    {o : Option BackgroundThread}
    → Asked o
    → Option.map left o ≡ o
    → (o' : Option BackgroundThread) × (join_if o ≡ some o')
unfolding join_if join leave_loop
join_if-some none_asked e = (_, refl)
join_if-some still_looping e = cc
join_if-some has_left e = (_, refl)
