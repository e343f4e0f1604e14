-- ===== src/EventBase/Promise.antt =====
-- What event.c promises of timers: what each call may do to the times that events wait for.
use swift_event.Base.{ℕ, ◌≡◌, ◌≢◌, Bool, false, if◌then◌else◌, update, Option, none, some}
use swift_event.Base.Int.{ℤ, negsuc}
use swift_event.Time.{Timeval, timeradd, timercmp_gt}

-- When each event times out
abbrev pub Timers : Type 0
Timers = ℕ → Option Timeval

-- What the program asks of an event base
pub data Call : Type 0 where
  add : ℕ → Option Timeval → Bool → Call
  del : ℕ → Call
  active : ℕ → ℕ → ℕ → Call
  active_later : ℕ → ℕ → Call
  make_later process : Call

-- A timer that is due goes.
abbrev pub keep_ahead : Timeval → Option Timeval → Option Timeval
keep_ahead now none = none
keep_ahead now (some t) = if timercmp_gt t now then some t else none

-- The promise: what a call may do to the timers, and what it may return with that. An addition that
-- does not set the timer it was asked for returns -1, and may do so only where it is not `certain`.
pub data Allowed (now : Timeval) (certain : Bool) : Call → Timers → ℤ → Timers → Type 0 where
  set :
      {t t' : Timers} {e : ℕ} {tv : Timeval} {tv_is_absolute : Bool} {r : ℤ}
      → r ≢ negsuc 0
      → ((x : ℕ) → t' x ≡ update t e (some (if tv_is_absolute then tv else timeradd now tv)) x)
      → Allowed now certain (add e (some tv) tv_is_absolute) t r t'
  refused :
      {t t' : Timers} {e : ℕ} {tv : Option Timeval} {tv_is_absolute : Bool}
      → certain ≡ false
      → ((x : ℕ) → t' x ≡ t x)
      → Allowed now certain (add e tv tv_is_absolute) t (negsuc 0) t'
  untimed :
      {t t' : Timers} {e : ℕ} {tv_is_absolute : Bool} {r : ℤ}
      → ((x : ℕ) → t' x ≡ t x)
      → Allowed now certain (add e none tv_is_absolute) t r t'
  cleared :
      {t t' : Timers} {e : ℕ} {r : ℤ}
      → ((x : ℕ) → t' x ≡ update t e none x)
      → Allowed now certain (del e) t r t'
  kept_active :
      {t t' : Timers} {e res ncalls : ℕ} {r : ℤ}
      → ((x : ℕ) → t' x ≡ t x)
      → Allowed now certain (active e res ncalls) t r t'
  kept_later :
      {t t' : Timers} {e res : ℕ} {r : ℤ}
      → ((x : ℕ) → t' x ≡ t x)
      → Allowed now certain (active_later e res) t r t'
  kept_make :
      {t t' : Timers} {r : ℤ} → ((x : ℕ) → t' x ≡ t x) → Allowed now certain make_later t r t'
  expired :
      {t t' : Timers} {r : ℤ}
      → ((x : ℕ) → t' x ≡ keep_ahead now (t x))
      → Allowed now certain process t r t'
