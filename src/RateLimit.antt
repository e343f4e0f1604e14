-- ===== src/RateLimit.antt =====
-- The token buckets of Sources/libevent/src/bufferevent_ratelim.c and ratelim-internal.h: how many bytes
-- may be read and written at a time, and how that grows with the ticks of the clock.
pub mod Refill
pub mod Budget
pub mod Config
pub mod Suspend
pub mod Groups
pub mod Limiting
pub mod Membership
pub mod Api
pub mod Runs
pub mod Paced
pub mod Refilled
pub mod Configured
pub mod Limited
pub mod Spread
pub mod Agreement
pub mod Joined
pub mod Left
pub mod Grouped
pub mod Allowance
mod Tests
use swift_event.Base.{
  ℕ, ◌+◌, ◌-◌, ◌*◌, ◌/◌, ◌%◌, Bool, true, false, ◌||◌, Option, none, some, ltb, ◌==◌, if◌then◌else◌,
  bit_and,
}
use swift_event.Base.Int.{ℤ, pos, negsuc, ltb_ℤ, ◌-ℤ◌}
use swift_event.Time.{Timeval}

-- What is limited: reading and writing
pub data Way : Type 0 where
  reading writing : Way

-- `struct ev_token_bucket`; the limits are an `ev_ssize_t`, and below 0 after a deficit.
pub record TokenBucket : Type 0 where
  pub limit : Way → ℤ
  pub last_updated : ℕ

-- `struct ev_token_bucket_cfg`
pub record TokenBucketCfg : Type 0 where
  pub rate : Way → ℕ
  pub maximum : Way → ℕ
  pub tick_timeout : Timeval
  pub msec_per_tick : ℕ

-- `(size_t)` of an `ev_ssize_t`, and back
abbrev pub to_size : ℤ → ℕ
to_size (pos x) = x
to_size (negsuc x) = 18446744073709551615 - x

abbrev pub to_ssize : ℕ → ℤ
to_ssize x = if ltb x 9223372036854775808 then pos x else negsuc (18446744073709551615 - x)

-- Sums and products that wrap at 2 ^ 64
abbrev pub u64 : ℕ → ℕ
u64 x = x % 18446744073709551616

-- EV_SSIZE_MAX
abbrev pub ssize_max : ℕ
ssize_max = 9223372036854775807

-- Division of a `long` by a positive number, which rounds towards 0
abbrev pub quotient : ℤ → ℕ → ℤ
quotient (pos a) n = pos (a / n)
quotient (negsuc a) n = if (a + 1) / n == 0 then pos 0 else negsuc ((a + 1) / n - 1)

abbrev pub by_way : ℕ → ℕ → Way → ℕ
by_way r w reading = r
by_way r w writing = w

-- The length of a tick; without one it is a second.
abbrev pub tick_or_second : Option Timeval → Timeval
tick_or_second none = record { tv_sec = pos 1; tv_usec = pos 0 }
tick_or_second (some t) = t

-- A limit is clipped downwards only.
abbrev pub clip : ℤ → ℕ → ℤ
clip limit maximum = if ltb_ℤ (to_ssize maximum) limit then to_ssize maximum else limit

-- ev_token_bucket_init_
unfoldable pub bucket_init : TokenBucket → TokenBucketCfg → ℕ → Bool → TokenBucket
bucket_init b cfg current_tick reinitialize =
    if reinitialize
    then record b { limit = λ w. clip (b.limit w) (cfg.maximum w) }
    else record { limit = λ w. to_ssize (cfg.rate w); last_updated = current_tick }

-- What `n_ticks` ticks make of one limit
unfoldable pub refill : ℤ → ℕ → ℕ → ℕ → ℤ
refill limit maximum rate n_ticks =
    let room = u64 (maximum + 18446744073709551616 - to_size limit) in
    if ltb (room / n_ticks) rate
    then to_ssize maximum
    else to_ssize (u64 (to_size limit + u64 (n_ticks * rate)))

-- `current_tick - bucket->last_updated`, where both are 32 bits wide
abbrev pub ticks_since : ℕ → ℕ → ℕ
ticks_since current_tick last_updated = (current_tick + 4294967296 - last_updated) % 4294967296

-- ev_token_bucket_update_; INT_MAX is 2 ^ 31 - 1.
unfoldable pub bucket_update : TokenBucket → TokenBucketCfg → ℕ → ℕ × TokenBucket
bucket_update b cfg current_tick =
    let n_ticks = ticks_since current_tick b.last_updated in
    if n_ticks == 0 || ltb 2147483647 n_ticks then (0, b) else (
      1,
      record {
        limit = λ w. refill (b.limit w) (cfg.maximum w) (cfg.rate w) n_ticks;
        last_updated = current_tick;
      },
    )

-- ev_token_bucket_get_tick_. Where msec_per_tick is 0 the code divides by it.
unfoldable pub get_tick : Timeval → TokenBucketCfg → ℕ
get_tick tv cfg =
    let msec = u64 (u64 (to_size tv.tv_sec * 1000) + to_size (quotient tv.tv_usec 1000)) in
    msec / cfg.msec_per_tick % 4294967296

-- `tick_len->tv_sec * 1000 + (tick_len->tv_usec & COMMON_TIMEOUT_MICROSECONDS_MASK) / 1000`, as an
-- `unsigned`
abbrev pub msec_of : Timeval → ℕ
msec_of t = (to_size t.tv_sec * 1000 + bit_and (to_size t.tv_usec) 1048575 / 1000) % 4294967296

-- ev_token_bucket_cfg_new; `memory` tells whether there is memory for it.
unfoldable pub cfg_new : Bool → ℕ → ℕ → ℕ → ℕ → Option Timeval → Option TokenBucketCfg
cfg_new memory read_rate read_burst write_rate write_burst tick_len =
    let tick = tick_or_second tick_len in
    if ltb read_burst read_rate
      || (ltb write_burst write_rate || (read_rate == 0 || write_rate == 0))
    then none
    else if ltb ssize_max read_rate
        || (ltb ssize_max write_rate || (ltb ssize_max read_burst || ltb ssize_max write_burst))
    then none
    else if memory
    then some (record {
      rate = by_way read_rate write_rate;
      maximum = by_way read_burst write_burst;
      tick_timeout = tick;
      msec_per_tick = msec_of tick;
    })
    else none

abbrev pub same_way : Way → Way → Bool
same_way reading reading = true
same_way writing writing = true
same_way reading writing = false
same_way writing reading = false

-- ev_token_bucket_decrement_read and ev_token_bucket_decrement_write
unfoldable pub bucket_decrement : TokenBucket → Way → ℤ → TokenBucket
bucket_decrement b w n = record b {
  limit = λ v. if same_way v w then b.limit v -ℤ n else b.limit v;
}
