-- ===== src/RateLimit/Config.antt =====
-- What ev_token_bucket_cfg_new of bufferevent_ratelim.c accepts.
use swift_event.Base.{
  ℕ, ◌≤◌, ◌<◌, ap, sym, subst, ◌∙◌, ◌≡◌, Bool, true, ◌&&◌, Option, none, some, leb, if◌then◌else◌,
  arith,
}
use swift_event.Base.Bits.{bit_and-le}
use swift_event.Base.Int.{pos}
use swift_event.Time.{Timeval}
use swift_event.RateLimit.{
  reading, writing, TokenBucketCfg, ssize_max, by_way, tick_or_second, msec_of, cfg_new,
}
use swift_event.RateLimit.Refill.{IsConfig}

-- A rate that is positive, and at most the burst, which an `ev_ssize_t` can hold
abbrev pub is_allowed : ℕ → ℕ → Bool
is_allowed rate burst = leb 1 rate && (leb rate burst && leb burst ssize_max)

abbrev pub config : ℕ → ℕ → ℕ → ℕ → Timeval → TokenBucketCfg
config read_rate read_burst write_rate write_burst tick = record {
  rate = by_way read_rate write_rate;
  maximum = by_way read_burst write_burst;
  tick_timeout = tick;
  msec_per_tick = msec_of tick;
}

tick_counts :
    (s u : ℕ) → 1 ≤ s → s ≤ 4294965 → 0 < msec_of (record { tv_sec = pos s; tv_usec = pos u })
tick_counts s u whole few = omega (arith, whole, few, bit_and-le u 1048575)

tick_lost : (s u : ℕ) → s ≡ 0 → u < 1000 → msec_of (record { tv_sec = pos s; tv_usec = pos u }) ≡ 0
tick_lost s u none_left few = omega (arith, none_left, few, bit_and-le u 1048575)

-- ev_token_bucket_cfg_new makes a configuration exactly where there is memory and both rates are
-- allowed: at least 1, at most their bursts, and these within an ev_ssize_t. It has the rates, the
-- bursts and the length of the tick that were given (a second for NULL), and so its rates are positive
-- and at most its maxima, which an ev_ssize_t can hold. Nothing is asked of the length of the tick: the
-- milliseconds of a tick are not 0 where tv_sec is from 1 to 4294965, and are 0 where tv_sec is 0
-- and tv_usec is less than 1000.
pub cfg_new-IsConfig :
    (memory : Bool) (read_rate read_burst write_rate write_burst : ℕ) (tick_len : Option Timeval)
    → let c = config read_rate read_burst write_rate write_burst (tick_or_second tick_len) in
      let allowed = is_allowed read_rate read_burst && is_allowed write_rate write_burst in
      (cfg_new memory read_rate read_burst write_rate write_burst tick_len
        ≡ (if memory && allowed then some c else none))
      × (allowed ≡ true → IsConfig c)
      × ((s u : ℕ)
          → tick_or_second tick_len ≡ record { tv_sec = pos s; tv_usec = pos u }
          → (1 ≤ s → s ≤ 4294965 → 0 < c.msec_per_tick) × (s ≡ 0 → u < 1000 → c.msec_per_tick ≡ 0))
unfolding cfg_new
cfg_new-IsConfig memory read_rate read_burst write_rate write_burst tick_len = (
  ground arith,
  λ allowed. record {
    positive = elim [ reading ↦ ground (arith, allowed) | writing ↦ ground (arith, allowed) ];
    rate_within = elim [ reading ↦ ground (arith, allowed) | writing ↦ ground (arith, allowed) ];
    maximum_fits = elim [ reading ↦ ground (arith, allowed) | writing ↦ ground (arith, allowed) ];
  },
  λ s u at. (
    λ whole few. subst (λ t. 0 < msec_of t) (sym at) (tick_counts s u whole few),
    λ none_left few. ap msec_of at ∙ tick_lost s u none_left few,
  ),
)
