-- ===== src/RateLimit/Tests.antt =====
-- The rate limits of bufferevent_ratelim.c at small numbers.
use swift_event.Base.{◌≤◌, ◌<◌, ℕ, ◌+◌, ◌≡◌, refl, true, false, none, some, arith}
use swift_event.Base.Int.{pos, negsuc, ◌+ℤ◌, ◌-ℤ◌, ◌≤ℤ◌}
use swift_event.Time.{Timeval}
use swift_event.RateLimit.{
  refill, tick_or_second, ssize_max, reading, writing, TokenBucket, TokenBucketCfg, get_tick,
  bucket_init, bucket_update, bucket_decrement, cfg_new,
}
use swift_event.RateLimit.Refill.{IsConfig, IsBucket, naive_update, bucket_update-naive_update}
use swift_event.RateLimit.Budget.{begins, waits, takes, update_after, run_within}
use swift_event.RateLimit.Config.{config, cfg_new-IsConfig}
use swift_event.RateLimit.Suspend.{Suspended, Bufferevent, RateLimiting, suspend, unsuspend}
use swift_event.RateLimit.Limiting.{
  get_rlim_max, update_buckets, charge_own, set_rate_limit, put_rate_limit,
}
use swift_event.RateLimit.Paced.{IsPaced}
use swift_event.RateLimit.Groups.{Limits, group_new, set_min_share, charge_group}
use swift_event.RateLimit.Membership.{join_group}
use swift_event.RateLimit.Agreement.{IsAgreed}
use swift_event.RateLimit.Grouped.{
  Grouped, starts as nobody, joins, charges as spends, Grouped-IsAgreed,
}
use swift_event.RateLimit.Allowance.{IsAllowed, get_rlim_max-IsAllowed}
use swift_event.RateLimit.Limited.{starts, sets, charges, Limited-IsPaced}

abbrev second : Timeval
second = record { tv_sec = pos 1; tv_usec = pos 0 }

-- 10 bytes a tick and at most 50 to read, 20 and 60 to write; a tick is a second.
abbrev slow : TokenBucketCfg
slow = config 10 50 20 60 second

slow-IsConfig : IsConfig slow
slow-IsConfig = (cfg_new-IsConfig true 10 50 20 60 none).1 refl

cfg_new-IsConfig_example :
    (cfg_new true 10 50 20 60 none ≡ some slow)
    × (true ≡ true → IsConfig slow)
    × ((s u : ℕ)
        → tick_or_second none ≡ record { tv_sec = pos s; tv_usec = pos u }
        → (1 ≤ s → s ≤ 4294965 → 0 < slow.msec_per_tick)
          × (s ≡ 0 → u < 1000 → slow.msec_per_tick ≡ 0))
cfg_new-IsConfig_example = cfg_new-IsConfig true 10 50 20 60 none

-- The bucket was updated just before the tick number wrapped around.
abbrev late_bucket : TokenBucket
late_bucket = record { limit = λ w. pos 7; last_updated = 4294967294 }

late-IsBucket : IsBucket slow late_bucket
late-IsBucket = record {
  limited = elim [
    | reading ↦ record { most = omega arith; fits = omega arith }
    | writing ↦ record { most = omega arith; fits = omega arith }
  ];
  tick = omega arith;
}

bucket_update-naive_update_example :
    bucket_update late_bucket slow 1 ≡ (1, naive_update late_bucket slow 3)
bucket_update-naive_update_example =
    bucket_update-naive_update late_bucket slow 1 slow-IsConfig late-IsBucket (omega arith)

-- Five bytes are read, and two ticks pass.
run_within_example : pos 5 ≤ℤ pos 7 +ℤ pos 20
run_within_example =
    run_within slow slow-IsConfig reading late_bucket
      (update_after slow (bucket_decrement late_bucket reading (pos 5)) 2) 5 2 late-IsBucket
      (omega arith) (waits 2 (takes 5 begins (omega arith)) (omega arith) (omega arith))

abbrev free : Suspended
free = record { bw = false; bw_group = false; others = false }

abbrev reader : Bufferevent
reader = record {
  enabled = λ w. true;
  suspended = λ w. free;
  running = λ w. true;
  max_single = λ w. 16384;
  rate_limiting = none;
}

abbrev slow_reader : Bufferevent
slow_reader = set_rate_limit (λ c. slow) reader (some 0) second true

abbrev limiting : RateLimiting
limiting = record {
  cfg = some 0;
  limit =
      bucket_init (record { limit = λ w. pos 0; last_updated = 0 }) slow (get_tick second slow)
        false;
  group = none;
  refill_pending = false;
}

spendable : negsuc ssize_max ≤ℤ limiting.limit.limit reading -ℤ pos 30
unfolding bucket_init ◌-ℤ◌
spendable = omega arith

-- A bufferevent that has read 30 bytes of its 10 is suspended, and waits.
Limited-IsPaced_example :
    IsPaced (λ c. slow) (charge_own (λ c. slow) slow_reader limiting reading (pos 30) true).1
unfolding set_rate_limit put_rate_limit bucket_init unsuspend
Limited-IsPaced_example =
    Limited-IsPaced (λ c. slow) (λ c. slow-IsConfig)
      (charge_own (λ c. slow) slow_reader limiting reading (pos 30) true).1
      (charges limiting 0 reading 30
        (sets (some 0) second (starts {b = reader} (λ w. refl) refl (λ w. refl))) refl refl
        spendable)

abbrev read_suspended : Bufferevent → Suspended
read_suspended b = b.suspended reading

-- It is suspended because of its limit, and its transport does not read.
over_limit :
    let b = (charge_own (λ c. slow) slow_reader limiting reading (pos 30) true).1 in
    ((read_suspended b).bw ≡ true) × (b.running reading ≡ false) × (b.running writing ≡ true)
unfolding set_rate_limit put_rate_limit bucket_init unsuspend charge_own suspend bucket_decrement
    ◌-ℤ◌
over_limit = (refl, refl, refl)

-- A bucket that gets another configuration, with shorter ticks, keeps the number of its last tick. An
-- update an hour later finds that the time has gone back, and adds nothing.
abbrev quick : TokenBucketCfg
quick = config 10 50 20 60 (record { tv_sec = pos 0; tv_usec = pos 1000 })

abbrev clock : ℕ → Timeval
clock n = record { tv_sec = pos (1700400000 + n); tv_usec = pos 0 }

abbrev start : TokenBucket
start =
    bucket_init (record { limit = λ w. pos 0; last_updated = 0 }) slow (get_tick (clock 0) slow)
      false

left_behind :
    (bucket_update
      (bucket_init start quick (get_tick (clock 1) quick) true)
      quick
      (get_tick (clock 3600) quick)).0
    ≡ 0
unfolding bucket_init bucket_update get_tick
left_behind = refl

-- A bucket that a negative decrement has put above its maximum of 50 grows with an update.
overfull :
    let full : TokenBucket = record { limit = λ w. pos 50; last_updated = 0 } in
    let over = bucket_decrement full reading (negsuc 0) in
    (over.limit reading ≡ pos 51) × ((bucket_update over slow 1).1.limit reading ≡ pos 61)
unfolding bucket_decrement bucket_update refill ◌-ℤ◌
overfull = (refl, refl)

-- Bufferevent 0 reads slowly, and is in no group; the groups are new.
abbrev slow_limits : Limits
slow_limits = record {
  bevs = λ e. record reader { rate_limiting = some limiting };
  groups = λ g. group_new slow second;
  now = clock 0;
  timer_ok = true;
}

get_rlim_max-IsAllowed_example :
    IsAllowed
      (get_rlim_max (λ c. slow) slow_limits 0 reading).0
      ((update_buckets (λ c. slow) limiting 0 (clock 0)).limit.limit reading)
get_rlim_max-IsAllowed_example =
    get_rlim_max-IsAllowed (λ c. slow) slow_limits 0 limiting 0 reading refl refl

-- It joins group 1, whose 10 bytes are soon spent.
spent_group : Grouped (charge_group (join_group slow_limits 0 limiting 1) 1 reading (pos 30) 0)
unfolding group_new set_min_share
spent_group =
    spends 1 reading (pos 30) 0
      (joins 0 limiting 1 (nobody (λ g. (refl, refl)) (λ e g. refl) (λ e w. refl)) (λ h. refl))

Grouped-IsAgreed_example :
    IsAgreed (charge_group (join_group slow_limits 0 limiting 1) 1 reading (pos 30) 0)
Grouped-IsAgreed_example =
    Grouped-IsAgreed (charge_group (join_group slow_limits 0 limiting 1) 1 reading (pos 30) 0)
      spent_group
