-- ===== src/RateLimit/Api.antt =====
-- The functions of bufferevent_ratelim.c that a program or another part of the library calls, one for
-- each way, on a bufferevent `e` or a group `g`.
use swift_event.Base.{ℕ, Bool, Option, none, some}
use swift_event.Base.Int.{ℤ, pos}
use swift_event.RateLimit.{Way, reading, writing, TokenBucketCfg, ssize_max}
use swift_event.RateLimit.Suspend.{Bufferevent, RateLimiting}
use swift_event.RateLimit.Groups.{Limits, set_bev, group_suspend, group_unsuspend, group_decrement}
use swift_event.RateLimit.Limiting.{
  set_limiting, get_rlim_max, decrement_buckets, decrement_limit, set_max_single, update_buckets,
}

-- bufferevent_ratelim_init_
unfoldable pub ratelim_init : Bufferevent → Bufferevent
ratelim_init b = record b { rate_limiting = none; max_single = λ w. 16384 }

unfoldable pub group_suspend_reading : Limits → ℕ → Limits
group_suspend_reading l g = group_suspend l g reading

unfoldable pub group_suspend_writing : Limits → ℕ → Limits
group_suspend_writing l g = group_suspend l g writing

unfoldable pub group_unsuspend_reading : Limits → ℕ → ℕ → Limits
group_unsuspend_reading l g which = group_unsuspend l g reading which

unfoldable pub group_unsuspend_writing : Limits → ℕ → ℕ → Limits
group_unsuspend_writing l g which = group_unsuspend l g writing which

unfoldable pub group_decrement_read : Limits → ℕ → ℤ → ℕ → Limits
group_decrement_read l g decr which = group_decrement l g reading decr which

unfoldable pub group_decrement_write : Limits → ℕ → ℤ → ℕ → Limits
group_decrement_write l g decr which = group_decrement l g writing decr which

unfoldable pub set_max_single_read : Bufferevent → ℕ → Bufferevent
set_max_single_read b size = set_max_single b reading size

unfoldable pub set_max_single_write : Bufferevent → ℕ → Bufferevent
set_max_single_write b size = set_max_single b writing size

module _ (cfgs : ℕ → TokenBucketCfg) where
  unfoldable pub get_read_max : Limits → ℕ → ℤ × Limits
  get_read_max l e = get_rlim_max cfgs l e reading

  unfoldable pub get_write_max : Limits → ℕ → ℤ × Limits
  get_write_max l e = get_rlim_max cfgs l e writing

  unfoldable pub decrement_read_buckets : Limits → ℕ → ℤ → ℕ → ℤ × Limits
  decrement_read_buckets l e bytes which = decrement_buckets cfgs l e reading bytes which

  unfoldable pub decrement_write_buckets : Limits → ℕ → ℤ → ℕ → ℤ × Limits
  decrement_write_buckets l e bytes which = decrement_buckets cfgs l e writing bytes which

  unfoldable pub decrement_read_limit : Bufferevent → RateLimiting → ℤ → Bool → ℤ × Bufferevent
  decrement_read_limit b r decr timer_ok = decrement_limit cfgs b r reading decr timer_ok

  unfoldable pub decrement_write_limit : Bufferevent → RateLimiting → ℤ → Bool → ℤ × Bufferevent
  decrement_write_limit b r decr timer_ok = decrement_limit cfgs b r writing decr timer_ok

  -- What is left of the limit of a bufferevent that has one; without one it is EV_SSIZE_MAX.
  unfoldable pub limit_left : Limits → ℕ → RateLimiting → Option ℕ → Way → ℤ × Limits
  limit_left l e r none w = (pos ssize_max, l)
  limit_left l e r (some c) w =
      let r' = update_buckets cfgs r c l.now in
      (r'.limit.limit w, set_bev l e (set_limiting (l.bevs e) r'))

  unfoldable pub limit_of : Limits → ℕ → Option RateLimiting → Way → ℤ × Limits
  limit_of l e none w = (pos ssize_max, l)
  limit_of l e (some r) w = limit_left l e r r.cfg w

  -- bufferevent_get_read_limit and bufferevent_get_write_limit
  unfoldable pub get_read_limit : Limits → ℕ → ℤ × Limits
  get_read_limit l e = limit_of l e (l.bevs e).rate_limiting reading

  unfoldable pub get_write_limit : Limits → ℕ → ℤ × Limits
  get_write_limit l e = limit_of l e (l.bevs e).rate_limiting writing
