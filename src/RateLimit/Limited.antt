-- ===== src/RateLimit/Limited.antt =====
-- A bufferevent with a rate limit of bufferevent_ratelim.c, as a state machine.
use swift_event.Base.{ℕ, ◌≡◌, sym, subst, true, false, Option, none, some}
use swift_event.Base.Int.{pos, negsuc, ◌-ℤ◌, ◌≤ℤ◌}
use swift_event.Time.{Timeval}
use swift_event.RateLimit.{Way, TokenBucketCfg, ssize_max}
use swift_event.RateLimit.Refill.{IsConfig}
use swift_event.RateLimit.Suspend.{RateLimiting, Bufferevent, by_group, suspend, unsuspend}
use swift_event.RateLimit.Limiting.{set_limiting, update_buckets, refill_callback, set_rate_limit}
use swift_event.RateLimit.Runs.{RunsWhereFree, limited_ways}
use swift_event.RateLimit.Paced.{PacesWith, PacesFor, Paces, IsPaced}
use swift_event.RateLimit.Limiting.{charge_own, decrement_limit}
use swift_event.RateLimit.Paced.{charge_own-IsPaced, decrement_limit-IsPaced}
use swift_event.RateLimit.Refilled.{refill_callback-IsPaced, update_buckets-IsPaced}
use swift_event.RateLimit.Configured.{
  set_rate_limit-IsPaced, group_suspend-IsPaced, group_unsuspend-IsPaced,
}

module _ (cfgs : ℕ → TokenBucketCfg) (configs : (c : ℕ) → IsConfig (cfgs c)) where
  -- What can happen to a bufferevent, as far as its own limit goes, while event_add works. `r` and `c` are
  -- its rate limiting and its configuration.
  pub data Limited : Bufferevent → Type 0 where
    starts :
        {b : Bufferevent}
        → RunsWhereFree b
        → b.rate_limiting ≡ none
        → ((w : Way) → (b.suspended w).bw ≡ false)
        → Limited b
    sets :
        {b : Bufferevent} (c : Option ℕ) (now : Timeval)
        → Limited b
        → Limited (set_rate_limit cfgs b c now true)
    looks :
        {b : Bufferevent} (r : RateLimiting) (c : ℕ) (now : Timeval)
        → Limited b
        → b.rate_limiting ≡ some r
        → r.cfg ≡ some c
        → Limited (set_limiting b (update_buckets cfgs r c now))
    charges :
        {b : Bufferevent} (r : RateLimiting) (c : ℕ) (w : Way) (n : ℕ)
        → Limited b
        → b.rate_limiting ≡ some r
        → r.cfg ≡ some c
        → negsuc ssize_max ≤ℤ r.limit.limit w -ℤ pos n
        → Limited (charge_own cfgs b r w (pos n) true).1
    decrements :
        {b : Bufferevent} (r : RateLimiting) (c : ℕ) (w : Way) (n : ℕ)
        → Limited b
        → b.rate_limiting ≡ some r
        → r.cfg ≡ some c
        → negsuc ssize_max ≤ℤ r.limit.limit w -ℤ pos n
        → Limited (decrement_limit cfgs b r w (pos n) true).1
    refills :
        {b : Bufferevent} (r : RateLimiting) (c : ℕ) (now : Timeval)
        → Limited b
        → b.rate_limiting ≡ some r
        → r.cfg ≡ some c
        → Limited (refill_callback cfgs b r c now true)
    group_stops : {b : Bufferevent} (w : Way) → Limited b → Limited (suspend b w by_group)
    group_frees : {b : Bufferevent} (w : Way) → Limited b → Limited (unsuspend b w by_group)

  paces_of :
      (b : Bufferevent) (r : RateLimiting) (c : ℕ)
      → IsPaced cfgs b
      → b.rate_limiting ≡ some r
      → r.cfg ≡ some c
      → PacesWith cfgs (limited_ways b) r c
  paces_of b r c v at with_cfg =
      subst (PacesFor cfgs (limited_ways b) r) with_cfg
        (subst (Paces cfgs (limited_ways b)) at v.paces)

  -- A bufferevent that starts without a rate limit and without a suspension for one, with a transport that
  -- runs exactly where nothing suspends it, with configurations of ev_token_bucket_cfg_new, and to which only
  -- this happens, in any order and with event_add that works: rate limits are set and cleared, its
  -- buckets are brought up to date, reads and writes are charged or decremented with amounts that are
  -- not negative and that an ev_ssize_t can take off, its refill event comes, and its group suspends or
  -- resumes it. Then it is never left to read or write in deficit, it never stays suspended for its
  -- limit without a refill on the way, and its transport runs exactly where nothing suspends it.
  pub Limited-IsPaced : (b : Bufferevent) → Limited b → IsPaced cfgs b
  Limited-IsPaced b (starts runs at off) = record {
    runs = runs;
    paces = subst (Paces cfgs (limited_ways b)) (sym at) off;
  }
  Limited-IsPaced _ (sets {b} c now l) =
      set_rate_limit-IsPaced cfgs configs b c now (Limited-IsPaced b l)
  Limited-IsPaced _ (looks {b} r c now l at with_cfg) =
      let v = Limited-IsPaced b l in
      update_buckets-IsPaced cfgs configs b r c now v.runs with_cfg (paces_of b r c v at with_cfg)
  Limited-IsPaced _ (charges {b} r c w n l at with_cfg fits) =
      let v = Limited-IsPaced b l in
      charge_own-IsPaced cfgs b r c w n v.runs with_cfg (paces_of b r c v at with_cfg) fits
  Limited-IsPaced _ (decrements {b} r c w n l at with_cfg fits) =
      let v = Limited-IsPaced b l in
      decrement_limit-IsPaced cfgs b r c w n v.runs with_cfg (paces_of b r c v at with_cfg) fits
  Limited-IsPaced _ (refills {b} r c now l at with_cfg) =
      let v = Limited-IsPaced b l in
      refill_callback-IsPaced cfgs configs b r c now v.runs with_cfg (paces_of b r c v at with_cfg)
  Limited-IsPaced _ (group_stops {b} w l) =
      group_suspend-IsPaced cfgs configs b w (Limited-IsPaced b l)
  Limited-IsPaced _ (group_frees {b} w l) =
      group_unsuspend-IsPaced cfgs configs b w (Limited-IsPaced b l)
