-- ===== src/RateLimit/Allowance.antt =====
-- How much bufferevent_get_rlim_max_ of bufferevent_ratelim.c allows.
use swift_event.Base.{ℕ, ◌≡◌, sym, ap, subst, Option, none, some, if◌then◌else◌, by_if, arith}
use swift_event.Base.Int.{ℤ, pos, negsuc, ltb_ℤ, ◌≤ℤ◌}
use swift_event.RateLimit.{Way, TokenBucketCfg}
use swift_event.RateLimit.Suspend.{RateLimiting, suspend, by_group}
use swift_event.RateLimit.Groups.{Limits, set_bev}
use swift_event.RateLimit.Limiting.{
  set_limiting, at_most, not_negative, update_buckets, own_max, group_max, group_share, rlim_max_of,
  get_rlim_max,
}

-- Nothing, or at most the limit
abbrev pub IsAllowed : ℤ → ℤ → Type 0
IsAllowed m limit = (pos 0 ≤ℤ m) × (m ≤ℤ (if ltb_ℤ limit (pos 0) then pos 0 else limit))

module _ (cfgs : ℕ → TokenBucketCfg) where
  own-IsAllowed : (m : ℤ) (l : Limits) → IsAllowed (not_negative cfgs (m, l)).0 m
  own-IsAllowed (pos m) l = ground arith
  own-IsAllowed (negsuc m) l = ground arith

  clamped-IsAllowed :
      (share m : ℤ) (l : Limits) → IsAllowed (not_negative cfgs (at_most cfgs share m, l)).0 m
  clamped-IsAllowed (pos s) (pos m) l = ground arith
  clamped-IsAllowed (pos s) (negsuc m) l = ground arith
  clamped-IsAllowed (negsuc s) (pos m) l = ground arith
  clamped-IsAllowed (negsuc s) (negsuc m) l = ground arith

  group-IsAllowed :
      (l : Limits) (e : ℕ) (g : Option ℕ) (m : ℤ) (w : Way)
      → IsAllowed (not_negative cfgs (group_max cfgs l e g m w)).0 m
  unfolding group_max
  group-IsAllowed l e none m w = own-IsAllowed m l
  group-IsAllowed l e (some g) m w =
      by_if (λ (r : ℤ × Limits). IsAllowed (not_negative cfgs r).0 m) ((l.groups g).suspended w)
        (λ stops. clamped-IsAllowed (pos 0) m (set_bev l e (suspend (l.bevs e) w by_group)))
        λ goes. clamped-IsAllowed (group_share cfgs (l.groups g) w) m l

  -- A bufferevent with a rate limit may never read or write more than what is left in its bucket once
  -- that is brought up to date, and nothing in deficit, whatever the share of its group.
  pub get_rlim_max-IsAllowed :
      (l : Limits) (e : ℕ) (r : RateLimiting) (c : ℕ) (w : Way)
      → (l.bevs e).rate_limiting ≡ some r
      → r.cfg ≡ some c
      → IsAllowed (get_rlim_max cfgs l e w).0 ((update_buckets cfgs r c l.now).limit.limit w)
  unfolding rlim_max_of own_max
  get_rlim_max-IsAllowed l e r c w at with_cfg =
      let r' = update_buckets cfgs r c l.now in
      let own : own_max cfgs r r.cfg ((l.bevs e).max_single w) l.now w ≡ (r'.limit.limit w, r') =
        ap (λ o. own_max cfgs r o ((l.bevs e).max_single w) l.now w) with_cfg in
      let bound = λ (m : ℤ). IsAllowed m (r'.limit.limit w) in
      subst (λ o. bound (rlim_max_of cfgs l e o w).0) (sym at)
        (subst
          (λ (p : ℤ × RateLimiting).
            bound
              (not_negative cfgs
                (group_max cfgs (set_bev l e (set_limiting (l.bevs e) p.1)) e r.group p.0 w)).0)
          (sym own)
          (group-IsAllowed (set_bev l e (set_limiting (l.bevs e) r')) e r.group (r'.limit.limit w)
            w))
