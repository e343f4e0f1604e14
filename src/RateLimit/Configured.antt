-- ===== src/RateLimit/Configured.antt =====
-- A new configuration in bufferevent_ratelim.c, and the suspensions by a group, keep the invariant of a
-- bufferevent with a rate limit.
use swift_event.Base.{
  ℕ, ◌≤◌, ◌<◌, ◌≡◌, refl, sym, ap, ap₂, subst, ◌∙◌, Bool, true, false, not, ◌||◌, Option, none,
  some, by_if, arith,
}
use swift_event.Base.Int.{ℤ, pos, negsuc}
use swift_event.Time.{Timeval}
use swift_event.RateLimit.{
  Way, reading, writing, TokenBucket, TokenBucketCfg, ssize_max, clip, get_tick, bucket_init,
}
use swift_event.RateLimit.Refill.{IsLimited, IsConfig, IsBucket}
use swift_event.RateLimit.Suspend.{
  RateLimiting, Bufferevent, set_way, by_limit, by_group, suspend, unsuspend,
}
use swift_event.RateLimit.Limiting.{
  is_positive, is_same, is_set_ptr, limiting_or_new, settle_way, clear_rate_limit, put_rate_limit,
  set_rate_limit,
}
use swift_event.RateLimit.Runs.{
  RunsWhereFree, limited_ways, suspend-RunsWhereFree, unsuspend-RunsWhereFree, suspend-limited_ways,
  unsuspend-limited_ways,
}
use swift_event.RateLimit.Paced.{PacesFor, Paces, IsPaced}
use swift_event.RateLimit.Runs.{suspend_group_ways, unsuspend_group_ways}
use swift_event.RateLimit.Refilled.{Passed, tick_fits, Passed-IsPaced}

clip-IsLimited :
    (l : ℤ) (old maximum : ℕ)
    → IsLimited l old
    → maximum ≤ ssize_max
    → IsLimited (clip l maximum) maximum
clip-IsLimited (pos l) old maximum v fits = record {
  most = ground (arith, fits);
  fits = ground (arith, fits);
}
clip-IsLimited (negsuc l) old maximum v fits = record {
  most = ground (arith, fits);
  fits = ground (arith, fits, v.fits);
}

module _ (cfgs : ℕ → TokenBucketCfg) (r : RateLimiting) where
  settle_way-Passed :
      (bw : Way → Bool) (waits : Bool) (p : Bool × Bufferevent) (w : Way)
      → Passed bw waits p
      → let stays = not (is_positive (r.limit.limit w)) in
        Passed (set_way bw w stays) (waits || stays) (settle_way cfgs r w p)
  settle_way-Passed bw waits (again, b) w v =
      let has = is_positive (r.limit.limit w) in
      let P = Passed (set_way bw w (not has)) (waits || not has) in
      by_if P has
        (λ some_left. record {
          runs = unsuspend-RunsWhereFree b w by_limit v.runs;
          ways =
              unsuspend-limited_ways b w
              ∙ ap₂ (λ f x. set_way f w x) v.ways (ground (arith, some_left));
          again = v.again ∙ ground (arith, some_left);
        })
        λ none_left. record {
          runs = suspend-RunsWhereFree b w by_limit v.runs;
          ways =
              suspend-limited_ways b w
              ∙ ap₂ (λ f x. set_way f w x) v.ways (ground (arith, none_left));
          again = ground (arith, none_left);
        }

module _ (cfgs : ℕ → TokenBucketCfg) (configs : (c : ℕ) → IsConfig (cfgs c)) where
  -- The bucket of a new configuration, which keeps what is left of the old one
  init-IsBucket :
      (b : TokenBucket) (c tick : ℕ) (again : Bool)
      → tick < 4294967296
      → (again ≡ true → (old : ℕ) × IsBucket (cfgs old) b)
      → IsBucket (cfgs c) (bucket_init b (cfgs c) tick again)
  unfolding bucket_init
  init-IsBucket b c tick true fits old =
      let (o, v) = old refl in
      record {
        limited = λ w.
            clip-IsLimited (b.limit w) ((cfgs o).maximum w) ((cfgs c).maximum w) (v.limited w)
              ((configs c).maximum_fits w);
        tick = v.tick;
      }
  init-IsBucket b c tick false fits old = record {
    limited = λ w. record {
      most = ground (arith, (configs c).rate_within w, (configs c).maximum_fits w);
      fits = ground (arith, (configs c).rate_within w, (configs c).maximum_fits w);
    };
    tick = fits;
  }

  put-IsPaced :
      (b : Bufferevent) (r : RateLimiting) (c : ℕ) (now : Timeval)
      → RunsWhereFree b
      → (is_set_ptr r.cfg ≡ true → (old : ℕ) × IsBucket (cfgs old) r.limit)
      → IsPaced cfgs (put_rate_limit cfgs b r c now true)
  unfolding put_rate_limit
  put-IsPaced b r c now runs old =
      let tick = get_tick now (cfgs c) in
      let bucket = bucket_init r.limit (cfgs c) tick (is_set_ptr r.cfg) in
      let r' = record r { cfg = some c; limit = bucket; refill_pending = false } in
      let start : Passed (limited_ways b) false (false, b) = record {
        runs = runs;
        ways = refl;
        again = refl;
      } in
      let first = settle_way-Passed cfgs r' _ _ _ reading start in
      let second = settle_way-Passed cfgs r' _ _ _ writing first in
      Passed-IsPaced cfgs configs r' c
        (settle_way cfgs r' writing (settle_way cfgs r' reading (false, b))) _ _ second refl
        (init-IsBucket r.limit c tick (is_set_ptr r.cfg) (tick_fits cfgs configs now c) old)
        (elim [ reading ↦ λ off. ground (arith, off) | writing ↦ λ off. ground (arith, off) ])
        (elim [ reading ↦ λ on. ground (arith, on) | writing ↦ λ on. ground (arith, on) ])

  clear-IsPaced :
      (b : Bufferevent) (o : Option RateLimiting)
      → IsPaced cfgs b
      → IsPaced cfgs (clear_rate_limit cfgs b o)
  unfolding clear_rate_limit
  clear-IsPaced b none v = v
  clear-IsPaced b (some r) v =
      let b' = unsuspend b reading by_limit in
      record {
        runs =
            unsuspend-RunsWhereFree b' writing by_limit
              (unsuspend-RunsWhereFree b reading by_limit v.runs);
        paces =
            subst (λ (f : Way → Bool). (w : Way) → f w ≡ false)
              (sym (
                unsuspend-limited_ways b' writing
                ∙ ap (λ f. set_way f writing false) (unsuspend-limited_ways b reading)))
              (elim [ reading ↦ refl | writing ↦ refl ]);
      }

  old-IsBucket :
      (bw : Way → Bool) (r : RateLimiting) (c : Option ℕ)
      → PacesFor cfgs bw r c
      → is_set_ptr c ≡ true
      → (old : ℕ) × IsBucket (cfgs old) r.limit
  old-IsBucket bw r (some c) v on = (c, v.bucket)
  old-IsBucket bw r none v on = absurd (cc on)

  limits-IsBucket :
      (bw : Way → Bool) (o : Option RateLimiting)
      → Paces cfgs bw o
      → is_set_ptr (limiting_or_new o).cfg ≡ true
      → (old : ℕ) × IsBucket (cfgs old) (limiting_or_new o).limit
  limits-IsBucket bw (some r) v on = old-IsBucket bw r r.cfg v on
  limits-IsBucket bw none v on = absurd (cc on)

  -- A new rate limit, or none, leaves a bufferevent that is suspended exactly where it has to be, with its
  -- refill on the way.
  pub set_rate_limit-IsPaced :
      (b : Bufferevent) (c : Option ℕ) (now : Timeval)
      → IsPaced cfgs b
      → IsPaced cfgs (set_rate_limit cfgs b c now true)
  unfolding set_rate_limit
  set_rate_limit-IsPaced b none now v = clear-IsPaced b b.rate_limiting v
  set_rate_limit-IsPaced b (some c) now v =
      let r = limiting_or_new b.rate_limiting in
      by_if (IsPaced cfgs) (is_same r.cfg c) (λ same. v)
        λ new.
          put-IsPaced b r c now v.runs (limits-IsBucket (limited_ways b) b.rate_limiting v.paces)

  pub group_suspend-IsPaced :
      (b : Bufferevent) (w : Way) → IsPaced cfgs b → IsPaced cfgs (suspend b w by_group)
  unfolding suspend
  group_suspend-IsPaced b w v = record {
    runs = suspend-RunsWhereFree b w by_group v.runs;
    paces = subst (λ f. Paces cfgs f b.rate_limiting) (sym (suspend_group_ways b w)) v.paces;
  }

  pub group_unsuspend-IsPaced :
      (b : Bufferevent) (w : Way) → IsPaced cfgs b → IsPaced cfgs (unsuspend b w by_group)
  unfolding unsuspend
  group_unsuspend-IsPaced b w v = record {
    runs = unsuspend-RunsWhereFree b w by_group v.runs;
    paces = subst (λ f. Paces cfgs f b.rate_limiting) (sym (unsuspend_group_ways b w)) v.paces;
  }
