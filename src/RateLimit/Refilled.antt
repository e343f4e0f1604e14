-- ===== src/RateLimit/Refilled.antt =====
-- The refill of a bucket in bufferevent_ratelim.c, and a new configuration, keep the invariant of a
-- bufferevent with a rate limit.
use swift_event.Base.{
  ℕ, ◌*◌, ◌<◌, ◌≡◌, inl, inr, refl, sym, ap, ap₂, subst, ◌∙◌, Bool, true, false, not, ◌&&◌, ◌||◌,
  some, ltb, ◌==◌, if◌then◌else◌, by_if, Bool-cases, fun_ext, arith,
}
use swift_event.Base.Int.{ℤ, pos, negsuc, ◌+ℤ◌}
use swift_event.Time.{Timeval}
use swift_event.RateLimit.{
  Way, reading, writing, TokenBucket, TokenBucketCfg, ticks_since, get_tick, bucket_update,
}
use swift_event.RateLimit.Refill.{
  min_ℤ, IsConfig, IsBucket, naive_update, refill-IsLimited, bucket_update-naive_update,
}
use swift_event.RateLimit.Suspend.{RateLimiting, Bufferevent, set_way, by_limit}
use swift_event.RateLimit.Limiting.{
  set_limiting, is_positive, add_refill, update_buckets, wake_way, refill_callback,
}
use swift_event.RateLimit.Runs.{
  RunsWhereFree, limited_ways, unsuspend-RunsWhereFree, unsuspend-limited_ways,
}
use swift_event.RateLimit.Paced.{PacesWith, PacesFor, IsPaced}

refill_positive :
    (l : ℤ) (rate maximum n : ℕ)
    → 0 < maximum
    → is_positive l ≡ true
    → is_positive (min_ℤ (pos maximum) (l +ℤ pos (n * rate))) ≡ true
unfolding ◌+ℤ◌
refill_positive (pos l) rate maximum n room on = ground (arith, on)
refill_positive (negsuc l) rate maximum n room on = absurd (ground (arith, on))

module _ (cfg : TokenBucketCfg) (c : IsConfig cfg) (b : TokenBucket) (v : IsBucket cfg b) (tick : ℕ)
    (fits : tick < 4294967296) where
  -- What holds of a bucket and of its naive refill holds after an update.
  updated :
      (P : TokenBucket → Type 0)
      → P b
      → (P (naive_update b cfg (ticks_since tick b.last_updated)))
      → P (bucket_update b cfg tick).1
  updated P stays goes =
      let n = ticks_since tick b.last_updated in
      subst (λ (r : ℕ × TokenBucket). P r.1) (sym (bucket_update-naive_update b cfg tick c v fits))
        (by_if (λ (r : ℕ × TokenBucket). P r.1) (n == 0 || ltb 2147483647 n) (λ off. stays)
          λ on. goes)

  bucket_update-IsBucket : IsBucket cfg (bucket_update b cfg tick).1
  bucket_update-IsBucket = updated (IsBucket cfg) v (record {
    limited = λ w.
        refill-IsLimited (b.limit w) (cfg.maximum w) (cfg.rate w) (ticks_since tick b.last_updated)
          (c.maximum_fits w) (v.limited w);
    tick = omega arith;
  })

  -- A refill leaves no way without bytes that had some.
  bucket_update-positive :
      (w : Way)
      → is_positive (b.limit w) ≡ true
      → is_positive ((bucket_update b cfg tick).1.limit w) ≡ true
  bucket_update-positive w on =
      updated (λ (x : TokenBucket). is_positive (x.limit w) ≡ true) on
        (refill_positive (b.limit w) (cfg.rate w) (cfg.maximum w) (ticks_since tick b.last_updated)
          (omega (arith, c.positive w, c.rate_within w)) on)

-- What a pass over one way leaves: the flags `bw`, and whether to wait.
pub record Passed (bw : Way → Bool) (waits : Bool) (p : Bool × Bufferevent) : Type 0 where
  pub runs : RunsWhereFree p.1
  pub ways : limited_ways p.1 ≡ bw
  pub again : p.0 ≡ waits

same_way_bw : (bw : Way → Bool) (w : Way) (x : Bool) → bw w ≡ x → set_way bw w x ≡ bw
same_way_bw bw reading x at = fun_ext (elim [ reading ↦ sym at | writing ↦ refl ])
same_way_bw bw writing x at = fun_ext (elim [ reading ↦ refl | writing ↦ sym at ])

module _ (cfgs : ℕ → TokenBucketCfg) (r : RateLimiting) where
  wake_way-Passed :
      (bw : Way → Bool) (waits : Bool) (p : Bool × Bufferevent) (w : Way)
      → Passed bw waits p
      → let stays = bw w && not (is_positive (r.limit.limit w)) in
        Passed (set_way bw w stays) (waits || stays) (wake_way cfgs r w p)
  wake_way-Passed bw waits (again, b) w v =
      let here : limited_ways b w ≡ bw w = ap (λ (f : Way → Bool). f w) v.ways in
      let has = is_positive (r.limit.limit w) in
      let P = Passed (set_way bw w (bw w && not has)) (waits || (bw w && not has)) in
      by_if P (limited_ways b w)
        (λ on.
          by_if P has
            (λ some_left. record {
              runs = unsuspend-RunsWhereFree b w by_limit v.runs;
              ways =
                  unsuspend-limited_ways b w
                  ∙ ap₂ (λ f x. set_way f w x) v.ways (ground (arith, some_left));
              again = v.again ∙ ground (arith, some_left);
            })
            λ none_left. record {
              runs = v.runs;
              ways = v.ways ∙ sym (same_way_bw bw w (bw w && not has) (ground (arith, none_left)));
              again = ground (arith, none_left, here, on);
            })
        λ off. record {
          runs = v.runs;
          ways = v.ways ∙ sym (same_way_bw bw w (bw w && not has) (ground (arith, here, off)));
          again = v.again ∙ ground (arith, here, off);
        }

module _ (cfgs : ℕ → TokenBucketCfg) (configs : (c : ℕ) → IsConfig (cfgs c)) where
  pub tick_fits : (now : Timeval) (c : ℕ) → get_tick now (cfgs c) < 4294967296
  unfolding get_tick
  tick_fits now c = omega arith

  pub Passed-IsPaced :
      (r : RateLimiting) (c : ℕ) (p : Bool × Bufferevent) (bw : Way → Bool) (waits : Bool)
      → Passed bw waits p
      → r.cfg ≡ some c
      → IsBucket (cfgs c) r.limit
      → ((w : Way) → is_positive (r.limit.limit w) ≡ false → bw w ≡ true)
      → ((w : Way) → bw w ≡ true → waits ≡ true)
      → IsPaced cfgs (set_limiting p.1 (if p.0 then add_refill true r else r))
  Passed-IsPaced r c (again, b) bw waits v at bucket deficit wakes =
      let paces = λ (w : Way) (on : bw w ≡ true). v.again ∙ wakes w on in
      by_if (λ (r' : RateLimiting). IsPaced cfgs (set_limiting b r')) again
        (λ yes_again. record {
          runs = v.runs;
          paces = subst (PacesFor cfgs (limited_ways b) (add_refill true r)) (sym at) (
              subst (λ f. PacesWith cfgs f (add_refill true r) c) (sym v.ways)
                (record { bucket = bucket; deficit = deficit; wakes = λ w on. ground arith }));
        })
        λ not_again. record {
          runs = v.runs;
          paces = subst (PacesFor cfgs (limited_ways b) r) (sym at) (
              subst (λ f. PacesWith cfgs f r c) (sym v.ways)
                (record {
                  bucket = bucket;
                  deficit = deficit;
                  wakes = λ w on. absurd (cc (not_again, paces w on));
                }));
        }

  -- When the refill of a bucket is due, the ways that have bytes again go on, the others wait for the
  -- next refill.
  pub refill_callback-IsPaced :
      (b : Bufferevent) (r : RateLimiting) (c : ℕ) (now : Timeval)
      → RunsWhereFree b
      → r.cfg ≡ some c
      → PacesWith cfgs (limited_ways b) r c
      → IsPaced cfgs (refill_callback cfgs b r c now true)
  unfolding refill_callback
  refill_callback-IsPaced b r c now runs at v =
      let tick = get_tick now (cfgs c) in
      let bucket = (bucket_update r.limit (cfgs c) tick).1 in
      let r' = record r { limit = bucket; refill_pending = false } in
      let start : Passed (limited_ways b) false (false, b) = record {
        runs = runs;
        ways = refl;
        again = refl;
      } in
      let first = wake_way-Passed cfgs r' _ _ _ reading start in
      let second = wake_way-Passed cfgs r' _ _ _ writing first in
      let was = λ (w : Way) (off : is_positive (bucket.limit w) ≡ false).
        v.deficit w (elim (Bool-cases (is_positive (r.limit.limit w))) [
          | inl on ↦ absurd (
              cc (
                off,
                bucket_update-positive (cfgs c) (configs c) r.limit v.bucket tick (tick_fits now c)
                    w on,
              ))
          | inr gone ↦ gone
        ]) in
      Passed-IsPaced r' c (wake_way cfgs r' writing (wake_way cfgs r' reading (false, b))) _ _
        second at
        (bucket_update-IsBucket (cfgs c) (configs c) r.limit v.bucket tick (tick_fits now c))
        (elim [
          | reading ↦ λ off. ground (arith, off, was reading off)
          | writing ↦ λ off. ground (arith, off, was writing off)
        ])
        (elim [ reading ↦ λ on. ground (arith, on) | writing ↦ λ on. ground (arith, on) ])

  -- Reading how much is left brings the bucket up to date, and no more.
  pub update_buckets-IsPaced :
      (b : Bufferevent) (r : RateLimiting) (c : ℕ) (now : Timeval)
      → RunsWhereFree b
      → r.cfg ≡ some c
      → PacesWith cfgs (limited_ways b) r c
      → IsPaced cfgs (set_limiting b (update_buckets cfgs r c now))
  unfolding update_buckets
  update_buckets-IsPaced b r c now runs at v =
      let tick = get_tick now (cfgs c) in
      let fits = tick_fits now c in
      by_if (λ (r' : RateLimiting). IsPaced cfgs (set_limiting b r')) (tick == r.limit.last_updated)
        (λ same. record {
          runs = runs;
          paces = subst (PacesFor cfgs (limited_ways b) r) (sym at) v;
        })
        λ later. record {
          runs = runs;
          paces =
              subst
                (PacesFor cfgs (limited_ways b)
                  (record r { limit = (bucket_update r.limit (cfgs c) tick).1 }))
                (sym at)
                (record {
                  bucket = bucket_update-IsBucket (cfgs c) (configs c) r.limit v.bucket tick fits;
                  deficit = λ w off.
                      v.deficit w (elim (Bool-cases (is_positive (r.limit.limit w))) [
                        | inl on ↦ absurd (
                            cc (
                              off,
                              bucket_update-positive (cfgs c) (configs c) r.limit v.bucket tick fits
                                  w on,
                            ))
                        | inr gone ↦ gone
                      ]);
                  wakes = v.wakes;
                });
        }
