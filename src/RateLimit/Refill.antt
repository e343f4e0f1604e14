-- ===== src/RateLimit/Refill.antt =====
-- The refill of a token bucket is what its comment calls the naive one: no sum of it overflows.
use swift_event.Base.{
  ℕ, ◌+◌, ◌-◌, ◌*◌, ◌/◌, ◌%◌, ◌≤◌, ◌<◌, ◌≡◌, inl, inr, refl, ap₂, ◌∙◌, ◌||◌, ltb, leb, ◌==◌,
  if◌then◌else◌, Bool-cases, fun_ext, arith,
}
use native.Mathlib.Nat.{div-lt_iff_lt-mul}
use swift_event.Base.Int.{ℤ, pos, negsuc, ltb_ℤ, ◌+ℤ◌, ◌≤ℤ◌}
use swift_event.RateLimit.{
  Way, TokenBucket, TokenBucketCfg, u64, ssize_max, refill, ticks_since, bucket_update,
}

-- The smaller of two integers
abbrev pub min_ℤ : ℤ → ℤ → ℤ
min_ℤ a b = if ltb_ℤ a b then a else b

-- A limit that an `ev_ssize_t` can hold, and that is not above the maximum
pub record IsLimited (limit : ℤ) (maximum : ℕ) : Type 0 where
  pub most : limit ≤ℤ pos maximum
  pub fits : negsuc ssize_max ≤ℤ limit

-- The test by division
div-lt : (a n r : ℕ) → 0 < n → ltb (a / n) r ≡ ltb a (n * r)
div-lt a n r some = ground (arith, div-lt_iff_lt-mul {k = n} {x = a} {y = r} some)

module _ (maximum rate n : ℕ) (max_fits : maximum ≤ ssize_max) (some_ticks : 0 < n) where
  refill_pos :
      (l : ℕ)
      → l ≤ maximum
      → refill (pos l) maximum rate n
        ≡ (if ltb maximum (l + n * rate) then pos maximum else pos (l + n * rate))
  unfolding refill
  refill_pos l le =
      ground (arith, div-lt (u64 (maximum + 18446744073709551616 - l)) n rate some_ticks)

  refill_negsuc :
      (l : ℕ)
      → l ≤ ssize_max
      → refill (negsuc l) maximum rate n ≡ (
          if ltb (maximum + l + 1) (n * rate)
          then pos maximum
          else if leb (l + 1) (n * rate)
          then pos (n * rate - (l + 1))
          else negsuc (l - n * rate))
  unfolding refill
  refill_negsuc l le = ground (
    arith,
    div-lt (u64 (maximum + 18446744073709551616 - (18446744073709551615 - l))) n rate some_ticks,
  )

  -- The naive refill: the ticks times the rate are added, and what is above the maximum is lost.
  refill_lem :
      (limit : ℤ)
      → IsLimited limit maximum
      → refill limit maximum rate n ≡ min_ℤ (pos maximum) (limit +ℤ pos (n * rate))
  unfolding ◌+ℤ◌
  refill_lem (pos l) v = refill_pos l (omega (arith, v.most)) ∙ ground arith
  refill_lem (negsuc l) v = refill_negsuc l (omega (arith, v.fits)) ∙ ground arith

-- A refill keeps the limits in their range.
pub refill-IsLimited :
    (limit : ℤ) (maximum rate n : ℕ)
    → maximum ≤ ssize_max
    → IsLimited limit maximum
    → IsLimited (min_ℤ (pos maximum) (limit +ℤ pos (n * rate))) maximum
unfolding ◌+ℤ◌
refill-IsLimited (pos l) maximum rate n fits v = record {
  most = ground (arith, v.most);
  fits = ground (arith, fits, v.most);
}
refill-IsLimited (negsuc l) maximum rate n fits v = record {
  most = ground (arith, v.fits);
  fits = ground (arith, fits, v.fits);
}

-- What the comment of ev_token_bucket_update_ calls the naive refill of a bucket
abbrev pub naive_update : TokenBucket → TokenBucketCfg → ℕ → TokenBucket
naive_update b cfg n_ticks = record {
  limit = λ w. min_ℤ (pos (cfg.maximum w)) (b.limit w +ℤ pos (n_ticks * cfg.rate w));
  last_updated = (b.last_updated + n_ticks) % 4294967296;
}

-- A configuration as ev_token_bucket_cfg_new makes it
pub record IsConfig (cfg : TokenBucketCfg) : Type 0 where
  pub positive : (w : Way) → 0 < cfg.rate w
  pub rate_within : (w : Way) → cfg.rate w ≤ cfg.maximum w
  pub maximum_fits : (w : Way) → cfg.maximum w ≤ ssize_max

pub record IsBucket (cfg : TokenBucketCfg) (b : TokenBucket) : Type 0 where
  pub limited : (w : Way) → IsLimited (b.limit w) (cfg.maximum w)
  pub tick : b.last_updated < 4294967296

-- With a configuration of ev_token_bucket_cfg_new, and for a bucket whose limits are not above their
-- maxima and within an ev_ssize_t: an update between one tick and INT_MAX ticks after the last one is
-- the naive refill, min (maximum, limit + ticks * rate), which does not overflow, and wherever the
-- tick number has wrapped around. With no ticks, or when the time has gone back, the bucket stays as
-- it is.
pub bucket_update-naive_update :
    (b : TokenBucket) (cfg : TokenBucketCfg) (tick : ℕ)
    → IsConfig cfg
    → IsBucket cfg b
    → tick < 4294967296
    → let n = ticks_since tick b.last_updated in
      bucket_update b cfg tick
      ≡ (if n == 0 || ltb 2147483647 n then (0, b) else (1, naive_update b cfg n))
unfolding bucket_update
bucket_update-naive_update b cfg tick c v lt =
    let n = ticks_since tick b.last_updated in
    elim (Bool-cases (n == 0 || ltb 2147483647 n)) [
      | inl stays ↦ rw stays refl
      | inr goes ↦ rw goes (
          ap₂ (λ (l : Way → ℤ) (t : ℕ). (1, record { limit = l; last_updated = t }))
            (fun_ext λ w.
              refill_lem (cfg.maximum w) (cfg.rate w) n (c.maximum_fits w) (ground (arith, goes))
                (b.limit w) (v.limited w))
            (ground (arith, v.tick, lt)))
    ]
