-- ===== src/RateLimit/Paced.antt =====
-- The invariant of a bufferevent with a rate limit: in deficit it is suspended, and while it is
-- suspended its refill is on the way.
use swift_event.Base.{
  ℕ, ◌≡◌, refl, sym, ap, subst, ◌∙◌, Bool, true, false, not, ◌&&◌, Option, none, some,
  if◌then◌else◌, by_if, fun_ext, arith,
}
use swift_event.Base.Int.{ℤ, pos, negsuc, ◌-ℤ◌, ◌≤ℤ◌}
use swift_event.RateLimit.{
  Way, reading, writing, TokenBucket, TokenBucketCfg, ssize_max, bucket_decrement,
}
use swift_event.RateLimit.Refill.{IsLimited, IsBucket}
use swift_event.RateLimit.Suspend.{RateLimiting, Bufferevent, set_way, by_limit, suspend, unsuspend}
use swift_event.RateLimit.Limiting.{
  set_limiting, is_positive, add_refill, del_refill, other_way, charge_own, decrement_limit,
}
use swift_event.RateLimit.Runs.{
  RunsWhereFree, limited_ways, suspend-RunsWhereFree, unsuspend-RunsWhereFree, suspend-limited_ways,
  unsuspend-limited_ways,
}

decrement-IsLimited :
    (l : ℤ) (n maximum : ℕ)
    → IsLimited l maximum
    → negsuc ssize_max ≤ℤ l -ℤ pos n
    → IsLimited (l -ℤ pos n) maximum
unfolding ◌-ℤ◌
decrement-IsLimited (pos l) n maximum v fits = record { most = ground (arith, v.most); fits = fits }
decrement-IsLimited (negsuc l) n maximum v fits = record {
  most = ground (arith, v.most);
  fits = fits;
}

-- Spending may leave a deficit, as long as an `ev_ssize_t` can hold it.
bucket_decrement-IsBucket :
    (cfg : TokenBucketCfg) (b : TokenBucket) (w : Way) (n : ℕ)
    → IsBucket cfg b
    → negsuc ssize_max ≤ℤ b.limit w -ℤ pos n
    → IsBucket cfg (bucket_decrement b w (pos n))
unfolding bucket_decrement
bucket_decrement-IsBucket cfg b reading n v fits = record {
  limited = elim [
    | reading ↦
        decrement-IsLimited (b.limit reading) n (cfg.maximum reading) (v.limited reading) fits
    | writing ↦ v.limited writing
  ];
  tick = v.tick;
}
bucket_decrement-IsBucket cfg b writing n v fits = record {
  limited = elim [
    | reading ↦ v.limited reading
    | writing ↦
        decrement-IsLimited (b.limit writing) n (cfg.maximum writing) (v.limited writing) fits
  ];
  tick = v.tick;
}

module _ (cfgs : ℕ → TokenBucketCfg) where
  -- With a configuration: a way without bytes left is suspended, and a refill is pending while a way
  -- is suspended.
  pub record PacesWith (bw : Way → Bool) (r : RateLimiting) (c : ℕ) : Type 0 where
    pub bucket : IsBucket (cfgs c) r.limit
    pub deficit : (w : Way) → is_positive (r.limit.limit w) ≡ false → bw w ≡ true
    pub wakes : (w : Way) → bw w ≡ true → r.refill_pending ≡ true

  abbrev pub PacesFor : (Way → Bool) → RateLimiting → Option ℕ → Type 0
  PacesFor bw r none = (w : Way) → bw w ≡ false
  PacesFor bw r (some c) = PacesWith bw r c

  abbrev pub Paces : (Way → Bool) → Option RateLimiting → Type 0
  Paces bw none = (w : Way) → bw w ≡ false
  Paces bw (some r) = PacesFor bw r r.cfg

  pub record IsPaced (b : Bufferevent) : Type 0 where
    pub runs : RunsWhereFree b
    pub paces : Paces (limited_ways b) b.rate_limiting

  -- One way is settled anew, and the limit of the other stays.
  settled-PacesWith :
      (bw : Way → Bool) (r r' : RateLimiting) (c : ℕ) (w : Way) (x : Bool)
      → PacesWith bw r c
      → IsBucket (cfgs c) r'.limit
      → r'.limit.limit (other_way w) ≡ r.limit.limit (other_way w)
      → (is_positive (r'.limit.limit w) ≡ false → x ≡ true)
      → (x ≡ true → r'.refill_pending ≡ true)
      → (bw (other_way w) ≡ true → r'.refill_pending ≡ true)
      → PacesWith (set_way bw w x) r' c
  settled-PacesWith bw r r' c reading x v bucket same here wakes other = record {
    bucket = bucket;
    deficit = elim [
      | reading ↦ here
      | writing ↦ λ off. v.deficit writing (sym (ap is_positive same) ∙ off)
    ];
    wakes = elim [ reading ↦ wakes | writing ↦ other ];
  }
  settled-PacesWith bw r r' c writing x v bucket same here wakes other = record {
    bucket = bucket;
    deficit = elim [
      | reading ↦ λ off. v.deficit reading (sym (ap is_positive same) ∙ off)
      | writing ↦ here
    ];
    wakes = elim [ reading ↦ other | writing ↦ wakes ];
  }

  -- The limit that a spending does not name stays.
  decrement_other :
      (b : TokenBucket) (w : Way) (n : ℤ)
      → (bucket_decrement b w n).limit (other_way w) ≡ b.limit (other_way w)
  unfolding bucket_decrement
  decrement_other b reading n = refl
  decrement_other b writing n = refl

  same_bw : (bw : Way → Bool) (w : Way) → set_way bw w (bw w) ≡ bw
  same_bw bw reading = fun_ext (elim [ reading ↦ refl | writing ↦ refl ])
  same_bw bw writing = fun_ext (elim [ reading ↦ refl | writing ↦ refl ])

  suspended-IsPaced :
      (b : Bufferevent) (w : Way) (r : RateLimiting) (c : ℕ)
      → RunsWhereFree b
      → r.cfg ≡ some c
      → PacesWith (set_way (limited_ways b) w true) r c
      → IsPaced (set_limiting (suspend b w by_limit) r)
  suspended-IsPaced b w r c runs at paces = record {
    runs = suspend-RunsWhereFree b w by_limit runs;
    paces =
        subst (PacesFor (limited_ways (suspend b w by_limit)) r) (sym at)
          (subst (λ bw. PacesWith bw r c) (sym (suspend-limited_ways b w)) paces);
  }

  freed-IsPaced :
      (b : Bufferevent) (w : Way) (r : RateLimiting) (c : ℕ)
      → RunsWhereFree b
      → r.cfg ≡ some c
      → PacesWith (set_way (limited_ways b) w false) r c
      → IsPaced (set_limiting (unsuspend b w by_limit) r)
  freed-IsPaced b w r c runs at paces = record {
    runs = unsuspend-RunsWhereFree b w by_limit runs;
    paces =
        subst (PacesFor (limited_ways (unsuspend b w by_limit)) r) (sym at)
          (subst (λ bw. PacesWith bw r c) (sym (unsuspend-limited_ways b w)) paces);
  }

  kept-IsPaced :
      (b : Bufferevent) (r : RateLimiting) (c : ℕ)
      → RunsWhereFree b
      → r.cfg ≡ some c
      → PacesWith (limited_ways b) r c
      → IsPaced (set_limiting b r)
  kept-IsPaced b r c runs at paces = record {
    runs = runs;
    paces = subst (PacesFor (limited_ways b) r) (sym at) paces;
  }

  -- What a spending of `n` bytes leaves of the limit; it must be one that an `ev_ssize_t` can hold.
  module _ (b : Bufferevent) (r : RateLimiting) (c : ℕ) (w : Way) (n : ℕ) (runs : RunsWhereFree b)
      (at : r.cfg ≡ some c) (v : PacesWith (limited_ways b) r c)
      (fits : negsuc ssize_max ≤ℤ r.limit.limit w -ℤ pos n) where
    abbrev spent : RateLimiting
    spent = record r { limit = bucket_decrement r.limit w (pos n) }

    spent-IsBucket : IsBucket (cfgs c) spent.limit
    spent-IsBucket = bucket_decrement-IsBucket (cfgs c) r.limit w n v.bucket fits

    exhausted-IsPaced : IsPaced (set_limiting (suspend b w by_limit) (add_refill true spent))
    exhausted-IsPaced = suspended-IsPaced b w (add_refill true spent) c runs at (
        settled-PacesWith (limited_ways b) r (add_refill true spent) c w true v spent-IsBucket
          (decrement_other r.limit w (pos n)) (λ off. refl) (λ on. ground arith)
          (λ on. ground arith))

    woken-IsPaced :
        is_positive (spent.limit.limit w) ≡ true
        → IsPaced (
            set_limiting
              (unsuspend b w by_limit)
              (if limited_ways b (other_way w) then spent else del_refill spent))
    woken-IsPaced left =
        let same = decrement_other r.limit w (pos n) in
        by_if (λ (r' : RateLimiting). IsPaced (set_limiting (unsuspend b w by_limit) r'))
          (limited_ways b (other_way w))
          (λ other. freed-IsPaced b w spent c runs at (
            settled-PacesWith (limited_ways b) r spent c w false v spent-IsBucket same
              (λ off. absurd (cc (left, off))) (λ on. absurd (cc on)) (v.wakes (other_way w))))
          λ free. freed-IsPaced b w (del_refill spent) c runs at (
            settled-PacesWith (limited_ways b) r (del_refill spent) c w false v spent-IsBucket same
              (λ off. absurd (cc (left, off))) (λ on. absurd (cc on))
              (λ on. absurd (cc (free, on))))

    spent-IsPaced :
        (is_positive (spent.limit.limit w) ≡ false → limited_ways b w ≡ true)
        → IsPaced (set_limiting b spent)
    spent-IsPaced here = kept-IsPaced b spent c runs at (
        subst (λ bw. PacesWith bw spent c) (same_bw (limited_ways b) w)
          (settled-PacesWith (limited_ways b) r spent c w (limited_ways b w) v spent-IsBucket
            (decrement_other r.limit w (pos n)) here (v.wakes w) (v.wakes (other_way w))))

    -- After bytes were read or written, a bufferevent that has none left is suspended, and a refill of its
    -- bucket is on the way.
    pub charge_own-IsPaced : IsPaced (charge_own cfgs b r w (pos n) true).1
    unfolding charge_own
    charge_own-IsPaced =
        by_if (λ (x : ℤ × Bufferevent). IsPaced x.1) (not (is_positive (spent.limit.limit w)))
          (λ gone. exhausted-IsPaced)
          λ left.
            by_if (λ (x : ℤ × Bufferevent). IsPaced x.1) (limited_ways b w)
              (λ was. woken-IsPaced (ground (arith, left)))
              λ free. spent-IsPaced (λ off. absurd (cc (left, off)))

    -- bufferevent_decrement_read_limit looks at how the limit changes, and comes to the same.
    pub decrement_limit-IsPaced : IsPaced (decrement_limit cfgs b r w (pos n) true).1
    unfolding decrement_limit
    decrement_limit-IsPaced =
        let had = is_positive (r.limit.limit w) in
        let has = is_positive (spent.limit.limit w) in
        by_if (λ (x : ℤ × Bufferevent). IsPaced x.1) (had && not has) (λ gone. exhausted-IsPaced)
          λ same.
            by_if (λ (x : ℤ × Bufferevent). IsPaced x.1) (not had && has)
              (λ back. woken-IsPaced (ground (arith, back)))
              λ other. spent-IsPaced (λ off. v.deficit w (ground (arith, off, same)))
