-- ===== src/RateLimit/Budget.antt =====
-- How much a token bucket lets through in a stretch of time.
use swift_event.Base.{
  ℕ, ap₂, fun_ext, ◌+◌, ◌*◌, ◌%◌, ◌≤◌, ◌<◌, ◌≡◌, refl, sym, ap, subst, ◌∙◌, true, false, ◌||◌, ltb,
  ◌==◌, if◌then◌else◌, by_if, arith,
}
use native.Mathlib.Nat.{add-mul}
use swift_event.Base.Int.{ℤ, pos, negsuc, ◌+ℤ◌, ◌-ℤ◌, ◌≤ℤ◌, int_laws}
use swift_event.RateLimit.{
  Way, reading, writing, TokenBucket, TokenBucketCfg, same_way, ticks_since, bucket_update,
  bucket_decrement,
}
use swift_event.RateLimit.Refill.{
  min_ℤ, IsLimited, IsConfig, IsBucket, naive_update, refill-IsLimited, bucket_update-naive_update,
}

-- The tick number `k` ticks after the last update
abbrev tick_after : TokenBucket → ℕ → ℕ
tick_after b k = (b.last_updated + k) % 4294967296

abbrev pub update_after : TokenBucketCfg → TokenBucket → ℕ → TokenBucket
update_after cfg b k = (bucket_update b cfg (tick_after b k)).1

same_way-eq : (v w : Way) → same_way v w ≡ true → v ≡ w
same_way-eq reading reading same = refl
same_way-eq writing writing same = refl
same_way-eq reading writing same = absurd (cc same)
same_way-eq writing reading same = absurd (cc same)

same_way_refl : (w : Way) → same_way w w ≡ true
same_way_refl reading = refl
same_way_refl writing = refl

taken-IsLimited :
    (l : ℤ) (n maximum : ℕ) → IsLimited l maximum → pos n ≤ℤ l → IsLimited (l -ℤ pos n) maximum
unfolding ◌-ℤ◌
taken-IsLimited (pos l) n maximum v few = record {
  most = ground (arith, v.most, few);
  fits = ground (arith, few);
}
taken-IsLimited (negsuc l) n maximum v few = absurd (omega (arith, few))

-- A refill and a spending, as numbers
refill_budget :
    (l s : ℤ) (spent before added maximum : ℕ)
    → pos 0 ≤ℤ l
    → l +ℤ pos spent ≤ℤ s +ℤ pos before
    → let l' = min_ℤ (pos maximum) (l +ℤ pos added) in
      (pos 0 ≤ℤ l') × (l' +ℤ pos spent ≤ℤ s +ℤ pos (before + added))
unfolding ◌+ℤ◌
refill_budget (pos l) (pos s) spent before added maximum some covered = ground (arith, covered)
refill_budget (pos l) (negsuc s) spent before added maximum some covered = ground (arith, covered)
refill_budget (negsuc l) s spent before added maximum some covered = absurd (omega (arith, some))

spend_budget :
    (l s : ℤ) (n spent before : ℕ)
    → pos n ≤ℤ l
    → l +ℤ pos spent ≤ℤ s +ℤ pos before
    → (pos 0 ≤ℤ l -ℤ pos n) × (l -ℤ pos n +ℤ pos (spent + n) ≤ℤ s +ℤ pos before)
unfolding ◌+ℤ◌ ◌-ℤ◌
spend_budget (pos l) (pos s) n spent before few covered = ground (arith, few, covered)
spend_budget (pos l) (negsuc s) n spent before few covered = ground (arith, few, covered)
spend_budget (negsuc l) s n spent before few covered = absurd (omega (arith, few))

spent_within :
    (l s : ℤ) (spent before : ℕ)
    → pos 0 ≤ℤ l
    → pos 0 ≤ℤ s
    → l +ℤ pos spent ≤ℤ s +ℤ pos before
    → pos spent ≤ℤ s +ℤ pos before
unfolding ◌+ℤ◌
spent_within (pos l) (pos s) spent before left some covered = ground (arith, covered)
spent_within (negsuc l) s spent before left some covered = absurd (omega (arith, left))
spent_within l (negsuc s) spent before left some covered = absurd (omega (arith, some))

module _ (cfg : TokenBucketCfg) (c : IsConfig cfg) where
  -- Some ticks, fewer than half of what the tick number can count
  update_after-naive :
      (b : TokenBucket) (k : ℕ)
      → IsBucket cfg b
      → 0 < k
      → k ≤ 2147483647
      → update_after cfg b k ≡ naive_update b cfg k
  update_after-naive b k v some few =
      let lt : tick_after b k < 4294967296 = omega arith in
      let n : ticks_since (tick_after b k) b.last_updated ≡ k = ground (arith, v.tick, few) in
      let goes : (k == 0 || ltb 2147483647 k) ≡ false = ground (arith, some, few) in
      let m = ticks_since (tick_after b k) b.last_updated in
      let on_time : (if m == 0 || ltb 2147483647 m then (0, b) else (1, naive_update b cfg m))
          ≡ (1, naive_update b cfg k) =
        rw n (rw goes refl) in
      ap (λ (r : ℕ × TokenBucket). r.1)
        (bucket_update-naive_update b cfg (tick_after b k) c v lt ∙ on_time)

  update_after-IsBucket :
      (b : TokenBucket) (k : ℕ)
      → IsBucket cfg b
      → 0 < k
      → k ≤ 2147483647
      → IsBucket cfg (update_after cfg b k)
  update_after-IsBucket b k v some few =
      subst (IsBucket cfg) (sym (update_after-naive b k v some few)) (record {
        limited = λ w.
            refill-IsLimited (b.limit w) (cfg.maximum w) (cfg.rate w) k (c.maximum_fits w)
              (v.limited w);
        tick = omega arith;
      })

  module _ (w : Way) where
    -- A bucket in use, and what is read or written and how many ticks pass until then. As much is
    -- taken as the bucket allows, or less; between two updates are some ticks.
    pub data Run (start : TokenBucket) : ℕ → ℕ → TokenBucket → Type 0 where
      begins : Run start 0 0 start
      waits :
          {spent ticks : ℕ} {b : TokenBucket} (k : ℕ)
          → Run start spent ticks b
          → 0 < k
          → k ≤ 2147483647
          → Run start spent (ticks + k) (update_after cfg b k)
      takes :
          {spent ticks : ℕ} {b : TokenBucket} (n : ℕ)
          → Run start spent ticks b
          → pos n ≤ℤ b.limit w
          → Run start (spent + n) ticks (bucket_decrement b w (pos n))

    record InBudget (start : TokenBucket) (spent ticks : ℕ) (b : TokenBucket) : Type 0 where
      bucket : IsBucket cfg b
      left : pos 0 ≤ℤ b.limit w
      covered : b.limit w +ℤ pos spent ≤ℤ start.limit w +ℤ pos (ticks * cfg.rate w)

    decrement-IsBucket :
        (b : TokenBucket) (n : ℕ)
        → IsBucket cfg b
        → pos n ≤ℤ b.limit w
        → IsBucket cfg (bucket_decrement b w (pos n))
    unfolding bucket_decrement
    decrement-IsBucket b n v few = record {
      limited = λ x.
          by_if (λ l. IsLimited l (cfg.maximum x)) (same_way x w)
            (λ same.
              taken-IsLimited (b.limit x) n (cfg.maximum x) (v.limited x)
                (subst (λ y. pos n ≤ℤ b.limit y) (sym (same_way-eq x w same)) few))
            λ other. v.limited x;
      tick = v.tick;
    }

    decrement-limit : (b : TokenBucket) (n : ℤ) → (bucket_decrement b w n).limit w ≡ b.limit w -ℤ n
    unfolding bucket_decrement
    decrement-limit b n = rw (same_way_refl w) refl

    Run-InBudget :
        (start b : TokenBucket) (spent ticks : ℕ)
        → IsBucket cfg start
        → pos 0 ≤ℤ start.limit w
        → Run start spent ticks b
        → InBudget start spent ticks b
    Run-InBudget start _ _ _ v some begins = record {
      bucket = v;
      left = some;
      covered = omega (arith, int_laws);
    }
    Run-InBudget start _ _ _ v some (waits {spent} {ticks} {b} k run before few) =
        let so_far = Run-InBudget start b spent ticks v some run in
        let naive =
          ap (λ (b : TokenBucket). b.limit w) (update_after-naive b k so_far.bucket before few) in
        let sums =
          refill_budget (b.limit w) (start.limit w) spent (ticks * cfg.rate w) (k * cfg.rate w)
            (cfg.maximum w) so_far.left so_far.covered in
        record {
          bucket = update_after-IsBucket b k so_far.bucket before few;
          left = subst (λ l. pos 0 ≤ℤ l) (sym naive) sums.0;
          covered =
              subst (λ l. l +ℤ pos spent ≤ℤ start.limit w +ℤ pos ((ticks + k) * cfg.rate w))
                (sym naive)
                (subst (λ p. (naive_update b cfg k).limit w +ℤ pos spent ≤ℤ start.limit w +ℤ pos p)
                  (sym (add-mul ticks k (cfg.rate w))) sums.1);
        }
    Run-InBudget start _ _ _ v some (takes {spent} {ticks} {b} n run few) =
        let so_far = Run-InBudget start b spent ticks v some run in
        let sums =
          spend_budget (b.limit w) (start.limit w) n spent (ticks * cfg.rate w) few
            so_far.covered in
        record {
          bucket = decrement-IsBucket b n so_far.bucket few;
          left = subst (λ l. pos 0 ≤ℤ l) (sym (decrement-limit b (pos n))) sums.0;
          covered =
              subst (λ l. l +ℤ pos (spent + n) ≤ℤ start.limit w +ℤ pos (ticks * cfg.rate w))
                (sym (decrement-limit b (pos n))) sums.1;
        }

    -- However reads and refills follow one another, a bucket that is not in deficit lets through at most
    -- what it held at the start, and its rate for each tick that has passed.
    pub run_within :
        (start b : TokenBucket) (spent ticks : ℕ)
        → IsBucket cfg start
        → pos 0 ≤ℤ start.limit w
        → Run start spent ticks b
        → pos spent ≤ℤ start.limit w +ℤ pos (ticks * cfg.rate w)
    run_within start b spent ticks v some run =
        let in_budget = Run-InBudget start b spent ticks v some run in
        spent_within (b.limit w) (start.limit w) spent (ticks * cfg.rate w) in_budget.left some
          in_budget.covered

-- What is lost above the maximum is lost either way.
min_twice :
    (l : ℤ) (maximum p q : ℕ)
    → min_ℤ (pos maximum) (min_ℤ (pos maximum) (l +ℤ pos p) +ℤ pos q)
      ≡ min_ℤ (pos maximum) (l +ℤ pos (p + q))
unfolding ◌+ℤ◌
min_twice (pos l) maximum p q = ground arith
min_twice (negsuc l) maximum p q = ground arith

-- Two updates of a bucket that is not above its maximum, each after at least one tick and together
-- after at most INT_MAX, do what one update does after the ticks of both.
pub update_after-update_after :
    (cfg : TokenBucketCfg) (b : TokenBucket) (j k : ℕ)
    → IsConfig cfg
    → IsBucket cfg b
    → 0 < j
    → 0 < k
    → j + k ≤ 2147483647
    → update_after cfg (update_after cfg b j) k ≡ update_after cfg b (j + k)
update_after-update_after cfg b j k c v first second few =
    let v' = update_after-IsBucket cfg c b j v first (omega (arith, few)) in
    update_after-naive cfg c (update_after cfg b j) k v' second (omega (arith, few))
    ∙ ap (λ (d : TokenBucket). naive_update d cfg k)
        (update_after-naive cfg c b j v first (omega (arith, few)))
    ∙ ap₂ (λ (l : Way → ℤ) (t : ℕ). record { limit = l; last_updated = t })
        (fun_ext λ w.
          min_twice (b.limit w) (cfg.maximum w) (j * cfg.rate w) (k * cfg.rate w)
          ∙ ap (λ p. min_ℤ (pos (cfg.maximum w)) (b.limit w +ℤ pos p))
              (sym (add-mul j k (cfg.rate w))))
        (omega arith)
    ∙ sym (update_after-naive cfg c b (j + k) v (omega (arith, first)) few)
