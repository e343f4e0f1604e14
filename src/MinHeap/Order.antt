-- ===== src/MinHeap/Order.antt =====
-- The heap order of the timer heap, and what it says while one index is a hole.
use swift_event.Base.{ℕ, ◌-◌, ◌/◌, ◌≤◌, ◌<◌, ◌≡◌, ◌≢◌, ◌∙◌, true, false, arith, if◌then◌else◌, ◌==◌}
use swift_event.Time.{Timeval}
use swift_event.Time.Order.{timercmp_gt-asymm, not_gt_trans}
use swift_event.MinHeap.{MinHeap, elem_greater, store}
use swift_event.MinHeap.Index.{
  HasHole, IsFilled, IsIndexed, member, max_n, fill-IsFilled, member-fill, store-n, store-a,
}

abbrev pub above : ℕ → ℕ
above i = (i - 1) / 2

module _ (ev_timeout : ℕ → Timeval) where
  pub greater-asymm :
      (x y : ℕ) → elem_greater ev_timeout x y ≡ true → elem_greater ev_timeout y x ≡ false
  unfolding elem_greater
  greater-asymm x y h = timercmp_gt-asymm (ev_timeout x) (ev_timeout y) h

  pub not_greater_trans :
      (x y z : ℕ)
      → elem_greater ev_timeout x y ≡ false
      → elem_greater ev_timeout y z ≡ false
      → elem_greater ev_timeout x z ≡ false
  unfolding elem_greater
  not_greater_trans x y z h k = not_gt_trans (ev_timeout x) (ev_timeout y) (ev_timeout z) h k

  -- No event expires before the one above it.
  abbrev pub IsOrdered : MinHeap → Type 0
  IsOrdered s = (c : ℕ) → 0 < c → c < s.n → elem_greater ev_timeout (s.p (above c)) (s.p c) ≡ false

  -- The edges that do not touch the hole, and those that go past it.
  pub record HoleOrdered (s : MinHeap) (h : ℕ) : Type 0 where
    pub edges :
        (c : ℕ)
        → 0 < c
        → c < s.n
        → c ≢ h
        → above c ≢ h
        → elem_greater ev_timeout (s.p (above c)) (s.p c) ≡ false
    pub bridge :
        (c : ℕ)
        → 0 < c
        → c < s.n
        → above c ≡ h
        → 0 < h
        → elem_greater ev_timeout (s.p (above h)) (s.p c) ≡ false

  -- `e` may go below the hole, or above it.
  abbrev pub FitsBelow : MinHeap → ℕ → ℕ → Type 0
  FitsBelow s h e =
      (c : ℕ) → 0 < c → c < s.n → above c ≡ h → elem_greater ev_timeout e (s.p c) ≡ false

  abbrev pub FitsAbove : MinHeap → ℕ → ℕ → Type 0
  FitsAbove s h e = 0 < h → elem_greater ev_timeout (s.p (above h)) e ≡ false

  -- The invariant of the timer heap.
  pub record IsHeap (s : MinHeap) : Type 0 where
    pub indexed : IsIndexed s
    pub ordered : IsOrdered s
    pub room : s.n ≤ s.a
    pub fits : s.n ≤ max_n

  -- The hole of `s` has been filled with `e`, and the rest is as before.
  pub record Filled (s : MinHeap) (e g : ℕ) (s' : MinHeap) : Type 0 where
    pub indexed : IsFilled s' e g
    pub ordered : IsOrdered s'
    pub same_n : s'.n ≡ s.n
    pub same_a : s'.a ≡ s.a
    pub members : (x : ℕ) → member s' x ≡ (if x == e then true else member s x)

  -- A step that moves another event into the hole leaves the same filling to do.
  pub Filled-step :
      (s s₁ s' : MinHeap) (e g : ℕ)
      → s₁.n ≡ s.n
      → s₁.a ≡ s.a
      → ((x : ℕ) → member s₁ x ≡ member s x)
      → Filled s₁ e g s'
      → Filled s e g s'
  Filled-step s s₁ s' e g en ea em f = record {
    indexed = f.indexed;
    ordered = f.ordered;
    same_n = f.same_n ∙ en;
    same_a = f.same_a ∙ ea;
    members = λ x. ground (arith, f.members x, em x);
  }

  -- The last step fills the hole.
  pub fill-Filled :
      (s : MinHeap) (h e g : ℕ)
      → HasHole s h e g
      → s.n ≤ max_n
      → h < s.n
      → IsOrdered (store s h e)
      → Filled s e g (store s h e)
  fill-Filled s h e g hole fits inside o = record {
    indexed = fill-IsFilled s h e g hole fits inside;
    ordered = o;
    same_n = store-n s h e;
    same_a = store-a s h e;
    members = member-fill s h e g hole fits inside;
  }
