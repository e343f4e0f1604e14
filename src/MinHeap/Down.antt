-- ===== src/MinHeap/Down.antt =====
-- min_heap_shift_down_ fills the hole of a heap.
use swift_event.Base.{
  ℕ, zero, suc, ◌+◌, ◌-◌, ◌*◌, ◌≤◌, ◌<◌, ◌≡◌, inl, inr, true, false, arith, dec_le, Bool-cases, leb,
  ◌⊎◌,
}
use swift_event.Time.{Timeval}
use swift_event.MinHeap.{
  MinHeap, store, u32, elem_greater, smaller_child, shift_down_loop, shift_down,
}
use swift_event.MinHeap.Index.{HasHole, max_n, member-move, move-HasHole, store-n, store-a}
use swift_event.MinHeap.Order.{
  above, greater-asymm, not_greater_trans, HoleOrdered, FitsAbove, Filled, IsOrdered, Filled-step,
  fill-Filled,
}

-- `c` is the child of the hole that expires first.
record IsSmallerChild (ev_timeout : ℕ → Timeval) (s : MinHeap) (h c : ℕ) : Type 0 where
  inside : c < s.n
  positive : 0 < c
  child : above c ≡ h
  least : (d : ℕ) → 0 < d → d < s.n → above d ≡ h → elem_greater ev_timeout (s.p c) (s.p d) ≡ false

module _ (ev_timeout : ℕ → Timeval) (s : MinHeap) (h e : ℕ) where
  smaller_child-IsSmallerChild :
      2 * (h + 1) ≤ s.n → IsSmallerChild ev_timeout s h (smaller_child ev_timeout s (2 * (h + 1)))
  smaller_child-IsSmallerChild le =
      let m = 2 * (h + 1) in
      let apart = greater-asymm ev_timeout (s.p m) (s.p (m - 1)) in
      let self = λ (c : ℕ). greater-asymm ev_timeout (s.p c) (s.p c) in
      record {
        inside = ground arith;
        positive = ground arith;
        child = ground arith;
        least = λ d p q r. elim (two_children d r) [
          | inl left ↦ ground (arith, apart, self (m - 1), left)
          | inr right ↦ ground (arith, apart, self m, right)
        ];
      }
    where
      two_children : (d : ℕ) → above d ≡ h → (d ≡ 2 * (h + 1) - 1) ⊎ (d ≡ 2 * (h + 1)) ⊎ (d ≡ 0)
      two_children d r = omega arith

module _ (ev_timeout : ℕ → Timeval) (s : MinHeap) (h e : ℕ) (o : HoleOrdered ev_timeout s h) where
  fill_leaf-IsOrdered :
      FitsAbove ev_timeout s h e → s.n < 2 * (h + 1) → IsOrdered ev_timeout (store s h e)
  unfolding store
  fill_leaf-IsOrdered over leaf c p q = ground (arith, o.edges c)

  module _ (c : ℕ) (small : IsSmallerChild ev_timeout s h c) where
    fill_settled-IsOrdered :
        FitsAbove ev_timeout s h e
        → elem_greater ev_timeout e (s.p c) ≡ false
        → IsOrdered ev_timeout (store s h e)
    unfolding store
    fill_settled-IsOrdered over g d p q =
        ground (arith, o.edges d, small.least d, not_greater_trans ev_timeout e (s.p c) (s.p d))

    down-HoleOrdered : HoleOrdered ev_timeout (store s h (s.p c)) c
    unfolding store
    down-HoleOrdered =
        let (inside, positive, child) = facts in
        record {
          edges = λ d p q r t.
              ground (arith, inside, positive, child, o.edges d, o.bridge c, small.least d);
          bridge = λ d p q r t. ground (arith, inside, positive, child, o.edges d);
        }
      where
        facts : (c < s.n) × (0 < c) × (above c ≡ h)
        facts = (small.inside, small.positive, small.child)

    down-FitsAbove :
        elem_greater ev_timeout e (s.p c) ≡ true → FitsAbove ev_timeout (store s h (s.p c)) c e
    unfolding store
    down-FitsAbove g p = ground (arith, small.child, greater-asymm ev_timeout e (s.p c))

module _ (ev_timeout : ℕ → Timeval) where
  shift_down_loop-Filled :
      (fuel : ℕ) (s : MinHeap) (h e g : ℕ)
      → s.n - h ≤ fuel
      → s.n ≤ max_n
      → h < s.n
      → HasHole s h e g
      → HoleOrdered ev_timeout s h
      → FitsAbove ev_timeout s h e
      → Filled ev_timeout s e g (shift_down_loop ev_timeout fuel s h e)
  unfolding shift_down_loop
  shift_down_loop-Filled zero s h e g f fits inside hole o over = absurd (omega arith)
  shift_down_loop-Filled (suc fuel) s h e g f fits inside hole o over =
      rw (no_wrap h (omega arith)) (elim (dec_le (2 * (h + 1)) s.n) [
        | no leaf ↦
            let test : leb (2 * (h + 1)) s.n ≡ false = ground arith in
            rw test (
              fill-Filled ev_timeout s h e g hole fits inside
                (fill_leaf-IsOrdered ev_timeout s h e o over (omega arith)))
        | yes le ↦
            let test : leb (2 * (h + 1)) s.n ≡ true = ground arith in
            let c = smaller_child ev_timeout s (2 * (h + 1)) in
            let small = smaller_child-IsSmallerChild ev_timeout s h e le in
            let in_c : c < s.n = small.inside in
            let later : h < c = omega (arith, small.child) in
            rw test (elim (Bool-cases (elem_greater ev_timeout e (s.p c))) [
              | inl gt ↦ rw gt (
                  Filled-step ev_timeout s (store s h (s.p c)) _ e g (store-n s h _) (store-a s h _)
                    (member-move s h e g c hole fits in_c (omega arith) inside)
                    (shift_down_loop-Filled fuel (store s h (s.p c)) c e g
                      (omega (arith, store-n s h (s.p c))) (omega (arith, store-n s h (s.p c)))
                      (omega (arith, store-n s h (s.p c)))
                      (move-HasHole s h e g c hole fits in_c (omega arith) inside)
                      (down-HoleOrdered ev_timeout s h e o c small)
                      (down-FitsAbove ev_timeout s h e o c small gt)))
              | inr gt ↦ rw gt (
                  fill-Filled ev_timeout s h e g hole fits inside
                    (fill_settled-IsOrdered ev_timeout s h e o c small over gt))
            ])
      ])
    where
      no_wrap : (h : ℕ) → h < max_n → u32 (2 * (h + 1)) ≡ 2 * (h + 1)
      no_wrap h p = omega arith

  pub shift_down-Filled :
      (s : MinHeap) (h e g : ℕ)
      → s.n ≤ max_n
      → h < s.n
      → HasHole s h e g
      → HoleOrdered ev_timeout s h
      → FitsAbove ev_timeout s h e
      → Filled ev_timeout s e g (shift_down ev_timeout s h e)
  unfolding shift_down
  shift_down-Filled s h e g fits inside hole o over =
      shift_down_loop-Filled s.n s h e g (omega arith) fits inside hole o over
