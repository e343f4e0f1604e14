-- ===== src/MinHeap/Up.antt =====
-- min_heap_shift_up_ and min_heap_shift_up_unconditional_ fill the hole of a heap.
use swift_event.Base.{
  ℕ, zero, suc, ◌≤◌, ◌<◌, ◌≡◌, inl, inr, true, false, arith, dec_lt, Bool-cases, ◌==◌,
}
use swift_event.Time.{Timeval}
use swift_event.MinHeap.{
  MinHeap, store, parent, elem_greater, shift_up_loop, shift_up, shift_up_unconditional,
}
use swift_event.MinHeap.Index.{HasHole, max_n, move-HasHole, member-move, store-n, store-a}
use swift_event.MinHeap.Order.{
  above, greater-asymm, not_greater_trans, HoleOrdered, FitsBelow, FitsAbove, Filled, IsOrdered,
  Filled-step, fill-Filled,
}

module _ (ev_timeout : ℕ → Timeval) (s : MinHeap) (h e : ℕ) where
  module _ (o : HoleOrdered ev_timeout s h) (below : FitsBelow ev_timeout s h e)
      (inside : h < s.n) where
    fill-IsOrdered : FitsAbove ev_timeout s h e → IsOrdered ev_timeout (store s h e)
    unfolding store
    fill-IsOrdered over c p q = ground (arith, o.edges c, below c)

    module _ (pos : 0 < h) where
      up-HoleOrdered : HoleOrdered ev_timeout (store s h (s.p (above h))) (above h)
      unfolding store
      up-HoleOrdered = record {
        edges = λ c p q r t. ground (arith, o.edges c, o.bridge c);
        bridge = λ c p q r t. ground (
          arith,
          o.edges c,
          o.edges (above h),
          not_greater_trans ev_timeout (s.p (above (above h))) (s.p (above h)) (s.p c),
        );
      }

      up-FitsBelow :
          elem_greater ev_timeout (s.p (above h)) e ≡ true
          → FitsBelow ev_timeout (store s h (s.p (above h))) (above h) e
      unfolding store
      up-FitsBelow g c p q r = ground (
        arith,
        o.edges c,
        greater-asymm ev_timeout (s.p (above h)) e,
        not_greater_trans ev_timeout e (s.p (above h)) (s.p c),
      )

parent-eq-above : (h : ℕ) → 0 < h → h ≤ max_n → parent h ≡ above h
parent-eq-above h p q = omega arith

module _ (ev_timeout : ℕ → Timeval) where
  shift_up_loop-Filled :
      (fuel : ℕ) (s : MinHeap) (h e g : ℕ)
      → h ≤ fuel
      → s.n ≤ max_n
      → h < s.n
      → HasHole s h e g
      → HoleOrdered ev_timeout s h
      → FitsBelow ev_timeout s h e
      → Filled ev_timeout s e g (shift_up_loop ev_timeout fuel s h e)
  unfolding shift_up_loop
  shift_up_loop-Filled zero s h e g f fits inside hole o below =
      fill-Filled ev_timeout s h e g hole fits inside
        (fill-IsOrdered ev_timeout s h e o below inside (λ p. absurd (omega arith)))
  shift_up_loop-Filled (suc fuel) s h e g f fits inside hole o below = elim (dec_lt 0 h) [
    | no root ↦
        let at : h == 0 ≡ true = ground arith in
        rw at (
          fill-Filled ev_timeout s h e g hole fits inside
            (fill-IsOrdered ev_timeout s h e o below inside (λ p. absurd (root p))))
    | yes pos ↦
        let off : h == 0 ≡ false = ground arith in
        let up : above h < s.n = omega arith in
        let s₁ = store s h (s.p (above h)) in
        rw (off, parent-eq-above h pos (omega arith))
          (elim (Bool-cases (elem_greater ev_timeout (s.p (above h)) e)) [
            | inl gt ↦ rw gt (
                Filled-step ev_timeout s s₁ _ e g (store-n s h _) (store-a s h _)
                  (member-move s h e g (above h) hole fits up (omega arith) inside)
                  (shift_up_loop-Filled fuel s₁ (above h) e g (omega arith)
                    (omega (arith, store-n s h (s.p (above h))))
                    (omega (arith, store-n s h (s.p (above h))))
                    (move-HasHole s h e g (above h) hole fits up (omega arith) inside)
                    (up-HoleOrdered ev_timeout s h e o below inside pos)
                    (up-FitsBelow ev_timeout s h e o below inside pos gt)))
            | inr gt ↦ rw gt (
                fill-Filled ev_timeout s h e g hole fits inside
                  (fill-IsOrdered ev_timeout s h e o below inside (λ p. gt)))
          ])
  ]

  pub shift_up-Filled :
      (s : MinHeap) (h e g : ℕ)
      → s.n ≤ max_n
      → h < s.n
      → HasHole s h e g
      → HoleOrdered ev_timeout s h
      → FitsBelow ev_timeout s h e
      → Filled ev_timeout s e g (shift_up ev_timeout s h e)
  unfolding shift_up
  shift_up-Filled s h e g fits inside hole o below =
      shift_up_loop-Filled h s h e g (omega arith) fits inside hole o below

  pub shift_up_unconditional-Filled :
      (s : MinHeap) (h e g : ℕ)
      → s.n ≤ max_n
      → h < s.n
      → HasHole s h e g
      → HoleOrdered ev_timeout s h
      → FitsBelow ev_timeout s h e
      → 0 < h
      → elem_greater ev_timeout (s.p (above h)) e ≡ true
      → Filled ev_timeout s e g (shift_up_unconditional ev_timeout s h e)
  unfolding shift_up_unconditional
  shift_up_unconditional-Filled s h e g fits inside hole o below pos gt =
      let up : above h < s.n = omega arith in
      rw (parent-eq-above h pos (omega arith)) (
        Filled-step ev_timeout s (store s h (s.p (above h))) _ e g (store-n s h _) (store-a s h _)
          (member-move s h e g (above h) hole fits up (omega arith) inside)
          (shift_up-Filled (store s h (s.p (above h))) (above h) e g
            (omega (arith, store-n s h (s.p (above h))))
            (omega (arith, store-n s h (s.p (above h))))
            (move-HasHole s h e g (above h) hole fits up (omega arith) inside)
            (up-HoleOrdered ev_timeout s h e o below inside pos)
            (up-FitsBelow ev_timeout s h e o below inside pos gt)))
