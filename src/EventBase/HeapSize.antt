-- ===== src/EventBase/HeapSize.antt =====
-- The heap of timers holds no more entries than there are events, so that it has room for every timer.
use swift_event.Base.{
  ℕ, zero, suc, ◌≤◌, ◌<◌, ◌≡◌, refl, sym, ap, ◌∙◌, Bool, true, false, to_ℕ, ltb, total,
  total-change, total-zero, Bool-cases, inl, inr, ◌==◌, ==_iff, arith,
}
use swift_event.Base.Int.{ℤ, pos, negsuc}
use swift_event.MinHeap.{MinHeap}
use swift_event.MinHeap.Index.{max_n, member, has_index, IsIndexed}
use swift_event.EvMap.{Eventop}
use swift_event.EventBase.{EventBase}
use swift_event.EventBase.Taken.{IsReady}

-- Whether an index is one of the first `k`
abbrev is_below : ℤ → ℕ → Bool
is_below (pos i) k = ltb i k
is_below (negsuc i) k = false

total-le : (f : ℕ → ℕ) (n : ℕ) → ((i : ℕ) → f i ≤ 1) → total f n ≤ n
total-le f zero few = omega arith
total-le f (suc n) few = omega (arith, few n, total-le f n few)

below_next : (i : ℤ) (k : ℕ) → (i ≡ pos k → ⊥) → to_ℕ (is_below i (suc k)) ≡ to_ℕ (is_below i k)
below_next (pos i) k ne = elim (Bool-cases (i == k)) [
  | inl at ↦ absurd (ne (ap pos ((==_iff i k).0 at)))
  | inr off ↦ ground (arith, off)
]
below_next (negsuc i) k ne = refl

below_zero : (i : ℤ) → to_ℕ (is_below i 0) ≡ 0
below_zero (pos i) = ground arith
below_zero (negsuc i) = refl

module _ (s : MinHeap) (v : IsIndexed s) (bound : ℕ)
    (inside : (x : ℕ) → member s x ≡ true → x < bound) where
  -- The first `k` places of the heap are those of `k` events.
  count-first : (k : ℕ) → k ≤ s.n → total (λ x. to_ℕ (is_below (s.min_heap_idx x) k)) bound ≡ k
  unfolding has_index
  count-first zero le =
      total-zero (λ x. to_ℕ (is_below (s.min_heap_idx x) 0)) bound
        (λ x. below_zero (s.min_heap_idx x))
  count-first (suc k) le =
      let x = s.p k in
      let at = v.forth k (omega arith) in
      let f = λ (y : ℕ). to_ℕ (is_below (s.min_heap_idx y) k) in
      let g = λ (y : ℕ). to_ℕ (is_below (s.min_heap_idx y) (suc k)) in
      let f_at : f x ≡ 0 = ap (λ i. to_ℕ (is_below i k)) at ∙ ground arith in
      let g_at : g x ≡ 1 = ap (λ i. to_ℕ (is_below i (suc k))) at ∙ ground arith in
      omega (
        arith,
        total-change f g x bound (inside x (ap has_index at))
            (λ y ne. below_next (s.min_heap_idx y) k (λ same. ne (sym (v.back y k same).1))),
        f_at,
        g_at,
        count-first k (omega arith),
      )

  n-le : s.n ≤ bound
  n-le =
      let few = total-le (λ x. to_ℕ (is_below (s.min_heap_idx x) s.n)) bound (λ x. ground arith) in
      omega (arith, few, count-first s.n (omega arith))

module _ (E : Eventop) (bound : ℕ) where
  -- A base with fewer events than a heap can hold has room for one more timer.
  pub IsReady-few : (b : EventBase E) → IsReady E bound b → bound < max_n → b.timeheap.n < max_n
  IsReady-few b v fits =
      let inside : (x : ℕ) → member b.timeheap x ≡ true → x < bound =
        λ x on. ground (arith, v.queued.known x, v.timed.on_heap x, on) in
      omega (arith, n-le b.timeheap v.timed.in_order.indexed bound inside)
