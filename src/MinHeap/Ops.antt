-- ===== src/MinHeap/Ops.antt =====
-- The operations of the timer heap keep its invariant and change its events as they should.
use swift_event.Base.{
  ℕ, zero, suc, ◌+◌, ◌≤◌, ◌<◌, ◌≡◌, ◌≢◌, ◌⊎◌, refl, some, Bool, true, false, arith, ℕ_discrete, inl,
  inr, ◌==◌, if◌then◌else◌,
}
use swift_event.Base.Int.{ℤ, pos, negsuc}
use swift_event.Time.{Timeval}
use swift_event.MinHeap.{MinHeap, ctor, elem_greater, reserve, uint32_max, push, top, shift_up}
use swift_event.MinHeap.Index.{HasHole, IsIndexed, member, has_index, max_n}
use swift_event.MinHeap.Order.{
  above, greater-asymm, not_greater_trans, HoleOrdered, IsOrdered, IsHeap, Filled,
}
use swift_event.MinHeap.Up.{shift_up-Filled}

-- An event with no index is in no slot of the array.
not_member-ne : (s : MinHeap) (e i : ℕ) → IsIndexed s → member s e ≡ false → i < s.n → s.p i ≢ e
unfolding has_index
not_member-ne s e i v out lt = λ same. ground (arith, v.forth i)

-- The index of an event of the heap.
pub member_index :
    (s : MinHeap) (x : ℕ)
    → IsIndexed s
    → member s x ≡ true
    → (k : ℕ) × (s.min_heap_idx x ≡ pos k) × (k < s.n) × (s.p k ≡ x)
unfolding has_index
member_index s x v m = at (s.min_heap_idx x) refl m
  where
    at :
        (z : ℤ)
        → s.min_heap_idx x ≡ z
        → has_index z ≡ true
        → (k : ℕ) × (s.min_heap_idx x ≡ pos k) × (k < s.n) × (s.p k ≡ x)
    at (pos k) e h = let (lt, same) = v.back x k e in (k, e, lt, same)
    at (negsuc k) e h = cc

module _ (ev_timeout : ℕ → Timeval) where
  -- No event of the heap expires before the one at the top.
  top_least_below :
      (k : ℕ) (s : MinHeap) (i : ℕ)
      → IsOrdered ev_timeout s
      → i < k
      → i < s.n
      → elem_greater ev_timeout (s.p 0) (s.p i) ≡ false
  top_least_below zero s i o f p = absurd (omega arith)
  top_least_below (suc k) s i o f p = ground (
    arith,
    greater-asymm ev_timeout (s.p 0) (s.p 0),
    o i,
    not_greater_trans ev_timeout (s.p 0) (s.p (above i)) (s.p i),
    top_least_below k s (above i) o,
  )

  -- min_heap_top_ of a heap with an event `x` returns an event of the heap that does not time out
  -- after `x`.
  pub top_correct :
      (s : MinHeap) (x : ℕ)
      → IsHeap ev_timeout s
      → member s x ≡ true
      → (e : ℕ) × (top s ≡ some e) × (member s e ≡ true) × (elem_greater ev_timeout e x ≡ false)
  unfolding top has_index
  top_correct s x v m =
      let (k, idx, lt, at) = member_index s x v.indexed m in
      (
        s.p 0,
        ground arith,
        ground (arith, v.indexed.forth 0),
        ground (arith, top_least_below (suc k) s k v.ordered),
      )

  -- What a filled heap lacks to be a heap.
  pub Filled-IsHeap :
      (s s' : MinHeap) (e : ℕ)
      → s.n ≤ s.a
      → s.n ≤ max_n
      → Filled ev_timeout s e e s'
      → IsHeap ev_timeout s'
  Filled-IsHeap s s' e room fits f = record {
    indexed = record { forth = f.indexed.forth; back = λ x k p. f.indexed.back x k (either x) p };
    ordered = f.ordered;
    room = omega (arith, f.same_n, f.same_a);
    fits = omega (arith, f.same_n);
  }
    where
      either : (x : ℕ) → (x ≢ e) ⊎ (x ≡ e)
      either x = elim (ℕ_discrete x e) [ yes p ↦ inr p | no p ↦ inl p ]

  module _ (s : MinHeap) (e : ℕ) (v : IsHeap ev_timeout s) (lt : s.n < max_n)
      (out : member s e ≡ false) where
    -- The state in which a push calls min_heap_shift_up_.
    push_opens :
        (a : ℕ) × (s.n + 1 ≤ a)
        × (push ev_timeout true s e
            ≡ (pos 0, shift_up ev_timeout (record s { n = s.n + 1; a = a }) s.n e))
    unfolding push reserve
    push_opens = ((reserve true s (s.n + 1)).1.a, ground arith, ground arith)

    push_hole : (a : ℕ) → HasHole (record s { n = s.n + 1; a = a }) s.n e e
    push_hole a = record {
      forth = λ i p q. ground (arith, v.indexed.forth i, not_member-ne s e i v.indexed out);
      back = λ x k p q r. ground (arith, v.indexed.back x k);
    }

    push_order : (a : ℕ) → HoleOrdered ev_timeout (record s { n = s.n + 1; a = a }) s.n
    push_order a = record {
      edges = λ c p q r t. v.ordered c p (omega arith);
      bridge = λ c p q r t. absurd (omega arith);
    }

  -- min_heap_push_ of an event that is not in the heap, with fewer than 2 ^ 30 events in it and
  -- memory to grow, returns 0, keeps the heap and adds exactly that event.
  pub push-IsHeap :
      (s : MinHeap) (e : ℕ)
      → IsHeap ev_timeout s
      → s.n < max_n
      → member s e ≡ false
      → let (r, s') = push ev_timeout true s e in
        (r ≡ pos 0)
        × IsHeap ev_timeout s'
        × ((x : ℕ) → member s' x ≡ (if x == e then true else member s x))
        × (s'.n ≡ s.n + 1)
  push-IsHeap s e v lt out =
      let (a, room, run) = push_opens s e v lt out in
      let s₁ = record s { n = s.n + 1; a = a } in
      let filled =
        shift_up-Filled ev_timeout s₁ s.n e e (omega arith) (omega arith) (push_hole s e v lt out a)
          (push_order s e v lt out a) (λ c p q r. absurd (omega arith)) in
      rw run (refl, Filled-IsHeap s₁ _ e room (omega arith) filled, filled.members, filled.same_n)

-- The heap of min_heap_ctor_, when no event has an index.
pub ctor-IsHeap :
    (ev_timeout : ℕ → Timeval) (memory : ℕ → ℕ) → IsHeap ev_timeout (ctor memory (λ x. negsuc 0))
unfolding ctor
ctor-IsHeap ev_timeout memory = record {
  indexed = record { forth = λ i p. absurd (omega arith); back = λ x k p. absurd (cc p) };
  ordered = λ c p q. absurd (omega arith);
  room = omega arith;
  fits = omega arith;
}

-- Without memory where the array has to grow, or with as many events as an `unsigned` counts,
-- min_heap_push_ returns -1 and leaves the heap as it was.
push_fails :
    (ev_timeout : ℕ → Timeval) (mem : Bool) (s : MinHeap) (e : ℕ)
    → (s.n ≡ uint32_max) ⊎ ((mem ≡ false) × (s.a < s.n + 1))
    → push ev_timeout mem s e ≡ (negsuc 0, s)
unfolding push reserve
push_fails ev_timeout mem s e h = ground arith
