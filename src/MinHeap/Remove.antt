-- ===== src/MinHeap/Remove.antt =====
-- min_heap_pop_, min_heap_erase_ and min_heap_adjust_: taking an event out of the timer heap, and
-- moving one whose time has changed.
use swift_event.Base.{
  ℕ, zero, suc, ◌+◌, ◌-◌, ◌≤◌, ◌<◌, ◌≡◌, ◌≢◌, refl, sym, ap, subst, ◌∙◌, Bool, true, false, arith,
  dec_lt, Bool-cases, inl, inr, ◌==◌, if◌then◌else◌, ◌&&◌, update,
}
use swift_event.Base.Int.{pos, ltb_ℤ}
use swift_event.Time.{Timeval}
use swift_event.MinHeap.{
  MinHeap, elem_greater, elem_init, store, u32, pop, shift, erase, adjust, top, shift_down_loop,
  shift_down,
}
use swift_event.MinHeap.Index.{HasHole, member, has_index, max_n}
use swift_event.MinHeap.Order.{
  above, greater-asymm, not_greater_trans, HoleOrdered, FitsAbove, IsHeap, Filled,
}
use swift_event.MinHeap.Up.{shift_up_unconditional-Filled}
use swift_event.MinHeap.Down.{shift_down-Filled}
use swift_event.MinHeap.Ops.{member_index, Filled-IsHeap}

module _ (ev_timeout : ℕ → Timeval) where
  -- The event for the hole moves in the one direction that the order asks for.
  shift-Filled :
      (s : MinHeap) (h e g : ℕ)
      → s.n ≤ max_n
      → h < s.n
      → HasHole s h e g
      → HoleOrdered ev_timeout s h
      → Filled ev_timeout s e g (shift ev_timeout s (pos h) e)
  unfolding shift
  shift-Filled s h e g fits inside hole o =
      elim (Bool-cases (ltb_ℤ (pos 0) (pos h) && elem_greater ev_timeout (s.p (above h)) e)) [
        | inl up ↦ rw up (
            shift_up_unconditional-Filled ev_timeout s h e g fits inside hole o
              (λ c p q r. ground (
                arith,
                o.bridge c,
                greater-asymm ev_timeout (s.p (above h)) e,
                not_greater_trans ev_timeout e (s.p (above h)) (s.p c),
              ))
              (ground arith) (ground arith))
        | inr down ↦
            rw down (shift_down-Filled ev_timeout s h e g fits inside hole o (λ p. ground arith))
      ]

  shift_down_loop_end :
      (fuel : ℕ) (s : MinHeap) (h e : ℕ)
      → s.n ≤ h
      → h ≤ max_n
      → shift_down_loop ev_timeout fuel s h e ≡ store s h e
  unfolding shift_down_loop
  shift_down_loop_end zero s h e past fits = refl
  shift_down_loop_end (suc fuel) s h e past fits = ground arith

  -- The last event of the array goes out by being put past the end.
  shift_end :
      (s : MinHeap) (h e : ℕ)
      → s.n ≡ h
      → h ≤ max_n
      → FitsAbove ev_timeout s h e
      → shift ev_timeout s (pos h) e ≡ store s h e
  unfolding shift shift_down
  shift_end s h e past fits over = ground (arith, over, shift_down_loop_end s.n s h e)

  -- What taking `e` out of `s` has to achieve.
  pub record Removed (s : MinHeap) (e : ℕ) (s' : MinHeap) : Type 0 where
    pub heap : IsHeap ev_timeout s'
    pub members : (x : ℕ) → member s' x ≡ (if x == e then false else member s x)
    pub size : s'.n + 1 ≡ s.n
    pub capacity : s'.a ≡ s.a

  module _ (s : MinHeap) (v : IsHeap ev_timeout s) (i : ℕ) where
    -- The heap with its last slot given up.
    abbrev shorter : MinHeap
    shorter = record s { n = s.n - 1 }

    shorter-HoleOrdered : HoleOrdered ev_timeout shorter i
    shorter-HoleOrdered = record {
      edges = λ c p q r t. v.ordered c p (omega arith);
      bridge = λ c p q r t. ground (
        arith,
        v.ordered c,
        v.ordered i,
        not_greater_trans ev_timeout (s.p (above i)) (s.p i) (s.p c),
      );
    }

    shorter-HasHole : i < s.n - 1 → HasHole shorter i (s.p (s.n - 1)) (s.p i)
    shorter-HasHole lt = record {
      forth =
          λ j p q. ground (arith, v.indexed.forth j, v.indexed.forth i, v.indexed.forth (s.n - 1));
      back = λ x k p q r. ground (arith, v.indexed.back x k);
    }

    Filled-Removed :
        (s' : MinHeap)
        → i < s.n - 1
        → Filled ev_timeout shorter (s.p (s.n - 1)) (s.p i) s'
        → Removed s (s.p i) (elem_init s' (s.p i))
    unfolding elem_init has_index
    Filled-Removed s' lt f =
        let apart : s.p (s.n - 1) ≢ s.p i =
          λ same. ground (arith, v.indexed.forth i, v.indexed.forth (s.n - 1)) in
        record {
          heap = record {
            indexed = record {
              forth = λ j p. ground (arith, f.same_n, f.indexed.forth j, f.indexed.apart j apart);
              back = λ x k p. ground (arith, f.indexed.back x k);
            };
            ordered = f.ordered;
            room = omega (arith, f.same_n, f.same_a, v.room);
            fits = omega (arith, f.same_n, v.fits);
          };
          members = λ x. ground (arith, f.members x, v.indexed.forth (s.n - 1));
          size = omega (arith, f.same_n);
          capacity = f.same_a;
        }

    last-Removed :
        i ≡ s.n - 1 → i < s.n → Removed s (s.p i) (elem_init (store shorter i (s.p i)) (s.p i))
    unfolding elem_init store has_index
    last-Removed at lt = record {
      heap = record {
        indexed = record {
          forth = λ j p. ground (arith, v.indexed.forth j, v.indexed.forth i);
          back = λ x k p. ground (arith, v.indexed.back x k, v.indexed.forth k, v.indexed.forth i);
        };
        ordered = λ c p q. ground (arith, v.ordered c);
        room = omega (arith, v.room);
        fits = omega (arith, v.fits);
      };
      members = λ x. ground arith;
      size = omega arith;
      capacity = refl;
    }

    -- The two ends of a removal, for the slot `i`.
    shift-Removed :
        i < s.n
        → Removed s (s.p i) (elem_init (shift ev_timeout shorter (pos i) (s.p (s.n - 1))) (s.p i))
    shift-Removed lt = elim (dec_lt i (s.n - 1)) [
      | yes p ↦ Filled-Removed _ p (
          shift-Filled shorter i (s.p (s.n - 1)) (s.p i) (omega (arith, v.fits)) p
            (shorter-HasHole p) shorter-HoleOrdered)
      | no p ↦
          let at : s.n - 1 ≡ i = omega arith in
          let last =
            shift_end shorter i (s.p i) at (omega (arith, v.fits)) (λ q. v.ordered i q lt) in
          let moved = ap (λ (k : ℕ). shift ev_timeout shorter (pos i) (s.p k)) at in
          subst (λ (t : MinHeap). Removed s (s.p i) (elem_init t (s.p i))) (sym (moved ∙ last))
            (last-Removed (sym at) lt)
    ]

  last_slot : (s : MinHeap) → IsHeap ev_timeout s → 0 < s.n → u32 (s.n + 4294967295) ≡ s.n - 1
  last_slot s v p = omega (arith, v.fits)

  -- min_heap_erase_ of an event of a heap returns 0, keeps the heap, and takes out exactly that
  -- event.
  pub erase-Removed :
      (s : MinHeap) (e : ℕ)
      → IsHeap ev_timeout s
      → member s e ≡ true
      → let (r, s') = erase ev_timeout s e in (r ≡ pos 0) × Removed s e s'
  unfolding erase
  erase-Removed s e v m =
      let (i, idx, lt, at) = member_index s e v.indexed m in
      rw (idx, last_slot s v (omega arith))
        (
          refl,
          subst
              (λ (x : ℕ).
                Removed s x
                  (elem_init (shift ev_timeout (shorter s v i) (pos i) (s.p (s.n - 1))) x))
              at (shift-Removed s v i lt),
        )

  -- min_heap_pop_ of a heap that is not empty returns its top, keeps the heap, and takes out exactly
  -- that event.
  pub pop-Removed :
      (s : MinHeap)
      → IsHeap ev_timeout s
      → 0 < s.n
      → let (r, s') = pop ev_timeout s in (r ≡ top s) × Removed s (s.p 0) s'
  unfolding pop top shift
  pop-Removed s v p =
      let test : s.n == 0 ≡ false = ground arith in
      rw (test, last_slot s v p) (refl, shift-Removed s v 0 p)

-- Comparisons of other events do not see a new time of `e`.
greater-update :
    (ev_timeout : ℕ → Timeval) (e x y : ℕ) (t : Timeval)
    → x ≢ e
    → y ≢ e
    → elem_greater (update ev_timeout e t) x y ≡ elem_greater ev_timeout x y
unfolding elem_greater
greater-update ev_timeout e x y t p q = ground arith

module _ (ev_timeout : ℕ → Timeval) (s : MinHeap) (e : ℕ) (t : Timeval)
    (v : IsHeap ev_timeout s) where
  -- With a new time the slot of `e` is a hole that waits for `e` itself.
  own-HasHole : (i : ℕ) → i < s.n → s.p i ≡ e → HasHole s i e e
  own-HasHole i lt at = record {
    forth = λ j p q. ground (arith, v.indexed.forth j, v.indexed.forth i);
    back = λ x k p q r. ground (arith, v.indexed.back x k);
  }

  own-HoleOrdered : (i : ℕ) → i < s.n → s.p i ≡ e → HoleOrdered (update ev_timeout e t) s i
  own-HoleOrdered i lt at =
      let new = update ev_timeout e t in
      let hole = own-HasHole i lt at in
      record {
        edges = λ c p q r u. ground (
          arith,
          greater-update ev_timeout e (s.p (above c)) (s.p c) t,
          hole.forth c,
          hole.forth (above c),
          v.ordered c,
        );
        bridge = λ c p q r u. ground (
          arith,
          greater-update ev_timeout e (s.p (above i)) (s.p c) t,
          hole.forth c,
          hole.forth (above i),
          v.ordered c,
          v.ordered i,
          not_greater_trans ev_timeout (s.p (above i)) (s.p i) (s.p c),
        );
      }

  -- When the time of an event of a heap has been changed, min_heap_adjust_ returns 0 and restores
  -- the heap for the new time, with the same events.
  adjust-IsHeap :
      (mem : Bool)
      → member s e ≡ true
      → let (r, s') = adjust (update ev_timeout e t) mem s e in
        (r ≡ pos 0) × IsHeap (update ev_timeout e t) s' × ((x : ℕ) → member s' x ≡ member s x)
  unfolding adjust
  adjust-IsHeap mem m =
      let (i, idx, lt, at) = member_index s e v.indexed m in
      let filled =
        shift-Filled (update ev_timeout e t) s i e e v.fits lt (own-HasHole i lt at)
          (own-HoleOrdered i lt at) in
      rw idx (
        refl,
        Filled-IsHeap (update ev_timeout e t) s _ e v.room v.fits filled,
        λ x. ground (arith, filled.members x, m),
      )
