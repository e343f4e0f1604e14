-- ===== src/EventBase/Certain.antt =====
-- When event_add_nolock_ of event.c cannot be refused, and what it returns where it is.
use swift_event.Base.{
  ◌+◌, not, ◌&&◌, ◌||◌, by_if, ℕ, ◌<◌, ◌≡◌, inl, inr, refl, Bool, true, false, Option, none, some,
  Bool-cases, arith,
}
use swift_event.Base.Int.{ℤ, pos, negsuc, eqb_ℤ}
use swift_event.Time.{Timeval}
use swift_event.MinHeap
use swift_event.MinHeap.{MinHeap, u32, reserve}
use swift_event.MinHeap.Index.{max_n}
use swift_event.EvMap.{Eventop}
use swift_event.EventBase.{EventBase}
use swift_event.EventBase.Insert.{
  add_nolock, add_reserved, put_inserted, reserve_timeout, with_heap,
}
use swift_event.EventBase.PutIn.{is_new}
use swift_event.EventBase.Promise.{Call, add}

module _ (E : Eventop) (bound : ℕ) where
  -- An addition that cannot be refused: there is memory, the event is not being finalized, and it is
  -- not one for the backend to take up
  abbrev pub is_certain : Call → EventBase E → Bool
  is_certain (add e tv tv_is_absolute) b =
      b.io.memory && not ((b.ev_flags e).finalizing || is_new E bound b e)
  is_certain _ b = true

  reserve_works :
      (mem : Bool) (s : MinHeap)
      → mem ≡ true
      → s.n < max_n
      → (reserve mem s (u32 (1 + s.n))).0 ≡ pos 0
  unfolding reserve
  reserve_works true s on few = ground arith
  reserve_works false s on few = absurd (cc on)

  put_inserted_works :
      (b : EventBase E) (e : ℕ) → is_new E bound b e ≡ false → (put_inserted E b e).0 ≡ pos 0
  unfolding put_inserted
  put_inserted_works b e old = rw old refl

  add_reserved_works :
      (b : EventBase E) (e : ℕ) (tv : Option Timeval) (tv_is_absolute : Bool)
      → is_new E bound b e ≡ false
      → (add_reserved E e tv tv_is_absolute (true, b)).0 ≡ pos 0
  add_reserved_works b e none tv_is_absolute old = put_inserted_works b e old
  add_reserved_works b e (some tv) tv_is_absolute old = put_inserted_works b e old

  with_heap_works :
      (b : EventBase E) (e : ℕ) (tv : Timeval) (tv_is_absolute : Bool) (r : ℤ × MinHeap)
      → is_new E bound b e ≡ false
      → r.0 ≡ pos 0
      → (add_reserved E e (some tv) tv_is_absolute (with_heap E b r)).0 ≡ pos 0
  with_heap_works b e tv tv_is_absolute (r, s) old ok =
      rw ok (put_inserted_works (record b { timeheap = s }) e old)

  pub add_works :
      (b : EventBase E) (e : ℕ) (tv : Option Timeval) (tv_is_absolute : Bool)
      → b.timeheap.n < max_n
      → is_certain (add e tv tv_is_absolute) b ≡ true
      → (add_nolock E b e tv tv_is_absolute).0 ≡ pos 0
  unfolding add_nolock reserve_timeout MinHeap.size
  add_works b e none tv_is_absolute few certain =
      let alive : (b.ev_flags e).finalizing ≡ false = ground (arith, certain) in
      rw alive (add_reserved_works b e none tv_is_absolute (ground (arith, certain)))
  add_works b e (some tv) tv_is_absolute few certain =
      let alive : (b.ev_flags e).finalizing ≡ false = ground (arith, certain) in
      let old : is_new E bound b e ≡ false = ground (arith, certain) in
      rw alive (
        by_if (λ (r : Bool × EventBase E). (add_reserved E e (some tv) tv_is_absolute r).0 ≡ pos 0)
          (b.ev_flags e).timeout (λ on. add_reserved_works b e (some tv) tv_is_absolute old)
          λ off.
            with_heap_works b e tv tv_is_absolute _ old
              (reserve_works b.io.memory b.timeheap (ground (arith, certain)) few))

  pub final_refused :
      (b : EventBase E) (e : ℕ) (tv : Option Timeval) (tv_is_absolute : Bool)
      → (b.ev_flags e).finalizing ≡ true
      → (add_nolock E b e tv tv_is_absolute).0 ≡ negsuc 0
  unfolding add_nolock
  final_refused b e tv tv_is_absolute final = rw final refl

  -- An addition that fails was not certain.
  pub uncertain :
      (b : EventBase E) (e : ℕ) (tv : Option Timeval) (tv_is_absolute : Bool)
      → b.timeheap.n < max_n
      → eqb_ℤ (add_nolock E b e tv tv_is_absolute).0 (negsuc 0) ≡ true
      → is_certain (add e tv tv_is_absolute) b ≡ false
  uncertain b e tv tv_is_absolute few is_it =
      elim (Bool-cases (is_certain (add e tv tv_is_absolute) b)) [
        | inl certain ↦ absurd (ground (arith, add_works b e tv tv_is_absolute few certain, is_it))
        | inr not_so ↦ not_so
      ]
