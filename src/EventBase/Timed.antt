-- ===== src/EventBase/Timed.antt =====
-- The invariant of the timers of an event base: the heap is one for the timeouts of the events, holds
-- exactly those whose flag says so, and none that is being finalized.
use swift_event.Base.{
  ℕ, ◌+◌, ◌<◌, ◌≡◌, inl, inr, refl, sym, ap, ap₂, ◌∙◌, Bool, true, false, ◌==◌, ltb, Bool-cases,
  by_if, arith,
}
use swift_event.Time.{Timeval, timercmp_gt}
use swift_event.MinHeap
use swift_event.MinHeap.{MinHeap, elem_greater}
use swift_event.MinHeap.Index.{max_n, member, has_index}
use swift_event.MinHeap.Order.{IsHeap, above}
use swift_event.MinHeap.Ops.{push-IsHeap}
use swift_event.MinHeap.Remove.{erase-Removed}
use swift_event.Events.{Flags}
use swift_event.EvMap.{Eventop}
use swift_event.EventBase.{EventBase, remove_timeout, insert_timeout}

pub record Timed (times : ℕ → Timeval) (heap : MinHeap) (flags : ℕ → Flags) : Type 0 where
  pub in_order : IsHeap times heap
  pub on_heap : (e : ℕ) → member heap e ≡ (flags e).timeout
  pub alive : (e : ℕ) → (flags e).finalizing ≡ true → (flags e).timeout ≡ false

pub kept-Timed :
    {times : ℕ → Timeval} {heap : MinHeap} {flags flags' : ℕ → Flags}
    → ((x : ℕ) → (flags' x).timeout ≡ (flags x).timeout)
    → ((x : ℕ) → (flags' x).finalizing ≡ (flags x).finalizing)
    → Timed times heap flags
    → Timed times heap flags'
kept-Timed timeout finalizing v = record {
  in_order = v.in_order;
  on_heap = λ e. v.on_heap e ∙ sym (timeout e);
  alive = λ e final. timeout e ∙ v.alive e (sym (finalizing e) ∙ final);
}

-- The timeouts of events that are not on the heap do not matter.
pub times-IsHeap :
    (times times' : ℕ → Timeval) (s : MinHeap)
    → ((x : ℕ) → member s x ≡ true → times' x ≡ times x)
    → IsHeap times s
    → IsHeap times' s
unfolding elem_greater has_index
times-IsHeap times times' s same v = record {
  indexed = v.indexed;
  ordered = λ c p q.
      ap₂ timercmp_gt (same _ (ap has_index (v.indexed.forth (above c) (omega arith))))
        (same _ (ap has_index (v.indexed.forth c q)))
      ∙ v.ordered c p q;
  room = v.room;
  fits = v.fits;
}

-- A push with room needs no memory.
push-room :
    (times : ℕ → Timeval) (mem : Bool) (s : MinHeap) (e : ℕ)
    → s.n < s.a
    → MinHeap.push times mem s e ≡ MinHeap.push times true s e
unfolding MinHeap.push MinHeap.reserve
push-room times mem s e room = let fits : ltb s.a (s.n + 1) ≡ false = ground arith in rw fits refl

module _ (E : Eventop) where
  abbrev pub IsTimed : EventBase E → Type 0
  IsTimed b' = Timed b'.ev_timeout b'.timeheap b'.ev_flags

  module _ (b : EventBase E) (e : ℕ) where
    pub remove_timeout-IsTimed : IsTimed b → IsTimed (remove_timeout E b e)
    unfolding remove_timeout
    remove_timeout-IsTimed v =
        by_if IsTimed (b.ev_flags e).timeout
          (λ on.
            let (ok, removed) =
              erase-Removed b.ev_timeout b.timeheap e v.in_order (v.on_heap e ∙ on) in
            record {
              in_order = removed.heap;
              on_heap = λ x. removed.members x ∙ elim (Bool-cases (x == e)) [
                | inl at ↦ rw at refl
                | inr off ↦ rw off (v.on_heap x)
              ];
              alive = λ x. elim (Bool-cases (x == e)) [
                | inl at ↦ rw at (λ final. refl)
                | inr off ↦ rw off (v.alive x)
              ];
            })
          λ off. v

    pub insert_timeout-IsTimed :
        IsTimed b
        → b.timeheap.n < max_n
        → b.timeheap.n < b.timeheap.a
        → (b.ev_flags e).finalizing ≡ false
        → IsTimed (insert_timeout E b e)
    unfolding insert_timeout
    insert_timeout-IsTimed v few room not_final =
        by_if IsTimed (b.ev_flags e).timeout (λ on. v)
          λ off.
            let (ok, heap, members, size) =
              push-IsHeap b.ev_timeout b.timeheap e v.in_order few (v.on_heap e ∙ off) in
            rw (push-room b.ev_timeout b.io.memory b.timeheap e room) (record {
              in_order = heap;
              on_heap = λ x. members x ∙ elim (Bool-cases (x == e)) [
                | inl at ↦ rw at refl
                | inr off ↦ rw off (v.on_heap x)
              ];
              alive = λ x. elim (Bool-cases (x == e)) [
                | inl at ↦ rw at (λ final. absurd (ground (arith, final, not_final)))
                | inr off ↦ rw off (v.alive x)
              ];
            })
