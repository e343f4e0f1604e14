-- ===== src/EventBase/Next.antt =====
-- timeout_next of event.c: how long the loop may wait.
use swift_event.Base.{
  ℕ, ◌≡◌, ◌⊎◌, inl, inr, refl, ap, ◌∙◌, true, false, if◌then◌else◌, none, some, Option-cases,
  Bool-cases,
}
use swift_event.Time.{timercmp_gt, timersub}
use swift_event.MinHeap
use swift_event.MinHeap.{elem_greater}
use swift_event.MinHeap.Ops.{top_correct}
use swift_event.EvMap.{Eventop}
use swift_event.EventBase.{EventBase}
use swift_event.EventBase.Delete.{timerclear}
use swift_event.EventBase.Loop.{timeout_left, timeout_next}
use swift_event.EventBase.Taken.{IsReady}
use swift_event.EventBase.Expired.{top-timeout}

module _ (E : Eventop) (bound : ℕ) where
  -- The event with the timer that is due first
  pub record IsEarliest (b : EventBase E) (e : ℕ) : Type 0 where
    pub on : (b.ev_flags e).timeout ≡ true
    pub first :
        (x : ℕ)
        → (b.ev_flags x).timeout ≡ true
        → timercmp_gt (b.ev_timeout e) (b.ev_timeout x) ≡ false

  left_lem :
      (b : EventBase E) (e : ℕ)
      → timeout_left E b (some e)
        ≡ some (
            if timercmp_gt (b.ev_timeout e) b.now
            then timersub (b.ev_timeout e) b.now
            else timerclear)
  unfolding timeout_left
  left_lem b e = elim (Bool-cases (timercmp_gt (b.ev_timeout e) b.now)) [
    | inl ahead ↦ rw ahead refl
    | inr due ↦ rw due refl
  ]

  -- timeout_next lets the loop wait without a limit only when no event has a timer; otherwise until the
  -- earliest timer of all, and not at all when that is due.
  pub timeout_next-IsEarliest :
      (b : EventBase E)
      → IsReady E bound b
      → ((timeout_next E b ≡ none) × ((e : ℕ) → (b.ev_flags e).timeout ≡ false))
        ⊎ ((e : ℕ) × IsEarliest b e
            × (timeout_next E b
                ≡ some (
                    if timercmp_gt (b.ev_timeout e) b.now
                    then timersub (b.ev_timeout e) b.now
                    else timerclear)))
  unfolding timeout_next timeout_left elem_greater
  timeout_next-IsEarliest b v = elim (Option-cases (MinHeap.top b.timeheap)) [
    | inl blank ↦ inl (
      ap (timeout_left E b) blank,
      λ e. elim (Bool-cases (b.ev_flags e).timeout) [
        | inl on ↦
            let (t, at, _, _) =
              top_correct b.ev_timeout b.timeheap e v.timed.in_order (v.timed.on_heap e ∙ on) in
            absurd (cc (blank, at))
        | inr off ↦ off
      ],
    )
    | inr (e, at) ↦ inr (
      e,
      record {
        on = (top-timeout E bound b e v at).0;
        first = λ x on.
            let (t, at', _, before) =
              top_correct b.ev_timeout b.timeheap x v.timed.in_order (v.timed.on_heap x ∙ on) in
            cc (at, at', before);
      },
      ap (timeout_left E b) at ∙ left_lem b e,
    )
  ]
