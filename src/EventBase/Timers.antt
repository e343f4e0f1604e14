-- ===== src/EventBase/Timers.antt =====
-- The calls of event.c keep its promise of timers, whatever they do to the rest of an event base.
use swift_event.Base.{
  ℕ, ◌<◌, ◌≡◌, ◌≢◌, inl, inr, refl, sym, ap, ap₂, subst, ◌∙◌, Bool, true, false, ◌==◌, ==_iff,
  if◌then◌else◌, if_true, if_false, update, Option, none, some, Bool-cases, arith,
}
use swift_event.Base.Int.{ℤ, pos, negsuc, eqb_ℤ}
use swift_event.Time.{Timeval, timeradd, timercmp_gt}
use swift_event.MinHeap.Index.{max_n}
use swift_event.EvMap.{Eventop}
use swift_event.EventBase.{EventBase, make_later_events_active}
use swift_event.EventBase.Delete.{del_nolock}
use swift_event.EventBase.Activate.{active_nolock, active_later_nolock}
use swift_event.EventBase.Insert.{add_nolock}
use swift_event.EventBase.Loop.{timeout_process}
use swift_event.EventBase.Frame.{Frame}
use swift_event.EventBase.Taken.{IsReady}
use swift_event.EventBase.Deleted.{del_nolock-Step}
use swift_event.EventBase.Activated.{active_nolock-Activated}
use swift_event.EventBase.Deferred.{active_later_nolock-Waits}
use swift_event.EventBase.Added.{Added, add_nolock-Added}
use swift_event.EventBase.Later.{make_later_events_active-MadeActive}
use swift_event.EventBase.Expired.{timeout_process-Expired}
use swift_event.EventBase.PutIn.{refused as fails_with}
use swift_event.EventBase.Reach.{final-add, final-del, final-active}
use swift_event.EventBase.Promise.{
  Timers, Call, add, del, active, active_later, make_later, process, keep_ahead, Allowed, set,
  refused, untimed, cleared, kept_active, kept_later, kept_make, expired,
}
use swift_event.EventBase.Certain.{is_certain, final_refused, uncertain}

module _ (E : Eventop) (bound : ℕ) where
  -- What a call returns, and the base after it; a call that returns nothing counts as one of 0.
  abbrev pub run : Call → EventBase E → ℤ × EventBase E
  run (add e tv tv_is_absolute) b = add_nolock E b e tv tv_is_absolute
  run (del e) b = del_nolock E b e false
  run (active e res ncalls) b = (pos 0, active_nolock E b e res ncalls)
  run (active_later e res) b = (pos 0, active_later_nolock E b e res)
  run make_later b = (pos 0, make_later_events_active E b)
  run process b = (pos 0, timeout_process E b)

  -- The events are those of the base, and a timer finds room.
  abbrev IsLegal : Call → EventBase E → Type 0
  IsLegal (add e tv tv_is_absolute) b = (e < bound) × (b.timeheap.n < max_n)
  IsLegal (del e) b = e < bound
  IsLegal (active e res ncalls) b = e < bound
  IsLegal (active_later e res) b = e < bound
  IsLegal make_later b = Unit
  IsLegal process b = Unit

  abbrev pub timers : EventBase E → Timers
  timers b e = if (b.ev_flags e).timeout then some (b.ev_timeout e) else none

  timers_on :
      (b : EventBase E) (x : ℕ) → (b.ev_flags x).timeout ≡ true → timers b x ≡ some (b.ev_timeout x)
  timers_on b x on = if_true (some (b.ev_timeout x)) none on

  timers_off : (b : EventBase E) (x : ℕ) → (b.ev_flags x).timeout ≡ false → timers b x ≡ none
  timers_off b x off = if_false (some (b.ev_timeout x)) none off

  frame-timers : (b b' : EventBase E) → Frame E b b' → (x : ℕ) → timers b' x ≡ timers b x
  frame-timers b b' frame x =
      ap₂ (λ f (t : ℕ → Timeval). if f then some (t x) else none) (frame.kept x).timeout
        frame.ev_timeout

  flags-timers :
      (b b' : EventBase E) (x : ℕ)
      → b'.ev_flags x ≡ b.ev_flags x
      → b'.ev_timeout x ≡ b.ev_timeout x
      → timers b' x ≡ timers b x
  flags-timers b b' x flags times = ap₂ (λ f t. if f.timeout then some t else none) flags times

  del-timers :
      (b : EventBase E) (e : ℕ)
      → IsReady E bound b
      → e < bound
      → (x : ℕ) → timers (del_nolock E b e false).1 x ≡ update (timers b) e none x
  del-timers b e v lt x = elim (Bool-cases (b.ev_flags e).finalizing) [
    | inl final ↦
        ap (λ (b' : EventBase E). timers b' x) (final-del E bound b e final)
        ∙ elim (Bool-cases (x == e)) [
          | inl at ↦ rw at (
              subst (λ z. timers b z ≡ none) (sym ((==_iff x e).0 at))
                (timers_off b e (v.timed.alive e final)))
          | inr off ↦ rw off refl
        ]
    | inr alive ↦
        let (step, gone) = del_nolock-Step E bound b e false v lt (ground (arith, alive)) in
        let b' = (del_nolock E b e false).1 in
        elim (Bool-cases (x == e)) [
          | inl at ↦ rw at (
              subst (λ z. timers b' z ≡ none) (sym ((==_iff x e).0 at))
                (timers_off b' e (ground (arith, gone))))
          | inr off ↦ rw off (
              flags-timers b b' x (step.others x (λ y. ground (arith, y)))
                (ap (λ t. t x) step.ev_timeout))
        ]
  ]

  process-timers :
      (b : EventBase E)
      → IsReady E bound b
      → (x : ℕ) → timers (timeout_process E b) x ≡ keep_ahead b.now (timers b x)
  process-timers b v x =
      let p = timeout_process-Expired E bound b v in
      let b' = timeout_process E b in
      elim (Bool-cases (b.ev_flags x).timeout) [
        | inl on ↦ elim (Bool-cases (timercmp_gt (b.ev_timeout x) b.now)) [
          | inl ahead ↦
              flags-timers b b' x (p.others x (ground (arith, on, ahead)))
                (ap (λ t. t x) p.ev_timeout)
              ∙ timers_on b x on
              ∙ sym (
                  ap (keep_ahead b.now) (timers_on b x on)
                  ∙ if_true (some (b.ev_timeout x)) none ahead)
          | inr due ↦
              timers_off b' x (p.fired x on due).1
              ∙ sym (
                  ap (keep_ahead b.now) (timers_on b x on)
                  ∙ if_false (some (b.ev_timeout x)) none due)
        ]
        | inr off ↦
            flags-timers b b' x (p.others x (ground (arith, off))) (ap (λ t. t x) p.ev_timeout)
            ∙ timers_off b x off
            ∙ sym (ap (keep_ahead b.now) (timers_off b x off))
      ]

  -- What an addition has done is what the promise allows.
  refused-timers :
      (b : EventBase E) (e : ℕ) (tv : Option Timeval) (tv_is_absolute : Bool) (r : ℤ × EventBase E)
      → is_certain E bound (add e tv tv_is_absolute) b ≡ false
      → r.0 ≡ negsuc 0
      → ((x : ℕ) → timers r.1 x ≡ timers b x)
      → Allowed b.now
          (is_certain E bound (add e tv tv_is_absolute) b)
          (add e tv tv_is_absolute)
          (timers b)
          r.0
          (timers r.1)
  refused-timers b e tv tv_is_absolute r may is_it same =
      subst
        (λ n.
          Allowed b.now (is_certain E bound (add e tv tv_is_absolute) b) (add e tv tv_is_absolute)
            (timers b) n (timers r.1))
        (sym is_it) (refused may same)

  added-timers :
      (b : EventBase E) (e : ℕ) (tv : Option Timeval) (tv_is_absolute : Bool) (r : ℤ × EventBase E)
      → Added E bound b e tv tv_is_absolute r
      → r.0 ≢ negsuc 0
      → Allowed b.now
          (is_certain E bound (add e tv tv_is_absolute) b)
          (add e tv tv_is_absolute)
          (timers b)
          r.0
          (timers r.1)
  added-timers b e none tv_is_absolute r made ok =
      let (timeout, times) = made.timer ok in
      untimed λ x. elim (Bool-cases (x == e)) [
        | inl at ↦
            subst (λ z. timers r.1 z ≡ timers b z) (sym ((==_iff x e).0 at))
              (ap₂ (λ f (t : ℕ → Timeval). if f then some (t e) else none) timeout times)
        | inr off ↦
            let ne : x ≢ e = λ y. ground (arith, y) in
            flags-timers b r.1 x (made.others x ne) (made.times x ne)
      ]
  added-timers b e (some tv) tv_is_absolute r made ok =
      let (on, at_time) = made.timer ok in
      set ok λ x. elim (Bool-cases (x == e)) [
        | inl at ↦ rw at (
            subst (λ z. timers r.1 z ≡ some (if tv_is_absolute then tv else timeradd b.now tv))
              (sym ((==_iff x e).0 at)) (timers_on r.1 e on ∙ ap some at_time))
        | inr off ↦
            let ne : x ≢ e = λ y. ground (arith, y) in
            rw off (flags-timers b r.1 x (made.others x ne) (made.times x ne))
      ]

  add-timers :
      (b : EventBase E) (e : ℕ) (tv : Option Timeval) (tv_is_absolute : Bool)
      → IsReady E bound b
      → e < bound
      → b.timeheap.n < max_n
      → Allowed b.now
          (is_certain E bound (add e tv tv_is_absolute) b)
          (add e tv tv_is_absolute)
          (timers b)
          (add_nolock E b e tv tv_is_absolute).0
          (timers (add_nolock E b e tv tv_is_absolute).1)
  add-timers b e tv tv_is_absolute v lt few = elim (Bool-cases (b.ev_flags e).finalizing) [
    | inl final ↦
        refused-timers b e tv tv_is_absolute (add_nolock E b e tv tv_is_absolute)
          (ground (arith, final)) (final_refused E bound b e tv tv_is_absolute final)
          λ x.
            ap (λ (b' : EventBase E). timers b' x) (final-add E bound b e tv tv_is_absolute final)
    | inr alive ↦
        let r = add_nolock E b e tv tv_is_absolute in
        let made = add_nolock-Added E bound b e tv tv_is_absolute v lt alive few in
        elim (Bool-cases (eqb_ℤ r.0 (negsuc 0))) [
          | inl is_it ↦
              let (flags, times) = made.fails (fails_with r.0 is_it) in
              refused-timers b e tv tv_is_absolute r
                (uncertain E bound b e tv tv_is_absolute few is_it) (fails_with r.0 is_it)
                λ x. flags-timers b r.1 x (ap (λ g. g x) flags) (ap (λ t. t x) times)
          | inr went ↦
              added-timers b e tv tv_is_absolute r made (λ same. ground (arith, same, went))
        ]
  ]

  active-timers :
      (b : EventBase E) (e res ncalls x : ℕ)
      → IsReady E bound b
      → e < bound
      → timers (active_nolock E b e res ncalls) x ≡ timers b x
  active-timers b e res ncalls x v lt = elim (Bool-cases (b.ev_flags e).finalizing) [
    | inl final ↦ ap (λ (b' : EventBase E). timers b' x) (final-active E bound b e res ncalls final)
    | inr alive ↦
        frame-timers b (active_nolock E b e res ncalls)
          (active_nolock-Activated E bound b e res ncalls v.queued lt alive).frame x
  ]

  -- What each call of event.c does to a valid base, for an event of the base and with fewer than 2 ^ 30
  -- timers on the heap, is what the promise allows: the timers of the events change as the call says
  -- and in no other way, whatever it does to the heap, the queues and the flags. An addition with a
  -- timeout that leaves the timers as they were returns -1, and that does not happen while there is
  -- memory to an event that is not being finalized and is not new to the backend.
  pub run-Allowed :
      (call : Call) (b : EventBase E)
      → IsReady E bound b
      → IsLegal call b
      → Allowed b.now
          (is_certain E bound call b)
          call
          (timers b)
          (run call b).0
          (timers (run call b).1)
  run-Allowed (add e tv tv_is_absolute) b v (lt, few) = add-timers b e tv tv_is_absolute v lt few
  run-Allowed (del e) b v lt = cleared (del-timers b e v lt)
  run-Allowed (active e res ncalls) b v lt = kept_active (λ x. active-timers b e res ncalls x v lt)
  run-Allowed (active_later e res) b v lt = kept_later (
      frame-timers b (active_later_nolock E b e res)
        (active_later_nolock-Waits E bound b e res v.queued lt).frame)
  run-Allowed make_later b v legal = kept_make (
      frame-timers b (make_later_events_active E b)
        (make_later_events_active-MadeActive E bound b v.queued).frame)
  run-Allowed process b v legal = expired (process-timers b v)
