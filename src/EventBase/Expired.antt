-- ===== src/EventBase/Expired.antt =====
-- timeout_process of event.c: what it does to the events that are due, and that it ends.
use swift_event.Base.{
  ℕ, zero, suc, ◌+◌, ◌≤◌, ◌<◌, ◌≡◌, ◌≢◌, inl, inr, refl, sym, ap, ap₂, subst, ◌∙◌, Bool, true,
  false, not, ◌&&◌, ◌==◌, ==_iff, Option, none, some, Bool-cases, by_if, arith,
}
use swift_event.Time.{timercmp_gt}
use swift_event.Time.Order.{not_gt_trans}
use swift_event.MinHeap
use swift_event.MinHeap.{MinHeap, elem_greater}
use swift_event.MinHeap.Index.{member, has_index}
use swift_event.MinHeap.Ops.{top_correct}
use swift_event.EvMap.{Eventop}
use swift_event.EventBase.{EventBase}
use swift_event.EventBase.Delete.{del_nolock}
use swift_event.EventBase.Loop.{expire, expire_on, timeout_process}
use swift_event.EventBase.Queued.{flagged-lt}
use swift_event.EventBase.Activated.{active_nolock-Activated}
use swift_event.EventBase.Taken.{IsReady, frame-IsReady}
use swift_event.EventBase.Deleted.{del_nolock-Step}

top-full : (s : MinHeap) (e : ℕ) → MinHeap.top s ≡ some e → 0 < s.n × s.p 0 ≡ e
unfolding MinHeap.top
top-full s e at = ground (arith, at)

module _ (E : Eventop) (bound : ℕ) where
  -- The timeout of an event of the base is still to come.
  abbrev is_ahead : EventBase E → ℕ → Bool
  is_ahead b e = timercmp_gt (b.ev_timeout e) b.now

  -- Every timer of `b` that is due has fired, and the other events are as before.
  pub record Expired (b b' : EventBase E) : Type 0 where
    pub ready : IsReady E bound b'
    pub ev_timeout : b'.ev_timeout ≡ b.ev_timeout
    pub now : b'.now ≡ b.now
    none_due : (e : ℕ) → (b'.ev_flags e).timeout ≡ true → is_ahead b' e ≡ true
    pub fired :
        (e : ℕ)
        → (b.ev_flags e).timeout ≡ true
        → is_ahead b e ≡ false
        → (b'.ev_flags e).active ≡ true × (b'.ev_flags e).timeout ≡ false
    pub others :
        (e : ℕ)
        → (b.ev_flags e).timeout && not (is_ahead b e) ≡ false
        → b'.ev_flags e ≡ b.ev_flags e

  -- One timer has fired.
  record Fires (b : EventBase E) (e : ℕ) (b' : EventBase E) : Type 0 where
    ready : IsReady E bound b'
    ev_timeout : b'.ev_timeout ≡ b.ev_timeout
    now : b'.now ≡ b.now
    active : (b'.ev_flags e).active ≡ true
    off : (b'.ev_flags e).timeout ≡ false
    others : (x : ℕ) → x ≢ e → b'.ev_flags x ≡ b.ev_flags x
    size : b'.timeheap.n + 1 ≡ b.timeheap.n

  expire-Fires :
      (b : EventBase E) (e : ℕ)
      → IsReady E bound b
      → (b.ev_flags e).timeout ≡ true
      → Fires b e (expire E b e)
  unfolding expire
  expire-Fires b e v on =
      let lt : e < bound = flagged-lt E b bound e v.queued (ground (arith, on)) in
      let alive : (b.ev_flags e).finalizing ≡ false = ground (arith, v.timed.alive e, on) in
      let (step, gone) = del_nolock-Step E bound b e false v lt (ground (arith, alive)) in
      let b₁ = (del_nolock E b e false).1 in
      let made =
        active_nolock-Activated E bound b₁ e 1 1 step.ready.queued lt
          (step.fewer.finalizing ∙ alive) in
      record {
        ready = frame-IsReady E bound b₁ _ step.ready made.valid made.frame;
        ev_timeout = made.frame.ev_timeout ∙ step.ev_timeout;
        now = made.frame.now ∙ step.now;
        active = made.on;
        off = (made.frame.kept e).timeout ∙ ground (arith, gone);
        others = λ x ne. made.others x ne ∙ step.others x ne;
        size = ap (λ h. h.n + 1) made.frame.timeheap ∙ ground (arith, step.size, on, gone);
      }

  nothing_due :
      (b : EventBase E)
      → IsReady E bound b
      → ((e : ℕ) → (b.ev_flags e).timeout ≡ true → is_ahead b e ≡ true)
      → Expired b b
  nothing_due b v ahead = record {
    ready = v;
    ev_timeout = refl;
    now = refl;
    none_due = ahead;
    fired = λ e on due. absurd (ground (arith, ahead e on, due));
    others = λ e off. refl;
  }

  after_one :
      (b : EventBase E) (e : ℕ) {b₁ b' : EventBase E}
      → (b.ev_flags e).timeout ≡ true
      → is_ahead b e ≡ false
      → Fires b e b₁
      → Expired b₁ b'
      → Expired b b'
  after_one b e {b₁} {b'} on due p q =
      let ahead_same : (x : ℕ) → is_ahead b₁ x ≡ is_ahead b x =
        λ x. ap₂ timercmp_gt (ap (λ t. t x) p.ev_timeout) p.now in
      let still : b'.ev_flags e ≡ b₁.ev_flags e =
        q.others e (ap (λ t. t && not (is_ahead b₁ e)) p.off) in
      record {
        ready = q.ready;
        ev_timeout = q.ev_timeout ∙ p.ev_timeout;
        now = q.now ∙ p.now;
        none_due = q.none_due;
        fired = λ x on_x due_x. elim (Bool-cases (x == e)) [
          | inl at ↦
              subst (λ z. (b'.ev_flags z).active ≡ true × (b'.ev_flags z).timeout ≡ false)
                (sym ((==_iff x e).0 at))
                (ap (λ g. g.active) still ∙ p.active, ap (λ g. g.timeout) still ∙ p.off)
          | inr off ↦
              let same = p.others x (λ y. ground (arith, y)) in
              q.fired x (ap (λ g. g.timeout) same ∙ on_x) (ahead_same x ∙ due_x)
        ];
        others = λ x off_x. elim (Bool-cases (x == e)) [
          | inl at ↦
              let off_e : (b.ev_flags e).timeout && not (is_ahead b e) ≡ false =
                subst (λ z. (b.ev_flags z).timeout && not (is_ahead b z) ≡ false)
                  ((==_iff x e).0 at) off_x in
              absurd (ground (arith, on, due, off_e))
          | inr off ↦
              let same = p.others x (λ y. ground (arith, y)) in
              q.others x (ap₂ (λ g a. g.timeout && not a) same (ahead_same x) ∙ off_x) ∙ same
        ];
      }

  -- The top of the heap is due before every other timer.
  none_before_top :
      (b : EventBase E)
      → IsReady E bound b
      → ((t : ℕ) → MinHeap.top b.timeheap ≡ some t → is_ahead b t ≡ true)
      → (e : ℕ) → (b.ev_flags e).timeout ≡ true
      → is_ahead b e ≡ true
  unfolding elem_greater
  none_before_top b v ahead e on =
      let (t, at, _, before) =
        top_correct b.ev_timeout b.timeheap e v.timed.in_order (v.timed.on_heap e ∙ on) in
      ground (arith, ahead t at, not_gt_trans (b.ev_timeout t) (b.ev_timeout e) b.now before)

  no_top :
      (b : EventBase E)
      → IsReady E bound b
      → MinHeap.top b.timeheap ≡ none
      → (e : ℕ) → (b.ev_flags e).timeout ≡ true
      → is_ahead b e ≡ true
  no_top b v blank = none_before_top b v (λ t at. absurd (cc (blank, at)))

  pub top-timeout :
      (b : EventBase E) (e : ℕ)
      → IsReady E bound b
      → MinHeap.top b.timeheap ≡ some e
      → (b.ev_flags e).timeout ≡ true × 0 < b.timeheap.n
  unfolding MinHeap.top has_index
  top-timeout b e v at =
      let (full, first) = top-full b.timeheap e at in
      (
        sym (v.timed.on_heap e)
            ∙ ap (λ x. member b.timeheap x) (sym first)
            ∙ ap has_index (v.timed.in_order.indexed.forth 0 full),
        full,
      )

  expire_on-Expired :
      (fuel : ℕ) (b : EventBase E) (o : Option ℕ)
      → MinHeap.top b.timeheap ≡ o
      → b.timeheap.n ≤ fuel
      → IsReady E bound b
      → Expired b (expire_on E fuel b o)
  unfolding expire_on
  expire_on-Expired zero b none at enough v = nothing_due b v (no_top b v at)
  expire_on-Expired (suc fuel) b none at enough v = nothing_due b v (no_top b v at)
  expire_on-Expired zero b (some e) at enough v = absurd (omega (arith, (top-timeout b e v at).1))
  expire_on-Expired (suc fuel) b (some e) at enough v =
      let (on, full) = top-timeout b e v at in
      let p = expire-Fires b e v on in
      by_if (Expired b) (is_ahead b e)
        (λ ahead. nothing_due b v (none_before_top b v (λ t at'. cc (at, at', ahead))))
        λ due.
          after_one b e on due p
            (expire_on-Expired fuel (expire E b e) _ refl (omega (arith, p.size)) p.ready)

  -- timeout_process ends, with as many rounds as there are timers on the heap, and then no timer is due
  -- that has not fired: each event whose timeout is not after `now` is active, and off the heap; no
  -- other event's flags have changed; and the queues, the counts and the heap are valid.
  pub timeout_process-Expired :
      (b : EventBase E) → IsReady E bound b → Expired b (timeout_process E b)
  unfolding timeout_process MinHeap.empty MinHeap.size MinHeap.top
  timeout_process-Expired b v =
      by_if (Expired b) (b.timeheap.n == 0)
        (λ blank. nothing_due b v (no_top b v (ground (arith, blank))))
        λ some. expire_on-Expired b.timeheap.n b _ refl (omega arith) v
