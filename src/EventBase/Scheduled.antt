-- ===== src/EventBase/Scheduled.antt =====
-- The second half of event_add_nolock_: the timer of an event is set, or set anew.
use swift_event.Base.{
  ℕ, ◌+◌, ◌≤◌, ◌<◌, ◌≡◌, ◌≢◌, inl, inr, refl, ap, subst, ◌∙◌, Bool, true, false, not, ◌&&◌, ◌==◌,
  if◌then◌else◌, update, update_at, update_other, to_ℕ, bit_and, Bool-cases, by_if, arith,
}
use swift_event.Time.{Timeval, timeradd}
use swift_event.MinHeap.Index.{max_n, member}
use swift_event.EvMap.{Eventop}
use swift_event.EventBase.{EventBase, insert_timeout, remove_timeout}
use swift_event.EventBase.Delete.{abort_loop, take_timeout}
use swift_event.EventBase.Insert.{
  is_persist, take_fired, remember_timeout, set_timeout, put_timeout,
}
use swift_event.EventBase.QueueOps.{insert_timeout-IsQueued}
use swift_event.EventBase.Frame.{remove_active-Frame}
use swift_event.EventBase.Timed.{IsTimed, times-IsHeap, insert_timeout-IsTimed}
use swift_event.EventBase.Taken.{IsReady, Step, Step-refl, Step-trans}
use swift_event.EventBase.Takes.{take_timeout-Step, remove_active-Step}
use swift_event.EventBase.Deleted.{abort_loop-flags, abort_loop-Step}

module _ (E : Eventop) (bound : ℕ) where
  -- The heap has room for the timer of `e`.
  pub record HasRoom (b : EventBase E) (e : ℕ) : Type 0 where
    pub room : b.timeheap.n + 1 ≤ b.timeheap.a + to_ℕ (b.ev_flags e).timeout
    pub few : b.timeheap.n + 1 ≤ max_n + to_ℕ (b.ev_flags e).timeout

  -- The event `e` has the timer that was asked for.
  pub record Scheduled (e : ℕ) (time : Timeval) (b b' : EventBase E) : Type 0 where
    pub ready : IsReady E bound b'
    pub on : (b'.ev_flags e).timeout ≡ true
    pub at : b'.ev_timeout e ≡ time
    pub others : (x : ℕ) → x ≢ e → b'.ev_flags x ≡ b.ev_flags x
    pub times : (x : ℕ) → x ≢ e → b'.ev_timeout x ≡ b.ev_timeout x
    pub inserted : (b'.ev_flags e).inserted ≡ (b.ev_flags e).inserted

  take_fired-Step :
      (b : EventBase E) (e : ℕ)
      → IsReady E bound b
      → e < bound
      → Step E bound e b (take_fired E b e)
        × ((take_fired E b e).ev_flags e).inserted ≡ (b.ev_flags e).inserted
  unfolding take_fired
  take_fired-Step b e v lt =
      by_if
        (λ (b' : EventBase E).
          Step E bound e b b' × (b'.ev_flags e).inserted ≡ (b.ev_flags e).inserted)
        ((b.ev_flags e).active && not (bit_and (b.ev_res e) 1 == 0))
        (λ fired.
          let s = abort_loop-Step E bound b e v in
          let same = ap (λ g. g e) (abort_loop-flags E bound b e) in
          (
            Step-trans E bound s (
                remove_active-Step E bound (abort_loop E b e) e s.ready lt
                  (ap (λ g. g.active) same ∙ ground (arith, fired))),
            ((remove_active-Frame E (abort_loop E b e) e).kept e).inserted
                ∙ ap (λ g. g.inserted) same,
          ))
        λ quiet. (Step-refl E bound e b v, refl)

  take_timeout-inserted :
      (b : EventBase E) (e : ℕ)
      → ((take_timeout E b e).ev_flags e).inserted ≡ (b.ev_flags e).inserted
  unfolding take_timeout remove_timeout
  take_timeout-inserted b e = elim (Bool-cases (b.ev_flags e).timeout) [
    | inl on ↦ rw on (ground arith)
    | inr off ↦ rw off refl
  ]

  remember_timeout-Step :
      (b : EventBase E) (e : ℕ) (tv : Timeval) (tv_is_absolute : Bool)
      → IsReady E bound b
      → Step E bound e b (remember_timeout E b e tv tv_is_absolute)
        × (remember_timeout E b e tv tv_is_absolute).ev_flags ≡ b.ev_flags
  unfolding remember_timeout
  remember_timeout-Step b e tv tv_is_absolute v =
      by_if (λ (b' : EventBase E). Step E bound e b b' × b'.ev_flags ≡ b.ev_flags)
        (is_persist (b.events e).ev_closure && not tv_is_absolute)
        (λ keep. (quiet_times (update b.ev_io_timeout e tv), refl))
        λ forget. (Step-refl E bound e b v, refl)
    where
      quiet_times : (times : ℕ → Timeval) → Step E bound e b (record b { ev_io_timeout = times })
      quiet_times times = record {
        ready = record { queued = v.queued; timed = v.timed };
        fewer = (Step-refl E bound e b v).fewer;
        others = λ x ne. refl;
        ev_timeout = refl;
        now = refl;
        events = refl;
        size = refl;
        capacity = refl;
      }

  -- The insertion of a timer that is off the heap
  set_timeout-Scheduled :
      (b : EventBase E) (e : ℕ) (time : Timeval)
      → IsReady E bound b
      → e < bound
      → (b.ev_flags e).timeout ≡ false
      → (b.ev_flags e).finalizing ≡ false
      → b.timeheap.n < max_n
      → b.timeheap.n < b.timeheap.a
      → Scheduled e time b
          (insert_timeout E (record b { ev_timeout = update b.ev_timeout e time }) e)
  unfolding insert_timeout
  set_timeout-Scheduled b e time v lt off alive few room =
      let b₁ = record b { ev_timeout = update b.ev_timeout e time } in
      let apart : (x : ℕ) → member b.timeheap x ≡ true → x ≢ e = λ x on same.
        ground (arith, subst (λ z. member b.timeheap z ≡ true) same on, v.timed.on_heap e, off) in
      let timed : IsTimed E b₁ = record {
        in_order =
            times-IsHeap b.ev_timeout (update b.ev_timeout e time) b.timeheap
              (λ x on. update_other b.ev_timeout e time x (apart x on)) v.timed.in_order;
        on_heap = v.timed.on_heap;
        alive = v.timed.alive;
      } in
      record {
        ready = record {
          queued = insert_timeout-IsQueued E bound b₁ e v.queued lt;
          timed = insert_timeout-IsTimed E b₁ e timed few room alive;
        };
        on = rw off (ground arith);
        at = rw off (update_at b.ev_timeout e time);
        others = λ x ne. rw off (update_other b.ev_flags e _ x ne);
        times = λ x ne. rw off (update_other b.ev_timeout e time x ne);
        inserted = rw off (ground arith);
      }

  -- The second half of event_add_nolock_: whether or not the event has a timer already, and whether or
  -- not that has fired, it gets the one that is asked for, if the heap has room; it stays inserted if it
  -- was, no other event changes its flags or its timeout, and the queues, counts and heap stay valid.
  pub put_timeout-Scheduled :
      (b : EventBase E) (e : ℕ) (tv : Timeval) (tv_is_absolute : Bool)
      → IsReady E bound b
      → e < bound
      → (b.ev_flags e).finalizing ≡ false
      → HasRoom b e
      → Scheduled e
          (if tv_is_absolute then tv else timeradd b.now tv)
          b
          (put_timeout E b e tv tv_is_absolute)
  unfolding put_timeout set_timeout
  put_timeout-Scheduled b e tv tv_is_absolute v lt alive room =
      let b₁ = remember_timeout E b e tv tv_is_absolute in
      let (s₁, same) = remember_timeout-Step b e tv tv_is_absolute v in
      let b₂ = take_timeout E b₁ e in
      let (s₂, off) = take_timeout-Step E bound b₁ e s₁.ready lt in
      let b₃ = take_fired E b₂ e in
      let (s₃, kept) = take_fired-Step b₂ e s₂.ready lt in
      let s = Step-trans E bound s₁ (Step-trans E bound s₂ s₃) in
      let off₃ : (b₃.ev_flags e).timeout ≡ false = ground (arith, s₃.fewer.timeout, off) in
      let made =
        set_timeout-Scheduled b₃ e (if tv_is_absolute then tv else timeradd b₃.now tv) s.ready lt
          off₃ (s.fewer.finalizing ∙ alive) (ground (arith, off₃, s.size, room.few))
          (ground (arith, off₃, s.size, s.capacity, room.room)) in
      record {
        ready = made.ready;
        on = made.on;
        at = made.at ∙ ap (λ t. if tv_is_absolute then tv else timeradd t tv) s.now;
        others = λ x ne. made.others x ne ∙ s.others x ne;
        times = λ x ne. made.times x ne ∙ ap (λ t. t x) s.ev_timeout;
        inserted =
            made.inserted ∙ kept ∙ take_timeout-inserted b₁ e ∙ ap (λ g. (g e).inserted) same;
      }
