-- ===== src/EventBase/Reach.antt =====
-- The event base as a state machine: the operations of event.c in any order, from a base with no events
-- pending.
use swift_event.Base.{
  ℕ, ◌<◌, ◌≡◌, inl, inr, refl, sym, ap, subst, ◌∙◌, Bool, true, false, [], Option, total-zero,
  occurs, Bool-cases, arith,
}
use swift_event.Base.Int.{pos, negsuc}
use swift_event.Time.{Timeval}
use swift_event.MinHeap
use swift_event.MinHeap.{MinHeap}
use swift_event.MinHeap.Index.{max_n, member, has_index}
use swift_event.MinHeap.Order.{IsHeap}
use swift_event.MinHeap.Ops.{ctor-IsHeap}
use swift_event.EvMap.{Eventop}
use swift_event.EventBase.{EventBase, make_later_events_active}
use swift_event.EventBase.Delete.{del_nolock}
use swift_event.EventBase.Activate.{active_nolock, active_later_nolock}
use swift_event.EventBase.Insert.{add_nolock}
use swift_event.EventBase.Loop.{timeout_process}
use swift_event.EventBase.Queued.{queues_of, weight, waiting}
use swift_event.EventBase.Taken.{IsReady, frame-IsReady}
use swift_event.EventBase.Deleted.{del_nolock-Step}
use swift_event.EventBase.Activated.{active_nolock-Activated}
use swift_event.EventBase.Deferred.{active_later_nolock-Waits}
use swift_event.EventBase.Added.{add_nolock-Added}
use swift_event.EventBase.Later.{make_later_events_active-MadeActive}
use swift_event.EventBase.Expired.{timeout_process-Expired}

module _ (E : Eventop) (bound : ℕ) where
  -- A base after event_base_new_with_config: nothing is pending.
  pub record IsFresh (b : EventBase E) : Type 0 where
    pub flags : (e : ℕ) → queues_of (b.ev_flags e) ≡ 0
    pub activequeues : (p : ℕ) → b.activequeues p ≡ []
    pub active_later_queue : b.active_later_queue ≡ []
    pub event_count : b.event_count ≡ pos 0
    pub event_count_active : b.event_count_active ≡ pos 0
    pub timeheap : (memory : ℕ → ℕ) × (b.timeheap ≡ MinHeap.ctor memory (λ x. negsuc 0))

  -- What the program can do with a base. The clock may move, and so may what the callbacks of events do
  -- not touch.
  pub data Reachable : EventBase E → Type 0 where
    fresh : {b : EventBase E} → IsFresh b → Reachable b
    adds :
        {b : EventBase E} (e : ℕ) (tv : Option Timeval) (tv_is_absolute : Bool)
        → Reachable b
        → e < bound
        → b.timeheap.n < max_n
        → Reachable (add_nolock E b e tv tv_is_absolute).1
    deletes :
        {b : EventBase E} (e : ℕ) → Reachable b → e < bound → Reachable (del_nolock E b e false).1
    activates :
        {b : EventBase E} (e res ncalls : ℕ)
        → Reachable b
        → e < bound
        → Reachable (active_nolock E b e res ncalls)
    puts_off :
        {b : EventBase E} (e res : ℕ)
        → Reachable b
        → e < bound
        → Reachable (active_later_nolock E b e res)
    makes_active : {b : EventBase E} → Reachable b → Reachable (make_later_events_active E b)
    times_out : {b : EventBase E} → Reachable b → Reachable (timeout_process E b)
    waits : {b : EventBase E} (now : Timeval) → Reachable b → Reachable (record b { now = now })

  fresh-IsReady : (b : EventBase E) → IsFresh b → IsReady E bound b
  unfolding MinHeap.ctor has_index
  fresh-IsReady b v =
      let (memory, start) = v.timeheap in
      record {
        queued = record {
          on_active = λ e p. ap (occurs e) (v.activequeues p) ∙ ground (arith, v.flags e);
          on_later = λ e. ap (occurs e) v.active_later_queue ∙ ground (arith, v.flags e);
          apart = λ e on. ground (arith, v.flags e);
          known = λ e out. v.flags e;
          count =
              v.event_count
              ∙ ap pos (
                  sym (
                    total-zero (λ e. weight (b.ev_flags e)) bound
                      (λ e. ground (arith, v.flags e))));
          count_active =
              v.event_count_active
              ∙ ap pos (
                  sym (
                    total-zero (λ e. waiting (b.ev_flags e)) bound
                      (λ e. ground (arith, v.flags e))));
        };
        timed = record {
          in_order = subst (IsHeap b.ev_timeout) (sym start) (ctor-IsHeap b.ev_timeout memory);
          on_heap = λ e. ap (λ h. member h e) start ∙ ground (arith, v.flags e);
          alive = λ e final. ground (arith, v.flags e);
        };
      }

  pub final-add :
      (b : EventBase E) (e : ℕ) (tv : Option Timeval) (tv_is_absolute : Bool)
      → (b.ev_flags e).finalizing ≡ true
      → (add_nolock E b e tv tv_is_absolute).1 ≡ b
  unfolding add_nolock
  final-add b e tv tv_is_absolute final = rw final refl

  pub final-del :
      (b : EventBase E) (e : ℕ) → (b.ev_flags e).finalizing ≡ true → (del_nolock E b e false).1 ≡ b
  unfolding del_nolock
  final-del b e final = rw final refl

  pub final-active :
      (b : EventBase E) (e res ncalls : ℕ)
      → (b.ev_flags e).finalizing ≡ true
      → active_nolock E b e res ncalls ≡ b
  unfolding active_nolock
  final-active b e res ncalls final = rw final refl

  -- However the operations follow one another, the queues, the counts and the heap of the base are
  -- valid.
  pub Reachable-IsReady : (b : EventBase E) → Reachable b → IsReady E bound b
  Reachable-IsReady b (fresh v) = fresh-IsReady b v
  Reachable-IsReady _ (adds {b} e tv tv_is_absolute r lt few) =
      let v = Reachable-IsReady b r in
      elim (Bool-cases (b.ev_flags e).finalizing) [
        | inl final ↦ subst (IsReady E bound) (sym (final-add b e tv tv_is_absolute final)) v
        | inr alive ↦ (add_nolock-Added E bound b e tv tv_is_absolute v lt alive few).ready
      ]
  Reachable-IsReady _ (deletes {b} e r lt) =
      let v = Reachable-IsReady b r in
      elim (Bool-cases (b.ev_flags e).finalizing) [
        | inl final ↦ subst (IsReady E bound) (sym (final-del b e final)) v
        | inr alive ↦ (del_nolock-Step E bound b e false v lt (ground (arith, alive))).0.ready
      ]
  Reachable-IsReady _ (activates {b} e res ncalls r lt) =
      let v = Reachable-IsReady b r in
      elim (Bool-cases (b.ev_flags e).finalizing) [
        | inl final ↦ subst (IsReady E bound) (sym (final-active b e res ncalls final)) v
        | inr alive ↦
            let made = active_nolock-Activated E bound b e res ncalls v.queued lt alive in
            frame-IsReady E bound b _ v made.valid made.frame
      ]
  Reachable-IsReady _ (puts_off {b} e res r lt) =
      let v = Reachable-IsReady b r in
      let made = active_later_nolock-Waits E bound b e res v.queued lt in
      frame-IsReady E bound b _ v made.valid made.frame
  Reachable-IsReady _ (makes_active {b} r) =
      let v = Reachable-IsReady b r in
      let made = make_later_events_active-MadeActive E bound b v.queued in
      frame-IsReady E bound b _ v made.valid made.frame
  Reachable-IsReady _ (times_out {b} r) =
      (timeout_process-Expired E bound b (Reachable-IsReady b r)).ready
  Reachable-IsReady _ (waits {b} now r) =
      let v = Reachable-IsReady b r in record { queued = v.queued; timed = v.timed }
