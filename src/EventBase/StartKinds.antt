-- ===== src/EventBase/StartKinds.antt =====
-- What event_add_nolock_ of event.c, and what precedes a callback, leave alone: which events are internal,
-- and the number of priorities.
use swift_event.Base.{
  ℕ, refl, Bool, true, false, not, ◌&&◌, ◌||◌, ◌==◌, Option, none, some, by_if, bit_and,
}
use swift_event.Base.Int.{ℤ, negsuc, eqb_ℤ}
use swift_event.Time.{Timeval}
use swift_event.Events.{wants_io}
use swift_event.EvMap.{Eventop}
use swift_event.EventBase.{EventBase}
use swift_event.EventBase.Delete.{abort_loop, take_timeout}
use swift_event.EventBase.Insert.{
  is_persist, reserve_timeout, evmap_add, put_inserted, take_fired, remember_timeout, set_timeout,
  put_timeout, put_timeout_after, add_reserved, add_nolock,
}
use swift_event.EventBase.Run.{is_set, run_at, dequeue, persist_closure, start_callback}
use swift_event.EventBase.Kinds.{
  SameKinds, SameKinds-refl, SameKinds-trans, insert_inserted-SameKinds, remove_active-SameKinds,
  insert_timeout-SameKinds, abort_loop-SameKinds, take_timeout-SameKinds, del_nolock-SameKinds,
}

module _ (E : Eventop) where
  -- Addition
  reserve_timeout-SameKinds :
      (b : EventBase E) (e : ℕ) (tv : Option Timeval) → SameKinds E b (reserve_timeout E b e tv).1
  unfolding reserve_timeout
  reserve_timeout-SameKinds b e none = SameKinds-refl E b
  reserve_timeout-SameKinds b e (some tv) =
      by_if (λ (r : Bool × EventBase E). SameKinds E b r.1) (b.ev_flags e).timeout
        (λ on. SameKinds-refl E b) λ off. record { internal = λ x. refl; nactivequeues = refl }

  evmap_add-SameKinds : (b : EventBase E) (e : ℕ) → SameKinds E b (evmap_add E b e).1
  unfolding evmap_add
  evmap_add-SameKinds b e =
      by_if (λ (r : ℤ × EventBase E). SameKinds E b r.1) (wants_io (b.events e).ev_events)
        (λ io. record { internal = λ x. refl; nactivequeues = refl })
        λ sig. record { internal = λ x. refl; nactivequeues = refl }

  put_inserted-SameKinds : (b : EventBase E) (e : ℕ) → SameKinds E b (put_inserted E b e).1
  unfolding put_inserted
  put_inserted-SameKinds b e =
      let ev = (b.events e).ev_events in
      let f = b.ev_flags e in
      let (res, b') = evmap_add E b e in
      let Kept = λ (r : ℤ × EventBase E). SameKinds E b r.1 in
      by_if Kept ((wants_io ev || ev.ev_signal) && not (f.inserted || (f.active || f.active_later)))
        (λ new.
          by_if Kept (eqb_ℤ res (negsuc 0)) (λ fails. evmap_add-SameKinds b e)
            λ works. SameKinds-trans E (evmap_add-SameKinds b e) (insert_inserted-SameKinds E b' e))
        λ old. SameKinds-refl E b

  take_fired-SameKinds : (b : EventBase E) (e : ℕ) → SameKinds E b (take_fired E b e)
  unfolding take_fired
  take_fired-SameKinds b e =
      by_if (SameKinds E b) ((b.ev_flags e).active && not (bit_and (b.ev_res e) 1 == 0))
        (λ fired.
          SameKinds-trans E (abort_loop-SameKinds E b e)
            (remove_active-SameKinds E (abort_loop E b e) e))
        λ other. SameKinds-refl E b

  remember_timeout-SameKinds :
      (b : EventBase E) (e : ℕ) (tv : Timeval) (tv_is_absolute : Bool)
      → SameKinds E b (remember_timeout E b e tv tv_is_absolute)
  unfolding remember_timeout
  remember_timeout-SameKinds b e tv tv_is_absolute =
      by_if (SameKinds E b) (is_persist (b.events e).ev_closure && not tv_is_absolute)
        (λ on. record { internal = λ x. refl; nactivequeues = refl }) λ off. SameKinds-refl E b

  put_timeout-SameKinds :
      (b : EventBase E) (e : ℕ) (tv : Timeval) (tv_is_absolute : Bool)
      → SameKinds E b (put_timeout E b e tv tv_is_absolute)
  unfolding put_timeout set_timeout
  put_timeout-SameKinds b e tv tv_is_absolute =
      let b' = remember_timeout E b e tv tv_is_absolute in
      let b'' = take_timeout E b' e in
      let before =
        SameKinds-trans E (remember_timeout-SameKinds b e tv tv_is_absolute)
          (SameKinds-trans E (take_timeout-SameKinds E b' e) (take_fired-SameKinds b'' e)) in
      let set = set_timeout E (take_fired E b'' e) e tv tv_is_absolute in
      SameKinds-trans E
        (record { internal = before.internal; nactivequeues = before.nactivequeues })
        (insert_timeout-SameKinds E set e)

  add_nolock-SameKinds :
      (b : EventBase E) (e : ℕ) (tv : Option Timeval) (tv_is_absolute : Bool)
      → SameKinds E b (add_nolock E b e tv tv_is_absolute).1
  unfolding add_nolock
  add_nolock-SameKinds b e tv tv_is_absolute =
      by_if (λ (r : ℤ × EventBase E). SameKinds E b r.1) (b.ev_flags e).finalizing
        (λ final. SameKinds-refl E b)
        λ alive. reserved (reserve_timeout E b e tv) (reserve_timeout-SameKinds b e tv)
    where
      timed :
          (tv : Option Timeval) (r : ℤ × EventBase E)
          → SameKinds E b r.1
          → SameKinds E b (put_timeout_after E e tv tv_is_absolute r).1
      timed none r same = same
      timed (some tv) (res, b') same =
          by_if (SameKinds E b) (eqb_ℤ res (negsuc 0)) (λ fails. same)
            λ works. SameKinds-trans E same (put_timeout-SameKinds b' e tv tv_is_absolute)

      reserved :
          (r : Bool × EventBase E)
          → SameKinds E b r.1
          → SameKinds E b (add_reserved E e tv tv_is_absolute r).1
      reserved (false, b') same = same
      reserved (true, b') same =
          timed tv (put_inserted E b' e) (SameKinds-trans E same (put_inserted-SameKinds b' e))

  -- Before a callback is called, no event becomes internal or stops being so.
  pub start_callback-SameKinds : (b : EventBase E) (e : ℕ) → SameKinds E b (start_callback E b e)
  unfolding start_callback persist_closure dequeue
  start_callback-SameKinds b e =
      let f = b.ev_flags e in
      let b' = dequeue E b e in
      let before =
        by_if (SameKinds E b) (f.init && not ((b.events e).ev_events.ev_persist || f.finalizing))
          (λ del. del_nolock-SameKinds E b e false) λ stay. remove_active-SameKinds E b e in
      by_if (SameKinds E b) (is_persist (b.events e).ev_closure)
        (λ p.
          by_if (SameKinds E b) (is_set (b'.ev_io_timeout e))
            (λ on. SameKinds-trans E before (add_nolock-SameKinds b' e (some (run_at E b' e)) true))
            λ off. before)
        λ np. before
