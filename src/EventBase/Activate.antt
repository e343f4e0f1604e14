-- ===== src/EventBase/Activate.antt =====
-- How event.c makes an event or a callback active: event_active_nolock_, event_active_later_nolock_,
-- event_callback_activate_nolock_ and the functions of deferred callbacks.
use swift_event.Base.{
  ℕ, suc, Bool, true, false, not, ◌&&◌, ◌||◌, ltb, if◌then◌else◌, update, bit_or,
}
use swift_event.Base.Int.{ℤ, pos, ltb_ℤ, eqb_ℤ}
use swift_event.EvMap.{Eventop}
use swift_event.EventBase.{
  EventBase, remove_active, insert_active, remove_active_later, insert_active_later,
}
use swift_event.EventBase.Delete.{del_nolock}

module _ (E : Eventop) where
  -- event_callback_activate_nolock_. With both flags the assertion ends the program; here it falls
  -- through, as the code does without assertions.
  unfoldable pub callback_activate_nolock : EventBase E → ℕ → ℤ × EventBase E
  callback_activate_nolock b e =
      let f = b.ev_flags e in
      if f.finalizing
      then (pos 0, b)
      else if f.active_later
      then (pos 0, insert_active E (remove_active_later E b e) e)
      else if f.active
      then (pos 0, b)
      else (pos 1, insert_active E b e)

  -- event_callback_activate_later_nolock_
  unfoldable pub callback_activate_later_nolock : EventBase E → ℕ → ℤ × EventBase E
  callback_activate_later_nolock b e =
      let f = b.ev_flags e in
      if f.active || f.active_later then (pos 0, b) else (pos 1, insert_active_later E b e)

  -- event_callback_cancel_nolock_, for events and for plain callbacks
  unfoldable pub callback_cancel_nolock : EventBase E → ℕ → Bool → ℤ × EventBase E
  callback_cancel_nolock b e even_if_finalizing =
      let f = b.ev_flags e in
      if f.finalizing && not even_if_finalizing
      then (pos 0, b)
      else if f.init
      then del_nolock E b e even_if_finalizing
      else if f.active
      then (pos 0, remove_active E b e)
      else (pos 0, if f.active_later then remove_active_later E b e else b)

  abbrev set_res : EventBase E → ℕ → ℕ → EventBase E
  set_res b e res = record b { ev_res = update b.ev_res e res }

  -- `if (ev->ev_pri < base->event_running_priority) base->event_continue = 1;`
  unfoldable pub continue_if_urgent : EventBase E → ℕ → EventBase E
  continue_if_urgent b e = record b {
    event_continue =
        if ltb_ℤ (pos (b.events e).ev_pri) b.event_running_priority then true else b.event_continue;
  }

  unfoldable pub set_ncalls : EventBase E → ℕ → ℕ → EventBase E
  set_ncalls b e ncalls =
      if (b.events e).ev_events.ev_signal
      then record b {
        ev_ncalls = update b.ev_ncalls e ncalls;
        ev_pncalls = update b.ev_pncalls e false;
      }
      else b

  -- event_active_nolock_
  unfoldable pub active_nolock : EventBase E → ℕ → ℕ → ℕ → EventBase E
  active_nolock b e res ncalls =
      let f = b.ev_flags e in
      let more = bit_or (b.ev_res e) res in
      if f.finalizing
      then b
      else if f.active
      then set_res b e more
      else (callback_activate_nolock
          (set_ncalls (continue_if_urgent (set_res b e (if f.active_later then more else res)) e) e
            ncalls)
          e).1

  -- event_active_later_nolock_
  unfoldable pub active_later_nolock : EventBase E → ℕ → ℕ → EventBase E
  active_later_nolock b e res =
      let f = b.ev_flags e in
      if f.active || f.active_later
      then set_res b e (bit_or (b.ev_res e) res)
      else (callback_activate_later_nolock (set_res b e res) e).1

  abbrev count_deferred : ℤ × EventBase E → ℤ × EventBase E
  count_deferred (r, b) =
      (r, if eqb_ℤ r (pos 0) then b else record b { n_deferreds_queued = suc b.n_deferreds_queued })

  -- event_deferred_cb_schedule_; MAX_DEFERREDS_QUEUED is 32.
  unfoldable pub deferred_cb_schedule : EventBase E → ℕ → ℤ × EventBase E
  deferred_cb_schedule b e =
      if ltb 32 b.n_deferreds_queued
      then callback_activate_later_nolock b e
      else count_deferred (callback_activate_nolock b e)
