-- ===== src/EventBase/Insert.antt =====
-- event_add_nolock_ of event.c, called from the thread of the loop, and with no common timeouts.
use swift_event.Base.{
  ℕ, ◌+◌, Bool, true, false, not, ◌&&◌, ◌||◌, Option, none, some, ◌==◌, if◌then◌else◌, update,
  bit_and,
}
use swift_event.Base.Int.{ℤ, pos, negsuc, eqb_ℤ}
use swift_event.Time.{Timeval, timeradd}
use swift_event.MinHeap
use swift_event.MinHeap.{MinHeap, u32}
use swift_event.Events.{Closure, persist, wants_io}
use swift_event.EvMap.{Eventop, io_add}
use swift_event.EvMap.Signals.{sig_add}
use swift_event.EventBase.{EventBase, insert_inserted, remove_active, insert_timeout}
use swift_event.EventBase.Delete.{settle, with_io, with_sig, take_timeout, abort_loop}

abbrev pub is_persist : Closure → Bool
is_persist persist = true
is_persist _ = false

module _ (E : Eventop) where
  abbrev pub with_heap : EventBase E → ℤ × MinHeap → Bool × EventBase E
  with_heap b (r, s) = (not (eqb_ℤ r (negsuc 0)), record b { timeheap = s })

  -- Room for the timeout; the flag tells whether to go on.
  unfoldable pub reserve_timeout : EventBase E → ℕ → Option Timeval → Bool × EventBase E
  reserve_timeout b e none = (true, b)
  reserve_timeout b e (some tv) =
      if (b.ev_flags e).timeout
      then (true, b)
      else with_heap b (MinHeap.reserve b.io.memory b.timeheap (u32 (1 + MinHeap.size b.timeheap)))

  -- The evmap's addition, by the kind of event
  unfoldable pub evmap_add : EventBase E → ℕ → ℤ × EventBase E
  evmap_add b e =
      let ev = b.events e in
      if wants_io ev.ev_events
      then with_io E b (io_add E b.io ev.ev_fd e ev.ev_events)
      else with_sig E b (sig_add b.sigmap ev.ev_fd e)

  -- `if (res != -1) event_queue_insert_inserted(base, ev);`
  abbrev pub note_inserted : ℕ → ℤ × EventBase E → ℤ × EventBase E
  note_inserted e (r, b) = if eqb_ℤ r (negsuc 0) then (r, b) else (settle r, insert_inserted E b e)

  unfoldable pub put_inserted : EventBase E → ℕ → ℤ × EventBase E
  put_inserted b e =
      let ev = (b.events e).ev_events in
      let f = b.ev_flags e in
      if (wants_io ev || ev.ev_signal) && not (f.inserted || (f.active || f.active_later))
      then note_inserted e (evmap_add b e)
      else (pos 0, b)

  -- An event that is active because of its timeout is not active any more. EV_TIMEOUT is 1.
  unfoldable pub take_fired : EventBase E → ℕ → EventBase E
  take_fired b e =
      if (b.ev_flags e).active && not (bit_and (b.ev_res e) 1 == 0)
      then remove_active E (abort_loop E b e) e
      else b

  unfoldable pub remember_timeout : EventBase E → ℕ → Timeval → Bool → EventBase E
  remember_timeout b e tv tv_is_absolute =
      if is_persist (b.events e).ev_closure && not tv_is_absolute
      then record b { ev_io_timeout = update b.ev_io_timeout e tv }
      else b

  unfoldable pub set_timeout : EventBase E → ℕ → Timeval → Bool → EventBase E
  set_timeout b e tv tv_is_absolute = record b {
    ev_timeout = update b.ev_timeout e (if tv_is_absolute then tv else timeradd b.now tv);
  }

  unfoldable pub put_timeout : EventBase E → ℕ → Timeval → Bool → EventBase E
  put_timeout b e tv tv_is_absolute =
      let b' = take_fired (take_timeout E (remember_timeout b e tv tv_is_absolute) e) e in
      insert_timeout E (set_timeout b' e tv tv_is_absolute) e

  abbrev pub put_timeout_after : ℕ → Option Timeval → Bool → ℤ × EventBase E → ℤ × EventBase E
  put_timeout_after e none tv_is_absolute (r, b) = (r, b)
  put_timeout_after e (some tv) tv_is_absolute (r, b) =
      (r, if eqb_ℤ r (negsuc 0) then b else put_timeout b e tv tv_is_absolute)

  abbrev pub add_reserved : ℕ → Option Timeval → Bool → Bool × EventBase E → ℤ × EventBase E
  add_reserved e tv tv_is_absolute (false, b) = (negsuc 0, b)
  add_reserved e tv tv_is_absolute (true, b) =
      put_timeout_after e tv tv_is_absolute (put_inserted b e)

  -- event_add_nolock_
  unfoldable pub add_nolock : EventBase E → ℕ → Option Timeval → Bool → ℤ × EventBase E
  add_nolock b e tv tv_is_absolute =
      if (b.ev_flags e).finalizing
      then (negsuc 0, b)
      else add_reserved e tv tv_is_absolute (reserve_timeout b e tv)
