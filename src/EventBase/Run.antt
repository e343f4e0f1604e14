-- ===== src/EventBase/Run.antt =====
-- What event_process_active_single_queue of event.c does before it calls a callback: it takes the event
-- off its queue, and event_persist_closure sets the timer of a persistent event anew.
use swift_event.Base.{ℕ, Bool, not, ◌&&◌, ◌||◌, ◌==◌, if◌then◌else◌, some, true, false, bit_and}
use swift_event.Base.Int.{pos, eqb_ℤ}
use swift_event.Time.{Timeval, timercmp_gt, timeradd}
use swift_event.EvMap.{Eventop}
use swift_event.EventBase.{EventBase, remove_active}
use swift_event.EventBase.Delete.{del_nolock}
use swift_event.EventBase.Insert.{is_persist, add_nolock}

-- `ev_io_timeout.tv_sec || ev_io_timeout.tv_usec`
abbrev pub is_set : Timeval → Bool
is_set t = not (eqb_ℤ t.tv_sec (pos 0)) || not (eqb_ℤ t.tv_usec (pos 0))

module _ (E : Eventop) where
  -- A persistent event stays inserted; a plain callback is only on its queue.
  unfoldable pub dequeue : EventBase E → ℕ → EventBase E
  dequeue b e =
      let f = b.ev_flags e in
      if f.init && not ((b.events e).ev_events.ev_persist || f.finalizing)
      then (del_nolock E b e false).1
      else remove_active E b e

  -- The interval is counted from the time that was due, and from now where that is missed.
  unfoldable pub run_at : EventBase E → ℕ → Timeval
  run_at b e =
      let delay = b.ev_io_timeout e in
      let relative_to = if bit_and (b.ev_res e) 1 == 0 then b.now else b.ev_timeout e in
      let first = timeradd relative_to delay in
      if timercmp_gt b.now first then timeradd b.now delay else first

  -- event_persist_closure, up to the call of the callback
  unfoldable pub persist_closure : EventBase E → ℕ → EventBase E
  persist_closure b e =
      if is_set (b.ev_io_timeout e) then (add_nolock E b e (some (run_at b e)) true).1 else b

  -- One round of event_process_active_single_queue, up to the call of the callback
  unfoldable pub start_callback : EventBase E → ℕ → EventBase E
  start_callback b e =
      let b' = dequeue b e in
      if is_persist (b.events e).ev_closure then persist_closure b' e else b'
