-- ===== src/EventBase/Delete.antt =====
-- event_del_nolock_ and event_remove_timer_nolock_ of event.c, called from the thread of the loop.
use swift_event.Base.{ℕ, Bool, false, not, ◌&&◌, ◌==◌, if◌then◌else◌, update}
use swift_event.Base.Int.{ℤ, pos, eqb_ℤ}
use swift_event.Time.{Timeval}
use swift_event.Events.{wants_io}
use swift_event.EvMap.{Eventop, IoMap, io_del}
use swift_event.EvMap.Signals.{SigMap, sig_del}
use swift_event.EventBase.{
  EventBase, remove_inserted, remove_active, remove_active_later, remove_timeout,
}

-- `if (res == 1) res = 0;`
abbrev pub settle : ℤ → ℤ
settle r = if eqb_ℤ r (pos 1) then pos 0 else r

-- evutil_timerclear
abbrev pub timerclear : Timeval
timerclear = record { tv_sec = pos 0; tv_usec = pos 0 }

module _ (E : Eventop) where
  -- `evutil_timerclear(&ev->ev_.ev_io.ev_timeout)`. The bytes of ev_io_timeout are those of ev_ncalls
  -- and ev_pncalls, which an event on a signal keeps there.
  unfoldable pub clear_io_timeout : EventBase E → ℕ → EventBase E
  clear_io_timeout b e =
      if (b.events e).ev_events.ev_signal
      then record b { ev_ncalls = update b.ev_ncalls e 0; ev_pncalls = update b.ev_pncalls e false }
      else record b { ev_io_timeout = update b.ev_io_timeout e timerclear }

  -- event_remove_timer_nolock_
  unfoldable pub remove_timer_nolock : EventBase E → ℕ → ℤ × EventBase E
  remove_timer_nolock b e =
      (pos 0, if (b.ev_flags e).timeout then clear_io_timeout (remove_timeout E b e) e else b)

  -- Abort the loop that runs the callback of a signal: `*ev->ev_pncalls = 0`
  unfoldable pub abort_loop : EventBase E → ℕ → EventBase E
  abort_loop b e =
      if (b.events e).ev_events.ev_signal && (not (b.ev_ncalls e == 0) && b.ev_pncalls e)
      then record b { ncalls = update b.ncalls e 0 }
      else b

  unfoldable pub take_timeout : EventBase E → ℕ → EventBase E
  take_timeout b e = if (b.ev_flags e).timeout then remove_timeout E b e else b

  unfoldable pub take_active : EventBase E → ℕ → EventBase E
  take_active b e =
      if (b.ev_flags e).active
      then remove_active E b e
      else if (b.ev_flags e).active_later
      then remove_active_later E b e
      else b

  abbrev pub with_io : EventBase E → ℤ × IoMap E → ℤ × EventBase E
  with_io b (r, m) = (r, record b { io = m })

  abbrev pub with_sig : EventBase E → ℤ × SigMap → ℤ × EventBase E
  with_sig b (r, m) = (r, record b { sigmap = m })

  -- Both are the evmap's deletion: the code looks at the kind of event.
  unfoldable pub evmap_del : EventBase E → ℕ → ℤ × EventBase E
  evmap_del b e =
      let ev = b.events e in
      if wants_io ev.ev_events
      then with_io b (io_del E b.io ev.ev_fd e ev.ev_events)
      else with_sig b (sig_del b.sigmap ev.ev_fd e)

  unfoldable pub take_inserted : EventBase E → ℕ → ℤ × EventBase E
  take_inserted b e =
      let (r, b') = evmap_del (remove_inserted E b e) e in
      if (b.ev_flags e).inserted then (settle r, b') else (pos 0, b)

  -- event_del_nolock_; `even_if_finalizing` is `blocking == EVENT_DEL_EVEN_IF_FINALIZING`.
  unfoldable pub del_nolock : EventBase E → ℕ → Bool → ℤ × EventBase E
  del_nolock b e even_if_finalizing =
      if not even_if_finalizing && (b.ev_flags e).finalizing
      then (pos 0, b)
      else take_inserted (take_active (take_timeout (abort_loop b e) e) e) e
