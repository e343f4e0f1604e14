-- ===== src/EventBase/Process.antt =====
-- The callbacks of the active events, in event.c: event_signal_closure,
-- event_process_active_single_queue and event_process_active.
use swift_event.Base.{
  is_empty, ℕ, zero, suc, ◌+◌, Bool, true, false, not, ◌&&◌, List, [], ◌∷◌, Option, none, some, ltb,
  leb, ◌==◌, if◌then◌else◌, update, to_ℕ,
}
use swift_event.Base.Int.{ℤ, pos, negsuc, eqb_ℤ, ltb_ℤ}
use swift_event.Time.{Timeval, timercmp_gt, timeradd}
use swift_event.Events.{Closure, signal}
use swift_event.EvMap.{Eventop}
use swift_event.EventBase.{EventBase}
use swift_event.EventBase.Run.{start_callback}

abbrev pub is_signal : Closure → Bool
is_signal signal = true
is_signal _ = false

-- `endtime && evutil_timercmp(&now, endtime, >=)`
abbrev pub is_late : Option Timeval → Timeval → Bool
is_late none now = false
is_late (some endtime) now = not (timercmp_gt endtime now)

module _ (E : Eventop) where
  -- What is written before the loop: `ev->ev_pncalls = &ncalls`, unless there are no calls
  abbrev pub point_to_calls : EventBase E → ℕ → EventBase E
  point_to_calls b e =
      if b.ev_ncalls e == 0 then b else record b { ev_pncalls = update b.ev_pncalls e true }

  -- What is written before one call of the callback of a signal, with `left` calls left
  abbrev pub note_calls : EventBase E → ℕ → ℕ → EventBase E
  note_calls b e left = record b {
    ncalls = update b.ncalls e left;
    ev_ncalls = update b.ev_ncalls e left;
    ev_pncalls = if left == 0 then update b.ev_pncalls e false else b.ev_pncalls;
  }

  -- On a break the pointer to the variable of the loop is cleared, where calls are left.
  abbrev pub leave_calls : EventBase E → ℕ → EventBase E
  leave_calls b e =
      if b.ncalls e == 0 then b else record b { ev_pncalls = update b.ev_pncalls e false }

  -- `base->max_dispatch_time` from now on, if it is set
  abbrev pub end_time : EventBase E → Option Timeval
  end_time b =
      if ltb_ℤ b.max_dispatch_time.tv_sec (pos 0)
      then none
      else some (timeradd b.max_dispatch_time b.now)

  -- A count, unless the loop is to end
  abbrev pub go_on :
      Option (ℤ × EventBase E) → (EventBase E → Option (ℤ × EventBase E)) → Option (ℤ × EventBase E)
  go_on none next = none
  go_on (some (c, b)) next = if eqb_ℤ c (pos 0) then next b else some (c, b)

  abbrev pub at_rest : Option (ℤ × EventBase E) → Option (ℤ × EventBase E)
  at_rest none = none
  at_rest (some (c, b)) = some (c, record b { event_running_priority = negsuc 0 })

  -- `callback e b` is the base after the callback of `e` was called with the base `b`.
  module _ (callback : ℕ → EventBase E → EventBase E) where
    -- The loop of event_signal_closure. While a callback runs, the variable `ncalls` may be set to 0,
    -- and to nothing else, by what event_del writes through ev_pncalls.
    unfoldable pub signal_calls : ℕ → EventBase E → ℕ → EventBase E
    signal_calls zero b e = b
    signal_calls (suc left) b e =
        let b' = callback e (note_calls b e left) in
        let rest = signal_calls left b' e in
        if b'.event_break then leave_calls b' e else if b'.ncalls e == 0 then b' else rest

    unfoldable pub signal_closure : EventBase E → ℕ → EventBase E
    signal_closure b e = signal_calls (b.ev_ncalls e) (point_to_calls b e) e

    -- One round of event_process_active_single_queue
    unfoldable pub process_one : EventBase E → ℕ → EventBase E
    process_one b e =
        let b' = start_callback E b e in
        if is_signal (b.events e).ev_closure then signal_closure b' e else callback e b'

    -- event_process_active_single_queue for the queue of priority `p`, whose events are given, after
    -- `count` callbacks. It runs on fuel; `none` is for no fuel left.
    unfoldable pub process_queue :
        ℕ → EventBase E → ℕ → List ℕ → ℕ → ℕ → Option Timeval → Option (ℤ × EventBase E)
    process_queue fuel b p [] count max_to_process endtime = some (pos count, b)
    process_queue zero b p (e ∷ es) count max_to_process endtime = none
    process_queue (suc fuel) b p (e ∷ es) count max_to_process endtime =
        let n = count + to_ℕ (not (b.ev_flags e).internal) in
        let b' = process_one b e in
        let rest = process_queue fuel b' p (b'.activequeues p) n max_to_process endtime in
        if b'.event_break
        then some (negsuc 0, b')
        else if leb max_to_process n
        then some (pos n, b')
        else if not (n == 0) && is_late endtime b'.now
        then some (pos n, b')
        else if b'.event_continue
        then some (pos n, b')
        else rest

    -- The queue of priority `i`, with the limits that apply to it; INT_MAX is 2 ^ 31 - 1.
    abbrev pub process_priority :
        ℕ → EventBase E → ℕ → ℕ → ℕ → Option Timeval → Option (ℤ × EventBase E)
    process_priority fuel b i maxcb limit_after_prio endtime =
        let b' = record b { event_running_priority = pos i } in
        if ltb i limit_after_prio
        then process_queue fuel b' i (b.activequeues i) 0 2147483647 none
        else process_queue fuel b' i (b.activequeues i) 0 maxcb endtime

    -- The loop of event_process_active from the priority `i` on
    unfoldable pub process_from :
        ℕ → ℕ → ℕ → ℕ → ℕ → Option Timeval → EventBase E → Option (ℤ × EventBase E)
    process_from zero fuel i maxcb limit_after_prio endtime b = none
    process_from (suc k) fuel i maxcb limit_after_prio endtime b =
        let next = process_from k fuel (suc i) maxcb limit_after_prio endtime in
        if not (ltb i b.nactivequeues)
        then some (pos 0, b)
        else if is_empty (b.activequeues i)
        then next b
        else go_on (process_priority fuel b i maxcb limit_after_prio endtime) next

    -- event_process_active; 256 is EVENT_MAX_PRIORITIES.
    unfoldable pub process_active : ℕ → EventBase E → Option (ℤ × EventBase E)
    process_active fuel b = at_rest (
        process_from 256 fuel 0 b.max_dispatch_callbacks b.limit_callbacks_after_prio (end_time b)
          b)
