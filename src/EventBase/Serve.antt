-- ===== src/EventBase/Serve.antt =====
-- event_base_loop of event.c, event_haveevents, the calls that ask the loop to end, and the virtual
-- events that keep it running.
use swift_event.Base.{
  ℕ, zero, suc, Bool, true, false, not, ◌&&◌, ◌||◌, Option, none, some, if◌then◌else◌,
}
use swift_event.Base.Int.{ℤ, pos, negsuc, eqb_ℤ, ltb_ℤ, ◌+ℤ◌, ◌-ℤ◌}
use swift_event.Time.{Timeval}
use swift_event.EvMap.{Eventop}
use swift_event.EventBase.{EventBase, max_count, make_later_events_active}
use swift_event.EventBase.Delete.{timerclear}
use swift_event.EventBase.Loop.{timeout_next, timeout_process}
use swift_event.EventBase.Process.{process_active}

-- EVLOOP_ONCE, EVLOOP_NONBLOCK and EVLOOP_NO_EXIT_ON_EMPTY
pub record LoopFlags : Type 0 where
  pub once : Bool
  pub nonblock : Bool
  pub no_exit_on_empty : Bool

module _ (E : Eventop) where
  abbrev pub haveevents : EventBase E → Bool
  haveevents b = ltb_ℤ (pos 0) b.virtual_event_count || ltb_ℤ (pos 0) b.event_count

  -- N_ACTIVE_CALLBACKS
  abbrev pub has_active : EventBase E → Bool
  has_active b = not (eqb_ℤ b.event_count_active (pos 0))

  unfoldable pub add_virtual : EventBase E → EventBase E
  add_virtual b = record b {
    virtual_event_count = b.virtual_event_count +ℤ pos 1;
    virtual_event_count_max = max_count b.virtual_event_count_max (b.virtual_event_count +ℤ pos 1);
  }

  unfoldable pub del_virtual : EventBase E → EventBase E
  del_virtual b = record b { virtual_event_count = b.virtual_event_count -ℤ pos 1 }

  -- event_base_loopbreak, event_base_loopcontinue, and the callback of event_base_loopexit
  unfoldable pub loopbreak : EventBase E → EventBase E
  loopbreak b = record b { event_break = true }

  unfoldable pub loopcontinue : EventBase E → EventBase E
  loopcontinue b = record b { event_continue = true }

  unfoldable pub loopexit_cb : EventBase E → EventBase E
  loopexit_cb b = record b { event_gotterm = true }

  -- What a round does first
  abbrev pub reset : EventBase E → EventBase E
  reset b = record b { event_continue = false; n_deferreds_queued = 0 }

  -- How long the backend may wait; `none` is for as long as it takes.
  unfoldable pub wait_for : LoopFlags → EventBase E → Option Timeval
  wait_for flags b =
      if not (has_active b) && not flags.nonblock then timeout_next E b else some timerclear

  unfoldable pub nothing_to_do : LoopFlags → EventBase E → Bool
  nothing_to_do flags b = not flags.no_exit_on_empty && (not (haveevents b) && not (has_active b))

  -- What follows the active events of a round, of which `n` were processed
  abbrev pub after_active :
      LoopFlags
      → Option (ℤ × EventBase E)
      → (EventBase E → Option (ℤ × EventBase E))
      → Option (ℤ × EventBase E)
  after_active flags none next = none
  after_active flags (some (n, b)) next =
      if flags.once && (not (has_active b) && not (eqb_ℤ n (pos 0)))
      then some (pos 0, b)
      else next b

  abbrev pub stopped : Option (ℤ × EventBase E) → Option (ℤ × EventBase E)
  stopped none = none
  stopped (some (r, b)) = some (r, record b { running_loop = false })

  module _ (callback : ℕ → EventBase E → EventBase E) where
    -- A round from the return of the backend on. `rounds` is the fuel for each queue.
    unfoldable pub serve_active :
        LoopFlags
        → ℕ
        → EventBase E
        → (EventBase E → Option (ℤ × EventBase E))
        → Option (ℤ × EventBase E)
    serve_active flags rounds b next =
        if has_active b
        then after_active flags (process_active E callback rounds b) next
        else if flags.nonblock
        then some (pos 0, b)
        else next b

    abbrev pub serve_on :
        LoopFlags
        → ℕ
        → ℤ × EventBase E
        → (EventBase E → Option (ℤ × EventBase E))
        → Option (ℤ × EventBase E)
    serve_on flags rounds (res, b) next =
        if eqb_ℤ res (negsuc 0)
        then some (negsuc 0, b)
        else serve_active flags rounds (timeout_process E b) next

    -- `dispatch` is `evsel->dispatch`: its result comes with the base after it.
    module _ (dispatch : Option Timeval → EventBase E → ℤ × EventBase E) where
      -- The loop of event_base_loop. It runs on fuel; `none` is for no fuel left.
      unfoldable pub serve : LoopFlags → ℕ → ℕ → EventBase E → Option (ℤ × EventBase E)
      serve flags rounds zero b = none
      serve flags rounds (suc fuel) b =
          let b' = reset b in
          let next = serve flags rounds fuel in
          if b'.event_gotterm || b'.event_break
          then some (pos 0, b')
          else if nothing_to_do flags b'
          then some (pos 1, b')
          else serve_on flags rounds (dispatch (wait_for flags b') (make_later_events_active E b'))
              next

      unfoldable pub base_loop : LoopFlags → ℕ → ℕ → EventBase E → Option (ℤ × EventBase E)
      base_loop flags rounds fuel b =
          if b.running_loop
          then some (negsuc 0, b)
          else stopped (
              serve flags rounds fuel
                (record b { running_loop = true; event_gotterm = false; event_break = false }))
