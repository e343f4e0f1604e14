-- ===== src/EventBase/Breaks.antt =====
-- How event_base_loopbreak ends event_base_loop of event.c.
use swift_event.Base.{
  ℕ, suc, ◌<◌, ◌≡◌, refl, ap, ◌∙◌, true, false, not, ◌&&◌, ◌||◌, Option, none, some, List, [], ◌∷◌,
  ltb, is_empty, sym, if_true, if_false, if◌then◌else◌, by_if, arith,
}
use swift_event.Base.Int.{ℤ, pos, negsuc, eqb_ℤ}
use swift_event.Time.{Timeval}
use swift_event.EvMap.{Eventop}
use swift_event.EventBase.{EventBase, make_later_events_active}
use swift_event.EventBase.Loop.{timeout_process}
use swift_event.EventBase.Process.{
  end_time, process_one, process_queue, process_priority, process_active,
}
use swift_event.EventBase.Priorities.{process_active-first}
use swift_event.EventBase.Serve.{
  LoopFlags, has_active, reset, wait_for, nothing_to_do, after_active, stopped, serve_active, serve,
  base_loop,
}

module _ (E : Eventop) where
  -- The base that event_base_loop begins with
  abbrev pub begun : EventBase E → EventBase E
  begun b = reset E (record b { running_loop = true; event_gotterm = false; event_break = false })

  -- The base that the loop ends with
  abbrev pub left : LoopFlags → EventBase E → EventBase E
  left flags b = if flags.once && not (has_active E b) then b else reset E b

  module _ (dispatch : Option Timeval → EventBase E → ℤ × EventBase E) where
    abbrev pub dispatched : LoopFlags → EventBase E → ℤ × EventBase E
    dispatched flags b =
        dispatch (wait_for E flags (begun b)) (make_later_events_active E (begun b))

    -- The base that event_process_active begins with, in the first round of the loop
    abbrev pub woken : LoopFlags → EventBase E → EventBase E
    woken flags b = timeout_process E (dispatched flags b).1

module _ (E : Eventop) (callback : ℕ → EventBase E → EventBase E) where
  -- The base after the callback of `e` has run with priority `p`
  abbrev pub called : EventBase E → ℕ → ℕ → EventBase E
  called b p e = process_one E callback (record b { event_running_priority = pos p }) e

  queue_breaks :
      (rounds : ℕ) (b : EventBase E) (p e m : ℕ) (es : List ℕ) (endtime : Option Timeval)
      → b.activequeues p ≡ e ∷ es
      → (called b p e).event_break ≡ true
      → process_queue E callback
          (suc rounds)
          (record b { event_running_priority = pos p })
          p
          (b.activequeues p)
          0
          m
          endtime
        ≡ some (negsuc 0, called b p e)
  unfolding process_queue
  queue_breaks rounds b p e m es endtime at broke = rw at (rw broke refl)

  priority_breaks :
      (rounds : ℕ) (b : EventBase E) (p e m limit : ℕ) (es : List ℕ) (endtime : Option Timeval)
      → b.activequeues p ≡ e ∷ es
      → (called b p e).event_break ≡ true
      → process_priority E callback (suc rounds) b p m limit endtime ≡ some (negsuc 0, called b p e)
  priority_breaks rounds b p e m limit es endtime at broke =
      by_if (λ o. o ≡ some (negsuc 0, called b p e)) (ltb p limit)
        (λ free. queue_breaks rounds b p e 2147483647 es none at broke)
        λ limited. queue_breaks rounds b p e m es endtime at broke

  -- A callback that asks for a break is the last one that event_process_active calls.
  active_breaks :
      (rounds : ℕ) (b : EventBase E) (p e : ℕ) (es : List ℕ)
      → p < b.nactivequeues
      → p < 256
      → ((q : ℕ) → q < p → b.activequeues q ≡ [])
      → b.activequeues p ≡ e ∷ es
      → (called b p e).event_break ≡ true
      → process_active E callback (suc rounds) b
        ≡ some (negsuc 0, record (called b p e) { event_running_priority = negsuc 0 })
  active_breaks rounds b p e es lt few blank at broke =
      process_active-first E callback (suc rounds) b p (negsuc 0) (called b p e) lt few blank
        (ap is_empty at)
        (priority_breaks rounds b p e b.max_dispatch_callbacks b.limit_callbacks_after_prio es
          (end_time E b) at broke)
        refl

  module _ (dispatch : Option Timeval → EventBase E → ℤ × EventBase E) where
    after_breaks :
        (flags : LoopFlags) (rounds fuel : ℕ) (b : EventBase E)
        → b.event_break ≡ true
        → after_active E flags
            (some (negsuc 0, b))
            (serve E callback dispatch flags rounds (suc fuel))
          ≡ some (pos 0, left E flags b)
    unfolding serve
    after_breaks flags rounds fuel b broke =
        let ends : b.event_gotterm || b.event_break ≡ true = ground (arith, broke) in
        by_if (λ o. o ≡ some (pos 0, left E flags b)) (flags.once && (not (has_active E b) && true))
          (λ last. ap (λ b'. some (pos 0, b')) (sym (if_true b (reset E b) (ground (arith, last)))))
          λ on.
            rw ends
              (ap (λ b'. some (pos 0, b')) (sym (if_false b (reset E b) (ground (arith, on)))))

    -- A round of the loop that comes to the active events
    serve_round :
        (flags : LoopFlags) (rounds fuel : ℕ) (s : EventBase E)
        → s.event_gotterm || s.event_break ≡ false
        → nothing_to_do E flags (reset E s) ≡ false
        → let r =
            dispatch (wait_for E flags (reset E s)) (make_later_events_active E (reset E s)) in
          eqb_ℤ r.0 (negsuc 0) ≡ false
          → serve E callback dispatch flags rounds (suc fuel) s
            ≡ serve_active E callback flags rounds
                (timeout_process E r.1)
                (serve E callback dispatch flags rounds fuel)
    unfolding serve
    serve_round flags rounds fuel s going busy works =
        if_false _ _ going ∙ if_false _ _ busy ∙ if_false _ _ works

    serve_active-after_active :
        (flags : LoopFlags) (rounds : ℕ) (w : EventBase E) (o : Option (ℤ × EventBase E))
        (next : EventBase E → Option (ℤ × EventBase E))
        → has_active E w ≡ true
        → process_active E callback rounds w ≡ o
        → serve_active E callback flags rounds w next ≡ after_active E flags o next
    unfolding serve_active
    serve_active-after_active flags rounds w o next some_active ran =
        if_true _ _ some_active ∙ ap (λ q. after_active E flags q next) ran

    -- event_base_loop, called while the loop does not run, with something to do, where the backend does
    -- not fail: if in the first round some event is active, and event_break is set after the callback
    -- of the first one (the head of the first queue that is not empty, among the first 256), then the
    -- loop ends with 0. No other event's callback runs, and the base that is left is the one after that
    -- callback, with no priority and no loop running, and with event_continue and n_deferreds_queued
    -- reset (unless EVLOOP_ONCE has ended the loop before that).
    pub base_loop_breaks :
        (flags : LoopFlags) (rounds fuel : ℕ) (b : EventBase E) (p e : ℕ) (es : List ℕ)
        → b.running_loop ≡ false
        → nothing_to_do E flags (begun E b) ≡ false
        → eqb_ℤ (dispatched E dispatch flags b).0 (negsuc 0) ≡ false
        → let w = woken E dispatch flags b in
          has_active E w ≡ true
          → p < w.nactivequeues
          → p < 256
          → ((q : ℕ) → q < p → w.activequeues q ≡ [])
          → w.activequeues p ≡ e ∷ es
          → (called w p e).event_break ≡ true
          → base_loop E callback dispatch flags (suc rounds) (suc (suc fuel)) b
            ≡ some (
              pos 0,
              record (left E flags (record (called w p e) { event_running_priority = negsuc 0 })) {
                running_loop = false;
              },
            )
    unfolding base_loop
    base_loop_breaks flags rounds fuel b p e es free busy works some_active lt few blank at broke =
        let w = woken E dispatch flags b in
        let b' = record (called w p e) { event_running_priority = negsuc 0 } in
        let next = serve E callback dispatch flags (suc rounds) (suc fuel) in
        let start = record b { running_loop = true; event_gotterm = false; event_break = false } in
        if_false _ _ free
        ∙ ap (stopped E) (
            serve_round flags (suc rounds) (suc fuel) start refl busy works
            ∙ serve_active-after_active flags (suc rounds) w (some (negsuc 0, b')) next some_active
                (active_breaks rounds w p e es lt few blank at broke)
            ∙ after_breaks flags (suc rounds) fuel b' broke)
