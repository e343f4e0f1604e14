-- ===== src/EventBase/ServeTests.antt =====
-- The loops of event.c on small event bases.
use swift_event.Base.{
  ℕ, ap, ltb, is_empty, if_true, ◌∙◌, ◌≡◌, inl, inr, refl, sym, subst, true, false, Option, none,
  some, [], ◌∷◌, Bool-cases, arith,
}
use swift_event.Base.Int.{ℤ, pos, negsuc, ◌+ℤ◌}
use swift_event.Time.{Timeval, timeradd}
use swift_event.MinHeap
use swift_event.EvMap.FdSets.{fd_sets}
use swift_event.Events.{signal}
use swift_event.EventBase.{
  EventBase, remove_active_later, insert_active, make_later_events_active, make_later_active_on,
}
use swift_event.EventBase.Loop.{timeout_process}
use swift_event.EventBase.Delete.{del_nolock, abort_loop, take_timeout, take_active, take_inserted}
use swift_event.EventBase.Activate.{
  active_nolock, callback_activate_nolock, set_ncalls, continue_if_urgent,
}
use swift_event.EventBase.Process.{
  end_time, signal_closure, signal_calls, process_one, process_queue, process_priority,
  process_active,
}
use swift_event.EventBase.Serve.{LoopFlags, has_active, nothing_to_do, serve, base_loop}
use swift_event.EventBase.Taken.{IsReady}
use swift_event.EventBase.Deleted.{del_nolock-Step}
use swift_event.EventBase.Reach.{fresh, activates, final-del, Reachable-IsReady}
use swift_event.EventBase.Processed.{Processed, process_queue-Processed}
use swift_event.EventBase.Priorities.{process_active-IsReady, process_active-first}
use swift_event.EventBase.Served.{Served}
use swift_event.EventBase.Breaks.{called, begun, woken, left, base_loop_breaks}
use swift_event.EventBase.ProcessEnds.{IsPlain, Ends, process_active-Ends}
use swift_event.EventBase.Samples.{at_time, reader, new_base, new_base-IsFresh}

-- Event 1 is active.
abbrev woken_base : EventBase fd_sets
woken_base = active_nolock fd_sets new_base 1 2 1

woken-IsReady : IsReady fd_sets 4 woken_base
woken-IsReady =
    Reachable-IsReady fd_sets 4 woken_base (activates 1 2 1 (fresh new_base-IsFresh) (omega arith))

woken_queue : woken_base.activequeues 0 ≡ 1 ∷ []
unfolding active_nolock callback_activate_nolock insert_active set_ncalls continue_if_urgent
    remove_active_later
woken_queue = refl

-- Its callback deletes event 1 and asks the loop to end.
abbrev quit : ℕ → EventBase fd_sets → EventBase fd_sets
quit e b = record (del_nolock fd_sets b 1 false).1 { event_break = true }

quit-IsReady : (e : ℕ) (b : EventBase fd_sets) → IsReady fd_sets 4 b → IsReady fd_sets 4 (quit e b)
quit-IsReady e b v =
    let deleted : IsReady fd_sets 4 (del_nolock fd_sets b 1 false).1 =
      elim (Bool-cases (b.ev_flags 1).finalizing) [
        | inl final ↦ subst (IsReady fd_sets 4) (sym (final-del fd_sets 4 b 1 final)) v
        | inr alive ↦
            (del_nolock-Step fd_sets 4 b 1 false v (omega arith) (ground (arith, alive))).0.ready
      ] in
    record { queued = deleted.queued; timed = deleted.timed }

abbrev quiet : Option Timeval → EventBase fd_sets → ℤ × EventBase fd_sets
quiet tv b = (pos 0, b)

abbrev all_events : LoopFlags
all_events = record { once = false; nonblock = false; no_exit_on_empty = false }

woken_fields :
    (woken_base.events ≡ reader)
    × (woken_base.nactivequeues ≡ 1)
    × (woken_base.max_dispatch_time.tv_sec ≡ negsuc 0)
    × (woken_base.limit_callbacks_after_prio ≡ 2147483647)
    × (woken_base.max_dispatch_callbacks ≡ 2147483647)
    × (woken_base.running_loop ≡ false)
unfolding active_nolock callback_activate_nolock insert_active set_ncalls continue_if_urgent
    remove_active_later
woken_fields = (refl, refl, refl, refl, refl, refl)

-- What is left of the base after the callback of event 1
abbrev after : EventBase fd_sets → EventBase fd_sets
after b = process_one fd_sets quit b 1

asks_to_end : (b : EventBase fd_sets) → b.events ≡ reader → (after b).event_break ≡ true
unfolding process_one
asks_to_end b at = rw at refl

-- The callback of event 1 runs, and the loop over its queue ends with -1.
one_round :
    (b : EventBase fd_sets) (m : ℕ) (endtime : Option Timeval)
    → b.events ≡ reader
    → b.activequeues 0 ≡ 1 ∷ []
    → process_queue fd_sets quit 5 b 0 (b.activequeues 0) 0 m endtime ≡ some (negsuc 0, after b)
unfolding process_queue
one_round b m endtime at queue = rw queue (rw (asks_to_end b at) refl)

process_queue-Processed_example :
    Processed fd_sets 4 quit 0 3 none 0 woken_base (negsuc 0, after woken_base)
process_queue-Processed_example =
    process_queue-Processed fd_sets 4 (omega arith) quit quit-IsReady 5 woken_base 0 3 none
      (negsuc 0, after woken_base) woken-IsReady
      (one_round woken_base 3 none woken_fields.0 woken_queue)

-- The only priority is processed.
abbrev first_base : EventBase fd_sets
first_base = record woken_base { event_running_priority = pos 0 }

first_round :
    process_priority fd_sets quit 5 woken_base 0 woken_base.max_dispatch_callbacks
      woken_base.limit_callbacks_after_prio
      (end_time fd_sets woken_base)
    ≡ some (negsuc 0, after first_base)
first_round =
    let free : ltb 0 woken_base.limit_callbacks_after_prio ≡ true =
      ground (arith, woken_fields.3) in
    if_true
      (process_queue fd_sets quit 5 first_base 0 (first_base.activequeues 0) 0 2147483647 none) _
      free
    ∙ one_round first_base 2147483647 none woken_fields.0 woken_queue

process_active-first_example :
    process_active fd_sets quit 5 woken_base
    ≡ some (negsuc 0, record (after first_base) { event_running_priority = negsuc 0 })
process_active-first_example =
    process_active-first fd_sets quit 5 woken_base 0 (negsuc 0) (after first_base)
      (omega (arith, woken_fields.1)) (omega arith) (λ p less. absurd (omega (arith, less)))
      (ap is_empty woken_queue) first_round refl

nothing_runs :
    let b' = record (after first_base) { event_running_priority = negsuc 0 } in
    IsReady fd_sets 4 b' × (b'.event_running_priority ≡ negsuc 0)
nothing_runs =
    process_active-IsReady fd_sets 4 (omega arith) quit quit-IsReady 5 woken_base
      (negsuc 0, record (after first_base) { event_running_priority = negsuc 0 }) woken-IsReady
      process_active-first_example

-- Each callback takes a second, and a plain one makes nothing internal.
abbrev takes_second : ℕ → EventBase fd_sets → EventBase fd_sets
takes_second e b = record b { now = timeradd b.now (at_time 1) }

woken-IsPlain : IsPlain fd_sets woken_base
unfolding active_nolock callback_activate_nolock insert_active set_ncalls continue_if_urgent
    remove_active_later
woken-IsPlain = record { counted = λ x. ground arith; few = omega (arith, woken_fields.1) }

process_active-Ends_example :
    Ends fd_sets (process_active fd_sets takes_second 2147483647 woken_base)
process_active-Ends_example =
    process_active-Ends fd_sets takes_second (λ e b v. record { counted = v.counted; few = v.few })
      2147483647 woken_base woken-IsPlain (omega (arith, woken_fields.4)) (omega arith)

-- A loop without events ends with 1.
abbrev reset_base : EventBase fd_sets
reset_base = record new_base { n_deferreds_queued = 0 }

empty_loop : base_loop fd_sets quit quiet all_events 5 5 new_base ≡ some (pos 1, reset_base)
unfolding base_loop serve nothing_to_do
empty_loop = refl

-- The loop finds event 1 active, and its callback asks for the end.
abbrev begun_base : EventBase fd_sets
begun_base = woken fd_sets quiet all_events woken_base

begun_fields :
    (has_active fd_sets begun_base ≡ true)
    × (begun_base.nactivequeues ≡ 1)
    × (begun_base.activequeues 0 ≡ 1 ∷ [])
    × (begun_base.events ≡ reader)
    × (nothing_to_do fd_sets all_events (begun fd_sets woken_base) ≡ false)
unfolding active_nolock callback_activate_nolock insert_active set_ncalls continue_if_urgent
    remove_active_later ◌+ℤ◌ nothing_to_do timeout_process make_later_events_active
    make_later_active_on MinHeap.empty MinHeap.ctor
begun_fields = (refl, refl, refl, refl, refl)

abbrev left_base : EventBase fd_sets
left_base =
    record (left fd_sets all_events
      (record (called fd_sets quit begun_base 0 1) { event_running_priority = negsuc 0 })) {
        running_loop = false;
      }

base_loop_breaks_example :
    base_loop fd_sets quit quiet all_events 5 5 woken_base ≡ some (pos 0, left_base)
base_loop_breaks_example =
    base_loop_breaks fd_sets quit quiet all_events 4 3 woken_base 0 1 [] woken_fields.5
      begun_fields.4 refl begun_fields.0 (omega (arith, begun_fields.1)) (omega arith)
      (λ q less. absurd (omega (arith, less))) begun_fields.2
      (asks_to_end (record begun_base { event_running_priority = pos 0 }) begun_fields.3)

-- Event 1 is a signal that came twice, and its first callback deletes it.
abbrev signal_base : EventBase fd_sets
signal_base = record new_base {
  events = λ e. record (reader e) {
    ev_events = record (reader e).ev_events { ev_signal = true };
    ev_closure = signal;
  };
  ev_ncalls = λ e. 2;
}

abbrev gives_up : ℕ → EventBase fd_sets → EventBase fd_sets
gives_up e b = (del_nolock fd_sets b e false).1

-- The second call is not made, but the pointer to the variable of the loop stays.
dangling :
    let b' = signal_closure fd_sets gives_up signal_base 1 in
    (b'.ev_ncalls 1 ≡ 1) × (b'.ev_pncalls 1 ≡ true)
unfolding signal_closure signal_calls del_nolock abort_loop take_timeout take_active take_inserted
dangling = (refl, refl)

-- A callback that deletes its signal and makes it active again is not called again either.
abbrev comes_back : ℕ → EventBase fd_sets → EventBase fd_sets
comes_back e b = active_nolock fd_sets (gives_up e b) e 8 1

called_once :
    let b' = signal_closure fd_sets comes_back signal_base 1 in
    (b'.ev_ncalls 1 ≡ 1) × (b'.ncalls 1 ≡ 0) × (b'.activequeues 0 ≡ 1 ∷ [])
unfolding signal_closure signal_calls del_nolock abort_loop take_timeout take_active take_inserted
    active_nolock callback_activate_nolock insert_active set_ncalls continue_if_urgent
    remove_active_later
called_once = (refl, refl, refl)
