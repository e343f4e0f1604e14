-- ===== src/EventBase/Tests.antt =====
-- The event base of event.c on small examples.
use swift_event.Base.{
  ℕ, ◌≤◌, ◌<◌, max, ◌≡◌, ◌⊎◌, refl, ap, true, false, none, some, if◌then◌else◌, arith,
}
use swift_event.Base.Int.{pos}
use swift_event.Time.{timercmp_gt, timersub}
use swift_event.Events.{Flags}
use swift_event.EvMap.{io_del, io_del_slot, io_del_entry}
use swift_event.EvMap.Ops.{listeners}
use swift_event.EventBase.Dispatch.{io_active}
use swift_event.EventBase.Woken.{Woken, io_active-Woken}
use swift_event.EventBase.HeapSize.{IsReady-few}
use swift_event.EventBase.Timers.{timers, run, run-Allowed}
use swift_event.EventBase.Certain.{is_certain}
use swift_event.EventBase.Promise.{Call, Allowed, add}
use swift_event.EventBase.Watched.{IsWatching, del_nolock-IsWatching}
use swift_event.EventBase.AddWatched.{add_nolock-IsWatching}
use swift_event.EventBase.Run.{persist_closure, run_at}
use swift_event.EventBase.Rescheduled.{persist_closure-Added}
use swift_event.EventBase.Next.{IsEarliest, timeout_next-IsEarliest}
use swift_event.EvMap.FdSets.{fd_sets}
use swift_event.EventBase.{EventBase, make_later_events_active, remove_inserted}
use swift_event.EventBase.Delete.{
  timerclear, del_nolock, evmap_del, take_inserted, abort_loop, take_timeout, take_active,
}
use swift_event.EventBase.Activate.{active_nolock, callback_cancel_nolock, deferred_cb_schedule}
use swift_event.EventBase.Insert.{add_nolock}
use swift_event.EventBase.Loop.{timeout_process, timeout_next}
use swift_event.EventBase.Queued.{queues_of, IsQueued}
use swift_event.EventBase.Taken.{IsReady, Step}
use swift_event.EventBase.Deleted.{del_nolock-Step}
use swift_event.EventBase.Activated.{Activated, active_nolock-Activated}
use swift_event.EventBase.Deferred.{
  is_waiting, Waits, active_later_nolock-Waits, deferred_cb_schedule-Waits,
  callback_cancel_nolock-IsReady,
}
use swift_event.EventBase.Added.{Added, add_nolock-Added}
use swift_event.EventBase.Later.{MadeActive, make_later_events_active-MadeActive}
use swift_event.EventBase.Expired.{Expired, timeout_process-Expired}
use swift_event.EventBase.Reach.{times_out, waits, Reachable-IsReady}
use swift_event.Base.{remove_first, ◌∷◌, []}
use swift_event.Base.Int.{◌+ℤ◌, ◌-ℤ◌}
use swift_event.Time.{timeradd}
use swift_event.MinHeap
use swift_event.EvMap.{io_add, make_space, double_entries, io_add_spaced, io_add_slot, io_add_entry}
use swift_event.EventBase.{
  remove_timeout, remove_active, insert_active, remove_active_later, insert_inserted,
  insert_timeout,
}
use swift_event.EventBase.Activate.{callback_activate_nolock, continue_if_urgent, set_ncalls}
use swift_event.EventBase.Insert.{
  reserve_timeout, put_inserted, evmap_add, put_timeout, remember_timeout, take_fired, set_timeout,
}
use swift_event.EventBase.Loop.{expire_on, expire}
use swift_event.EventBase.Samples.{
  at_time, new_base, no_timers, timed_base, late_base, timed-Reachable, new_base-IsReady,
  timed-IsReady, put_off_base, put_off-IsReady, listening_base, readable, new_base-IsWatching,
  inserted_base, inserted_base-IsWatching, periodic_base, periodic-IsReady,
}

Reachable-IsReady_example : IsReady fd_sets 4 (timeout_process fd_sets late_base)
Reachable-IsReady_example =
    Reachable-IsReady fd_sets 4 (timeout_process fd_sets late_base)
      (times_out (waits (at_time 300) timed-Reachable))

add_nolock-Added_example :
    Added fd_sets 4 new_base 1
      (some (at_time 5))
      false
      (add_nolock fd_sets new_base 1 (some (at_time 5)) false)
add_nolock-Added_example =
    add_nolock-Added fd_sets 4 new_base 1 (some (at_time 5)) false new_base-IsReady (omega arith)
      refl (omega (arith, no_timers))

del_nolock-Step_example :
    let b' = (del_nolock fd_sets timed_base 1 true).1 in
    Step fd_sets 4 1 timed_base b' × queues_of (b'.ev_flags 1) ≡ 0
del_nolock-Step_example =
    del_nolock-Step fd_sets 4 timed_base 1 true timed-IsReady (omega arith) refl

active_nolock-Activated_example :
    Activated fd_sets 4 timed_base 0 (active_nolock fd_sets timed_base 0 2 1)
active_nolock-Activated_example =
    active_nolock-Activated fd_sets 4 timed_base 0 2 1 timed-IsReady.queued (omega arith) (
      ap (λ (f : Flags). f.finalizing)
        (add_nolock-Added_example.others 0 (λ e. absurd (ground (arith, e)))))

active_later_nolock-Waits_example : Waits fd_sets 4 timed_base 0 put_off_base
active_later_nolock-Waits_example =
    active_later_nolock-Waits fd_sets 4 timed_base 0 2 timed-IsReady.queued (omega arith)

make_later_events_active-MadeActive_example :
    MadeActive fd_sets 4 put_off_base put_off_base.active_later_queue
      (make_later_events_active fd_sets put_off_base)
make_later_events_active-MadeActive_example =
    make_later_events_active-MadeActive fd_sets 4 put_off_base put_off-IsReady.queued

callback_cancel_nolock-IsReady_example :
    let b' = (callback_cancel_nolock fd_sets put_off_base 0 true).1 in
    IsReady fd_sets 4 b' × (is_waiting fd_sets 4 b' 0 ≡ false)
callback_cancel_nolock-IsReady_example =
    callback_cancel_nolock-IsReady fd_sets 4 put_off_base 0 true put_off-IsReady (omega arith) refl

-- 33 callbacks have been queued in this round.
abbrev crowded_base : EventBase fd_sets
crowded_base = record new_base { n_deferreds_queued = 33 }

crowded-IsQueued : IsQueued fd_sets 4 crowded_base
crowded-IsQueued = new_base-IsReady.queued

deferred_cb_schedule-Waits_example :
    let b' = (deferred_cb_schedule fd_sets crowded_base 2).1 in
    (IsQueued fd_sets 4 b')
    × (is_waiting fd_sets 4 b' 2 ≡ true)
    × (33 ≤ 32 → (b'.ev_flags 2).active ≡ true)
    × (32 < 33
        → is_waiting fd_sets 4 crowded_base 2 ≡ false
        → ((b'.ev_flags 2).active_later ≡ true) × ((b'.ev_flags 2).active ≡ false))
    × (b'.n_deferreds_queued ≤ max 33 33)
deferred_cb_schedule-Waits_example =
    deferred_cb_schedule-Waits fd_sets 4 crowded_base 2 crowded-IsQueued (omega arith) refl

timeout_process-Expired_example : Expired fd_sets 4 late_base (timeout_process fd_sets late_base)
timeout_process-Expired_example =
    timeout_process-Expired fd_sets 4 late_base
      (Reachable-IsReady fd_sets 4 late_base (waits (at_time 300) timed-Reachable))

io_active-Woken_example :
    Woken fd_sets 4 readable false listening_base
      (listeners fd_sets listening_base.io 3)
      (io_active fd_sets listening_base (pos 3) readable false)
io_active-Woken_example =
    io_active-Woken fd_sets 4 readable false listening_base 3 new_base-IsReady.queued
      (λ e there. ground (arith, there)) (omega arith)

late-IsReady : IsReady fd_sets 4 late_base
late-IsReady = Reachable-IsReady fd_sets 4 late_base (waits (at_time 300) timed-Reachable)

-- A timeout for event 1, which needs memory and nothing else
abbrev timed_call : Call
timed_call = add 1 (some (at_time 5)) false

run-Allowed_example :
    let r = run fd_sets 4 timed_call late_base in
    Allowed
      (at_time 300)
      (is_certain fd_sets 4 timed_call late_base)
      timed_call
      (timers fd_sets 4 late_base)
      r.0
      (timers fd_sets 4 r.1)
run-Allowed_example =
    run-Allowed fd_sets 4 timed_call late_base late-IsReady
      (omega arith, IsReady-few fd_sets 4 late_base late-IsReady (omega arith))

add_nolock-IsWatching_example :
    IsWatching fd_sets (add_nolock fd_sets new_base 1 (some (at_time 5)) false).1
add_nolock-IsWatching_example =
    add_nolock-IsWatching fd_sets new_base 1 (some (at_time 5)) false new_base-IsWatching

del_nolock-IsWatching_example : IsWatching fd_sets (del_nolock fd_sets inserted_base 3 false).1
unfolding del_nolock take_inserted abort_loop take_timeout take_active remove_inserted evmap_del
    io_del io_del_slot io_del_entry
del_nolock-IsWatching_example =
    del_nolock-IsWatching fd_sets inserted_base 3 false inserted_base-IsWatching
      (λ failed. absurd (ground (arith, failed)))

persist_closure-Added_example :
    let r = add_nolock fd_sets periodic_base 1 (some (run_at fd_sets periodic_base 1)) true in
    (persist_closure fd_sets periodic_base 1 ≡ r.1)
    × Added fd_sets 4 periodic_base 1 (some (run_at fd_sets periodic_base 1)) true r
    × (timercmp_gt periodic_base.now (run_at fd_sets periodic_base 1) ≡ false)
persist_closure-Added_example =
    persist_closure-Added fd_sets 4 periodic_base 1 periodic-IsReady (omega arith) refl
      (omega (arith, no_timers)) (record { lower = ground arith; upper = refl })
      (record { normal = record { lower = ground arith; upper = refl }; positive = omega arith })
      refl

timeout_next-IsEarliest_example :
    ((timeout_next fd_sets late_base ≡ none) × ((e : ℕ) → (late_base.ev_flags e).timeout ≡ false))
    ⊎ ((e : ℕ) × IsEarliest fd_sets 4 late_base e
        × (timeout_next fd_sets late_base
            ≡ some (
                if timercmp_gt (late_base.ev_timeout e) late_base.now
                then timersub (late_base.ev_timeout e) late_base.now
                else timerclear)))
timeout_next-IsEarliest_example =
    timeout_next-IsEarliest fd_sets 4 late_base
      (Reachable-IsReady fd_sets 4 late_base (waits (at_time 300) timed-Reachable))

-- The timer of event 1 fires, and the event is deleted before it becomes active.
fired_run : (timeout_process fd_sets late_base).activequeues 0 ≡ 1 ∷ []
unfolding timeout_process expire_on expire del_nolock abort_loop take_timeout take_active
    take_inserted evmap_del remove_timeout remove_active remove_inserted active_nolock
    callback_activate_nolock continue_if_urgent set_ncalls insert_active remove_active_later
    add_nolock reserve_timeout put_inserted evmap_add io_add make_space double_entries io_add_spaced
    io_add_slot io_add_entry insert_inserted put_timeout remember_timeout take_fired set_timeout
    insert_timeout io_del io_del_slot io_del_entry remove_first timeradd timercmp_gt ◌+ℤ◌ ◌-ℤ◌
    MinHeap.ctor MinHeap.top MinHeap.empty MinHeap.size MinHeap.reserve MinHeap.push MinHeap.erase
    MinHeap.shift MinHeap.shift_up MinHeap.shift_up_loop MinHeap.shift_down MinHeap.shift_down_loop
    MinHeap.store MinHeap.elem_init MinHeap.elem_greater MinHeap.shift_up_unconditional
fired_run = refl
