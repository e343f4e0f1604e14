-- ===== src/EventBase/Rescheduled.antt =====
-- An event whose callback is about to run is off the queues, and a persistent timer is set to a time
-- that is not past.
use swift_event.Base.{
  ℕ, ◌<◌, ◌≡◌, refl, true, false, not, ◌&&◌, ◌||◌, ◌==◌, if◌then◌else◌, some, bit_and, by_if, arith,
}
use swift_event.Base.Int.{pos, ◌≤ℤ◌}
use swift_event.Time.{Timeval, timercmp_gt, timeradd}
use swift_event.Time.Order.{IsNormal, timeradd_later}
use swift_event.MinHeap.Index.{max_n}
use swift_event.EvMap.{Eventop}
use swift_event.EventBase.{EventBase, remove_active}
use swift_event.EventBase.Insert.{add_nolock}
use swift_event.EventBase.Run.{is_set, dequeue, run_at, persist_closure}
use swift_event.EventBase.ActiveOps.{remove_active-IsQueued}
use swift_event.EventBase.Frame.{remove_active-Frame}
use swift_event.EventBase.Taken.{IsReady, frame-IsReady}
use swift_event.EventBase.Deleted.{del_nolock-Step}
use swift_event.EventBase.Added.{Added, add_nolock-Added}

module _ (E : Eventop) (bound : ℕ) where
  -- An interval: normalised, and not negative
  pub record IsInterval (t : Timeval) : Type 0 where
    pub normal : IsNormal t
    pub positive : pos 0 ≤ℤ t.tv_sec

  run_at_ahead :
      (b : EventBase E) (e : ℕ)
      → IsNormal b.now
      → IsInterval (b.ev_io_timeout e)
      → timercmp_gt b.now (run_at E b e) ≡ false
  unfolding run_at
  run_at_ahead b e now delay =
      let first =
        timeradd (if bit_and (b.ev_res e) 1 == 0 then b.now else b.ev_timeout e)
          (b.ev_io_timeout e) in
      by_if (λ t. timercmp_gt b.now t ≡ false) (timercmp_gt b.now first)
        (λ missed. timeradd_later b.now (b.ev_io_timeout e) now delay.normal delay.positive)
        λ ahead. ahead

  -- event_persist_closure of an event with an interval that is normalised and not negative, on a valid
  -- base with a normalised clock and fewer than 2 ^ 30 timers, for an event that is not being finalized,
  -- makes the call of event_add_nolock_ with an
  -- absolute time, that of `run_at`, which is not before now. So when this call does not return -1, the
  -- event has its timer on and set to that time; and otherwise no flag and no timeout has changed.
  pub persist_closure-Added :
      (b : EventBase E) (e : ℕ)
      → IsReady E bound b
      → e < bound
      → (b.ev_flags e).finalizing ≡ false
      → b.timeheap.n < max_n
      → IsNormal b.now
      → IsInterval (b.ev_io_timeout e)
      → is_set (b.ev_io_timeout e) ≡ true
      → let r = add_nolock E b e (some (run_at E b e)) true in
        (persist_closure E b e ≡ r.1)
        × Added E bound b e (some (run_at E b e)) true r
        × (timercmp_gt b.now (run_at E b e) ≡ false)
  unfolding persist_closure
  persist_closure-Added b e v lt alive few now delay on = (
    rw on refl,
    add_nolock-Added E bound b e (some (run_at E b e)) true v lt alive few,
    run_at_ahead b e now delay,
  )

  off :
      (b : EventBase E) (e : ℕ)
      → (b.ev_flags e).active ≡ true
      → ((remove_active E b e).ev_flags e).active ≡ false
  unfolding remove_active
  off b e on = rw on (ground arith)

  -- Before the callback of an event runs, the event is on no queue of active events, and the base is
  -- valid.
  pub dequeue-IsReady :
      (b : EventBase E) (e : ℕ)
      → IsReady E bound b
      → e < bound
      → (b.ev_flags e).active ≡ true
      → IsReady E bound (dequeue E b e) × ((dequeue E b e).ev_flags e).active ≡ false
  unfolding dequeue
  dequeue-IsReady b e v lt on =
      let f = b.ev_flags e in
      by_if (λ (b' : EventBase E). IsReady E bound b' × (b'.ev_flags e).active ≡ false)
        (f.init && not ((b.events e).ev_events.ev_persist || f.finalizing))
        (λ del.
          let (step, gone) = del_nolock-Step E bound b e false v lt (ground (arith, del)) in
          (step.ready, ground (arith, gone)))
        λ stay. (
          frame-IsReady E bound b _ v (remove_active-IsQueued E bound b e v.queued lt)
              (remove_active-Frame E b e),
          off b e on,
        )
