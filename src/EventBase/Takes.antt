-- ===== src/EventBase/Takes.antt =====
-- The functions of event.c that take an event off its queues, each as a step of a deletion.
use swift_event.Base.{ℕ, ◌<◌, ◌≡◌, refl, ◌∙◌, true, false, update_all, by_if, arith}
use swift_event.MinHeap.Remove.{erase-Removed}
use swift_event.Events.{Flags}
use swift_event.EvMap.{Eventop}
use swift_event.EventBase.{
  EventBase, remove_inserted, remove_active, remove_active_later, remove_timeout,
}
use swift_event.EventBase.Delete.{take_timeout, take_active}
use swift_event.EventBase.QueueOps.{remove_inserted-IsQueued, remove_timeout-IsQueued}
use swift_event.EventBase.ActiveOps.{remove_active-IsQueued, remove_active_later-IsQueued}
use swift_event.EventBase.Frame.{remove_active-Frame, remove_active_later-Frame}
use swift_event.EventBase.Taken.{IsReady, Step, Step-refl, cleared-Step, frame-IsReady}
use swift_event.EventBase.Timed.{kept-Timed, IsTimed, remove_timeout-IsTimed}

module _ (E : Eventop) (bound : ℕ) where
  module _ (b : EventBase E) (e : ℕ) (v : IsReady E bound b) (lt : e < bound) where
    abbrev f : Flags
    f = b.ev_flags e

    remove_timeout-Step : f.timeout ≡ true → Step E bound e b (remove_timeout E b e)
    unfolding remove_timeout
    remove_timeout-Step on =
        cleared-Step E bound e b {b' = remove_timeout E b e} (record f { timeout = false })
          (record {
            queued = remove_timeout-IsQueued E bound b e v.queued lt;
            timed = remove_timeout-IsTimed E b e v.timed;
          })
          (record {
            timeout = omega arith;
            inserted = omega arith;
            active = omega arith;
            active_later = omega arith;
            finalizing = refl;
          })
          (rw on refl) (rw on refl) (rw on refl) (rw on refl)
          (rw on (
            omega (
              arith,
              (erase-Removed b.ev_timeout b.timeheap e v.timed.in_order
                  (v.timed.on_heap e ∙ on)).1.size,
            )))
          (rw on
            (erase-Removed b.ev_timeout b.timeheap e v.timed.in_order
              (v.timed.on_heap e ∙ on)).1.capacity)

    pub remove_inserted-Step : f.inserted ≡ true → Step E bound e b (remove_inserted E b e)
    unfolding remove_inserted
    remove_inserted-Step on =
        cleared-Step E bound e b {b' = remove_inserted E b e} (record f { inserted = false })
          (record {
            queued = remove_inserted-IsQueued E bound b e v.queued lt;
            timed =
                by_if (IsTimed E) f.inserted
                  (λ on.
                    kept-Timed
                      (update_all b.ev_flags e _ (λ g g'. g'.timeout ≡ g.timeout) (λ g. refl) refl)
                      (update_all b.ev_flags e _ (λ g g'. g'.finalizing ≡ g.finalizing) (λ g. refl)
                        refl)
                      v.timed)
                  λ off. v.timed;
          })
          (record {
            timeout = omega arith;
            inserted = omega arith;
            active = omega arith;
            active_later = omega arith;
            finalizing = refl;
          })
          (rw on refl) (rw on refl) (rw on refl) (rw on refl) (rw on refl) (rw on refl)

    pub remove_active-Step : f.active ≡ true → Step E bound e b (remove_active E b e)
    unfolding remove_active
    remove_active-Step on =
        cleared-Step E bound e b {b' = remove_active E b e} (record f { active = false })
          (frame-IsReady E bound b _ v (remove_active-IsQueued E bound b e v.queued lt)
            (remove_active-Frame E b e))
          (record {
            timeout = omega arith;
            inserted = omega arith;
            active = omega arith;
            active_later = omega arith;
            finalizing = refl;
          })
          (rw on refl) (rw on refl) (rw on refl) (rw on refl) (rw on refl) (rw on refl)

    remove_active_later-Step : f.active_later ≡ true → Step E bound e b (remove_active_later E b e)
    unfolding remove_active_later
    remove_active_later-Step on =
        cleared-Step E bound e b {b' = remove_active_later E b e}
          (record f { active_later = false })
          (frame-IsReady E bound b _ v (remove_active_later-IsQueued E bound b e v.queued lt)
            (remove_active_later-Frame E b e))
          (record {
            timeout = omega arith;
            inserted = omega arith;
            active = omega arith;
            active_later = omega arith;
            finalizing = refl;
          })
          (rw on refl) (rw on refl) (rw on refl) (rw on refl) (rw on refl) (rw on refl)

    pub take_timeout-Step :
        Step E bound e b (take_timeout E b e) × ((take_timeout E b e).ev_flags e).timeout ≡ false
    unfolding take_timeout remove_timeout
    take_timeout-Step =
        by_if (λ (b' : EventBase E). Step E bound e b b' × (b'.ev_flags e).timeout ≡ false)
          f.timeout (λ on. (remove_timeout-Step on, rw on (ground arith)))
          λ off. (Step-refl E bound e b v, off)

    pub take_active-Step :
        Step E bound e b (take_active E b e)
        × ((take_active E b e).ev_flags e).active ≡ false
        × ((take_active E b e).ev_flags e).active_later ≡ false
    unfolding take_active remove_active remove_active_later
    take_active-Step =
        let P = λ (b' : EventBase E).
          Step E bound e b b'
          × (b'.ev_flags e).active ≡ false
          × (b'.ev_flags e).active_later ≡ false in
        by_if P f.active
          (λ on. (
            remove_active-Step on,
            rw on (ground arith),
            rw on (ground (arith, v.queued.apart e on)),
          ))
          λ off.
            by_if P f.active_later
              (λ on.
                (remove_active_later-Step on, rw on (ground (arith, off)), rw on (ground arith)))
              λ none_later. (Step-refl E bound e b v, off, none_later)
