-- ===== src/EventBase/Loop.antt =====
-- What the loop of event.c does with the time and with what the backend reports: timeout_next,
-- timeout_process and, from evmap.c, evmap_io_active_.
use swift_event.Base.{ℕ, zero, suc, false, Option, none, some, if◌then◌else◌}
use swift_event.Time.{Timeval, timercmp_gt, timersub}
use swift_event.MinHeap
use swift_event.EvMap.{Eventop}
use swift_event.EventBase.{EventBase}
use swift_event.EventBase.Delete.{del_nolock, timerclear}
use swift_event.EventBase.Activate.{active_nolock}

module _ (E : Eventop) where
  unfoldable pub timeout_left : EventBase E → Option ℕ → Option Timeval
  timeout_left b none = none
  timeout_left b (some e) =
      if timercmp_gt (b.ev_timeout e) b.now
      then some (timersub (b.ev_timeout e) b.now)
      else some timerclear

  -- timeout_next: how long to wait, or none to wait for I/O only
  unfoldable pub timeout_next : EventBase E → Option Timeval
  timeout_next b = timeout_left b (MinHeap.top b.timeheap)

  -- One round of the loop of timeout_process
  unfoldable pub expire : EventBase E → ℕ → EventBase E
  expire b e = active_nolock E (del_nolock E b e false).1 e 1 1

  -- Each round takes an event off the heap.
  unfoldable pub expire_on : ℕ → EventBase E → Option ℕ → EventBase E
  expire_on zero b top = b
  expire_on (suc fuel) b none = b
  expire_on (suc fuel) b (some e) =
      let b' = expire b e in
      let rest = expire_on fuel b' (MinHeap.top b'.timeheap) in
      if timercmp_gt (b.ev_timeout e) b.now then b else rest

  -- timeout_process
  unfoldable pub timeout_process : EventBase E → EventBase E
  timeout_process b =
      if MinHeap.empty b.timeheap
      then b
      else expire_on (MinHeap.size b.timeheap) b (MinHeap.top b.timeheap)
