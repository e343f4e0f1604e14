-- ===== src/EventBase.antt =====
-- `struct event_base` of Sources/libevent/src/event-internal.h, and the queues of event.c: which events
-- are inserted, waiting for a timeout, active, or to be active later.
pub mod Delete
pub mod Activate
pub mod Insert
pub mod Loop
pub mod Queued
pub mod QueueOps
pub mod ActiveOps
pub mod Later
pub mod Frame
pub mod Activated
pub mod Timed
pub mod Taken
pub mod Takes
pub mod Deleted
pub mod Expired
pub mod Scheduled
pub mod PutIn
pub mod Added
pub mod Deferred
pub mod Reach
pub mod Dispatch
pub mod Woken
pub mod Promise
pub mod Certain
pub mod Timers
pub mod Watching
pub mod Watched
pub mod AddWatched
pub mod Run
pub mod Process
pub mod Serve
pub mod HeapSize
pub mod Processed
pub mod Priorities
pub mod Fuel
pub mod Served
pub mod Breaks
pub mod Kinds
pub mod StartKinds
pub mod ProcessEnds
pub mod Rescheduled
pub mod Next
pub mod Samples
mod Tests
mod ServeTests
use swift_event.Base.{
  not, to_ℕ, ℕ, suc, Bool, true, false, ◌||◌, Option, List, [], ◌∷◌, ◌++◌, if◌then◌else◌, update,
  remove_first,
}
use swift_event.Base.Int.{ℤ, pos, ◌+ℤ◌, ◌-ℤ◌, ltb_ℤ}
use swift_event.Time.{Timeval}
use swift_event.MinHeap
use swift_event.MinHeap.{MinHeap}
use swift_event.Events.{Event, Flags, Closure, cb_self}
use swift_event.EvMap.{Eventop, IoMap}
use swift_event.EvMap.Signals.{SigMap}

-- An event pointer is a number. `now` is what gettime reads. There are no common timeouts, and one
-- thread only, which runs the loop.
pub record EventBase (E : Eventop) : Type 0 where
  pub events : ℕ → Event
  pub ev_flags : ℕ → Flags
  pub ev_res : ℕ → ℕ
  pub ev_ncalls : ℕ → ℕ
  -- whether `ev_pncalls` is a pointer, which is one to `ncalls`, and not NULL
  pub ev_pncalls : ℕ → Bool
  -- the variable `ncalls` of event_signal_closure, for each event
  pub ncalls : ℕ → ℕ
  pub ev_timeout : ℕ → Timeval
  pub ev_io_timeout : ℕ → Timeval
  pub virtual_event_count : ℤ
  pub virtual_event_count_max : ℤ
  pub event_count : ℤ
  pub event_count_max : ℤ
  pub event_count_active : ℤ
  pub event_count_active_max : ℤ
  pub nactivequeues : ℕ
  pub activequeues : ℕ → List ℕ
  pub active_later_queue : List ℕ
  pub n_deferreds_queued : ℕ
  pub event_running_priority : ℤ
  pub event_gotterm : Bool
  pub event_break : Bool
  pub event_continue : Bool
  pub running_loop : Bool
  pub max_dispatch_time : Timeval
  pub max_dispatch_callbacks : ℕ
  pub limit_callbacks_after_prio : ℕ
  pub timeheap : MinHeap
  pub io : IoMap E
  pub sigmap : SigMap
  pub now : Timeval

-- MAX, on counts
abbrev pub max_count : ℤ → ℤ → ℤ
max_count a b = if ltb_ℤ b a then a else b

-- `!(flags & EVLIST_INTERNAL)`
abbrev pub is_counted : Flags → ℤ
is_counted f = pos (to_ℕ (not f.internal))

-- `+= (closure == EV_CLOSURE_CB_SELF)`
abbrev pub add_deferred : Closure → ℕ → ℕ
add_deferred cb_self n = suc n
add_deferred _ n = n

module _ (E : Eventop) where
  abbrev pub set_flags : EventBase E → ℕ → Flags → EventBase E
  set_flags b e f = record b { ev_flags = update b.ev_flags e f }

  -- INCR_EVENT_COUNT and DECR_EVENT_COUNT
  abbrev pub incr_count : EventBase E → Flags → EventBase E
  incr_count b f = record b {
    event_count = b.event_count +ℤ is_counted f;
    event_count_max = max_count b.event_count_max (b.event_count +ℤ is_counted f);
  }

  abbrev pub decr_count : EventBase E → Flags → EventBase E
  decr_count b f = record b { event_count = b.event_count -ℤ is_counted f }

  abbrev pub incr_active : EventBase E → EventBase E
  incr_active b = record b {
    event_count_active = b.event_count_active +ℤ pos 1;
    event_count_active_max = max_count b.event_count_active_max (b.event_count_active +ℤ pos 1);
  }

  abbrev pub decr_active : EventBase E → EventBase E
  decr_active b = record b { event_count_active = b.event_count_active -ℤ pos 1 }

  -- Where a queue function finds the wrong flag, event_errx ends the program; here the base stays.
  unfoldable pub remove_inserted : EventBase E → ℕ → EventBase E
  remove_inserted b e =
      let f = b.ev_flags e in
      if f.inserted then set_flags (decr_count b f) e (record f { inserted = false }) else b

  unfoldable pub insert_inserted : EventBase E → ℕ → EventBase E
  insert_inserted b e =
      let f = b.ev_flags e in
      if f.inserted then b else set_flags (incr_count b f) e (record f { inserted = true })

  -- event_queue_remove_active
  unfoldable pub remove_active : EventBase E → ℕ → EventBase E
  remove_active b e =
      let f = b.ev_flags e in
      let pri = (b.events e).ev_pri in
      let left = remove_first e (b.activequeues pri) in
      if f.active
      then record (set_flags (decr_active (decr_count b f)) e (record f { active = false })) {
        activequeues = update b.activequeues pri left;
      }
      else b

  -- event_queue_insert_active
  unfoldable pub insert_active : EventBase E → ℕ → EventBase E
  insert_active b e =
      let f = b.ev_flags e in
      let pri = (b.events e).ev_pri in
      let longer = b.activequeues pri ++ e ∷ [] in
      if f.active
      then b
      else record (set_flags (incr_active (incr_count b f)) e (record f { active = true })) {
        activequeues = update b.activequeues pri longer;
      }

  unfoldable pub remove_active_later : EventBase E → ℕ → EventBase E
  remove_active_later b e =
      let f = b.ev_flags e in
      if f.active_later
      then record (set_flags (decr_active (decr_count b f)) e (record f { active_later = false })) {
        active_later_queue = remove_first e b.active_later_queue;
      }
      else b

  unfoldable pub insert_active_later : EventBase E → ℕ → EventBase E
  insert_active_later b e =
      let f = b.ev_flags e in
      if f.active_later || f.active
      then b
      else record (set_flags (incr_active (incr_count b f)) e (record f { active_later = true })) {
        active_later_queue = b.active_later_queue ++ e ∷ [];
      }

  unfoldable pub remove_timeout : EventBase E → ℕ → EventBase E
  remove_timeout b e =
      let f = b.ev_flags e in
      if f.timeout
      then record (set_flags (decr_count b f) e (record f { timeout = false })) {
        timeheap = (MinHeap.erase b.ev_timeout b.timeheap e).1;
      }
      else b

  -- event_queue_insert_timeout: a push that fails is not noticed.
  unfoldable pub insert_timeout : EventBase E → ℕ → EventBase E
  insert_timeout b e =
      let f = b.ev_flags e in
      if f.timeout then b else record (set_flags (incr_count b f) e (record f { timeout = true })) {
        timeheap = (MinHeap.push b.ev_timeout b.io.memory b.timeheap e).1;
      }

  -- One round of event_queue_make_later_events_active, for the first event of the queue
  unfoldable pub make_active : EventBase E → ℕ → List ℕ → EventBase E
  make_active b e later =
      let f = b.ev_flags e in
      let pri = (b.events e).ev_pri in
      record (set_flags b e (record f { active_later = false; active = true })) {
        active_later_queue = later;
        activequeues = update b.activequeues pri (b.activequeues pri ++ e ∷ []);
        n_deferreds_queued = add_deferred (b.events e).ev_closure b.n_deferreds_queued;
      }

  unfoldable pub make_later_active_on : List ℕ → EventBase E → EventBase E
  make_later_active_on [] b = b
  make_later_active_on (e ∷ later) b = make_later_active_on later (make_active b e later)

  -- event_queue_make_later_events_active
  unfoldable pub make_later_events_active : EventBase E → EventBase E
  make_later_events_active b = make_later_active_on b.active_later_queue b
