-- ===== src/EventBase/Samples.antt =====
-- Small event bases.
use swift_event.Base.{
  ℕ, ◌≡◌, refl, true, false, Option, none, some, [], ◌∷◌, ◌==◌, if◌then◌else◌, Bool-cases, inl, inr,
  arith,
}
use swift_event.Base.Int.{pos, negsuc}
use swift_event.Time.{Timeval}
use swift_event.MinHeap
use swift_event.Events.{Flags, Event, persist, cb_self}
use swift_event.EvMap.{Mask, EvmapIo}
use swift_event.EventBase.Watched.{IsWatching}
use swift_event.EvMap.FdSets.{fd_sets}
use swift_event.EvMap.Watch.{no_events, wanted}
use swift_event.EventBase.{EventBase}
use swift_event.EventBase.Activate.{active_later_nolock}
use swift_event.EventBase.Insert.{add_nolock}
use swift_event.EventBase.Taken.{IsReady}
use swift_event.EventBase.Reach.{IsFresh, Reachable, fresh, adds, puts_off, Reachable-IsReady}

abbrev pub at_time : ℕ → Timeval
at_time n = record { tv_sec = pos n; tv_usec = pos 0 }

-- Event 2 is a deferred callback; the others read, each from the descriptor of its number.
abbrev pub reader : ℕ → Event
reader e = record {
  ev_events = record {
    ev_read = true;
    ev_write = false;
    ev_closed = false;
    ev_signal = false;
    ev_persist = true;
    ev_et = false;
    ev_finalize = false;
  };
  ev_fd = pos e;
  ev_pri = 0;
  ev_closure = if e == 2 then cb_self else persist;
}

abbrev pub idle : Flags
idle = record {
  timeout = false;
  inserted = false;
  active = false;
  active_later = false;
  internal = false;
  finalizing = false;
  init = true;
}

abbrev pub new_base : EventBase fd_sets
new_base = record {
  events = reader;
  ev_flags = λ e. idle;
  ev_res = λ e. 0;
  ev_ncalls = λ e. 0;
  ev_pncalls = λ e. false;
  ncalls = λ e. 0;
  ev_timeout = λ e. at_time 0;
  ev_io_timeout = λ e. at_time 0;
  virtual_event_count = pos 0;
  virtual_event_count_max = pos 0;
  event_count = pos 0;
  event_count_max = pos 0;
  event_count_active = pos 0;
  event_count_active_max = pos 0;
  nactivequeues = 1;
  activequeues = λ p. [];
  active_later_queue = [];
  n_deferreds_queued = 0;
  event_running_priority = negsuc 0;
  event_gotterm = false;
  event_break = false;
  event_continue = false;
  running_loop = false;
  max_dispatch_time = record { tv_sec = negsuc 0; tv_usec = pos 0 };
  max_dispatch_callbacks = 2147483647;
  limit_callbacks_after_prio = 2147483647;
  timeheap = MinHeap.ctor (λ i. 0) (λ e. negsuc 0);
  io = record { entries = λ fd. none; nentries = 0; backend = λ fd. no_events; memory = true };
  sigmap = record { entries = λ s. none; nentries = 0; accepts = true; memory = true };
  now = at_time 100;
}

pub new_base-IsFresh : IsFresh fd_sets 4 new_base
new_base-IsFresh = record {
  flags = λ e. refl;
  activequeues = λ p. refl;
  active_later_queue = refl;
  event_count = refl;
  event_count_active = refl;
  timeheap = (λ i. 0, refl);
}

pub no_timers : new_base.timeheap.n ≡ 0
unfolding MinHeap.ctor
no_timers = refl

-- Event 1 times out after 5 seconds, and 200 seconds pass.
abbrev pub timed_base : EventBase fd_sets
timed_base = (add_nolock fd_sets new_base 1 (some (at_time 5)) false).1

abbrev pub late_base : EventBase fd_sets
late_base = record timed_base { now = at_time 300 }

pub timed-Reachable : Reachable fd_sets 4 timed_base
timed-Reachable =
    adds 1 (some (at_time 5)) false (fresh new_base-IsFresh) (omega arith)
      (omega (arith, no_timers))

pub new_base-IsReady : IsReady fd_sets 4 new_base
new_base-IsReady = Reachable-IsReady fd_sets 4 new_base (fresh new_base-IsFresh)

pub timed-IsReady : IsReady fd_sets 4 timed_base
timed-IsReady = Reachable-IsReady fd_sets 4 timed_base timed-Reachable

abbrev pub put_off_base : EventBase fd_sets
put_off_base = active_later_nolock fd_sets timed_base 0 2

pub put_off-IsReady : IsReady fd_sets 4 put_off_base
put_off-IsReady =
    Reachable-IsReady fd_sets 4 put_off_base (puts_off 0 2 timed-Reachable (omega arith))

-- Event 3 waits for its descriptor.
abbrev pub listening_base : EventBase fd_sets
listening_base = record new_base {
  io = record {
    entries = λ fd. some (record { events = 3 ∷ []; nread = 1; nwrite = 0; nclose = 0 });
    nentries = 32;
    backend = λ fd. no_events;
    memory = true;
  };
}

abbrev pub readable : Mask
readable = record { read = true; write = false; closed = false }

pub new_base-IsWatching : IsWatching fd_sets new_base
new_base-IsWatching = record {
  agree = record {
    watched = record { counted = λ fd. tt; same = λ fd. refl; inside = λ fd out. refl };
    listening = λ e fd. refl;
  };
}

-- Event 3 is inserted, and reads from the descriptor 3.
abbrev pub entry : ℕ → Option EvmapIo
entry fd =
    if fd == 3 then some (record { events = 3 ∷ []; nread = 1; nwrite = 0; nclose = 0 }) else none

abbrev pub inserted_base : EventBase fd_sets
inserted_base = record new_base {
  ev_flags = λ e. record idle { inserted = e == 3 };
  io = record { entries = entry; nentries = 32; backend = λ fd. wanted (entry fd); memory = true };
}

pub inserted_base-IsWatching : IsWatching fd_sets inserted_base
inserted_base-IsWatching = record {
  agree = record {
    watched = record {
      counted = λ fd. elim (Bool-cases (fd == 3)) [
        | inl at ↦ rw at (record { reads = refl; writes = refl; closes = refl })
        | inr off ↦ rw off tt
      ];
      same = λ fd. refl;
      inside = λ fd out. elim (Bool-cases (fd == 3)) [
        | inl at ↦ absurd (ground arith)
        | inr off ↦ rw off refl
      ];
    };
    listening = λ e fd. ground arith;
  };
}

-- Event 1 runs every five seconds.
abbrev pub periodic_base : EventBase fd_sets
periodic_base = record new_base { ev_io_timeout = λ e. at_time 5 }

pub periodic-IsReady : IsReady fd_sets 4 periodic_base
periodic-IsReady = record { queued = new_base-IsReady.queued; timed = new_base-IsReady.timed }
