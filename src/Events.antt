-- ===== src/Events.antt =====
-- `struct event` and `struct event_callback` of Sources/libevent/include/event2/event_struct.h, with
-- the flag words as records of their bits.
use swift_event.Base.{ℕ, Bool, ◌||◌}
use swift_event.Base.Int.{ℤ}

-- `ev_events`: EV_READ, EV_WRITE, EV_CLOSED, EV_SIGNAL, EV_PERSIST, EV_ET and EV_FINALIZE
pub record Events : Type 0 where
  pub ev_read : Bool
  pub ev_write : Bool
  pub ev_closed : Bool
  pub ev_signal : Bool
  pub ev_persist : Bool
  pub ev_et : Bool
  pub ev_finalize : Bool

-- `evcb_flags`: the EVLIST_ bits; EVLIST_SIGNAL is not used by the code.
pub record Flags : Type 0 where
  pub timeout : Bool
  pub inserted : Bool
  pub active : Bool
  pub active_later : Bool
  pub internal : Bool
  pub finalizing : Bool
  pub init : Bool

-- EV_CLOSURE_EVENT, EV_CLOSURE_EVENT_SIGNAL, EV_CLOSURE_EVENT_PERSIST, EV_CLOSURE_CB_SELF,
-- EV_CLOSURE_CB_FINALIZE, EV_CLOSURE_EVENT_FINALIZE and EV_CLOSURE_EVENT_FINALIZE_FREE
pub data Closure : Type 0 where
  plain signal persist cb_self cb_finalize finalize finalize_free : Closure

-- The fields of an event that event_assign sets and the event loop leaves alone. Those that change are
-- kept in the event base, a function for each.
pub record Event : Type 0 where
  pub ev_events : Events
  pub ev_fd : ℤ
  pub ev_pri : ℕ
  pub ev_closure : Closure

-- `ev_events & (EV_READ|EV_WRITE|EV_CLOSED)`
abbrev pub wants_io : Events → Bool
wants_io e = e.ev_read || (e.ev_write || e.ev_closed)
