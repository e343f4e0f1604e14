-- ===== src/EventBase/Dispatch.antt =====
-- How a backend tells the event base what is ready: evmap_io_active_ and evmap_signal_active_ of evmap.c;
-- and event_base_priority_init of event.c.
use swift_event.Base.{
  ℕ, ◌+◌, ◌*◌, Bool, not, ◌&&◌, ◌||◌, Option, none, some, List, [], ◌∷◌, leb, ◌==◌, if◌then◌else◌,
  to_ℕ,
}
use swift_event.Base.Int.{ℤ, pos, negsuc, eqb_ℤ}
use swift_event.Events.{Events}
use swift_event.EvMap.{Eventop, EvmapIo, Mask, is_some_mask}
use swift_event.EventBase.{EventBase}
use swift_event.EventBase.Activate.{active_nolock}

-- `ev_events & (events & ~EV_ET)`
abbrev pub shared : Events → Mask → Mask
shared ev m = record {
  read = ev.ev_read && m.read;
  write = ev.ev_write && m.write;
  closed = ev.ev_closed && m.closed;
}

-- `ev_events & events`, where `et` tells whether EV_ET is in `events`. EV_READ is 2, EV_WRITE 4, EV_ET
-- 32 and EV_CLOSED 128.
abbrev pub shared_bits : Events → Mask → Bool → ℕ
shared_bits ev m et =
    let s = shared ev m in
    2 * to_ℕ s.read + 4 * to_ℕ s.write + 32 * to_ℕ (ev.ev_et && et) + 128 * to_ℕ s.closed

module _ (E : Eventop) where
  -- One round of LIST_FOREACH
  unfoldable pub wake : EventBase E → ℕ → Mask → Bool → EventBase E
  wake b e events et =
      let ev = (b.events e).ev_events in
      if is_some_mask (shared ev events)
      then active_nolock E b e (shared_bits ev events et) 1
      else b

  unfoldable pub wake_all : List ℕ → EventBase E → Mask → Bool → EventBase E
  wake_all [] b events et = b
  wake_all (e ∷ es) b events et = wake_all es (wake b e events et) events et

  unfoldable pub wake_slot : Option EvmapIo → EventBase E → Mask → Bool → EventBase E
  wake_slot none b events et = b
  wake_slot (some c) b events et = wake_all c.events b events et

  -- evmap_io_active_
  unfoldable pub io_active : EventBase E → ℤ → Mask → Bool → EventBase E
  io_active b (negsuc n) events et = b
  io_active b (pos fd) events et =
      if leb b.io.nentries fd then b else wake_slot (b.io.entries fd) b events et

  unfoldable pub signal_all : List ℕ → EventBase E → ℕ → EventBase E
  signal_all [] b ncalls = b
  signal_all (e ∷ es) b ncalls = signal_all es (active_nolock E b e 8 ncalls) ncalls

  unfoldable pub signal_slot : Option (List ℕ) → EventBase E → ℕ → EventBase E
  signal_slot none b ncalls = b
  signal_slot (some es) b ncalls = signal_all es b ncalls

  -- evmap_signal_active_; EV_SIGNAL is 8.
  unfoldable pub signal_active : EventBase E → ℤ → ℕ → EventBase E
  signal_active b (negsuc n) ncalls = b
  signal_active b (pos sig) ncalls =
      if leb b.sigmap.nentries sig then b else signal_slot (b.sigmap.entries sig) b ncalls

  -- event_base_priority_init; EVENT_MAX_PRIORITIES is 256.
  unfoldable pub priority_init : EventBase E → ℤ → ℤ × EventBase E
  priority_init b (negsuc n) = (negsuc 0, b)
  priority_init b (pos npriorities) =
      let none_yet = record b { nactivequeues = 0; activequeues = λ p. [] } in
      if not (eqb_ℤ b.event_count_active (pos 0)) || (npriorities == 0 || leb 256 npriorities)
      then (negsuc 0, b)
      else if npriorities == b.nactivequeues
      then (pos 0, b)
      else if b.io.memory
      then (pos 0, record none_yet { nactivequeues = npriorities })
      else (negsuc 0, none_yet)
