-- ===== src/EventBase/Served.antt =====
-- event_base_loop of event.c: what holds when it returns, and why it does.
use swift_event.Base.{ℕ, ◌≡◌, true, false, ◌||◌}
use swift_event.Base.Int.{ℤ, pos, negsuc}
use swift_event.EvMap.{Eventop}
use swift_event.EventBase.{EventBase}
use swift_event.EventBase.Serve.{LoopFlags, has_active, nothing_to_do}
use swift_event.EventBase.Queued.{queues_of}
use swift_event.EventBase.Taken.{IsReady}

module _ (E : Eventop) (bound : ℕ) where
  -- Why event_base_loop returns: it was asked to; there are no events; the backend has failed; or it
  -- was told to wait for nothing, or for one set of events only, and no active event is left.
  data Exits (flags : LoopFlags) (b : EventBase E) : ℤ → Type 0 where
    asked : b.event_gotterm || b.event_break ≡ true → Exits flags b (pos 0)
    empty : nothing_to_do E flags b ≡ true → Exits flags b (pos 1)
    failed : Exits flags b (negsuc 0)
    ended : flags.nonblock || flags.once ≡ true → has_active E b ≡ false → Exits flags b (pos 0)

  pub record Served (flags : LoopFlags) (r : ℤ × EventBase E) : Type 0 where
    pub ready : IsReady E bound r.1
    exits : Exits flags r.1 r.0
    pub empty :
        r.0 ≡ pos 1 → (e : ℕ) → (r.1.ev_flags e).internal ≡ false → queues_of (r.1.ev_flags e) ≡ 0
