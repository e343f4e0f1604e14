-- ===== src/EvMap/Watch.antt =====
-- The backend watches each descriptor for exactly the events that some listener of it wants.
use swift_event.Base.{
  ℕ, ◌≤◌, ◌<◌, ◌≡◌, refl, false, Option, none, some, occurs, tally, tally-remove_first, arith,
}
use swift_event.Events.{Events}
use swift_event.EvMap.{
  Mask, both, without, Eventop, EvmapIo, io_init, watched, IoMap, gained, lost, listen, unlisten,
}

abbrev pub no_events : Mask
no_events = record { read = false; write = false; closed = false }

-- What a descriptor has to be watched for, from its entry in the map
abbrev pub wanted : Option EvmapIo → Mask
wanted none = no_events
wanted (some c) = watched c

module _ (wants : ℕ → Events) where
  -- The counts of an entry are those of its listeners.
  pub record IsCounted (c : EvmapIo) : Type 0 where
    pub reads : c.nread ≡ tally (λ e. (wants e).ev_read) c.events
    pub writes : c.nwrite ≡ tally (λ e. (wants e).ev_write) c.events
    pub closes : c.nclose ≡ tally (λ e. (wants e).ev_closed) c.events

  abbrev pub EntryCounted : Option EvmapIo → Type 0
  EntryCounted none = Unit
  EntryCounted (some c) = IsCounted c

  module _ (E : Eventop) where
    pub record IsWatched (m : IoMap E) : Type 0 where
      pub counted : (fd : ℕ) → EntryCounted (m.entries fd)
      pub same : (fd : ℕ) → E.interest m.backend fd ≡ wanted (m.entries fd)
      pub inside : (fd : ℕ) → m.nentries ≤ fd → m.entries fd ≡ none

    pub init-IsCounted : IsCounted io_init
    init-IsCounted = record { reads = refl; writes = refl; closes = refl }

    pub listen-IsCounted : (c : EvmapIo) (e : ℕ) → IsCounted c → IsCounted (listen E c e (wants e))
    listen-IsCounted c e v = record {
      reads = omega (arith, v.reads);
      writes = omega (arith, v.writes);
      closes = omega (arith, v.closes);
    }

    pub unlisten-IsCounted :
        (c : EvmapIo) (e : ℕ)
        → 0 < occurs e c.events
        → IsCounted c
        → IsCounted (unlisten E c e (wants e))
    unlisten-IsCounted c e there v = record {
      reads = omega (arith, v.reads, tally-remove_first (λ x. (wants x).ev_read) e c.events there);
      writes =
          omega (arith, v.writes, tally-remove_first (λ x. (wants x).ev_write) e c.events there);
      closes =
          omega (arith, v.closes, tally-remove_first (λ x. (wants x).ev_closed) e c.events there);
    }

    -- The set that is watched grows by what was gained, and shrinks by what was lost.
    pub watched-listen :
        (c : EvmapIo) (e : ℕ) (ev : Events)
        → watched (listen E c e ev) ≡ both (watched c) (gained E c ev)
    watched-listen c e ev = ground arith

    pub watched-unlisten :
        (c : EvmapIo) (e : ℕ)
        → 0 < occurs e c.events
        → IsCounted c
        → watched (unlisten E c e (wants e)) ≡ without (watched c) (lost E c (wants e))
    watched-unlisten c e there v = ground (
      arith,
      v.reads,
      v.writes,
      v.closes,
      tally-remove_first (λ (x : ℕ). (wants x).ev_read) e c.events there,
      tally-remove_first (λ (x : ℕ). (wants x).ev_write) e c.events there,
      tally-remove_first (λ (x : ℕ). (wants x).ev_closed) e c.events there,
    )
