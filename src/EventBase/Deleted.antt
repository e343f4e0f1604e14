-- ===== src/EventBase/Deleted.antt =====
-- What event_del_nolock_ does, step by step.
use swift_event.Base.{
  ℕ, ◌<◌, ◌≡◌, inl, inr, refl, ap, ◌∙◌, Bool, true, false, not, ◌&&◌, ◌||◌, ◌==◌, Bool-cases, by_if,
  arith,
}
use swift_event.Base.Int.{ℤ}
use swift_event.Events.{Flags, wants_io}
use swift_event.EvMap.{Eventop, IoMap}
use swift_event.EvMap.Signals.{SigMap}
use swift_event.EventBase.{EventBase, remove_inserted}
use swift_event.EventBase.Delete.{
  abort_loop, take_timeout, take_active, evmap_del, take_inserted, del_nolock,
}
use swift_event.EventBase.Queued.{queues_of}
use swift_event.EventBase.Taken.{Fewer, Fewer-refl, IsReady, Step, Step-refl, Step-trans}
use swift_event.EventBase.Takes.{remove_inserted-Step, take_timeout-Step, take_active-Step}

all_gone :
    (f₁ f₂ f₃ : Flags)
    → f₁.timeout ≡ false
    → f₂.active ≡ false
    → f₂.active_later ≡ false
    → f₃.inserted ≡ false
    → Fewer f₁ f₂
    → Fewer f₂ f₃
    → queues_of f₃ ≡ 0
all_gone f₁ f₂ f₃ no_timeout no_active no_later no_inserted p q =
    ground (arith, p.timeout, q.timeout, q.active, q.active_later)

module _ (E : Eventop) (bound : ℕ) where
  module _ (b : EventBase E) (e : ℕ) (v : IsReady E bound b) (lt : e < bound) where
    abbrev f : Flags
    f = b.ev_flags e

    -- The maps of events are no part of what is compared here.
    maps-Step : (m : IoMap E) (s : SigMap) → Step E bound e b (record b { io = m; sigmap = s })
    maps-Step m s = record {
      ready = record { queued = v.queued; timed = v.timed };
      fewer = Fewer-refl f;
      others = λ x ne. refl;
      ev_timeout = refl;
      now = refl;
      events = refl;
      size = refl;
      capacity = refl;
    }

    evmap_del-Step : Step E bound e b (evmap_del E b e).1
    unfolding evmap_del
    evmap_del-Step = elim (Bool-cases (wants_io (b.events e).ev_events)) [
      | inl io ↦ rw io (maps-Step _ b.sigmap)
      | inr no_io ↦ rw no_io (maps-Step b.io _)
    ]

  evmap_del-flags : (b : EventBase E) (e : ℕ) → (evmap_del E b e).1.ev_flags ≡ b.ev_flags
  unfolding evmap_del
  evmap_del-flags b e = elim (Bool-cases (wants_io (b.events e).ev_events)) [
    | inl io ↦ rw io refl
    | inr no_io ↦ rw no_io refl
  ]

  not_inserted :
      (b : EventBase E) (e : ℕ)
      → (b.ev_flags e).inserted ≡ true
      → ((remove_inserted E b e).ev_flags e).inserted ≡ false
  unfolding remove_inserted
  not_inserted b e on = rw on (ground arith)

  take_inserted-Step :
      (b : EventBase E) (e : ℕ)
      → IsReady E bound b
      → e < bound
      → Step E bound e b (take_inserted E b e).1
        × ((take_inserted E b e).1.ev_flags e).inserted ≡ false
  unfolding take_inserted
  take_inserted-Step b e v lt =
      by_if (λ (r : ℤ × EventBase E). Step E bound e b r.1 × (r.1.ev_flags e).inserted ≡ false)
        (b.ev_flags e).inserted
        (λ on.
          let b₁ = remove_inserted E b e in
          let gone = remove_inserted-Step E bound b e v lt on in
          (
            Step-trans E bound gone (evmap_del-Step b₁ e gone.ready lt),
            ap (λ g. (g e).inserted) (evmap_del-flags b₁ e) ∙ not_inserted b e on,
          ))
        λ off. (Step-refl E bound e b v, off)

  pub abort_loop-Step :
      (b : EventBase E) (e : ℕ) → IsReady E bound b → Step E bound e b (abort_loop E b e)
  unfolding abort_loop
  abort_loop-Step b e v =
      by_if (Step E bound e b)
        ((b.events e).ev_events.ev_signal && (not (b.ev_ncalls e == 0) && b.ev_pncalls e))
        (λ abort. record {
          ready = record { queued = v.queued; timed = v.timed };
          fewer = Fewer-refl (b.ev_flags e);
          others = λ x ne. refl;
          ev_timeout = refl;
          now = refl;
          events = refl;
          size = refl;
          capacity = refl;
        })
        λ go. Step-refl E bound e b v

  pub abort_loop-flags : (b : EventBase E) (e : ℕ) → (abort_loop E b e).ev_flags ≡ b.ev_flags
  unfolding abort_loop
  abort_loop-flags b e =
      by_if (λ (b' : EventBase E). b'.ev_flags ≡ b.ev_flags)
        ((b.events e).ev_events.ev_signal && (not (b.ev_ncalls e == 0) && b.ev_pncalls e))
        (λ abort. refl) λ go. refl

  -- event_del_nolock_ of an event that is not being finalized, or for which that does not matter, takes
  -- it off every queue and off the heap, clears the four flags that say so, keeps the queues, the
  -- counts and the heap valid, and changes no other event's flags.
  pub del_nolock-Step :
      (b : EventBase E) (e : ℕ) (even_if_finalizing : Bool)
      → IsReady E bound b
      → e < bound
      → even_if_finalizing || not (b.ev_flags e).finalizing ≡ true
      → let b' = (del_nolock E b e even_if_finalizing).1 in
        Step E bound e b b' × queues_of (b'.ev_flags e) ≡ 0
  unfolding del_nolock
  del_nolock-Step b e even_if_finalizing v lt may =
      let s₀ = abort_loop-Step b e v in
      let (s₁, no_timeout) = take_timeout-Step E bound (abort_loop E b e) e s₀.ready lt in
      let b₁ = take_timeout E (abort_loop E b e) e in
      let (s₂, no_active, no_later) = take_active-Step E bound b₁ e s₁.ready lt in
      let b₂ = take_active E b₁ e in
      let (s₃, no_inserted) = take_inserted-Step b₂ e s₂.ready lt in
      by_if (λ (r : ℤ × EventBase E). Step E bound e b r.1 × queues_of (r.1.ev_flags e) ≡ 0)
        (not even_if_finalizing && (b.ev_flags e).finalizing)
        (λ no. absurd (ground (arith, may, no)))
        λ go. (
          Step-trans E bound s₀ (Step-trans E bound s₁ (Step-trans E bound s₂ s₃)),
          all_gone _ _ _ no_timeout no_active no_later no_inserted s₂.fewer s₃.fewer,
        )
