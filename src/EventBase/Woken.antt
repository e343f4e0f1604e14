-- ===== src/EventBase/Woken.antt =====
-- evmap_io_active_ makes exactly the listeners active that wait for what is ready.
use swift_event.Base.{
  ℕ, ◌<◌, ◌≡◌, inl, inr, refl, sym, ap, ap₂, subst, ◌∙◌, Bool, true, false, not, ◌&&◌, Option, none,
  some, List, [], ◌∷◌, ◌==◌, ==_iff, occurs, leb, Bool-cases, by_if, arith,
}
use swift_event.Base.Int.{pos}
use swift_event.EvMap.{Eventop, EvmapIo, Mask, is_some_mask}
use swift_event.EvMap.Ops.{entry_events, listeners}
use swift_event.EventBase.{EventBase}
use swift_event.EventBase.Activate.{active_nolock}
use swift_event.EventBase.Dispatch.{shared, shared_bits, wake, wake_all, wake_slot, io_active}
use swift_event.EventBase.Queued.{IsQueued}
use swift_event.EventBase.Frame.{Frame, frame_refl, frame_trans}
use swift_event.EventBase.Activated.{Activated, active_nolock-Activated}

module _ (E : Eventop) (bound : ℕ) (events : Mask) (et : Bool) where
  -- The event waits for something that is ready, and is not being finalized.
  abbrev hears : EventBase E → ℕ → Bool
  hears b e = is_some_mask (shared (b.events e).ev_events events) && not (b.ev_flags e).finalizing

  pub record Woken (b : EventBase E) (es : List ℕ) (b' : EventBase E) : Type 0 where
    pub valid : IsQueued E bound b'
    pub frame : Frame E b b'
    pub woken : (e : ℕ) → 0 < occurs e es → hears b e ≡ true → (b'.ev_flags e).active ≡ true
    pub stays : (e : ℕ) → (b.ev_flags e).active ≡ true → (b'.ev_flags e).active ≡ true
    pub others : (e : ℕ) → occurs e es ≡ 0 → b'.ev_flags e ≡ b.ev_flags e
    deaf : (e : ℕ) → hears b e ≡ false → b'.ev_flags e ≡ b.ev_flags e

  final-active :
      (b : EventBase E) (e res ncalls : ℕ)
      → (b.ev_flags e).finalizing ≡ true
      → active_nolock E b e res ncalls ≡ b
  unfolding active_nolock
  final-active b e res ncalls final = rw final refl

  only : (x e : ℕ) → 0 < occurs x (e ∷ []) → x ≡ e
  only x e there = ground arith

  nobody : (b : EventBase E) → IsQueued E bound b → Woken b [] b
  nobody b v = record {
    valid = v;
    frame = frame_refl E b;
    woken = λ x there listens. absurd (omega (arith, there));
    stays = λ x on. on;
    others = λ x none. refl;
    deaf = λ x none. refl;
  }

  asleep : (b : EventBase E) (e : ℕ) → IsQueued E bound b → hears b e ≡ false → Woken b (e ∷ []) b
  asleep b e v no_call = record {
    valid = v;
    frame = frame_refl E b;
    woken = λ x there listens.
        let listens_e = subst (λ z. hears b z ≡ true) (only x e there) listens in
        absurd (ground (arith, listens_e, no_call));
    stays = λ x on. on;
    others = λ x none. refl;
    deaf = λ x none. refl;
  }

  called :
      (b : EventBase E) (e : ℕ) {b' : EventBase E}
      → hears b e ≡ true
      → Activated E bound b e b'
      → Woken b (e ∷ []) b'
  called b e {b'} call made = record {
    valid = made.valid;
    frame = made.frame;
    woken = λ x there listens.
        subst (λ z. (b'.ev_flags z).active ≡ true) (sym (only x e there)) made.on;
    stays = λ x on. elim (Bool-cases (x == e)) [
      | inl at ↦ subst (λ z. (b'.ev_flags z).active ≡ true) (sym ((==_iff x e).0 at)) made.on
      | inr off ↦ ap (λ f. f.active) (made.others x (λ y. ground (arith, y))) ∙ on
    ];
    others = λ x none. made.others x (λ y. ground (arith, y, none));
    deaf = λ x deaf_x.
        made.others x (λ y.
          let deaf_e = subst (λ z. hears b z ≡ false) y deaf_x in ground (arith, deaf_e, call));
  }

  wake-Woken :
      (b : EventBase E) (e : ℕ)
      → IsQueued E bound b
      → e < bound
      → Woken b (e ∷ []) (wake E b e events et)
  unfolding wake
  wake-Woken b e v lt =
      let ev = (b.events e).ev_events in
      let bits = shared_bits ev events et in
      by_if (Woken b (e ∷ [])) (is_some_mask (shared ev events))
        (λ asks. elim (Bool-cases (b.ev_flags e).finalizing) [
          | inl final ↦
              subst (Woken b (e ∷ [])) (sym (final-active b e bits 1 final))
                (asleep b e v (ground (arith, final, asks)))
          | inr alive ↦
              called b e (ground (arith, alive, asks))
                (active_nolock-Activated E bound b e bits 1 v lt alive)
        ])
        λ quiet. asleep b e v (ground (arith, quiet))

  then_all :
      {b b₁ b' : EventBase E} (e : ℕ) (es : List ℕ)
      → Woken b (e ∷ []) b₁
      → Woken b₁ es b'
      → Woken b (e ∷ es) b'
  then_all {b} {b₁} {b'} e es p q =
      let same : (x : ℕ) → hears b₁ x ≡ hears b x = λ x.
        ap₂ (λ g f. is_some_mask (shared (g x).ev_events events) && not f) p.frame.events
          (p.frame.kept x).finalizing in
      record {
        valid = q.valid;
        frame = frame_trans E b b₁ b' p.frame q.frame;
        woken = λ x there listens. elim (Bool-cases (x == e)) [
          | inl at ↦ q.stays x (p.woken x (ground (arith, at)) listens)
          | inr off ↦ q.woken x (ground (arith, there, off)) (same x ∙ listens)
        ];
        stays = λ x on. q.stays x (p.stays x on);
        others = λ x none. q.others x (omega (arith, none)) ∙ p.others x (omega (arith, none));
        deaf = λ x deaf_x. q.deaf x (same x ∙ deaf_x) ∙ p.deaf x deaf_x;
      }

  wake_all-Woken :
      (es : List ℕ) (b : EventBase E)
      → IsQueued E bound b
      → ((e : ℕ) → 0 < occurs e es → e < bound)
      → Woken b es (wake_all E es b events et)
  unfolding wake_all
  wake_all-Woken [] b v known = nobody b v
  wake_all-Woken (e ∷ es) b v known =
      let p = wake-Woken b e v (known e (ground (arith, (==_iff e e).1 refl))) in
      then_all e es p (
        wake_all-Woken es (wake E b e events et) p.valid
          (λ x there. known x (omega (arith, there))))

  -- evmap_io_active_ makes active exactly the events that wait for the descriptor and for one of the
  -- events that are ready, but for those that are being finalized; it keeps the queues valid, and
  -- changes no timer, no descriptor and no other event's flags.
  pub io_active-Woken :
      (b : EventBase E) (fd : ℕ)
      → IsQueued E bound b
      → ((e : ℕ) → 0 < occurs e (listeners E b.io fd) → e < bound)
      → fd < b.io.nentries
      → Woken b (listeners E b.io fd) (io_active E b (pos fd) events et)
  unfolding io_active wake_slot
  io_active-Woken b fd v known lt =
      by_if (Woken b (listeners E b.io fd)) (leb b.io.nentries fd)
        (λ out. absurd (ground (arith, out))) λ inside. slot-Woken (b.io.entries fd) b v known
    where
      slot-Woken :
          (o : Option EvmapIo) (b : EventBase E)
          → IsQueued E bound b
          → ((e : ℕ) → 0 < occurs e (entry_events o) → e < bound)
          → Woken b (entry_events o) (wake_slot E o b events et)
      slot-Woken none b v known = nobody b v
      slot-Woken (some c) b v known = wake_all-Woken c.events b v known
