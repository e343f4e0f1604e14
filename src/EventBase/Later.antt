-- ===== src/EventBase/Later.antt =====
-- event_queue_make_later_events_active of event.c: each round of the loop, the events that were to be
-- active later become active.
use swift_event.Base.{
  ℕ, ◌<◌, ◌≡◌, inl, inr, refl, sym, ap, subst, ◌∙◌, List, [], ◌∷◌, ◌++◌, append-nil, append_assoc,
  ◌==◌, ==_iff, if◌then◌else◌, occurs, Bool-cases, arith,
}
use swift_event.EvMap.{Eventop}
use swift_event.EventBase.{EventBase, make_active, make_later_active_on, make_later_events_active}
use swift_event.EventBase.Queued.{IsQueued, later-lt}
use swift_event.EventBase.Frame.{Frame, frame_refl, frame_trans, make_active-Frame}
use swift_event.EventBase.ActiveOps.{make_active-IsQueued}

-- The events of a list that have the priority `p`, in their order
unfoldable pub of_priority : (ℕ → ℕ) → ℕ → List ℕ → List ℕ
of_priority pri p [] = []
of_priority pri p (e ∷ es) = (if p == pri e then e ∷ of_priority pri p es else of_priority pri p es)

module _ (E : Eventop) (bound : ℕ) where
  pub record MadeActive (b : EventBase E) (l : List ℕ) (b' : EventBase E) : Type 0 where
    pub valid : IsQueued E bound b'
    pub frame : Frame E b b'
    pub none_later : b'.active_later_queue ≡ []
    pub appended :
        (p : ℕ) → b'.activequeues p ≡ b.activequeues p ++ of_priority (λ e. (b.events e).ev_pri) p l

  -- The first event goes to the end of the queue of its priority.
  one_more :
      (b : EventBase E) (e : ℕ) (later : List ℕ) (p : ℕ)
      → (make_active E b e later).activequeues p ++ of_priority (λ x. (b.events x).ev_pri) p later
        ≡ b.activequeues p ++ of_priority (λ x. (b.events x).ev_pri) p (e ∷ later)
  unfolding make_active of_priority
  one_more b e later p = elim (Bool-cases (p == (b.events e).ev_pri)) [
    | inl here ↦
        let at : p ≡ (b.events e).ev_pri = (==_iff p (b.events e).ev_pri).0 here in
        let others = of_priority (λ x. (b.events x).ev_pri) p later in
        rw here (
          append_assoc (b.activequeues (b.events e).ev_pri) (e ∷ []) others
          ∙ ap (λ q. b.activequeues q ++ e ∷ others) (sym at))
    | inr off ↦ rw off refl
  ]

  make_later_active_on-MadeActive :
      (b : EventBase E) (l : List ℕ)
      → b.active_later_queue ≡ l
      → IsQueued E bound b
      → MadeActive b l (make_later_active_on E l b)
  unfolding make_later_active_on make_active of_priority
  make_later_active_on-MadeActive b [] at v = record {
    valid = v;
    frame = frame_refl E b;
    none_later = at;
    appended = λ p. sym (append-nil (b.activequeues p));
  }
  make_later_active_on-MadeActive b (e ∷ later) at v =
      let there : 0 < occurs e b.active_later_queue =
        subst (λ q. 0 < occurs e q) (sym at) (ground (arith, (==_iff e e).1 refl)) in
      let made =
        make_later_active_on-MadeActive (make_active E b e later) later refl
          (make_active-IsQueued E bound b e v (later-lt E b bound e v there) later at) in
      record {
        valid = made.valid;
        frame =
            frame_trans E b (make_active E b e later) _ (make_active-Frame E b e later) made.frame;
        none_later = made.none_later;
        appended = λ p. made.appended p ∙ one_more b e later p;
      }

  -- event_queue_make_later_events_active keeps the invariant of the queues, leaves no event that is to be
  -- active later, and appends those events to the queues of their priorities, in their order.
  pub make_later_events_active-MadeActive :
      (b : EventBase E)
      → IsQueued E bound b
      → MadeActive b b.active_later_queue (make_later_events_active E b)
  unfolding make_later_events_active
  make_later_events_active-MadeActive b v =
      make_later_active_on-MadeActive b b.active_later_queue refl v
