-- ===== src/EventBase/Kinds.antt =====
-- What event_del_nolock_ of event.c leaves alone: which events are internal, and the number of
-- priorities.
use swift_event.Base.{ℕ, ◌≡◌, refl, ◌∙◌, Bool, not, ◌&&◌, ◌==◌, update, update_all, by_if}
use swift_event.Base.Int.{ℤ}
use swift_event.Events.{Flags, wants_io}
use swift_event.EvMap.{Eventop}
use swift_event.EventBase.{
  EventBase, remove_inserted, insert_inserted, remove_active, remove_active_later, remove_timeout,
  insert_timeout,
}
use swift_event.EventBase.Delete.{
  abort_loop, take_timeout, take_active, evmap_del, take_inserted, del_nolock,
}

module _ (E : Eventop) where
  pub record SameKinds (b b' : EventBase E) : Type 0 where
    pub internal : (x : ℕ) → (b'.ev_flags x).internal ≡ (b.ev_flags x).internal
    pub nactivequeues : b'.nactivequeues ≡ b.nactivequeues

  pub SameKinds-refl : (b : EventBase E) → SameKinds b b
  SameKinds-refl b = record { internal = λ x. refl; nactivequeues = refl }

  pub SameKinds-trans :
      {b b' b'' : EventBase E} → SameKinds b b' → SameKinds b' b'' → SameKinds b b''
  SameKinds-trans p q = record {
    internal = λ x. q.internal x ∙ p.internal x;
    nactivequeues = q.nactivequeues ∙ p.nactivequeues;
  }

  same_internal :
      (flags : ℕ → Flags) (e : ℕ) (f : Flags)
      → f.internal ≡ (flags e).internal
      → (x : ℕ) → (update flags e f x).internal ≡ (flags x).internal
  same_internal flags e f same =
      update_all flags e f (λ g h. h.internal ≡ g.internal) (λ g. refl) same

  -- One of the flags of queues changes.
  remove_inserted-SameKinds : (b : EventBase E) (e : ℕ) → SameKinds b (remove_inserted E b e)
  unfolding remove_inserted
  remove_inserted-SameKinds b e =
      by_if (SameKinds b) (b.ev_flags e).inserted
        (λ on. record { internal = same_internal b.ev_flags e _ refl; nactivequeues = refl })
        λ off. SameKinds-refl b

  pub insert_inserted-SameKinds : (b : EventBase E) (e : ℕ) → SameKinds b (insert_inserted E b e)
  unfolding insert_inserted
  insert_inserted-SameKinds b e =
      by_if (SameKinds b) (b.ev_flags e).inserted (λ on. SameKinds-refl b)
        λ off. record { internal = same_internal b.ev_flags e _ refl; nactivequeues = refl }

  pub remove_active-SameKinds : (b : EventBase E) (e : ℕ) → SameKinds b (remove_active E b e)
  unfolding remove_active
  remove_active-SameKinds b e =
      by_if (SameKinds b) (b.ev_flags e).active
        (λ on. record { internal = same_internal b.ev_flags e _ refl; nactivequeues = refl })
        λ off. SameKinds-refl b

  remove_active_later-SameKinds :
      (b : EventBase E) (e : ℕ) → SameKinds b (remove_active_later E b e)
  unfolding remove_active_later
  remove_active_later-SameKinds b e =
      by_if (SameKinds b) (b.ev_flags e).active_later
        (λ on. record { internal = same_internal b.ev_flags e _ refl; nactivequeues = refl })
        λ off. SameKinds-refl b

  remove_timeout-SameKinds : (b : EventBase E) (e : ℕ) → SameKinds b (remove_timeout E b e)
  unfolding remove_timeout
  remove_timeout-SameKinds b e =
      by_if (SameKinds b) (b.ev_flags e).timeout
        (λ on. record { internal = same_internal b.ev_flags e _ refl; nactivequeues = refl })
        λ off. SameKinds-refl b

  pub insert_timeout-SameKinds : (b : EventBase E) (e : ℕ) → SameKinds b (insert_timeout E b e)
  unfolding insert_timeout
  insert_timeout-SameKinds b e =
      by_if (SameKinds b) (b.ev_flags e).timeout (λ on. SameKinds-refl b)
        λ off. record { internal = same_internal b.ev_flags e _ refl; nactivequeues = refl }

  pub abort_loop-SameKinds : (b : EventBase E) (e : ℕ) → SameKinds b (abort_loop E b e)
  unfolding abort_loop
  abort_loop-SameKinds b e =
      by_if (SameKinds b)
        ((b.events e).ev_events.ev_signal && (not (b.ev_ncalls e == 0) && b.ev_pncalls e))
        (λ on. record { internal = λ x. refl; nactivequeues = refl }) λ off. SameKinds-refl b

  -- Deletion
  pub take_timeout-SameKinds : (b : EventBase E) (e : ℕ) → SameKinds b (take_timeout E b e)
  unfolding take_timeout
  take_timeout-SameKinds b e =
      by_if (SameKinds b) (b.ev_flags e).timeout (λ on. remove_timeout-SameKinds b e)
        λ off. SameKinds-refl b

  take_active-SameKinds : (b : EventBase E) (e : ℕ) → SameKinds b (take_active E b e)
  unfolding take_active
  take_active-SameKinds b e =
      by_if (SameKinds b) (b.ev_flags e).active (λ on. remove_active-SameKinds b e)
        λ off.
          by_if (SameKinds b) (b.ev_flags e).active_later (λ on. remove_active_later-SameKinds b e)
            λ off. SameKinds-refl b

  take_inserted-SameKinds : (b : EventBase E) (e : ℕ) → SameKinds b (take_inserted E b e).1
  unfolding take_inserted evmap_del
  take_inserted-SameKinds b e =
      let taken = remove_inserted-SameKinds b e in
      by_if (λ (r : ℤ × EventBase E). SameKinds b r.1) (b.ev_flags e).inserted
        (λ on.
          by_if (λ (r : ℤ × EventBase E). SameKinds b r.1)
            (wants_io ((remove_inserted E b e).events e).ev_events)
            (λ io. record { internal = taken.internal; nactivequeues = taken.nactivequeues })
            λ sig. record { internal = taken.internal; nactivequeues = taken.nactivequeues })
        λ off. SameKinds-refl b

  pub del_nolock-SameKinds :
      (b : EventBase E) (e : ℕ) (even : Bool) → SameKinds b (del_nolock E b e even).1
  unfolding del_nolock
  del_nolock-SameKinds b e even =
      by_if (λ (r : ℤ × EventBase E). SameKinds b r.1) (not even && (b.ev_flags e).finalizing)
        (λ final. SameKinds-refl b)
        λ on. SameKinds-trans (abort_loop-SameKinds b e) (
          SameKinds-trans (take_timeout-SameKinds (abort_loop E b e) e) (
            SameKinds-trans (take_active-SameKinds (take_timeout E (abort_loop E b e) e) e)
              (take_inserted-SameKinds (take_active E (take_timeout E (abort_loop E b e) e) e) e)))
