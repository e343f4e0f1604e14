-- ===== src/EventBase/QueueOps.antt =====
-- The event_queue_ functions of event.c keep the invariant of the queues.
use swift_event.Base.{
  ℕ, ◌+◌, ◌<◌, ◌≡◌, inl, inr, refl, sym, ap, ap₂, ◌∙◌, true, false, not, ◌&&◌, ◌==◌, update, to_ℕ,
  Bool-cases, by_if, arith,
}
use swift_event.Base.Int.{ℤ, pos, negsuc, ◌+ℤ◌, ◌-ℤ◌}
use swift_event.Events.{Flags}
use swift_event.EvMap.{Eventop}
use swift_event.EventBase.{
  EventBase, is_counted, remove_inserted, insert_inserted, remove_timeout, insert_timeout,
}
use swift_event.EventBase.Queued.{queues_of, weight, Queued, change-Queued, IsQueued}

pub less_by : (n : ℤ) (c w w' : ℕ) → w ≡ w' + c → n -ℤ pos c +ℤ pos w ≡ n +ℤ pos w'
unfolding ◌+ℤ◌ ◌-ℤ◌
less_by (pos a) c w w' less = ground (arith, less)
less_by (negsuc a) c w w' less = ground (arith, less)

pub more_by : (n : ℤ) (c w w' : ℕ) → w' ≡ w + c → n +ℤ pos c +ℤ pos w ≡ n +ℤ pos w'
unfolding ◌+ℤ◌
more_by (pos a) c w w' more = ground (arith, more)
more_by (negsuc a) c w w' more = ground (arith, more)

weight_step :
    (f f' : Flags)
    → queues_of f ≡ queues_of f' + 1
    → f'.internal ≡ f.internal
    → weight f ≡ weight f' + to_ℕ (not f.internal)
weight_step f f' less same = elim (Bool-cases f.internal) [
  | inl on ↦ rw on (rw (same ∙ on) refl)
  | inr off ↦ rw off (rw (same ∙ off) less)
]

-- One queue less, or one more
pub count_down :
    (n : ℤ) (f f' : Flags)
    → queues_of f ≡ queues_of f' + 1
    → f'.internal ≡ f.internal
    → n -ℤ is_counted f +ℤ pos (weight f) ≡ n +ℤ pos (weight f')
count_down n f f' less same = less_by n _ _ _ (weight_step f f' less same)

pub count_up :
    (n : ℤ) (f f' : Flags)
    → queues_of f' ≡ queues_of f + 1
    → f'.internal ≡ f.internal
    → n +ℤ is_counted f +ℤ pos (weight f) ≡ n +ℤ pos (weight f')
count_up n f f' more same =
    more_by n _ _ _ (weight_step f' f more (sym same) ∙ ap (λ i. weight f + to_ℕ (not i)) same)

module _ (E : Eventop) (bound : ℕ) where
  -- The queues of active events stay.
  module _ (b : EventBase E) (e : ℕ) (v : IsQueued E bound b) (lt : e < bound) (f : Flags) where
    flag-Queued :
        {n : ℤ}
        → f.active ≡ (b.ev_flags e).active
        → f.active_later ≡ (b.ev_flags e).active_later
        → n +ℤ pos (weight (b.ev_flags e)) ≡ b.event_count +ℤ pos (weight f)
        → Queued
            (λ e. (b.events e).ev_pri)
            bound
            (update b.ev_flags e f)
            b.activequeues
            b.active_later_queue
            n
            b.event_count_active
    flag-Queued active later counts =
        change-Queued (λ e. (b.events e).ev_pri) bound e f v lt
          (λ p. v.on_active e p ∙ ap (λ t. to_ℕ (t && ((b.events e).ev_pri == p))) (sym active))
          (λ x p ne. refl) (v.on_later e ∙ ap to_ℕ (sym later)) (λ x ne. refl)
          (λ on. later ∙ v.apart e (sym active ∙ on)) counts
          (ap₂ (λ s t. b.event_count_active +ℤ pos (to_ℕ s + to_ℕ t)) (sym active) (sym later))

  module _ (b : EventBase E) (e : ℕ) (v : IsQueued E bound b) (lt : e < bound) where
    abbrev f : Flags
    f = b.ev_flags e

    abbrev pri : ℕ → ℕ
    pri x = (b.events x).ev_pri

    pub remove_inserted-IsQueued : IsQueued E bound (remove_inserted E b e)
    unfolding remove_inserted
    remove_inserted-IsQueued =
        let f' : Flags = record f { inserted = false } in
        by_if (IsQueued E bound) f.inserted
          (λ on.
            flag-Queued b e v lt f' refl refl
              (count_down b.event_count f f' (ground (arith, on)) refl))
          λ off. v

    pub insert_inserted-IsQueued : IsQueued E bound (insert_inserted E b e)
    unfolding insert_inserted
    insert_inserted-IsQueued =
        let f' : Flags = record f { inserted = true } in
        by_if (IsQueued E bound) f.inserted (λ on. v)
          λ off.
            flag-Queued b e v lt f' refl refl
              (count_up b.event_count f f' (ground (arith, off)) refl)

    pub remove_timeout-IsQueued : IsQueued E bound (remove_timeout E b e)
    unfolding remove_timeout
    remove_timeout-IsQueued =
        let f' : Flags = record f { timeout = false } in
        by_if (IsQueued E bound) f.timeout
          (λ on.
            flag-Queued b e v lt f' refl refl
              (count_down b.event_count f f' (ground (arith, on)) refl))
          λ off. v

    pub insert_timeout-IsQueued : IsQueued E bound (insert_timeout E b e)
    unfolding insert_timeout
    insert_timeout-IsQueued =
        let f' : Flags = record f { timeout = true } in
        by_if (IsQueued E bound) f.timeout (λ on. v)
          λ off.
            flag-Queued b e v lt f' refl refl
              (count_up b.event_count f f' (ground (arith, off)) refl)
