-- ===== src/EventBase/ActiveOps.antt =====
-- The queues of active events, of event.c, keep the invariant of the queues.
use swift_event.Base.{
  ℕ, ◌<◌, ◌≡◌, ◌≢◌, inl, inr, refl, sym, ap, ◌∙◌, Bool, true, false, ◌&&◌, ◌||◌, List, [], ◌∷◌,
  ◌++◌, ◌==◌, ==_iff, update, to_ℕ, occurs, remove_first, taken_self, taken_other, put_self,
  put_other, Bool-cases, by_if, arith,
}
use swift_event.Base.Int.{ℤ, pos, ◌+ℤ◌}
use swift_event.Events.{Flags}
use swift_event.EvMap.{Eventop}
use swift_event.EventBase.{
  EventBase, remove_active, insert_active, remove_active_later, insert_active_later, make_active,
}
use swift_event.EventBase.Queued.{weight, waiting, Queued, change-Queued, IsQueued}
use swift_event.EventBase.QueueOps.{less_by, more_by, count_down, count_up}

module _ (E : Eventop) (bound : ℕ) where
  module _ (b : EventBase E) (e : ℕ) (v : IsQueued E bound b) (lt : e < bound) where
    abbrev f : Flags
    f = b.ev_flags e

    abbrev pri : ℕ → ℕ
    pri x = (b.events x).ev_pri

    -- The queue of the event's priority becomes `l`.
    queue_at :
        (on : Bool) (l : List ℕ)
        → occurs e l ≡ to_ℕ on
        → (p : ℕ) → occurs e (update b.activequeues (pri e) l p) ≡ to_ℕ (on && (pri e == p))
    queue_at on l at p = elim (Bool-cases (p == pri e)) [
      | inl here ↦ rw here (ground (arith, at, here))
      | inr off ↦ rw off (ground (arith, v.on_active e p, off))
    ]

    queue_rest :
        (l : List ℕ)
        → ((x : ℕ) → x ≢ e → occurs x l ≡ occurs x (b.activequeues (pri e)))
        → (x p : ℕ) → x ≢ e
        → occurs x (update b.activequeues (pri e) l p) ≡ occurs x (b.activequeues p)
    queue_rest l rest x p ne = elim (Bool-cases (p == pri e)) [
      | inl here ↦
          rw here
            (rest x ne ∙ ap (λ q. occurs x (b.activequeues q)) (sym ((==_iff p (pri e)).0 here)))
      | inr off ↦ rw off refl
    ]

    -- The event goes on or off the queue of its priority.
    module _ (f' : Flags) (l : List ℕ) {n k : ℤ} (later : f'.active_later ≡ f.active_later) where
      active-Queued :
          occurs e l ≡ to_ℕ f'.active
          → ((x : ℕ) → x ≢ e → occurs x l ≡ occurs x (b.activequeues (pri e)))
          → (f'.active ≡ true → f.active_later ≡ false)
          → n +ℤ pos (weight f) ≡ b.event_count +ℤ pos (weight f')
          → k +ℤ pos (waiting f) ≡ b.event_count_active +ℤ pos (waiting f')
          → Queued pri bound
              (update b.ev_flags e f')
              (update b.activequeues (pri e) l)
              b.active_later_queue
              n
              k
      active-Queued at rest excl =
          change-Queued pri bound e f' v lt (queue_at f'.active l at) (queue_rest l rest)
            (v.on_later e ∙ ap to_ℕ (sym later)) (λ x ne. refl) (λ on. later ∙ excl on)

    -- The event goes on or off the queue of those that are active later.
    module _ (f' : Flags) (l : List ℕ) {n k : ℤ} (active : f'.active ≡ f.active) where
      later-Queued :
          occurs e l ≡ to_ℕ f'.active_later
          → ((x : ℕ) → x ≢ e → occurs x l ≡ occurs x b.active_later_queue)
          → (f.active ≡ true → f'.active_later ≡ false)
          → n +ℤ pos (weight f) ≡ b.event_count +ℤ pos (weight f')
          → k +ℤ pos (waiting f) ≡ b.event_count_active +ℤ pos (waiting f')
          → Queued pri bound (update b.ev_flags e f') b.activequeues l n k
      later-Queued at rest excl counts counts_active =
          change-Queued pri bound e f' v lt
            (λ p. v.on_active e p ∙ ap (λ t. to_ℕ (t && (pri e == p))) (sym active))
            (λ x p ne. refl) at rest (λ on. excl (sym active ∙ on)) counts counts_active

    on_queue : f.active ≡ true → occurs e (b.activequeues (pri e)) ≡ 1
    on_queue on = v.on_active e (pri e) ∙ ground (arith, on)

    pub remove_active-IsQueued : IsQueued E bound (remove_active E b e)
    unfolding remove_active
    remove_active-IsQueued =
        let f' : Flags = record f { active = false } in
        let q = b.activequeues (pri e) in
        by_if (IsQueued E bound) f.active
          (λ on.
            let there : 0 < occurs e q = omega (arith, on_queue on) in
            active-Queued f' (remove_first e q) refl
              (omega (arith, on_queue on, taken_self e q there))
              (λ x ne. taken_other e x q there ne) (λ no. absurd (ground arith))
              (count_down b.event_count f f' (ground (arith, on)) refl)
              (less_by b.event_count_active 1 (waiting f) (waiting f') (ground (arith, on))))
          λ off. v

    pub insert_active-IsQueued : f.active_later ≡ false → IsQueued E bound (insert_active E b e)
    unfolding insert_active
    insert_active-IsQueued now =
        let f' : Flags = record f { active = true } in
        let q = b.activequeues (pri e) in
        by_if (IsQueued E bound) f.active (λ on. v)
          λ off.
            active-Queued f' (q ++ e ∷ []) refl
              (ground (arith, off, v.on_active e (pri e), put_self e q))
              (λ x ne. put_other e x q ne) (λ on. now)
              (count_up b.event_count f f' (ground (arith, off)) refl)
              (more_by b.event_count_active 1 (waiting f) (waiting f') (ground (arith, off)))

    pub remove_active_later-IsQueued : IsQueued E bound (remove_active_later E b e)
    unfolding remove_active_later
    remove_active_later-IsQueued =
        let f' : Flags = record f { active_later = false } in
        let q = b.active_later_queue in
        by_if (IsQueued E bound) f.active_later
          (λ on.
            let one : occurs e q ≡ 1 = v.on_later e ∙ ap to_ℕ on in
            let there : 0 < occurs e q = omega (arith, one) in
            later-Queued f' (remove_first e q) refl (omega (arith, one, taken_self e q there))
              (λ x ne. taken_other e x q there ne) (λ active. refl)
              (count_down b.event_count f f' (ground (arith, on)) refl)
              (less_by b.event_count_active 1 (waiting f) (waiting f') (ground (arith, on))))
          λ off. v

    pub insert_active_later-IsQueued : IsQueued E bound (insert_active_later E b e)
    unfolding insert_active_later
    insert_active_later-IsQueued =
        let f' : Flags = record f { active_later = true } in
        let q = b.active_later_queue in
        by_if (IsQueued E bound) (f.active_later || f.active) (λ on. v)
          λ off.
            let apart : f.active_later ≡ false = ground (arith, off) in
            later-Queued f' (q ++ e ∷ []) refl (ground (arith, apart, v.on_later e, put_self e q))
              (λ x ne. put_other e x q ne) (λ active. absurd (ground (arith, off, active)))
              (count_up b.event_count f f' (ground (arith, apart)) refl)
              (more_by b.event_count_active 1 (waiting f) (waiting f') (ground (arith, apart)))

    pub make_active-IsQueued :
        (later : List ℕ)
        → b.active_later_queue ≡ e ∷ later
        → IsQueued E bound (make_active E b e later)
    unfolding make_active
    make_active-IsQueued later at =
        let f' : Flags = record f { active_later = false; active = true } in
        let q = b.activequeues (pri e) in
        let on : to_ℕ f.active_later ≡ occurs e (e ∷ later) =
          sym (v.on_later e) ∙ ap (occurs e) at in
        let was : f.active_later ≡ true = ground (arith, on) in
        let apart : f.active ≡ false = ground (arith, v.apart e, was) in
        change-Queued pri bound e f' v lt
          (queue_at true (q ++ e ∷ []) (ground (arith, apart, v.on_active e (pri e), put_self e q)))
          (queue_rest (q ++ e ∷ []) (λ x ne. put_other e x q ne)) (ground (arith, on))
          (λ x ne. sym (ap (occurs x) at ∙ ground (arith, ne))) (λ active. refl)
          (ap (λ w. b.event_count +ℤ pos w) (ground (arith, was, apart)))
          (ap (λ w. b.event_count_active +ℤ pos w) (ground (arith, was, apart)))
