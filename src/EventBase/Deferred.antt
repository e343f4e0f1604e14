-- ===== src/EventBase/Deferred.antt =====
-- Callbacks that are put off: event_active_later_nolock_, event_callback_cancel_nolock_ and
-- event_deferred_cb_schedule_ of event.c.
use swift_event.Base.{
  ℕ, ◌≤◌, ◌<◌, ◌≡◌, inl, inr, refl, subst, ◌∙◌, Bool, true, false, not, ◌&&◌, ◌||◌, ltb,
  if◌then◌else◌, update, Bool-cases, by_if, arith, max,
}
use swift_event.Base.Int.{ℤ, pos, eqb_ℤ}
use swift_event.EvMap.{Eventop}
use swift_event.EventBase.{
  EventBase, insert_active, remove_active, remove_active_later, insert_active_later,
}
use swift_event.EventBase.Activate.{
  callback_activate_nolock, callback_activate_later_nolock, callback_cancel_nolock,
  active_later_nolock, deferred_cb_schedule,
}
use swift_event.EventBase.Delete.{take_active}
use swift_event.EventBase.Queued.{IsQueued}
use swift_event.EventBase.ActiveOps.{insert_active_later-IsQueued}
use swift_event.EventBase.Frame.{Frame, frame_refl, frame_trans, insert_active_later-Frame}
use swift_event.EventBase.Taken.{IsReady}
use swift_event.EventBase.Takes.{take_active-Step}
use swift_event.EventBase.Deleted.{del_nolock-Step}
use swift_event.EventBase.Activated.{kept_all, callback_activate_nolock-Activated}

module _ (E : Eventop) (bound : ℕ) where
  -- The callback waits to be run, now or later.
  abbrev pub is_waiting : EventBase E → ℕ → Bool
  is_waiting b e = (b.ev_flags e).active || (b.ev_flags e).active_later

  pub record Waits (b : EventBase E) (e : ℕ) (b' : EventBase E) : Type 0 where
    pub valid : IsQueued E bound b'
    pub frame : Frame E b b'
    pub waits : is_waiting b' e ≡ true

  later_on : (b : EventBase E) (e : ℕ) → is_waiting (insert_active_later E b e) e ≡ true
  unfolding insert_active_later
  later_on b e = elim (Bool-cases ((b.ev_flags e).active_later || (b.ev_flags e).active)) [
    | inl on ↦ rw on (ground (arith, on))
    | inr off ↦ rw off (ground arith)
  ]

  callback_activate_later-Waits :
      (b : EventBase E) (e : ℕ)
      → IsQueued E bound b
      → e < bound
      → Waits b e (callback_activate_later_nolock E b e).1
  unfolding callback_activate_later_nolock
  callback_activate_later-Waits b e v lt =
      by_if (λ (r : ℤ × EventBase E). Waits b e r.1) (is_waiting b e)
        (λ on. record { valid = v; frame = frame_refl E b; waits = on })
        λ off. record {
          valid = insert_active_later-IsQueued E bound b e v lt;
          frame = insert_active_later-Frame E b e;
          waits = later_on b e;
        }

  -- event_active_later_nolock_ leaves the event on a queue of active events, and keeps the queues
  -- valid, the timers and the descriptors.
  pub active_later_nolock-Waits :
      (b : EventBase E) (e res : ℕ)
      → IsQueued E bound b
      → e < bound
      → Waits b e (active_later_nolock E b e res)
  unfolding active_later_nolock
  active_later_nolock-Waits b e res v lt =
      by_if (Waits b e) (is_waiting b e)
        (λ on. record { valid = v; frame = kept_all E bound b; waits = on })
        λ off.
          let b₁ = record b { ev_res = update b.ev_res e res } in
          let made = callback_activate_later-Waits b₁ e v lt in
          record {
            valid = made.valid;
            frame = frame_trans E b b₁ _ (kept_all E bound b) made.frame;
            waits = made.waits;
          }

  abbrev SameCount : EventBase E → EventBase E → Type 0
  SameCount b b' = b'.n_deferreds_queued ≡ b.n_deferreds_queued

  later-SameCount : (b : EventBase E) (e : ℕ) → SameCount b (callback_activate_later_nolock E b e).1
  unfolding callback_activate_later_nolock insert_active_later
  later-SameCount b e =
      by_if (λ (r : ℤ × EventBase E). SameCount b r.1) (is_waiting b e) (λ on. refl)
        λ off.
          by_if (SameCount b) ((b.ev_flags e).active_later || (b.ev_flags e).active) (λ on. refl)
            λ none. refl

  insert-SameCount : (b : EventBase E) (e : ℕ) → SameCount b (insert_active E b e)
  unfolding insert_active
  insert-SameCount b e = by_if (SameCount b) (b.ev_flags e).active (λ on. refl) λ off. refl

  remove-SameCount : (b : EventBase E) (e : ℕ) → SameCount b (remove_active_later E b e)
  unfolding remove_active_later
  remove-SameCount b e = by_if (SameCount b) (b.ev_flags e).active_later (λ on. refl) λ off. refl

  now-SameCount : (b : EventBase E) (e : ℕ) → SameCount b (callback_activate_nolock E b e).1
  unfolding callback_activate_nolock
  now-SameCount b e =
      let P = λ (r : ℤ × EventBase E). SameCount b r.1 in
      by_if P (b.ev_flags e).finalizing (λ final. refl)
        λ go.
          by_if P (b.ev_flags e).active_later
            (λ later. insert-SameCount (remove_active_later E b e) e ∙ remove-SameCount b e)
            λ off. by_if P (b.ev_flags e).active (λ on. refl) λ idle. insert-SameCount b e

  -- A callback that waits on no queue is put off to the next round.
  later_only :
      (b : EventBase E) (e : ℕ)
      → is_waiting b e ≡ false
      → let f = (callback_activate_later_nolock E b e).1.ev_flags e in
        (f.active_later ≡ true) × (f.active ≡ false)
  unfolding callback_activate_later_nolock insert_active_later
  later_only b e off =
      let none_yet : (b.ev_flags e).active_later || (b.ev_flags e).active ≡ false =
        ground (arith, off) in
      rw off (rw none_yet (ground (arith, off)))

  -- event_deferred_cb_schedule_ of a callback that is not being finalized, on valid queues: while at
  -- most 32 callbacks count as queued, it leaves the callback on a queue for this round; when more do,
  -- a callback that was on no queue waits for the next round, and for that only. The queues stay valid,
  -- and no callback counts beyond the first 33.
  pub deferred_cb_schedule-Waits :
      (b : EventBase E) (e : ℕ)
      → IsQueued E bound b
      → e < bound
      → (b.ev_flags e).finalizing ≡ false
      → let b' = (deferred_cb_schedule E b e).1 in
        (IsQueued E bound b')
        × (is_waiting b' e ≡ true)
        × (b.n_deferreds_queued ≤ 32 → (b'.ev_flags e).active ≡ true)
        × (32 < b.n_deferreds_queued
            → is_waiting b e ≡ false
            → ((b'.ev_flags e).active_later ≡ true) × ((b'.ev_flags e).active ≡ false))
        × (b'.n_deferreds_queued ≤ max b.n_deferreds_queued 33)
  unfolding deferred_cb_schedule
  deferred_cb_schedule-Waits b e v lt alive =
      let later = callback_activate_later-Waits b e v lt in
      let made = callback_activate_nolock-Activated E bound b e v lt alive in
      let r = callback_activate_nolock E b e in
      let P = λ (b' : EventBase E).
        (IsQueued E bound b')
        × (is_waiting b' e ≡ true)
        × (b.n_deferreds_queued ≤ 32 → (b'.ev_flags e).active ≡ true)
        × (32 < b.n_deferreds_queued
            → is_waiting b e ≡ false
            → ((b'.ev_flags e).active_later ≡ true) × ((b'.ev_flags e).active ≡ false))
        × (b'.n_deferreds_queued ≤ max b.n_deferreds_queued 33) in
      let count = now-SameCount b e in
      by_if (λ (q : ℤ × EventBase E). P q.1) (ltb 32 b.n_deferreds_queued)
        (λ many. (
          later.valid,
          later.waits,
          λ few. absurd (ground (arith, many, few)),
          λ more. later_only b e,
          omega (arith, later-SameCount b e),
        ))
        λ room.
          by_if P (eqb_ℤ r.0 (pos 0))
            (λ old. (
              made.valid,
              ground (arith, made.on),
              λ few. made.on,
              λ more. absurd (ground (arith, room, more)),
              omega (arith, count),
            ))
            λ fresh. (
              made.valid,
              ground (arith, made.on),
              λ few. made.on,
              λ more. absurd (ground (arith, room, more)),
              ground (arith, count, room),
            )

  cancel_plain :
      (b : EventBase E) (e : ℕ)
      → take_active E b e
        ≡ (if◌then◌else◌ {A = ℤ × EventBase E}
            (b.ev_flags e).active
            (pos 0, remove_active E b e)
            (pos 0, if (b.ev_flags e).active_later then remove_active_later E b e else b)).1
  unfolding take_active
  cancel_plain b e = elim (Bool-cases (b.ev_flags e).active) [
    | inl on ↦ rw on refl
    | inr off ↦ rw off refl
  ]

  -- event_callback_cancel_nolock_ of a callback or event, unless it is being finalized and that
  -- matters: it is on no queue of active callbacks afterwards, and the queues and timers stay valid.
  pub callback_cancel_nolock-IsReady :
      (b : EventBase E) (e : ℕ) (even_if_finalizing : Bool)
      → IsReady E bound b
      → e < bound
      → even_if_finalizing || not (b.ev_flags e).finalizing ≡ true
      → let b' = (callback_cancel_nolock E b e even_if_finalizing).1 in
        IsReady E bound b' × (is_waiting b' e ≡ false)
  unfolding callback_cancel_nolock
  callback_cancel_nolock-IsReady b e even_if_finalizing v lt may =
      let P = λ (b' : EventBase E). IsReady E bound b' × (is_waiting b' e ≡ false) in
      let Q = λ (r : ℤ × EventBase E). P r.1 in
      let (step, gone) = del_nolock-Step E bound b e even_if_finalizing v lt may in
      let (step', off, no_later) = take_active-Step E bound b e v lt in
      by_if Q ((b.ev_flags e).finalizing && not even_if_finalizing)
        (λ final. absurd (ground (arith, may, final)))
        λ go.
          by_if Q (b.ev_flags e).init (λ init. (step.ready, ground (arith, gone)))
            λ plain. subst P (cancel_plain b e) (step'.ready, ground (arith, off, no_later))
