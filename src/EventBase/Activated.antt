-- ===== src/EventBase/Activated.antt =====
-- What event_active_nolock_ and the other activations of event.c do as a whole.
use swift_event.Base.{
  ℕ, ◌<◌, ◌≡◌, ◌≢◌, inl, inr, refl, ap, ◌∙◌, Bool, true, false, if◌then◌else◌, update, update_other,
  bit_or, Bool-cases, by_if, arith,
}
use swift_event.Base.Int.{ℤ}
use swift_event.EvMap.{Eventop}
use swift_event.EventBase.{EventBase, insert_active, remove_active_later}
use swift_event.EventBase.Activate.{
  callback_activate_nolock, continue_if_urgent, set_ncalls, active_nolock,
}
use swift_event.EventBase.Queued.{IsQueued}
use swift_event.EventBase.ActiveOps.{insert_active-IsQueued, remove_active_later-IsQueued}
use swift_event.EventBase.Frame.{
  Frame, frame_refl, frame_trans, insert_active-Frame, remove_active_later-Frame,
}

module _ (E : Eventop) (bound : ℕ) where
  -- The event `e` is active now, and nothing else has changed for the queues.
  pub record Activated (b : EventBase E) (e : ℕ) (b' : EventBase E) : Type 0 where
    pub valid : IsQueued E bound b'
    pub frame : Frame E b b'
    pub on : (b'.ev_flags e).active ≡ true
    pub others : (x : ℕ) → x ≢ e → b'.ev_flags x ≡ b.ev_flags x

  module _ (b : EventBase E) (e : ℕ) (v : IsQueued E bound b) (lt : e < bound) where
    activated : ((insert_active E b e).ev_flags e).active ≡ true
    unfolding insert_active
    activated =
        by_if (λ (b' : EventBase E). (b'.ev_flags e).active ≡ true) (b.ev_flags e).active (λ on. on)
          λ off. ground arith

    active_others : (x : ℕ) → x ≢ e → (insert_active E b e).ev_flags x ≡ b.ev_flags x
    unfolding insert_active
    active_others x ne =
        by_if (λ (b' : EventBase E). b'.ev_flags x ≡ b.ev_flags x) (b.ev_flags e).active
          (λ on. refl) λ off. update_other b.ev_flags e _ x ne

    insert_active-Activated :
        (b.ev_flags e).active_later ≡ false → Activated b e (insert_active E b e)
    insert_active-Activated now = record {
      valid = insert_active-IsQueued E bound b e v lt now;
      frame = insert_active-Frame E b e;
      on = activated;
      others = active_others;
    }

    not_later : ((remove_active_later E b e).ev_flags e).active_later ≡ false
    unfolding remove_active_later
    not_later = elim (Bool-cases (b.ev_flags e).active_later) [
      | inl on ↦ rw on (ground arith)
      | inr off ↦ rw off off
    ]

    later_others : (x : ℕ) → x ≢ e → (remove_active_later E b e).ev_flags x ≡ b.ev_flags x
    unfolding remove_active_later
    later_others x ne =
        by_if (λ (b' : EventBase E). b'.ev_flags x ≡ b.ev_flags x) (b.ev_flags e).active_later
          (λ on. update_other b.ev_flags e _ x ne) λ off. refl

  -- event_callback_activate_nolock_ of a callback that is not being finalized makes it active, whether
  -- or not it was to be active later, and keeps the queues valid.
  pub callback_activate_nolock-Activated :
      (b : EventBase E) (e : ℕ)
      → IsQueued E bound b
      → e < bound
      → (b.ev_flags e).finalizing ≡ false
      → Activated b e (callback_activate_nolock E b e).1
  unfolding callback_activate_nolock
  callback_activate_nolock-Activated b e v lt not_final =
      let b₁ = remove_active_later E b e in
      let v₁ = remove_active_later-IsQueued E bound b e v lt in
      let made = insert_active-Activated b₁ e v₁ lt (not_later b e v lt) in
      let P = λ (r : ℤ × EventBase E). Activated b e r.1 in
      by_if P (b.ev_flags e).finalizing (λ final. absurd (ground (arith, final, not_final)))
        λ go.
          by_if P (b.ev_flags e).active_later
            (λ later. record {
              valid = made.valid;
              frame = frame_trans E b b₁ _ (remove_active_later-Frame E b e) made.frame;
              on = made.on;
              others = λ x ne. made.others x ne ∙ later_others b e v lt x ne;
            })
            λ none_later.
              by_if P (b.ev_flags e).active
                (λ active. record {
                  valid = v;
                  frame = frame_refl E b;
                  on = active;
                  others = λ x ne. refl;
                })
                λ off. insert_active-Activated b e v lt none_later

  -- The fields that the queues do not read
  record Quiet (b b' : EventBase E) : Type 0 where
    valid : IsQueued E bound b'
    frame : Frame E b b'
    flags : b'.ev_flags ≡ b.ev_flags

  abbrev pub kept_all :
      (b : EventBase E) {res ncalls : ℕ → ℕ} {pncalls : ℕ → Bool} {go : Bool}
      → Frame E b
          (record b { ev_res = res; ev_ncalls = ncalls; ev_pncalls = pncalls; event_continue = go })
  kept_all b = record {
    kept = (frame_refl E b).kept;
    timeheap = refl;
    ev_timeout = refl;
    now = refl;
    events = refl;
    io = refl;
  }

  set_ncalls-Quiet :
      (b : EventBase E) (e : ℕ) (res : ℕ → ℕ) (ncalls : ℕ)
      → IsQueued E bound b
      → Quiet b (set_ncalls E (continue_if_urgent E (record b { ev_res = res }) e) e ncalls)
  unfolding set_ncalls continue_if_urgent
  set_ncalls-Quiet b e res ncalls v =
      by_if (Quiet b) (b.events e).ev_events.ev_signal
        (λ sig. record { valid = v; frame = kept_all b; flags = refl })
        λ no_sig. record { valid = v; frame = kept_all b; flags = refl }

  -- event_active_nolock_ of an event that is not being finalized makes it active, keeps the queues
  -- valid, and changes no timer, no descriptor and no other event's flags.
  pub active_nolock-Activated :
      (b : EventBase E) (e res ncalls : ℕ)
      → IsQueued E bound b
      → e < bound
      → (b.ev_flags e).finalizing ≡ false
      → Activated b e (active_nolock E b e res ncalls)
  unfolding active_nolock
  active_nolock-Activated b e res ncalls v lt not_final =
      let more = bit_or (b.ev_res e) res in
      let all = update b.ev_res e (if (b.ev_flags e).active_later then more else res) in
      let b₁ = set_ncalls E (continue_if_urgent E (record b { ev_res = all }) e) e ncalls in
      let quiet = set_ncalls-Quiet b e all ncalls v in
      let still : (b₁.ev_flags e).finalizing ≡ false =
        ap (λ g. (g e).finalizing) quiet.flags ∙ not_final in
      let made = callback_activate_nolock-Activated b₁ e quiet.valid lt still in
      by_if (Activated b e) (b.ev_flags e).finalizing
        (λ final. absurd (ground (arith, final, not_final)))
        λ go.
          by_if (Activated b e) (b.ev_flags e).active
            (λ active. record { valid = v; frame = kept_all b; on = active; others = λ x ne. refl })
            λ off. record {
              valid = made.valid;
              frame = frame_trans E b b₁ _ quiet.frame made.frame;
              on = made.on;
              others = λ x ne. made.others x ne ∙ ap (λ g. g x) quiet.flags;
            }
