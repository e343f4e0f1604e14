-- ===== src/EventBase/PutIn.antt =====
-- The first half of event_add_nolock_: the event is put into the map for its descriptor or signal.
use swift_event.Base.{
  ℕ, ◌<◌, ◌≡◌, ◌≢◌, inl, inr, refl, ap, subst, Bool, true, false, not, ◌&&◌, ◌||◌, if_false,
  update_at, update_other, update_all, Bool-cases, by_if, arith,
}
use swift_event.Base.Int.{ℤ, pos, negsuc, eqb_ℤ}
use swift_event.Events.{Flags, wants_io}
use swift_event.EvMap.{Eventop, IoMap, io_add}
use swift_event.EvMap.Signals.{SigMap, sig_add}
use swift_event.EventBase.{EventBase, insert_inserted}
use swift_event.EventBase.Delete.{settle}
use swift_event.EventBase.Insert.{evmap_add, note_inserted, put_inserted}
use swift_event.EventBase.Queued.{IsQueued}
use swift_event.EventBase.QueueOps.{insert_inserted-IsQueued}
use swift_event.EventBase.Timed.{kept-Timed}
use swift_event.EventBase.Taken.{IsReady}

settled : (r : ℤ) → eqb_ℤ r (negsuc 0) ≡ false → settle r ≢ negsuc 0
settled (pos n) ok same = ground (arith, same)
settled (negsuc n) ok same = ground (arith, ok, same)

pub refused : (r : ℤ) → eqb_ℤ r (negsuc 0) ≡ true → r ≡ negsuc 0
refused (pos n) is_it = absurd (ground (arith, is_it))
refused (negsuc n) is_it = ground (arith, is_it)

module _ (E : Eventop) (bound : ℕ) where
  -- event_add_nolock_ asks the maps for this event.
  abbrev pub is_new : EventBase E → ℕ → Bool
  is_new b e =
      let ev = (b.events e).ev_events in
      let f = b.ev_flags e in
      (wants_io ev || ev.ev_signal) && not (f.inserted || (f.active || f.active_later))

  -- What the first half has done
  pub record PutIn (b : EventBase E) (e : ℕ) (r : ℤ × EventBase E) : Type 0 where
    pub ready : IsReady E bound r.1
    pub timeheap : r.1.timeheap ≡ b.timeheap
    pub ev_timeout : r.1.ev_timeout ≡ b.ev_timeout
    pub now : r.1.now ≡ b.now
    pub others : (x : ℕ) → x ≢ e → r.1.ev_flags x ≡ b.ev_flags x
    pub timeout : (r.1.ev_flags e).timeout ≡ (b.ev_flags e).timeout
    pub finalizing : (r.1.ev_flags e).finalizing ≡ (b.ev_flags e).finalizing
    pub fails : r.0 ≡ negsuc 0 → r.1.ev_flags ≡ b.ev_flags
    pub inserted : r.0 ≢ negsuc 0 → is_new b e ≡ true → (r.1.ev_flags e).inserted ≡ true

  module _ (b : EventBase E) (e : ℕ) (v : IsReady E bound b) (lt : e < bound) where
    unchanged :
        (r : ℤ) (m : IoMap E) (s : SigMap)
        → (r ≢ negsuc 0 → is_new b e ≡ false)
        → PutIn b e (r, record b { io = m; sigmap = s })
    unchanged r m s not_new = record {
      ready = record { queued = v.queued; timed = v.timed };
      timeheap = refl;
      ev_timeout = refl;
      now = refl;
      others = λ x ne. refl;
      timeout = refl;
      finalizing = refl;
      fails = λ no. refl;
      inserted = λ ok fresh. absurd (ground (arith, not_new ok, fresh));
    }

    note_inserted-PutIn :
        (r : ℤ) (m : IoMap E) (s : SigMap)
        → PutIn b e (note_inserted E e (r, record b { io = m; sigmap = s }))
    unfolding insert_inserted
    note_inserted-PutIn r m s =
        let b₁ = record b { io = m; sigmap = s } in
        let f = b.ev_flags e in
        let f' : Flags = record f { inserted = true } in
        by_if (PutIn b e) (eqb_ℤ r (negsuc 0))
          (λ no. unchanged r m s (λ ne. absurd (ne (refused r no))))
          λ ok.
            by_if (λ (b' : EventBase E). PutIn b e (settle r, b')) f.inserted
              (λ on. unchanged (settle r) m s (λ ne. ground (arith, on)))
              λ off. record {
                ready = record {
                  queued =
                      subst (IsQueued E bound) (if_false _ _ off)
                        (insert_inserted-IsQueued E bound b₁ e v.queued lt);
                  timed =
                      kept-Timed
                        (update_all b.ev_flags e f' (λ g g'. g'.timeout ≡ g.timeout) (λ g. refl)
                          refl)
                        (update_all b.ev_flags e f' (λ g g'. g'.finalizing ≡ g.finalizing)
                          (λ g. refl) refl)
                        v.timed;
                };
                timeheap = refl;
                ev_timeout = refl;
                now = refl;
                others = λ x ne. update_other b.ev_flags e f' x ne;
                timeout = ap (λ g. g.timeout) (update_at b.ev_flags e f');
                finalizing = ap (λ g. g.finalizing) (update_at b.ev_flags e f');
                fails = λ no. absurd (settled r ok no);
                inserted = λ good fresh. ap (λ g. g.inserted) (update_at b.ev_flags e f');
              }

    pub put_inserted-PutIn : PutIn b e (put_inserted E b e)
    unfolding put_inserted evmap_add
    put_inserted-PutIn =
        by_if (PutIn b e) (is_new b e)
          (λ fresh. elim (Bool-cases (wants_io (b.events e).ev_events)) [
            | inl io ↦
                let r = io_add E b.io (b.events e).ev_fd e (b.events e).ev_events in
                rw io (note_inserted-PutIn r.0 r.1 b.sigmap)
            | inr no_io ↦
                let r = sig_add b.sigmap (b.events e).ev_fd e in
                rw no_io (note_inserted-PutIn r.0 b.io r.1)
          ])
          λ old. unchanged (pos 0) b.io b.sigmap (λ ne. old)
