-- ===== src/EventBase/Watched.antt =====
-- Adding and deleting events keeps the backend in step with the events that are inserted.
use swift_event.Base.{
  ℕ, ◌≡◌, ◌≢◌, inl, inr, refl, sym, ap, subst, Bool, false, not, ◌&&◌, ◌==◌, update, update_map,
  update_all, Bool-cases, by_if, arith,
}
use swift_event.Base.Int.{ℤ, negsuc}
use swift_event.Events.{Flags, wants_io}
use swift_event.EvMap.{Eventop}
use swift_event.EventBase.{EventBase, remove_inserted, remove_timeout}
use swift_event.EventBase.Delete.{
  settle, abort_loop, take_timeout, take_active, evmap_del, take_inserted, del_nolock,
}
use swift_event.EventBase.Frame.{Frame, remove_active-Frame, remove_active_later-Frame}
use swift_event.EventBase.Watching.{Watching, same-Watching, flag-Watching, io_del-Watching}

module _ (E : Eventop) where
  pub record IsWatching (b : EventBase E) : Type 0 where
    pub agree : Watching E b.events (λ e. (b.ev_flags e).inserted) b.io

  pub frame-IsWatching : (b b' : EventBase E) → Frame E b b' → IsWatching b → IsWatching b'
  frame-IsWatching b b' frame v = record {
    agree =
        subst (λ ev. Watching E ev (λ e. (b'.ev_flags e).inserted) b'.io) (sym frame.events)
          (subst (Watching E b.events (λ e. (b'.ev_flags e).inserted)) (sym frame.io)
            (same-Watching E b.events (λ e. (frame.kept e).inserted) v.agree));
  }

  -- One event changes its flags, but for that it is inserted or not.
  pub flags-IsWatching :
      (b : EventBase E) (e : ℕ) (f : Flags)
      → f.inserted ≡ (b.ev_flags e).inserted
      → IsWatching b
      → Watching E b.events (λ x. (update b.ev_flags e f x).inserted) b.io
  flags-IsWatching b e f same v =
      same-Watching E b.events
        (update_all b.ev_flags e f (λ g g'. g'.inserted ≡ g.inserted) (λ g. refl) same) v.agree

  pub abort_loop-IsWatching :
      (b : EventBase E) (e : ℕ) → IsWatching b → IsWatching (abort_loop E b e)
  unfolding abort_loop
  abort_loop-IsWatching b e v =
      by_if IsWatching
        ((b.events e).ev_events.ev_signal && (not (b.ev_ncalls e == 0) && b.ev_pncalls e))
        (λ abort. record { agree = v.agree }) λ go. v

  pub take_timeout-IsWatching :
      (b : EventBase E) (e : ℕ) → IsWatching b → IsWatching (take_timeout E b e)
  unfolding take_timeout remove_timeout
  take_timeout-IsWatching b e v = elim (Bool-cases (b.ev_flags e).timeout) [
    | inl on ↦ rw on (record { agree = flags-IsWatching b e _ refl v })
    | inr off ↦ rw off v
  ]

  take_active-IsWatching : (b : EventBase E) (e : ℕ) → IsWatching b → IsWatching (take_active E b e)
  unfolding take_active
  take_active-IsWatching b e v =
      by_if IsWatching (b.ev_flags e).active
        (λ on. frame-IsWatching b _ (remove_active-Frame E b e) v)
        λ off.
          by_if IsWatching (b.ev_flags e).active_later
            (λ on. frame-IsWatching b _ (remove_active_later-Frame E b e) v) λ idle. v

  take_inserted-IsWatching :
      (b : EventBase E) (e : ℕ)
      → IsWatching b
      → (take_inserted E b e).0 ≢ negsuc 0
      → IsWatching (take_inserted E b e).1
  unfolding take_inserted remove_inserted evmap_del
  take_inserted-IsWatching b e v = elim (Bool-cases (b.ev_flags e).inserted) [
    | inr off ↦ rw off (λ ok. v)
    | inl on ↦
        let f : Flags = record (b.ev_flags e) { inserted = false } in
        let flags = update_map b.ev_flags e f (λ (g : Flags). g.inserted) in
        elim (Bool-cases (wants_io (b.events e).ev_events)) [
          | inl io ↦
              rw (on, io)
                (λ ok. record {
                  agree = same-Watching E b.events flags (
                      io_del-Watching E b.events _ b.io e v.agree (b.events e).ev_fd refl io on
                        (λ same. ok (ap settle same)));
                })
          | inr no_io ↦
              rw (on, no_io)
                (λ ok. record {
                  agree = same-Watching E b.events flags (
                      flag-Watching E b.events _ b.io e v.agree false (λ k. ground (arith, no_io)));
                })
        ]
  ]

  -- event_del_nolock_ keeps the backend watching each descriptor for exactly what the events that are
  -- still inserted want, unless it returns -1 because the backend has refused.
  pub del_nolock-IsWatching :
      (b : EventBase E) (e : ℕ) (even_if_finalizing : Bool)
      → IsWatching b
      → (del_nolock E b e even_if_finalizing).0 ≢ negsuc 0
      → IsWatching (del_nolock E b e even_if_finalizing).1
  unfolding del_nolock
  del_nolock-IsWatching b e even_if_finalizing v =
      by_if (λ (r : ℤ × EventBase E). r.0 ≢ negsuc 0 → IsWatching r.1)
        (not even_if_finalizing && (b.ev_flags e).finalizing) (λ final ok. v)
        λ go. take_inserted-IsWatching (take_active E (take_timeout E (abort_loop E b e) e) e) e (
          take_active-IsWatching (take_timeout E (abort_loop E b e) e) e
            (take_timeout-IsWatching (abort_loop E b e) e (abort_loop-IsWatching b e v)))
