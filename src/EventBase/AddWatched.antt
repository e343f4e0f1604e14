-- ===== src/EventBase/AddWatched.antt =====
-- event_add_nolock_ keeps the backend in step with the events that are inserted.
use swift_event.Base.{
  ℕ, ◌≡◌, ◌≢◌, inl, inr, refl, Bool, true, false, not, ◌&&◌, ◌||◌, ◌==◌, update, update_map, Option,
  none, some, bit_and, Bool-cases, by_if, arith,
}
use swift_event.Base.Int.{ℤ, negsuc, eqb_ℤ}
use swift_event.Time.{Timeval}
use swift_event.Events.{Flags, wants_io}
use swift_event.EvMap.{Eventop, IoMap, io_add}
use swift_event.EvMap.Signals.{SigMap, sig_add}
use swift_event.EventBase.{EventBase, insert_inserted, insert_timeout}
use swift_event.EventBase.Delete.{abort_loop, take_timeout}
use swift_event.EventBase.Insert.{
  is_persist, reserve_timeout, evmap_add, note_inserted, put_inserted, take_fired, remember_timeout,
  set_timeout, put_timeout, add_reserved, add_nolock,
}
use swift_event.EventBase.Frame.{remove_active-Frame}
use swift_event.EventBase.PutIn.{refused}
use swift_event.EventBase.Watching.{
  Watching, same-Watching, flag-Watching, io_add-Watching, io_add_fails-Watching,
}
use swift_event.EventBase.Watched.{
  IsWatching, frame-IsWatching, flags-IsWatching, abort_loop-IsWatching, take_timeout-IsWatching,
}

module _ (E : Eventop) where
  module _ (b : EventBase E) (e : ℕ) (v : IsWatching E b) where
    -- The flag follows the map.
    note_inserted-IsWatching :
        (r : ℤ) (m : IoMap E) (s : SigMap)
        → (b.ev_flags e).inserted ≡ false
        → (r ≡ negsuc 0 → Watching E b.events (λ x. (b.ev_flags x).inserted) m)
        → (r ≢ negsuc 0 → Watching E b.events (update (λ x. (b.ev_flags x).inserted) e true) m)
        → IsWatching E (note_inserted E e (r, record b { io = m; sigmap = s })).1
    unfolding insert_inserted
    note_inserted-IsWatching r m s off fails works =
        let f : Flags = record (b.ev_flags e) { inserted = true } in
        by_if (λ (q : ℤ × EventBase E). IsWatching E q.1) (eqb_ℤ r (negsuc 0))
          (λ is_it. record { agree = fails (refused r is_it) })
          λ went. rw off (record {
            agree =
                same-Watching E b.events (update_map b.ev_flags e f (λ (g : Flags). g.inserted))
                  (works (λ same. ground (arith, same, went)));
          })

    put_inserted-IsWatching : IsWatching E (put_inserted E b e).1
    unfolding put_inserted evmap_add
    put_inserted-IsWatching =
        let ev = (b.events e).ev_events in
        let f = b.ev_flags e in
        let ins = λ (x : ℕ). (b.ev_flags x).inserted in
        let fd = (b.events e).ev_fd in
        by_if (λ (q : ℤ × EventBase E). IsWatching E q.1)
          ((wants_io ev || ev.ev_signal) && not (f.inserted || (f.active || f.active_later)))
          (λ fresh.
            let off : f.inserted ≡ false = ground (arith, fresh) in
            elim (Bool-cases (wants_io ev)) [
              | inl io ↦
                  let r = io_add E b.io fd e ev in
                  rw io (
                    note_inserted-IsWatching r.0 r.1 b.sigmap off
                      (io_add_fails-Watching E b.events ins b.io e v.agree fd)
                      (io_add-Watching E b.events ins b.io e v.agree fd refl io off))
              | inr no_io ↦
                  let r = sig_add b.sigmap fd e in
                  rw no_io (
                    note_inserted-IsWatching r.0 b.io r.1 off (λ failed. v.agree)
                      (λ works.
                        flag-Watching E b.events ins b.io e v.agree true
                          (λ k. ground (arith, no_io))))
            ])
          λ old. v

  take_fired-IsWatching :
      (b : EventBase E) (e : ℕ) → IsWatching E b → IsWatching E (take_fired E b e)
  unfolding take_fired
  take_fired-IsWatching b e v =
      by_if (IsWatching E) ((b.ev_flags e).active && not (bit_and (b.ev_res e) 1 == 0))
        (λ fired.
          frame-IsWatching E _ _ (remove_active-Frame E (abort_loop E b e) e)
            (abort_loop-IsWatching E b e v))
        λ quiet. v

  remember_timeout-IsWatching :
      (b : EventBase E) (e : ℕ) (tv : Timeval) (tv_is_absolute : Bool)
      → IsWatching E b
      → IsWatching E (remember_timeout E b e tv tv_is_absolute)
  unfolding remember_timeout
  remember_timeout-IsWatching b e tv tv_is_absolute v =
      by_if (IsWatching E) (is_persist (b.events e).ev_closure && not tv_is_absolute)
        (λ keep. record { agree = v.agree }) λ forget. v

  insert_timeout-IsWatching :
      (b : EventBase E) (e : ℕ) → IsWatching E b → IsWatching E (insert_timeout E b e)
  unfolding insert_timeout
  insert_timeout-IsWatching b e v =
      by_if (IsWatching E) (b.ev_flags e).timeout (λ on. v)
        λ off. record {
          agree = flags-IsWatching E b e (record (b.ev_flags e) { timeout = true }) refl v;
        }

  put_timeout-IsWatching :
      (b : EventBase E) (e : ℕ) (tv : Timeval) (tv_is_absolute : Bool)
      → IsWatching E b
      → IsWatching E (put_timeout E b e tv tv_is_absolute)
  unfolding put_timeout set_timeout
  put_timeout-IsWatching b e tv tv_is_absolute v =
      let b₁ = remember_timeout E b e tv tv_is_absolute in
      let v₃ =
        take_fired-IsWatching (take_timeout E b₁ e) e
          (take_timeout-IsWatching E b₁ e (remember_timeout-IsWatching b e tv tv_is_absolute v)) in
      insert_timeout-IsWatching _ e (record { agree = v₃.agree })

  reserved-IsWatching :
      (b : EventBase E) (e : ℕ) (tv : Option Timeval) (tv_is_absolute : Bool)
      → IsWatching E b
      → IsWatching E (add_reserved E e tv tv_is_absolute (true, b)).1
  reserved-IsWatching b e none tv_is_absolute v = put_inserted-IsWatching b e v
  reserved-IsWatching b e (some tv) tv_is_absolute v =
      let put = put_inserted-IsWatching b e v in
      by_if (IsWatching E) (eqb_ℤ (put_inserted E b e).0 (negsuc 0)) (λ failed. put)
        λ went. put_timeout-IsWatching (put_inserted E b e).1 e tv tv_is_absolute put

  any-IsWatching :
      (t : Bool) (b : EventBase E) (e : ℕ) (tv : Option Timeval) (tv_is_absolute : Bool)
      → IsWatching E b
      → IsWatching E (add_reserved E e tv tv_is_absolute (t, b)).1
  any-IsWatching true b e tv tv_is_absolute v = reserved-IsWatching b e tv tv_is_absolute v
  any-IsWatching false b e tv tv_is_absolute v = v

  reserve_timeout-IsWatching :
      (b : EventBase E) (e : ℕ) (tv : Option Timeval)
      → IsWatching E b
      → IsWatching E (reserve_timeout E b e tv).1
  unfolding reserve_timeout
  reserve_timeout-IsWatching b e none v = v
  reserve_timeout-IsWatching b e (some tv) v =
      by_if (λ (q : Bool × EventBase E). IsWatching E q.1) (b.ev_flags e).timeout (λ on. v)
        λ off. record { agree = v.agree }

  -- event_add_nolock_, whether it succeeds or fails at any step, keeps the backend watching each
  -- descriptor for exactly what the events that are inserted want, and each event on the list of its
  -- descriptor exactly while it is inserted.
  pub add_nolock-IsWatching :
      (b : EventBase E) (e : ℕ) (tv : Option Timeval) (tv_is_absolute : Bool)
      → IsWatching E b
      → IsWatching E (add_nolock E b e tv tv_is_absolute).1
  unfolding add_nolock
  add_nolock-IsWatching b e tv tv_is_absolute v =
      let q = reserve_timeout E b e tv in
      by_if (λ (r : ℤ × EventBase E). IsWatching E r.1) (b.ev_flags e).finalizing (λ final. v)
        λ go. any-IsWatching q.0 q.1 e tv tv_is_absolute (reserve_timeout-IsWatching b e tv v)
