-- ===== src/EventBase/Added.antt =====
-- event_add_nolock_ of event.c as a whole.
use swift_event.Base.{
  ℕ, ◌+◌, ◌≤◌, ◌<◌, ◌≡◌, ◌≢◌, ◌⊎◌, inl, inr, refl, ap, ◌∙◌, Bool, true, false, ltb, if◌then◌else◌,
  to_ℕ, Option, none, some, Bool-cases, by_if, arith,
}
use swift_event.Base.Int.{ℤ, pos, negsuc, eqb_ℤ}
use swift_event.Time.{Timeval, timeradd}
use swift_event.MinHeap
use swift_event.MinHeap.{MinHeap, u32, reserve}
use swift_event.MinHeap.Index.{max_n}
use swift_event.EvMap.{Eventop}
use swift_event.EventBase.{EventBase}
use swift_event.EventBase.Insert.{reserve_timeout, put_inserted, add_reserved, add_nolock}
use swift_event.EventBase.Taken.{IsReady}
use swift_event.EventBase.PutIn.{refused, is_new, put_inserted-PutIn}
use swift_event.EventBase.Scheduled.{HasRoom, put_timeout-Scheduled}

reserve-cases :
    (mem : Bool) (s : MinHeap)
    → s.n < max_n
    → (reserve mem s (u32 (1 + s.n)) ≡ (negsuc 0, s))
      ⊎ ((a : ℕ) × (s.n + 1 ≤ a) × (reserve mem s (u32 (1 + s.n)) ≡ (pos 0, record s { a = a })))
unfolding reserve
reserve-cases true s few = inr ((reserve true s (u32 (1 + s.n))).1.a, ground arith, ground arith)
reserve-cases false s few = elim (Bool-cases (ltb s.a (u32 (1 + s.n)))) [
  | inl short ↦ inl (rw short refl)
  | inr fits ↦ inr (s.a, ground arith, rw fits refl)
]

module _ (E : Eventop) (bound : ℕ) where
  abbrev pub TimerSet : EventBase E → ℕ → Option Timeval → Bool → EventBase E → Type 0
  TimerSet b e none tv_is_absolute b' =
      ((b'.ev_flags e).timeout ≡ (b.ev_flags e).timeout) × (b'.ev_timeout ≡ b.ev_timeout)
  TimerSet b e (some tv) tv_is_absolute b' =
      ((b'.ev_flags e).timeout ≡ true)
      × (b'.ev_timeout e ≡ (if tv_is_absolute then tv else timeradd b.now tv))

  -- What an addition does
  pub record Added (b : EventBase E) (e : ℕ) (tv : Option Timeval) (tv_is_absolute : Bool)
      (r : ℤ × EventBase E) : Type 0 where
    pub ready : IsReady E bound r.1
    pub others : (x : ℕ) → x ≢ e → r.1.ev_flags x ≡ b.ev_flags x
    pub times : (x : ℕ) → x ≢ e → r.1.ev_timeout x ≡ b.ev_timeout x
    pub fails : r.0 ≡ negsuc 0 → (r.1.ev_flags ≡ b.ev_flags) × (r.1.ev_timeout ≡ b.ev_timeout)
    pub inserted : r.0 ≢ negsuc 0 → is_new E bound b e ≡ true → (r.1.ev_flags e).inserted ≡ true
    pub timer : r.0 ≢ negsuc 0 → TimerSet b e tv tv_is_absolute r.1

  -- No change but the size of the heap's memory
  grown-IsReady :
      (b : EventBase E) (a : ℕ)
      → IsReady E bound b
      → b.timeheap.n ≤ a
      → IsReady E bound (record b { timeheap = record b.timeheap { a = a } })
  grown-IsReady b a v le = record {
    queued = v.queued;
    timed = record {
      in_order = record {
        indexed = record {
          forth = v.timed.in_order.indexed.forth;
          back = v.timed.in_order.indexed.back;
        };
        ordered = v.timed.in_order.ordered;
        room = le;
        fits = v.timed.in_order.fits;
      };
      on_heap = v.timed.on_heap;
      alive = v.timed.alive;
    };
  }

  untimed-Added :
      (b : EventBase E) (e : ℕ) (tv_is_absolute : Bool)
      → IsReady E bound b
      → e < bound
      → Added b e none tv_is_absolute (put_inserted E b e)
  untimed-Added b e tv_is_absolute v lt =
      let p = put_inserted-PutIn E bound b e v lt in
      record {
        ready = p.ready;
        others = p.others;
        times = λ x ne. ap (λ t. t x) p.ev_timeout;
        fails = λ is_it. (p.fails is_it, p.ev_timeout);
        inserted = p.inserted;
        timer = λ ok. (p.timeout, p.ev_timeout);
      }

  -- event_add_nolock_ once there is room
  timed-Added :
      (b : EventBase E) (e : ℕ) (tv : Timeval) (tv_is_absolute : Bool)
      → IsReady E bound b
      → e < bound
      → (b.ev_flags e).finalizing ≡ false
      → HasRoom E bound b e
      → Added b e (some tv) tv_is_absolute (add_reserved E e (some tv) tv_is_absolute (true, b))
  timed-Added b e tv tv_is_absolute v lt alive room =
      let p = put_inserted-PutIn E bound b e v lt in
      let r = put_inserted E b e in
      by_if (λ (b' : EventBase E). Added b e (some tv) tv_is_absolute (r.0, b'))
        (eqb_ℤ r.0 (negsuc 0))
        (λ is_it. record {
          ready = p.ready;
          others = p.others;
          times = λ x ne. ap (λ t. t x) p.ev_timeout;
          fails = λ same. (p.fails same, p.ev_timeout);
          inserted = p.inserted;
          timer = λ ok. absurd (ok (refused r.0 is_it));
        })
        λ went.
          let made =
            put_timeout-Scheduled E bound r.1 e tv tv_is_absolute p.ready lt (p.finalizing ∙ alive)
              (record {
                room = omega (
                  arith,
                  room.room,
                  ap (λ h. h.n) p.timeheap,
                  ap (λ h. h.a) p.timeheap,
                  ap to_ℕ p.timeout,
                );
                few = omega (arith, room.few, ap (λ h. h.n) p.timeheap, ap to_ℕ p.timeout);
              }) in
          record {
            ready = made.ready;
            others = λ x ne. made.others x ne ∙ p.others x ne;
            times = λ x ne. made.times x ne ∙ ap (λ t. t x) p.ev_timeout;
            fails = λ same. absurd (ground (arith, same, went));
            inserted = λ ok fresh. made.inserted ∙ p.inserted ok fresh;
            timer = λ ok.
                (made.on, made.at ∙ ap (λ t. if tv_is_absolute then tv else timeradd t tv) p.now);
          }

  -- event_add_nolock_ of an event of a valid base that is not being finalized, with fewer than 2 ^ 30
  -- timers on the heap: when it returns -1, no flag and no timeout has changed. Otherwise the event has
  -- the timer that was asked for (where none was, what it had), and it is inserted if it wants I/O or
  -- a signal and was neither inserted nor active, now or later. No other event's flags or timeout
  -- change, and the queues, the counts and the heap stay valid.
  pub add_nolock-Added :
      (b : EventBase E) (e : ℕ) (tv : Option Timeval) (tv_is_absolute : Bool)
      → IsReady E bound b
      → e < bound
      → (b.ev_flags e).finalizing ≡ false
      → b.timeheap.n < max_n
      → Added b e tv tv_is_absolute (add_nolock E b e tv tv_is_absolute)
  unfolding add_nolock reserve_timeout MinHeap.size
  add_nolock-Added b e none tv_is_absolute v lt alive few =
      rw alive (untimed-Added b e tv_is_absolute v lt)
  add_nolock-Added b e (some tv) tv_is_absolute v lt alive few = rw alive (
      by_if
        (λ (r : Bool × EventBase E).
          Added b e (some tv) tv_is_absolute (add_reserved E e (some tv) tv_is_absolute r))
        (b.ev_flags e).timeout
        (λ on.
          timed-Added b e tv tv_is_absolute v lt alive
            (record { room = ground (arith, on, v.timed.in_order.room); few = omega (arith, few) }))
        λ off. elim (reserve-cases b.io.memory b.timeheap few) [
          | inl full ↦ rw full (record {
            ready = record { queued = v.queued; timed = v.timed };
            others = λ x ne. refl;
            times = λ x ne. refl;
            fails = λ same. (refl, refl);
            inserted = λ ok fresh. absurd (ok refl);
            timer = λ ok. absurd (ok refl);
          })
          | inr (a, le, ok) ↦
              let b₁ = record b { timeheap = record b.timeheap { a = a } } in
              let made =
                timed-Added b₁ e tv tv_is_absolute (grown-IsReady b a v (omega (arith, le))) lt
                  alive (record { room = omega (arith, le); few = omega (arith, few) }) in
              rw ok (record {
                ready = made.ready;
                others = made.others;
                times = made.times;
                fails = made.fails;
                inserted = made.inserted;
                timer = made.timer;
              })
        ])
