-- ===== src/EventBase/Taken.antt =====
-- Steps of event.c that take an event off some of the queues of its base.
use swift_event.Base.{
  ℕ, ◌+◌, ◌≤◌, ◌≡◌, ◌≢◌, refl, sym, ap, subst, ◌∙◌, update, update_at, update_other, to_ℕ, arith,
}
use swift_event.Events.{Flags}
use swift_event.EvMap.{Eventop}
use swift_event.EventBase.{EventBase}
use swift_event.EventBase.Queued.{IsQueued}
use swift_event.EventBase.Frame.{Frame}
use swift_event.EventBase.Timed.{Timed, kept-Timed, IsTimed}

-- No flag of a queue is set that was not.
pub record Fewer (f f' : Flags) : Type 0 where
  pub timeout : to_ℕ f'.timeout ≤ to_ℕ f.timeout
  pub inserted : to_ℕ f'.inserted ≤ to_ℕ f.inserted
  pub active : to_ℕ f'.active ≤ to_ℕ f.active
  pub active_later : to_ℕ f'.active_later ≤ to_ℕ f.active_later
  pub finalizing : f'.finalizing ≡ f.finalizing

pub Fewer-refl : (f : Flags) → Fewer f f
Fewer-refl f = record {
  timeout = omega arith;
  inserted = omega arith;
  active = omega arith;
  active_later = omega arith;
  finalizing = refl;
}

module _ (E : Eventop) (bound : ℕ) where
  -- The queues and the timers are valid.
  pub record IsReady (b : EventBase E) : Type 0 where
    pub queued : IsQueued E bound b
    pub timed : IsTimed E b

  -- A step that takes the event `e` off some queues
  pub record Step (e : ℕ) (b b' : EventBase E) : Type 0 where
    pub ready : IsReady b'
    pub fewer : Fewer (b.ev_flags e) (b'.ev_flags e)
    pub others : (x : ℕ) → x ≢ e → b'.ev_flags x ≡ b.ev_flags x
    pub ev_timeout : b'.ev_timeout ≡ b.ev_timeout
    pub now : b'.now ≡ b.now
    pub events : b'.events ≡ b.events
    pub size :
        b'.timeheap.n + to_ℕ (b.ev_flags e).timeout ≡ b.timeheap.n + to_ℕ (b'.ev_flags e).timeout
    pub capacity : b'.timeheap.a ≡ b.timeheap.a

  pub Step-refl : (e : ℕ) (b : EventBase E) → IsReady b → Step e b b
  Step-refl e b v = record {
    ready = v;
    fewer = Fewer-refl (b.ev_flags e);
    others = λ x ne. refl;
    ev_timeout = refl;
    now = refl;
    events = refl;
    size = refl;
    capacity = refl;
  }

  pub Step-trans : {e : ℕ} {b b' b'' : EventBase E} → Step e b b' → Step e b' b'' → Step e b b''
  Step-trans {e} p q = record {
    ready = q.ready;
    fewer = record {
      timeout = omega (arith, p.fewer.timeout, q.fewer.timeout);
      inserted = omega (arith, p.fewer.inserted, q.fewer.inserted);
      active = omega (arith, p.fewer.active, q.fewer.active);
      active_later = omega (arith, p.fewer.active_later, q.fewer.active_later);
      finalizing = q.fewer.finalizing ∙ p.fewer.finalizing;
    };
    others = λ x ne. q.others x ne ∙ p.others x ne;
    ev_timeout = q.ev_timeout ∙ p.ev_timeout;
    now = q.now ∙ p.now;
    events = q.events ∙ p.events;
    size = omega (arith, p.size, q.size);
    capacity = q.capacity ∙ p.capacity;
  }

  -- One flag is cleared.
  pub cleared-Step :
      (e : ℕ) (b : EventBase E) {b' : EventBase E} (f : Flags)
      → IsReady b'
      → Fewer (b.ev_flags e) f
      → b'.ev_flags ≡ update b.ev_flags e f
      → b'.ev_timeout ≡ b.ev_timeout
      → b'.now ≡ b.now
      → b'.events ≡ b.events
      → b'.timeheap.n + to_ℕ (b.ev_flags e).timeout ≡ b.timeheap.n + to_ℕ f.timeout
      → b'.timeheap.a ≡ b.timeheap.a
      → Step e b b'
  cleared-Step e b {b'} f v fewer flags times clock same size room =
      let at : b'.ev_flags e ≡ f = ap (λ g. g e) flags ∙ update_at b.ev_flags e f in
      record {
        ready = v;
        fewer = subst (Fewer (b.ev_flags e)) (sym at) fewer;
        others = λ x ne. ap (λ g. g x) flags ∙ update_other b.ev_flags e f x ne;
        ev_timeout = times;
        now = clock;
        events = same;
        size = size ∙ ap (λ g. b.timeheap.n + to_ℕ g.timeout) (sym at);
        capacity = room;
      }

  pub frame-IsReady :
      (b b' : EventBase E) → IsReady b → IsQueued E bound b' → Frame E b b' → IsReady b'
  frame-IsReady b b' v valid frame = record {
    queued = valid;
    timed =
        subst (λ t. Timed t b'.timeheap b'.ev_flags) (sym frame.ev_timeout)
          (subst (λ h. Timed b.ev_timeout h b'.ev_flags) (sym frame.timeheap)
            (kept-Timed (λ e. (frame.kept e).timeout) (λ e. (frame.kept e).finalizing) v.timed));
  }
