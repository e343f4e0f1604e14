-- ===== src/EventBase/Frame.antt =====
-- What the queues of active events leave alone: the timers, the descriptors, and which events are inserted.
use swift_event.Base.{
  ℕ, ◌≡◌, refl, sym, subst, ◌∙◌, true, false, ◌||◌, update, update_all, List, by_if,
}
use swift_event.Events.{Flags}
use swift_event.EvMap.{Eventop}
use swift_event.EventBase.{
  EventBase, remove_active, insert_active, remove_active_later, insert_active_later, make_active,
}

pub record Kept (f f' : Flags) : Type 0 where
  pub timeout : f'.timeout ≡ f.timeout
  pub inserted : f'.inserted ≡ f.inserted
  pub finalizing : f'.finalizing ≡ f.finalizing
  pub init : f'.init ≡ f.init

kept_refl : {f : Flags} → Kept f f
kept_refl = record { timeout = refl; inserted = refl; finalizing = refl; init = refl }

module _ (E : Eventop) where
  pub record Frame (b b' : EventBase E) : Type 0 where
    pub kept : (e : ℕ) → Kept (b.ev_flags e) (b'.ev_flags e)
    pub timeheap : b'.timeheap ≡ b.timeheap
    pub ev_timeout : b'.ev_timeout ≡ b.ev_timeout
    pub now : b'.now ≡ b.now
    pub events : b'.events ≡ b.events
    pub io : b'.io ≡ b.io

  pub frame_refl : (b : EventBase E) → Frame b b
  frame_refl b = record {
    kept = λ e. kept_refl;
    timeheap = refl;
    ev_timeout = refl;
    now = refl;
    events = refl;
    io = refl;
  }

  pub frame_trans : (b b' b'' : EventBase E) → Frame b b' → Frame b' b'' → Frame b b''
  frame_trans b b' b'' p q = record {
    kept = λ e. record {
      timeout = (q.kept e).timeout ∙ (p.kept e).timeout;
      inserted = (q.kept e).inserted ∙ (p.kept e).inserted;
      finalizing = (q.kept e).finalizing ∙ (p.kept e).finalizing;
      init = (q.kept e).init ∙ (p.kept e).init;
    };
    timeheap = q.timeheap ∙ p.timeheap;
    ev_timeout = q.ev_timeout ∙ p.ev_timeout;
    now = q.now ∙ p.now;
    events = q.events ∙ p.events;
    io = q.io ∙ p.io;
  }

  module _ (b : EventBase E) (e : ℕ) where
    abbrev f : Flags
    f = b.ev_flags e

    frame_of :
        {b' : EventBase E} (f' : Flags)
        → Kept f f'
        → b'.ev_flags ≡ update b.ev_flags e f'
        → b'.timeheap ≡ b.timeheap
        → b'.ev_timeout ≡ b.ev_timeout
        → b'.now ≡ b.now
        → b'.events ≡ b.events
        → b'.io ≡ b.io
        → Frame b b'
    frame_of {b'} f' k flags heap times clock same maps = record {
      kept = λ x.
          subst (λ g. Kept (b.ev_flags x) (g x)) (sym flags)
            (update_all b.ev_flags e f' Kept (λ g. kept_refl {f = g}) k x);
      timeheap = heap;
      ev_timeout = times;
      now = clock;
      events = same;
      io = maps;
    }

    pub remove_active-Frame : Frame b (remove_active E b e)
    unfolding remove_active
    remove_active-Frame =
        by_if (Frame b) f.active
          (λ on.
            frame_of (record f { active = false })
              (record { timeout = refl; inserted = refl; finalizing = refl; init = refl }) refl refl
              refl refl refl refl)
          λ off. frame_refl b

    pub insert_active-Frame : Frame b (insert_active E b e)
    unfolding insert_active
    insert_active-Frame =
        by_if (Frame b) f.active (λ on. frame_refl b)
          λ off.
            frame_of (record f { active = true })
              (record { timeout = refl; inserted = refl; finalizing = refl; init = refl }) refl refl
              refl refl refl refl

    pub remove_active_later-Frame : Frame b (remove_active_later E b e)
    unfolding remove_active_later
    remove_active_later-Frame =
        by_if (Frame b) f.active_later
          (λ on.
            frame_of (record f { active_later = false })
              (record { timeout = refl; inserted = refl; finalizing = refl; init = refl }) refl refl
              refl refl refl refl)
          λ off. frame_refl b

    pub insert_active_later-Frame : Frame b (insert_active_later E b e)
    unfolding insert_active_later
    insert_active_later-Frame =
        by_if (Frame b) (f.active_later || f.active) (λ on. frame_refl b)
          λ off.
            frame_of (record f { active_later = true })
              (record { timeout = refl; inserted = refl; finalizing = refl; init = refl }) refl refl
              refl refl refl refl

    pub make_active-Frame : (later : List ℕ) → Frame b (make_active E b e later)
    unfolding make_active
    make_active-Frame later =
        frame_of (record f { active_later = false; active = true })
          (record { timeout = refl; inserted = refl; finalizing = refl; init = refl }) refl refl
          refl refl refl refl
