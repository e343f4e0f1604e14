-- ===== src/EventBase/Processed.antt =====
-- What event_process_active of event.c keeps, whatever the callbacks do to the base through the calls of
-- event.c, and why it stops.
use swift_event.Base.{
  ℕ, zero, suc, ◌+◌, ◌≤◌, ◌<◌, ◌≡◌, inl, inr, refl, sym, ap, subst, ◌∙◌, true, not, ◌&&◌, ◌==◌, ◌⊎◌,
  List, [], ◌∷◌, occurs, Option, none, some, leb, to_ℕ, max, by_if, Bool-cases, arith,
}
use swift_event.Base.Int.{ℤ, pos, negsuc}
use swift_event.Time.{Timeval}
use swift_event.MinHeap.Index.{max_n}
use swift_event.EvMap.{Eventop}
use swift_event.EventBase.{EventBase}
use swift_event.EventBase.Insert.{is_persist}
use swift_event.EventBase.Run.{is_set, run_at, dequeue, persist_closure, start_callback}
use swift_event.EventBase.Process.{
  is_signal, is_late, note_calls, point_to_calls, signal_calls, signal_closure, process_one,
  process_queue,
}
use swift_event.EventBase.Taken.{IsReady}
use swift_event.EventBase.Added.{add_nolock-Added}
use swift_event.EventBase.Reach.{final-add}
use swift_event.EventBase.Rescheduled.{dequeue-IsReady}
use swift_event.EventBase.HeapSize.{IsReady-few}

-- A property of the result, if there is one
abbrev pub IfDone {ℓ} : {A : Type ℓ} → (A → Type 0) → Option A → Type 0
IfDone P none = Unit
IfDone P (some r) = P r

pub IfDone-some {ℓ} :
    {A : Type ℓ} (P : A → Type 0) (o : Option A) (r : A) → IfDone P o → o ≡ some r → P r
IfDone-some P o r holds at = subst (IfDone P) at holds

module _ (E : Eventop) (bound : ℕ) where
  -- Why the loop over a queue ends with a result: a callback has asked for a break; or the queue is
  -- empty, the most callbacks have been called, it is late, or a callback has asked to look for
  -- other events first.
  pub data Stops (b : EventBase E) (p max_to_process : ℕ) (endtime : Option Timeval)
      : ℤ → Type 0 where
    broken : b.event_break ≡ true → Stops b p max_to_process endtime (negsuc 0)
    spent : {n : ℕ} → b.activequeues p ≡ [] → Stops b p max_to_process endtime (pos n)
    full : {n : ℕ} → max_to_process ≤ n → Stops b p max_to_process endtime (pos n)
    late : {n : ℕ} → 0 < n → is_late endtime b.now ≡ true → Stops b p max_to_process endtime (pos n)
    continued : {n : ℕ} → b.event_continue ≡ true → Stops b p max_to_process endtime (pos n)

module _ (E : Eventop) (bound : ℕ) (callback : ℕ → EventBase E → EventBase E) where
  -- Rounds over the queue of priority `p`, each for the event that is at its head then; `n` of these
  -- events are not internal.
  pub data Ran (p : ℕ) : EventBase E → ℕ → EventBase E → Type 0 where
    here : {b : EventBase E} → Ran p b 0 b
    round :
        {b b' : EventBase E} {e n : ℕ} {es : List ℕ}
        → b.activequeues p ≡ e ∷ es
        → Ran p (process_one E callback b e) n b'
        → Ran p b (to_ℕ (not (b.ev_flags e).internal) + n) b'

  pub record Processed (p max_to_process : ℕ) (endtime : Option Timeval) (count : ℕ)
      (b : EventBase E) (r : ℤ × EventBase E) : Type 0 where
    pub ready : IsReady E bound r.1
    pub stops : Stops E bound r.1 p max_to_process endtime r.0
    pub calls : ℕ
    pub ran : Ran p b calls r.1
    pub counted : (r.0 ≡ negsuc 0) ⊎ (r.0 ≡ pos (count + calls))
    pub most : count + calls ≤ max max_to_process 1

module _ (E : Eventop) (bound : ℕ) (fits : bound < max_n) where
  persist_closure-IsReady :
      (b : EventBase E) (e : ℕ)
      → IsReady E bound b
      → e < bound
      → IsReady E bound (persist_closure E b e)
  unfolding persist_closure
  persist_closure-IsReady b e v lt =
      let time = some (run_at E b e) in
      by_if (IsReady E bound) (is_set (b.ev_io_timeout e))
        (λ on. elim (Bool-cases (b.ev_flags e).finalizing) [
          | inl final ↦ subst (IsReady E bound) (sym (final-add E bound b e time true final)) v
          | inr alive ↦
              (add_nolock-Added E bound b e time true v lt alive
                (IsReady-few E bound b v fits)).ready
        ])
        λ off. v

  -- An event at the head of a queue is one of the base, and active.
  head_active :
      (b : EventBase E) (p e : ℕ) (es : List ℕ)
      → IsReady E bound b
      → b.activequeues p ≡ e ∷ es
      → (e < bound) × ((b.ev_flags e).active ≡ true)
  head_active b p e es v at =
      let here = sym (ap (occurs e) at) ∙ v.queued.on_active e p in
      let on : (b.ev_flags e).active ≡ true = ground (arith, here) in
      (ground (arith, v.queued.known e, on), on)

  start_callback-IsReady :
      (b : EventBase E) (e : ℕ)
      → IsReady E bound b
      → e < bound
      → (b.ev_flags e).active ≡ true
      → IsReady E bound (start_callback E b e)
  unfolding start_callback
  start_callback-IsReady b e v lt on =
      let v' = (dequeue-IsReady E bound b e v lt on).0 in
      by_if (IsReady E bound) (is_persist (b.events e).ev_closure)
        (λ p. persist_closure-IsReady (dequeue E b e) e v' lt) λ np. v'

  -- The callbacks change the base by the calls of event.c, so that it stays valid.
  module _ (callback : ℕ → EventBase E → EventBase E)
      (keeps : (e : ℕ) (b : EventBase E) → IsReady E bound b → IsReady E bound (callback e b)) where
    signal_calls-IsReady :
        (ncalls : ℕ) (b : EventBase E) (e : ℕ)
        → IsReady E bound b
        → IsReady E bound (signal_calls E callback ncalls b e)
    unfolding signal_calls
    signal_calls-IsReady zero b e v = v
    signal_calls-IsReady (suc left) b e v =
        let b' = callback e (note_calls E b e left) in
        let v' = keeps e (note_calls E b e left) (record { queued = v.queued; timed = v.timed }) in
        by_if (IsReady E bound) b'.event_break
          (λ break.
            by_if (IsReady E bound) (b'.ncalls e == 0) (λ over. v')
              λ going. record { queued = v'.queued; timed = v'.timed })
          λ on.
            by_if (IsReady E bound) (b'.ncalls e == 0) (λ over. v')
              λ going. signal_calls-IsReady left b' e v'

    signal_closure-IsReady :
        (b : EventBase E) (e : ℕ)
        → IsReady E bound b
        → IsReady E bound (signal_closure E callback b e)
    unfolding signal_closure
    signal_closure-IsReady b e v = signal_calls-IsReady (b.ev_ncalls e) (point_to_calls E b e) e (
        by_if (IsReady E bound) (b.ev_ncalls e == 0) (λ none_left. v)
          λ some_left. record { queued = v.queued; timed = v.timed })

    process_one-IsReady :
        (b : EventBase E) (e : ℕ)
        → IsReady E bound b
        → e < bound
        → (b.ev_flags e).active ≡ true
        → IsReady E bound (process_one E callback b e)
    unfolding process_one
    process_one-IsReady b e v lt on =
        let b' = start_callback E b e in
        let v' = start_callback-IsReady b e v lt on in
        by_if (IsReady E bound) (is_signal (b.events e).ev_closure)
          (λ s. signal_closure-IsReady b' e v') λ ns. keeps e b' v'

    -- A loop that stops at once
    stopped :
        (b : EventBase E) (p n m : ℕ) (endtime : Option Timeval) (r : ℤ)
        → IsReady E bound b
        → n ≤ max m 1
        → Stops E bound b p m endtime r
        → (r ≡ negsuc 0) ⊎ (r ≡ pos n)
        → Processed E bound callback p m endtime n b (r, b)
    stopped b p n m endtime r v le stops counted = record {
      ready = v;
      stops = stops;
      calls = 0;
      ran = here;
      counted = elim counted [ inl broke ↦ inl broke | inr same ↦ inr (ground (arith, same)) ];
      most = omega (arith, le);
    }

    -- A round before a loop
    rounds :
        (b : EventBase E) (p e : ℕ) (es : List ℕ) (count m : ℕ) (endtime : Option Timeval)
        (o : Option (ℤ × EventBase E))
        → b.activequeues p ≡ e ∷ es
        → IfDone
            (Processed E bound callback p m endtime
              (count + to_ℕ (not (b.ev_flags e).internal))
              (process_one E callback b e))
            o
        → IfDone (Processed E bound callback p m endtime count b) o
    rounds b p e es count m endtime none at v = tt
    rounds b p e es count m endtime (some r) at v = record {
      ready = v.ready;
      stops = v.stops;
      calls = to_ℕ (not (b.ev_flags e).internal) + v.calls;
      ran = round at v.ran;
      counted = elim v.counted [ inl broke ↦ inl broke | inr same ↦ inr (ground (arith, same)) ];
      most = omega (arith, v.most);
    }

    processed_from :
        (fuel : ℕ) (b : EventBase E) (p : ℕ) (q : List ℕ) (count m : ℕ) (endtime : Option Timeval)
        → IsReady E bound b
        → b.activequeues p ≡ q
        → count < max m 1
        → IfDone
            (Processed E bound callback p m endtime count b)
            (process_queue E callback fuel b p q count m endtime)
    unfolding process_queue
    processed_from zero b p [] count m endtime v at lt =
        stopped b p count m endtime (pos count) v (omega arith) (spent at) (inr refl)
    processed_from (suc fuel) b p [] count m endtime v at lt =
        stopped b p count m endtime (pos count) v (omega arith) (spent at) (inr refl)
    processed_from zero b p (e ∷ es) count m endtime v at lt = tt
    processed_from (suc fuel) b p (e ∷ es) count m endtime v at lt =
        let n = count + to_ℕ (not (b.ev_flags e).internal) in
        let le : n ≤ max m 1 = ground (arith, lt) in
        let b' = process_one E callback b e in
        let (inside, on) = head_active b p e es v at in
        let v' = process_one-IsReady b e v inside on in
        let P = IfDone (Processed E bound callback p m endtime n b') in
        rounds b p e es count m endtime _ at (
          by_if P b'.event_break
            (λ broke. stopped b' p n m endtime (negsuc 0) v' le (broken broke) (inl refl))
            λ whole.
              by_if P (leb m n)
                (λ most.
                  stopped b' p n m endtime (pos n) v' le (full (ground (arith, most))) (inr refl))
                λ few.
                  by_if P (not (n == 0) && is_late endtime b'.now)
                    (λ over.
                      stopped b' p n m endtime (pos n) v' le
                        (late (ground (arith, over)) (ground (arith, over))) (inr refl))
                    λ early.
                      by_if P b'.event_continue
                        (λ asked.
                          stopped b' p n m endtime (pos n) v' le (continued asked) (inr refl))
                        λ on.
                          processed_from fuel b' p (b'.activequeues p) n m endtime v' refl
                            (ground (arith, few)))

    -- The loop over a queue of active events, which begins with a valid base: where it has a result, the
    -- base went through rounds that are each for the event at the head of the queue, as many of them
    -- for events that are not internal as the loop returns, unless it returns -1, and at most
    -- max_to_process (at most one, where that is 0). It returns -1 only after a break; it returns a
    -- count only where the queue is empty, that many were called, it is late, or a callback has asked
    -- to look again. The base is valid afterwards. The callbacks are any that keep it valid,
    -- and there are fewer than 2 ^ 30 events.
    pub process_queue-Processed :
        (fuel : ℕ) (b : EventBase E) (p m : ℕ) (endtime : Option Timeval) (r : ℤ × EventBase E)
        → IsReady E bound b
        → process_queue E callback fuel b p (b.activequeues p) 0 m endtime ≡ some r
        → Processed E bound callback p m endtime 0 b r
    process_queue-Processed fuel b p m endtime r v =
        IfDone-some (Processed E bound callback p m endtime 0 b) _ r
          (processed_from fuel b p (b.activequeues p) 0 m endtime v refl (omega arith))
