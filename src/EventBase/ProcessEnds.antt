-- ===== src/EventBase/ProcessEnds.antt =====
-- event_process_active of event.c ends: with no internal events, every round of its inner loop counts,
-- up to the most callbacks that may be called.
use swift_event.Base.{
  ℕ, zero, suc, ◌+◌, ◌≤◌, ◌<◌, ◌≡◌, sym, ap, subst, ◌∙◌, false, not, ◌&&◌, ◌==◌, List, [], ◌∷◌,
  Option, none, some, ltb, leb, max, to_ℕ, is_empty, by_if, arith,
}
use swift_event.Base.Int.{ℤ, pos, eqb_ℤ}
use swift_event.Time.{Timeval}
use swift_event.EvMap.{Eventop}
use swift_event.EventBase.{EventBase}
use swift_event.EventBase.Run.{start_callback}
use swift_event.EventBase.Process.{
  is_signal, is_late, end_time, note_calls, point_to_calls, signal_calls, signal_closure,
  process_one, process_queue, process_priority, process_from, process_active, go_on, at_rest,
}
use swift_event.EventBase.StartKinds.{start_callback-SameKinds}

module _ (E : Eventop) where
  -- No event is internal, and the priorities are as many as event_base_priority_init allows.
  pub record IsPlain (b : EventBase E) : Type 0 where
    pub counted : (x : ℕ) → (b.ev_flags x).internal ≡ false
    pub few : b.nactivequeues < 256

  -- The loop has a result, and leaves a plain base.
  abbrev pub Ends : Option (ℤ × EventBase E) → Type 0
  Ends none = ⊥
  Ends (some r) = IsPlain r.1

  module _ (callback : ℕ → EventBase E → EventBase E)
      (plain : (e : ℕ) (b : EventBase E) → IsPlain b → IsPlain (callback e b)) where
    signal_calls-IsPlain :
        (ncalls : ℕ) (b : EventBase E) (e : ℕ)
        → IsPlain b
        → IsPlain (signal_calls E callback ncalls b e)
    unfolding signal_calls
    signal_calls-IsPlain zero b e v = v
    signal_calls-IsPlain (suc left) b e v =
        let b' = callback e (note_calls E b e left) in
        let v' = plain e (note_calls E b e left) (record { counted = v.counted; few = v.few }) in
        by_if IsPlain b'.event_break
          (λ break.
            by_if IsPlain (b'.ncalls e == 0) (λ over. v')
              λ going. record { counted = v'.counted; few = v'.few })
          λ on.
            by_if IsPlain (b'.ncalls e == 0) (λ over. v') λ going. signal_calls-IsPlain left b' e v'

    signal_closure-IsPlain :
        (b : EventBase E) (e : ℕ) → IsPlain b → IsPlain (signal_closure E callback b e)
    unfolding signal_closure
    signal_closure-IsPlain b e v = signal_calls-IsPlain (b.ev_ncalls e) (point_to_calls E b e) e (
        by_if IsPlain (b.ev_ncalls e == 0) (λ none_left. v)
          λ some_left. record { counted = v.counted; few = v.few })

    process_one-IsPlain :
        (b : EventBase E) (e : ℕ) → IsPlain b → IsPlain (process_one E callback b e)
    unfolding process_one
    process_one-IsPlain b e v =
        let b' = start_callback E b e in
        let same = start_callback-SameKinds E b e in
        let v' : IsPlain b' = record {
          counted = λ x. same.internal x ∙ v.counted x;
          few = subst (λ n. n < 256) (sym same.nactivequeues) v.few;
        } in
        by_if IsPlain (is_signal (b.events e).ev_closure) (λ s. signal_closure-IsPlain b' e v')
          λ ns. plain e b' v'

    queue-Ends :
        (fuel : ℕ) (b : EventBase E) (p : ℕ) (q : List ℕ) (count m : ℕ) (endtime : Option Timeval)
        → IsPlain b
        → count < max m 1
        → max m 1 ≤ count + fuel
        → Ends (process_queue E callback fuel b p q count m endtime)
    unfolding process_queue
    queue-Ends zero b p [] count m endtime v lt enough = v
    queue-Ends (suc fuel) b p [] count m endtime v lt enough = v
    queue-Ends zero b p (e ∷ es) count m endtime v lt enough = omega (arith, lt, enough)
    queue-Ends (suc fuel) b p (e ∷ es) count m endtime v lt enough =
        let n = count + to_ℕ (not (b.ev_flags e).internal) in
        let counts : n ≡ count + 1 = ap (λ i. count + to_ℕ (not i)) (v.counted e) in
        let b' = process_one E callback b e in
        let v' = process_one-IsPlain b e v in
        by_if Ends b'.event_break (λ broke. v')
          λ whole.
            by_if Ends (leb m n) (λ most. v')
              λ few.
                by_if Ends (not (n == 0) && is_late endtime b'.now) (λ over. v')
                  λ early.
                    by_if Ends b'.event_continue (λ asked. v')
                      λ on.
                        queue-Ends fuel b' p (b'.activequeues p) n m endtime v'
                          (ground (arith, few)) (ground (arith, few, counts, enough))

    priority-Ends :
        (fuel : ℕ) (b : EventBase E) (i maxcb limit : ℕ) (endtime : Option Timeval)
        → IsPlain b
        → 2147483647 ≤ fuel
        → maxcb ≤ 2147483647
        → Ends (process_priority E callback fuel b i maxcb limit endtime)
    priority-Ends fuel b i maxcb limit endtime v enough few =
        let b' = record b { event_running_priority = pos i } in
        let v' : IsPlain b' = record { counted = v.counted; few = v.few } in
        by_if Ends (ltb i limit)
          (λ free.
            queue-Ends fuel b' i (b.activequeues i) 0 2147483647 none v' (omega arith)
              (omega (arith, enough)))
          λ limited.
            queue-Ends fuel b' i (b.activequeues i) 0 maxcb endtime v' (omega arith)
              (omega (arith, enough, few))

    go_on-Ends :
        (o : Option (ℤ × EventBase E)) (next : EventBase E → Option (ℤ × EventBase E))
        → Ends o
        → ((b : EventBase E) → IsPlain b → Ends (next b))
        → Ends (go_on E o next)
    go_on-Ends none next ended more = ended
    go_on-Ends (some (c, b)) next v more = by_if Ends (eqb_ℤ c (pos 0)) (λ z. more b v) λ nz. v

    from-Ends :
        (k fuel i maxcb limit : ℕ) (endtime : Option Timeval) (b : EventBase E)
        → IsPlain b
        → 256 ≤ i + k
        → i < 256
        → 2147483647 ≤ fuel
        → maxcb ≤ 2147483647
        → Ends (process_from E callback k fuel i maxcb limit endtime b)
    unfolding process_from
    from-Ends zero fuel i maxcb limit endtime b v rounds lt enough few =
        absurd (omega (arith, rounds, lt))
    from-Ends (suc k) fuel i maxcb limit endtime b v rounds lt enough few =
        by_if Ends (not (ltb i b.nactivequeues)) (λ last. v)
          λ left.
            let less : suc i < 256 = ground (arith, left, v.few) in
            let more = λ (b' : EventBase E) (v' : IsPlain b').
              from-Ends k fuel (suc i) maxcb limit endtime b' v' (omega (arith, rounds)) less enough
                few in
            by_if Ends (is_empty (b.activequeues i)) (λ blank. more b v)
              λ some_left.
                go_on-Ends _ _ (priority-Ends fuel b i maxcb limit endtime v enough few) more

    -- Where no event is internal, and no callback makes one so, INT_MAX rounds are enough for all the
    -- active events that event_process_active looks at, whatever the callbacks make active again.
    pub process_active-Ends :
        (fuel : ℕ) (b : EventBase E)
        → IsPlain b
        → b.max_dispatch_callbacks ≤ 2147483647
        → 2147483647 ≤ fuel
        → Ends (process_active E callback fuel b)
    unfolding process_active
    process_active-Ends fuel b v few enough =
        let maxcb = b.max_dispatch_callbacks in
        let limit = b.limit_callbacks_after_prio in
        let ended =
          from-Ends 256 fuel 0 maxcb limit (end_time E b) b v (omega arith) (omega arith) enough
            few in
        rests (process_from E callback 256 fuel 0 maxcb limit (end_time E b) b) ended
      where
        rests : (o : Option (ℤ × EventBase E)) → Ends o → Ends (at_rest E o)
        rests none ended = ended
        rests (some (c, b')) v' = record { counted = v'.counted; few = v'.few }
