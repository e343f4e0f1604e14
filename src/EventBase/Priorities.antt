-- ===== src/EventBase/Priorities.antt =====
-- event_process_active of event.c: the queues of active events in the order of their priorities.
use swift_event.Base.{
  ℕ, zero, suc, ◌+◌, ◌≤◌, ◌<◌, ◌≡◌, inl, inr, refl, ap, ◌∙◌, true, false, not, [], Option, none,
  some, Option-cases, ltb, is_empty, by_if, arith,
}
use swift_event.Base.Int.{ℤ, pos, negsuc, eqb_ℤ}
use swift_event.Time.{Timeval}
use swift_event.MinHeap.Index.{max_n}
use swift_event.EvMap.{Eventop}
use swift_event.EventBase.{EventBase}
use swift_event.EventBase.Process.{
  end_time, process_queue, process_priority, process_from, process_active, go_on, at_rest,
}
use swift_event.EventBase.Taken.{IsReady}
use swift_event.EventBase.Processed.{IfDone, IfDone-some, process_queue-Processed}

module _ (E : Eventop) (bound : ℕ) (fits : bound < max_n) (callback : ℕ → EventBase E → EventBase E)
    (keeps : (e : ℕ) (b : EventBase E) → IsReady E bound b → IsReady E bound (callback e b)) where
  abbrev IsReadyAfter : Option (ℤ × EventBase E) → Type 0
  IsReadyAfter = IfDone (λ (r : ℤ × EventBase E). IsReady E bound r.1)

  queue-IsReadyAfter :
      (fuel : ℕ) (b : EventBase E) (p m : ℕ) (endtime : Option Timeval)
      → IsReady E bound b
      → IsReadyAfter (process_queue E callback fuel b p (b.activequeues p) 0 m endtime)
  queue-IsReadyAfter fuel b p m endtime v =
      elim (Option-cases (process_queue E callback fuel b p (b.activequeues p) 0 m endtime)) [
        | inl nothing ↦ rw nothing tt
        | inr (r, at) ↦
            rw at
              (process_queue-Processed E bound fits callback keeps fuel b p m endtime r v at).ready
      ]

  priority-IsReadyAfter :
      (fuel : ℕ) (b : EventBase E) (i maxcb limit : ℕ) (endtime : Option Timeval)
      → IsReady E bound b
      → IsReadyAfter (process_priority E callback fuel b i maxcb limit endtime)
  priority-IsReadyAfter fuel b i maxcb limit endtime v =
      let b' = record b { event_running_priority = pos i } in
      let v' : IsReady E bound b' = record { queued = v.queued; timed = v.timed } in
      by_if IsReadyAfter (ltb i limit) (λ free. queue-IsReadyAfter fuel b' i 2147483647 none v')
        λ limited. queue-IsReadyAfter fuel b' i maxcb endtime v'

  go_on-IsReadyAfter :
      (o : Option (ℤ × EventBase E)) (next : EventBase E → Option (ℤ × EventBase E))
      → IsReadyAfter o
      → ((b : EventBase E) → IsReady E bound b → IsReadyAfter (next b))
      → IsReadyAfter (go_on E o next)
  go_on-IsReadyAfter none next v more = tt
  go_on-IsReadyAfter (some (c, b)) next v more =
      by_if IsReadyAfter (eqb_ℤ c (pos 0)) (λ z. more b v) λ nz. v

  from-IsReadyAfter :
      (k fuel i maxcb limit : ℕ) (endtime : Option Timeval) (b : EventBase E)
      → IsReady E bound b
      → IsReadyAfter (process_from E callback k fuel i maxcb limit endtime b)
  unfolding process_from
  from-IsReadyAfter zero fuel i maxcb limit endtime b v = tt
  from-IsReadyAfter (suc k) fuel i maxcb limit endtime b v =
      let more = from-IsReadyAfter k fuel (suc i) maxcb limit endtime in
      by_if IsReadyAfter (not (ltb i b.nactivequeues)) (λ last. v)
        λ left.
          by_if IsReadyAfter (is_empty (b.activequeues i)) (λ blank. more b v)
            λ some_left.
              go_on-IsReadyAfter _ _ (priority-IsReadyAfter fuel b i maxcb limit endtime v) more

  at_rest-IsReadyAfter :
      (o : Option (ℤ × EventBase E)) (r : ℤ × EventBase E)
      → IsReadyAfter o
      → at_rest E o ≡ some r
      → IsReady E bound r.1 × (r.1.event_running_priority ≡ negsuc 0)
  at_rest-IsReadyAfter none r v at = absurd (cc at)
  at_rest-IsReadyAfter (some (c, b)) r v at =
      IfDone-some
        (λ (r : ℤ × EventBase E). IsReady E bound r.1 × (r.1.event_running_priority ≡ negsuc 0))
        (at_rest E (some (c, b))) r (record { queued = v.queued; timed = v.timed }, refl) at

  -- When the active events of all priorities are processed, the base is valid, and no priority is
  -- running.
  pub process_active-IsReady :
      (fuel : ℕ) (b : EventBase E) (r : ℤ × EventBase E)
      → IsReady E bound b
      → process_active E callback fuel b ≡ some r
      → IsReady E bound r.1 × (r.1.event_running_priority ≡ negsuc 0)
  unfolding process_active
  process_active-IsReady fuel b r v = at_rest-IsReadyAfter _ r (
      from-IsReadyAfter 256 fuel 0 b.max_dispatch_callbacks b.limit_callbacks_after_prio
        (end_time E b) b v)

module _ (E : Eventop) (callback : ℕ → EventBase E → EventBase E) where
  -- Empty queues are passed over.
  skip_empty :
      (d k fuel j i maxcb limit : ℕ) (endtime : Option Timeval) (b : EventBase E)
      → j + d ≡ i
      → i < b.nactivequeues
      → d < k
      → ((p : ℕ) → j ≤ p → p < i → b.activequeues p ≡ [])
      → (k' : ℕ) × (process_from E callback k fuel j maxcb limit endtime b
          ≡ process_from E callback (suc k') fuel i maxcb limit endtime b)
  unfolding process_from
  skip_empty zero zero fuel j i maxcb limit endtime b at lt enough blank = elim enough [ ]
  skip_empty (suc d) zero fuel j i maxcb limit endtime b at lt enough blank = elim enough [ ]
  skip_empty zero (suc k) fuel j i maxcb limit endtime b at lt enough blank = (
    k,
    ap (λ x. process_from E callback (suc k) fuel x maxcb limit endtime b) (omega (arith, at)),
  )
  skip_empty (suc d) (suc k) fuel j i maxcb limit endtime b at lt enough blank =
      let (k', same) =
        skip_empty d k fuel (suc j) i maxcb limit endtime b (omega (arith, at)) lt (omega arith)
          (λ p le. blank p (omega arith)) in
      let more : not (ltb j b.nactivequeues) ≡ false = ground (arith, at, lt) in
      let none_here : is_empty (b.activequeues j) ≡ true =
        ap is_empty (blank j (omega arith) (omega (arith, at))) in
      (k', rw more (rw none_here same))

  -- A queue whose callbacks count ends the loop.
  stay_first :
      (k fuel i maxcb limit : ℕ) (endtime : Option Timeval) (b : EventBase E) (c : ℤ)
      (b' : EventBase E)
      → i < b.nactivequeues
      → is_empty (b.activequeues i) ≡ false
      → process_priority E callback fuel b i maxcb limit endtime ≡ some (c, b')
      → eqb_ℤ c (pos 0) ≡ false
      → process_from E callback (suc k) fuel i maxcb limit endtime b ≡ some (c, b')
  unfolding process_from
  stay_first k fuel i maxcb limit endtime b c b' lt some_left ran counts =
      let more : not (ltb i b.nactivequeues) ≡ false = ground (arith, lt) in
      rw more (rw some_left (rw ran (rw counts refl)))

  -- The callbacks of the lowest priority with active events are processed alone: where one of them
  -- counts, or asks for a break, no event of a higher number is looked at.
  pub process_active-first :
      (fuel : ℕ) (b : EventBase E) (i : ℕ) (c : ℤ) (b' : EventBase E)
      → i < b.nactivequeues
      → i < 256
      → ((p : ℕ) → p < i → b.activequeues p ≡ [])
      → is_empty (b.activequeues i) ≡ false
      → process_priority E callback fuel b i b.max_dispatch_callbacks b.limit_callbacks_after_prio
          (end_time E b)
        ≡ some (c, b')
      → eqb_ℤ c (pos 0) ≡ false
      → process_active E callback fuel b ≡ some (c, record b' { event_running_priority = negsuc 0 })
  unfolding process_active
  process_active-first fuel b i c b' lt few blank some_left ran counts =
      let maxcb = b.max_dispatch_callbacks in
      let limit = b.limit_callbacks_after_prio in
      let (k, same) =
        skip_empty i 256 fuel 0 i maxcb limit (end_time E b) b (omega arith) lt few
          (λ p le. blank p) in
      ap (at_rest E)
        (same ∙ stay_first k fuel i maxcb limit (end_time E b) b c b' lt some_left ran counts)
