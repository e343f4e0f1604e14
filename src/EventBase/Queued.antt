-- ===== src/EventBase/Queued.antt =====
-- The invariant of the queues of an event base: each queue holds the events whose flag says so, once
-- each, and the two counts are right.
use swift_event.Base.{
  ℕ, ◌+◌, ◌≤◌, ◌<◌, ◌≡◌, ◌≢◌, inl, inr, refl, sym, ap, subst, ◌∙◌, true, false, ◌&&◌, List, ltb,
  ◌==◌, ==_iff, if◌then◌else◌, update, to_ℕ, occurs, total, total-change, Bool-cases, arith,
}
use swift_event.Base.Int.{ℤ, pos, negsuc, ◌+ℤ◌}
use swift_event.Events.{Flags}
use swift_event.EvMap.{Eventop}
use swift_event.EventBase.{EventBase}

-- How many of the flags of queues an event has
abbrev pub queues_of : Flags → ℕ
queues_of f = to_ℕ f.timeout + to_ℕ f.inserted + (to_ℕ f.active + to_ℕ f.active_later)

-- What an event adds to event_count
abbrev pub weight : Flags → ℕ
weight f = if f.internal then 0 else queues_of f

-- How many of the queues of active events an event stands on
abbrev pub waiting : Flags → ℕ
waiting f = to_ℕ f.active + to_ℕ f.active_later

total-update :
    (g : Flags → ℕ) (flags : ℕ → Flags) (e n : ℕ) (f : Flags)
    → e < n
    → total (λ x. g (update flags e f x)) n + g (flags e) ≡ total (λ x. g (flags x)) n + g f
total-update g flags e n f lt =
    let here : update flags e f e ≡ f = rw ((==_iff e e).1 refl) refl in
    total-change (λ x. g (flags x)) (λ x. g (update flags e f x)) e n lt
      (λ i ne. ground (arith, ne))
    ∙ ap (λ h. total (λ x. g (flags x)) n + g h) here

-- The events are those below `bound`.
module _ (pri : ℕ → ℕ) (bound : ℕ) where
  pub record Queued (flags : ℕ → Flags) (queues : ℕ → List ℕ) (later : List ℕ) (n k : ℤ)
      : Type 0 where
    pub on_active : (e p : ℕ) → occurs e (queues p) ≡ to_ℕ ((flags e).active && (pri e == p))
    pub on_later : (e : ℕ) → occurs e later ≡ to_ℕ (flags e).active_later
    pub apart : (e : ℕ) → (flags e).active ≡ true → (flags e).active_later ≡ false
    pub known : (e : ℕ) → bound ≤ e → queues_of (flags e) ≡ 0
    pub count : n ≡ pos (total (λ e. weight (flags e)) bound)
    pub count_active : k ≡ pos (total (λ e. waiting (flags e)) bound)

  recount :
      (n n' : ℤ) (t t' w w' : ℕ)
      → n ≡ pos t
      → t' + w ≡ t + w'
      → n' +ℤ pos w ≡ n +ℤ pos w'
      → n' ≡ pos t'
  unfolding ◌+ℤ◌
  recount n (pos a) t t' w w' at sums same = ground (arith, at, same)
  recount n (negsuc a) t t' w w' at sums same = ground (arith, at, same)

  -- One event changes its flags, and moves between the queues accordingly.
  pub change-Queued :
      {flags : ℕ → Flags} {queues queues' : ℕ → List ℕ} {later later' : List ℕ} {n n' k k' : ℤ}
      (e : ℕ) (f : Flags)
      → Queued flags queues later n k
      → e < bound
      → ((p : ℕ) → occurs e (queues' p) ≡ to_ℕ (f.active && (pri e == p)))
      → ((x p : ℕ) → x ≢ e → occurs x (queues' p) ≡ occurs x (queues p))
      → occurs e later' ≡ to_ℕ f.active_later
      → ((x : ℕ) → x ≢ e → occurs x later' ≡ occurs x later)
      → (f.active ≡ true → f.active_later ≡ false)
      → n' +ℤ pos (weight (flags e)) ≡ n +ℤ pos (weight f)
      → k' +ℤ pos (waiting (flags e)) ≡ k +ℤ pos (waiting f)
      → Queued (update flags e f) queues' later' n' k'
  change-Queued {flags} {queues} {queues'} {later} {later'} {n} {n'} {k} {k'} e f v lt active
        active_rest later_at later_rest excl counts counts_active =
      record {
        on_active = λ x p. elim (Bool-cases (x == e)) [
          | inl at ↦
              let y : x ≡ e = (==_iff x e).0 at in
              rw at (
                subst (λ z. occurs z (queues' p) ≡ to_ℕ (f.active && (pri z == p))) (sym y)
                  (active p))
          | inr off ↦ rw off (active_rest x p (λ y. ground (arith, y)) ∙ v.on_active x p)
        ];
        on_later = λ x. elim (Bool-cases (x == e)) [
          | inl at ↦
              let y : x ≡ e = (==_iff x e).0 at in
              rw at (subst (λ z. occurs z later' ≡ to_ℕ f.active_later) (sym y) later_at)
          | inr off ↦ rw off (later_rest x (λ y. ground (arith, y)) ∙ v.on_later x)
        ];
        apart =
            λ x. elim (Bool-cases (x == e)) [ inl at ↦ rw at excl | inr off ↦ rw off (v.apart x) ];
        known = λ x out. elim (Bool-cases (x == e)) [
          | inl at ↦ absurd (ground arith)
          | inr off ↦ rw off (v.known x out)
        ];
        count = recount n n' _ _ _ _ v.count (total-update weight flags e bound f lt) counts;
        count_active =
            recount k k' _ _ _ _ v.count_active (total-update waiting flags e bound f lt)
              counts_active;
      }

module _ (E : Eventop) where
  abbrev pub IsQueued : ℕ → EventBase E → Type 0
  IsQueued bound b =
      Queued (λ e. (b.events e).ev_pri) bound b.ev_flags b.activequeues b.active_later_queue
        b.event_count b.event_count_active

  pub flagged-lt :
      (b : EventBase E) (bound e : ℕ) → IsQueued bound b → 0 < queues_of (b.ev_flags e) → e < bound
  flagged-lt b bound e v some = elim (Bool-cases (ltb e bound)) [
    | inl inside ↦ ground arith
    | inr out ↦ absurd (ground (arith, v.known e (ground arith)))
  ]

  -- Events on a queue are events of the base.
  pub later-lt :
      (b : EventBase E) (bound e : ℕ)
      → IsQueued bound b
      → 0 < occurs e b.active_later_queue
      → e < bound
  later-lt b bound e v there = flagged-lt b bound e v (ground (arith, v.on_later e))
