-- ===== src/EventBase/Watching.antt =====
-- The maps of evmap.c and the flags of event.c agree: an event listens to its descriptor exactly while
-- it is inserted, and the backend watches for exactly what the inserted events want.
use swift_event.Base.{
  ℕ, ◌<◌, ◌≡◌, ◌≢◌, inl, inr, refl, sym, ap, subst, ◌∙◌, Bool, true, false, ◌&&◌, ◌==◌, ==_iff,
  if◌then◌else◌, update, to_ℕ, ◌∷◌, occurs, remove_first, taken_self, taken_other, Bool-cases,
  arith,
}
use swift_event.Base.Int.{ℤ, pos, negsuc, eqb_ℤ}
use swift_event.Events.{Event, Events, wants_io}
use swift_event.EvMap.{Eventop, IoMap, io_add, io_del}
use swift_event.EvMap.Watch.{IsWatched}
use swift_event.EvMap.Ops.{listeners, Listens}
use swift_event.EvMap.IoAdd.{Unlistens, io_add-Listens, io_del-Unlistens}

module _ (E : Eventop) (events : ℕ → Event) where
  abbrev pub wants : ℕ → Events
  wants e = (events e).ev_events

  -- The event waits for this descriptor, once it is inserted.
  abbrev is_on : ℕ → ℕ → Bool
  is_on e fd = wants_io (wants e) && eqb_ℤ (events e).ev_fd (pos fd)

  pub record Watching (inserted : ℕ → Bool) (m : IoMap E) : Type 0 where
    pub watched : IsWatched wants E m
    pub listening : (e fd : ℕ) → occurs e (listeners E m fd) ≡ to_ℕ (inserted e && is_on e fd)

  pub same-Watching :
      {inserted inserted' : ℕ → Bool} {m : IoMap E}
      → ((e : ℕ) → inserted' e ≡ inserted e)
      → Watching inserted m
      → Watching inserted' m
  same-Watching same v = record {
    watched = v.watched;
    listening = λ e fd. v.listening e fd ∙ ap (λ t. to_ℕ (t && is_on e fd)) (sym (same e));
  }

  module _ (inserted : ℕ → Bool) (m : IoMap E) (e : ℕ) (v : Watching inserted m) where
    -- The flag of an event with no descriptor does not matter.
    pub flag-Watching :
        (t : Bool) → ((fd : ℕ) → is_on e fd ≡ false) → Watching (update inserted e t) m
    flag-Watching t nowhere = record {
      watched = v.watched;
      listening = λ x fd. elim (Bool-cases (x == e)) [
        | inl at ↦
            let y : x ≡ e = (==_iff x e).0 at in
            let off : is_on x fd ≡ false = subst (λ z. is_on z fd ≡ false) (sym y) (nowhere fd) in
            v.listening x fd ∙ ground (arith, off)
        | inr off ↦ rw off (v.listening x fd)
      ];
    }

    unlisten-Watching :
        (fd : ℕ) (r : ℤ × IoMap E)
        → inserted e ≡ true
        → ((x : ℕ) → is_on e x ≡ (x == fd))
        → Unlistens wants E m fd e r
        → r.0 ≢ negsuc 0
        → Watching (update inserted e false) r.1
    unlisten-Watching fd r on at stopped ok =
        let one : occurs e (listeners E m fd) ≡ 1 =
          v.listening e fd ∙ ground (arith, on, at fd, (==_iff fd fd).1 refl) in
        let there : 0 < occurs e (listeners E m fd) = omega (arith, one) in
        record {
          watched = stopped.valid ok;
          listening = λ x k. ap (occurs x) (stopped.stops k) ∙ elim (Bool-cases (x == e)) [
            | inl same ↦ rw same (
                subst
                  (λ z.
                    occurs z
                      (if k == fd then remove_first e (listeners E m fd) else listeners E m k)
                    ≡ 0)
                  (sym ((==_iff x e).0 same)) (left_alone k one))
            | inr other ↦ rw other (elim (Bool-cases (k == fd)) [
              | inl here ↦ rw here (
                  subst
                    (λ z.
                      occurs x (remove_first e (listeners E m fd)) ≡ to_ℕ (inserted x && is_on x z))
                    (sym ((==_iff k fd).0 here))
                    (taken_other e x (listeners E m fd) there (λ y. ground (arith, y, other))
                      ∙ v.listening x fd))
              | inr away ↦ rw away (v.listening x k)
            ])
          ];
        }
      where
        left_alone :
            (k : ℕ)
            → occurs e (listeners E m fd) ≡ 1
            → occurs e (if k == fd then remove_first e (listeners E m fd) else listeners E m k) ≡ 0
        left_alone k one = elim (Bool-cases (k == fd)) [
          | inl here ↦
              rw here (omega (arith, one, taken_self e (listeners E m fd) (omega (arith, one))))
          | inr away ↦ rw away (v.listening e k ∙ ground (arith, at k, away))
        ]

    listen-Watching :
        (fd : ℕ) (r : ℤ × IoMap E)
        → inserted e ≡ false
        → ((x : ℕ) → is_on e x ≡ (x == fd))
        → Listens wants E m fd e r
        → r.0 ≢ negsuc 0
        → Watching (update inserted e true) r.1
    listen-Watching fd r off at started ok = record {
      watched = started.valid;
      listening = λ x k. ap (occurs x) (started.succeeds ok k) ∙ elim (Bool-cases (x == e)) [
        | inl same ↦ rw same (
            subst
              (λ z.
                occurs z (if k == fd then e ∷ listeners E m fd else listeners E m k)
                ≡ to_ℕ (is_on z k))
              (sym ((==_iff x e).0 same)) (now_on k))
        | inr other ↦ rw other (elim (Bool-cases (k == fd)) [
          | inl here ↦ rw here (
              subst (λ z. occurs x (e ∷ listeners E m fd) ≡ to_ℕ (inserted x && is_on x z))
                (sym ((==_iff k fd).0 here)) (ground (arith, other, v.listening x fd)))
          | inr away ↦ rw away (v.listening x k)
        ])
      ];
    }
      where
        now_on :
            (k : ℕ)
            → occurs e (if k == fd then e ∷ listeners E m fd else listeners E m k)
              ≡ to_ℕ (is_on e k)
        now_on k = elim (Bool-cases (k == fd)) [
          | inl here ↦
              rw (here, at k ∙ here) (ground (arith, off, v.listening e fd, (==_iff e e).1 refl))
          | inr away ↦ rw (away, at k ∙ away) (v.listening e k ∙ ground (arith, off))
        ]

  module _ (inserted : ℕ → Bool) (m : IoMap E) (e : ℕ) (v : Watching inserted m) where
    pub io_del-Watching :
        (z : ℤ)
        → (events e).ev_fd ≡ z
        → wants_io (wants e) ≡ true
        → inserted e ≡ true
        → (io_del E m z e (wants e)).0 ≢ negsuc 0
        → Watching (update inserted e false) (io_del E m z e (wants e)).1
    unfolding io_del
    io_del-Watching (negsuc n) fd io on ok =
        flag-Watching inserted m e v false (λ k. ground (arith, io, ap (λ z. eqb_ℤ z (pos k)) fd))
    io_del-Watching (pos n) fd io on ok =
        let at : (x : ℕ) → is_on e x ≡ (x == n) =
          λ x. ground (arith, io, ap (λ z. eqb_ℤ z (pos x)) fd) in
        let there : 0 < occurs e (listeners E m n) = ground (arith, v.listening e n, on, at n) in
        unlisten-Watching inserted m e v n _ on at (io_del-Unlistens wants E m n e v.watched there)
          ok

    pub io_add-Watching :
        (z : ℤ)
        → (events e).ev_fd ≡ z
        → wants_io (wants e) ≡ true
        → inserted e ≡ false
        → (io_add E m z e (wants e)).0 ≢ negsuc 0
        → Watching (update inserted e true) (io_add E m z e (wants e)).1
    unfolding io_add
    io_add-Watching (negsuc n) fd io off ok =
        flag-Watching inserted m e v true (λ k. ground (arith, io, ap (λ z. eqb_ℤ z (pos k)) fd))
    io_add-Watching (pos n) fd io off ok =
        listen-Watching inserted m e v n _ off
          (λ x. ground (arith, io, ap (λ z. eqb_ℤ z (pos x)) fd))
          (io_add-Listens wants E m n e v.watched) ok

    pub io_add_fails-Watching :
        (z : ℤ)
        → (io_add E m z e (wants e)).0 ≡ negsuc 0
        → Watching inserted (io_add E m z e (wants e)).1
    unfolding io_add
    io_add_fails-Watching (negsuc n) no_room = v
    io_add_fails-Watching (pos n) no_room =
        let tried = io_add-Listens wants E m n e v.watched in
        record {
          watched = tried.valid;
          listening = λ x k. ap (occurs x) (tried.fails no_room k) ∙ v.listening x k;
        }
