-- ===== src/EvMap/Ops.antt =====
-- evmap_io_add_ and evmap_io_del_ keep the backend in step with the listeners.
use swift_event.Base.{
  ℕ, ◌<◌, ◌≡◌, ◌≢◌, inl, inr, refl, sym, ap, ap₂, subst, ◌∙◌, Bool, true, false, not, ◌||◌, Option,
  none, some, List, [], ◌∷◌, ltb, ◌==◌, if◌then◌else◌, update, Bool-cases, ℕ_discrete, arith,
}
use swift_event.Base.Int.{ℤ, negsuc}
use swift_event.Events.{Events}
use swift_event.EvMap.{
  Mask, both, is_some_mask, Eventop, EvmapIo, io_init, watched, IoMap, store_io, gained, listen,
  io_add_entry, io_add_slot,
}
use swift_event.EvMap.Watch.{
  wanted, IsCounted, EntryCounted, IsWatched, init-IsCounted, listen-IsCounted, watched-listen,
}

abbrev pub entry_events : Option EvmapIo → List ℕ
entry_events none = []
entry_events (some c) = c.events

module _ (E : Eventop) where
  -- The events that wait for a descriptor
  abbrev pub listeners : IoMap E → ℕ → List ℕ
  listeners m fd = entry_events (m.entries fd)

both-nothing : (m n : Mask) → is_some_mask n ≡ false → both m n ≡ m
both-nothing m n blank = ground arith

module _ (wants : ℕ → Events) (E : Eventop) where
  pub store-IsWatched :
      (m : IoMap E) (fd : ℕ) (c : EvmapIo) (s : E.State)
      → IsWatched wants E m
      → fd < m.nentries
      → IsCounted wants c
      → E.interest s fd ≡ watched c
      → ((x : ℕ) → x ≢ fd → E.interest s x ≡ E.interest m.backend x)
      → IsWatched wants E (store_io E (record m { backend = s }) fd c)
  store-IsWatched m fd c s v lt counted here others = record {
    counted = λ x. elim (Bool-cases (x == fd)) [
      | inl at ↦ rw at counted
      | inr off ↦ rw off (v.counted x)
    ];
    same = λ x. elim (Bool-cases (x == fd)) [
      | inl at ↦ rw at (subst (λ y. E.interest s y ≡ watched c) (ground (arith, at)) here)
      | inr off ↦ rw off (others x (λ e. ground (arith, e)) ∙ v.same x)
    ];
    inside = λ x out. elim (Bool-cases (x == fd)) [
      | inl at ↦ absurd (ground arith)
      | inr off ↦ rw off (v.inside x out)
    ];
  }

  -- What an addition does: `e` listens, or nothing has changed for anyone.
  pub record Listens (m : IoMap E) (fd e : ℕ) (r : ℤ × IoMap E) : Type 0 where
    pub valid : IsWatched wants E r.1
    pub fails : r.0 ≡ negsuc 0 → (x : ℕ) → listeners E r.1 x ≡ listeners E m x
    pub succeeds :
        r.0 ≢ negsuc 0
        → (x : ℕ) → listeners E r.1 x ≡ (if x == fd then e ∷ listeners E m fd else listeners E m x)

  Listens-if :
      {m : IoMap E} {fd e : ℕ} {x y : ℤ × IoMap E} (t : Bool)
      → (t ≡ true → Listens m fd e x)
      → (t ≡ false → Listens m fd e y)
      → Listens m fd e (if t then x else y)
  Listens-if true p q = p refl
  Listens-if false p q = q refl

  module _ (m : IoMap E) (fd e : ℕ) (c : EvmapIo) (v : IsWatched wants E m) (lt : fd < m.nentries)
      (at : m.entries fd ≡ some c) where
    pub here : E.interest m.backend fd ≡ watched c
    here = v.same fd ∙ ap wanted at

    pub counted : IsCounted wants c
    counted = subst (EntryCounted wants) at (v.counted fd)

    listened :
        (x : ℕ)
        → entry_events (update m.entries fd (some (listen E c e (wants e))) x)
          ≡ (if x == fd then e ∷ listeners E m fd else listeners E m x)
    listened x = elim (Bool-cases (x == fd)) [
      | inl yes_at ↦ rw yes_at (ap (λ o. e ∷ entry_events o) (sym at))
      | inr off ↦ rw off refl
    ]

    io_add_entry-Listens : Listens m fd e (io_add_entry E m fd e (wants e) c)
    unfolding io_add_entry
    io_add_entry-Listens =
        let ev = wants e in
        let c' = listen E c e ev in
        let asked = E.add m.backend fd (watched c) (gained E c ev) ev.ev_et in
        let new = listen-IsCounted wants E c e counted in
        let grows = watched-listen wants E c e ev in
        Listens-if (ltb 65535 c'.nread || (ltb 65535 c'.nwrite || ltb 65535 c'.nclose))
          (λ many. record { valid = v; fails = λ p x. refl; succeeds = λ p. absurd (p refl) })
          λ few.
            Listens-if (not (is_some_mask (gained E c ev)))
              (λ quiet. record {
                valid =
                    store-IsWatched m fd c' m.backend v lt new
                      (here
                        ∙ sym (both-nothing (watched c) (gained E c ev) (ground arith))
                        ∙ sym grows)
                      (λ x ne. refl);
                fails = λ p. absurd (cc p);
                succeeds = λ p x. listened x;
              })
              λ news.
                Listens-if asked.0
                  (λ ok. record {
                    valid =
                        store-IsWatched m fd c' asked.1 v lt new
                          (E.add_lem m.backend fd (watched c) (gained E c ev) ev.ev_et here ok
                            ∙ sym grows)
                          (E.add_others m.backend fd (watched c) (gained E c ev) ev.ev_et);
                    fails = λ p. absurd (cc p);
                    succeeds = λ p x. listened x;
                  })
                  λ refused. record {
                    valid = record {
                      counted = v.counted;
                      same = λ x. elim (ℕ_discrete x fd) [
                        | yes p ↦
                            subst (λ y. E.interest asked.1 y ≡ wanted (m.entries y)) (sym p)
                              (E.add_fails m.backend fd (watched c) (gained E c ev) ev.ev_et refused
                                ∙ v.same fd)
                        | no p ↦
                            E.add_others m.backend fd (watched c) (gained E c ev) ev.ev_et x p
                            ∙ v.same x
                      ];
                      inside = v.inside;
                    };
                    fails = λ p x. refl;
                    succeeds = λ p. absurd (p refl);
                  }

  -- Making an entry for a descriptor changes nothing for anyone.
  init-IsWatched :
      (m : IoMap E) (fd : ℕ)
      → IsWatched wants E m
      → fd < m.nentries
      → m.entries fd ≡ none
      → IsWatched wants E (store_io E m fd io_init)
  init-IsWatched m fd v lt blank =
      store-IsWatched m fd io_init m.backend v lt (init-IsCounted wants E)
        (v.same fd ∙ ap wanted blank) (λ x ne. refl)

  pub io_add_slot-Listens :
      (o : Option EvmapIo) (m : IoMap E) (fd e : ℕ)
      → IsWatched wants E m
      → fd < m.nentries
      → m.entries fd ≡ o
      → Listens m fd e (io_add_slot E o m fd e (wants e))
  unfolding io_add_slot
  io_add_slot-Listens (some c) m fd e v lt at = io_add_entry-Listens m fd e c v lt at
  io_add_slot-Listens none m fd e v lt at =
      Listens-if m.memory
        (λ memory.
          let made =
            io_add_entry-Listens (store_io E m fd io_init) fd e io_init
              (init-IsWatched m fd v lt at) lt (ground arith) in
          record {
            valid = made.valid;
            fails = λ p x. made.fails p x ∙ blank x;
            succeeds = λ p x.
                made.succeeds p x
                ∙ ap₂ (λ ys zs. if x == fd then e ∷ ys else zs) (blank fd) (blank x);
          })
        λ none_left. record { valid = v; fails = λ p x. refl; succeeds = λ p. absurd (p refl) }
    where
      blank : (x : ℕ) → listeners E (store_io E m fd io_init) x ≡ listeners E m x
      blank x = elim (Bool-cases (x == fd)) [
        | inl yes_at ↦
            rw yes_at (ap entry_events (sym at) ∙ ap (listeners E m) (ground (arith, yes_at)))
        | inr off ↦ rw off refl
      ]
