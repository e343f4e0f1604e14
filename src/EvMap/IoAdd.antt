-- ===== src/EvMap/IoAdd.antt =====
-- evmap_io_add_ and evmap_io_del_ as a whole.
use swift_event.Base.{
  ℕ, ◌<◌, ◌≡◌, ◌≢◌, inl, inr, refl, sym, ap, ap₂, subst, ◌∙◌, Bool, true, false, not, Option, none,
  some, ◌∷◌, leb, ◌==◌, if◌then◌else◌, update, occurs, remove_first, Bool-cases, arith,
}
use swift_event.Base.Int.{ℤ, pos, negsuc}
use swift_event.Events.{Events}
use swift_event.EvMap.{
  Mask, without, is_some_mask, Eventop, EvmapIo, watched, IoMap, lost, unlisten, io_add_spaced,
  io_add, io_del_entry, io_del_slot, io_del,
}
use swift_event.EvMap.Watch.{wanted, EntryCounted, IsWatched, unlisten-IsCounted, watched-unlisten}
use swift_event.EvMap.Ops.{entry_events, listeners, store-IsWatched, Listens, io_add_slot-Listens}
use swift_event.EvMap.Space.{Spaced, space, no_space, make_space-Spaced}

module _ (wants : ℕ → Events) (E : Eventop) where
  io_add_spaced-Listens :
      (m : IoMap E) (fd e : ℕ) (r : Bool × IoMap E)
      → IsWatched wants E m
      → Spaced wants E m fd r
      → Listens wants E m fd e (io_add_spaced E r fd e (wants e))
  unfolding io_add_spaced
  io_add_spaced-Listens m fd e (true, m') v (space v' lt same) =
      let made = io_add_slot-Listens wants E (m'.entries fd) m' fd e v' lt refl in
      record {
        valid = made.valid;
        fails = λ p x. made.fails p x ∙ ap entry_events (same x);
        succeeds = λ p x.
            made.succeeds p x
            ∙ ap₂ (λ y z. if x == fd then e ∷ entry_events y else entry_events z) (same fd)
                (same x);
      }
  io_add_spaced-Listens m fd e (false, m') v no_space = record {
    valid = v;
    fails = λ p x. refl;
    succeeds = λ p. absurd (p refl);
  }

  -- evmap_io_add_ keeps the backend watching each descriptor for exactly what its listeners want.
  -- Unless it returns -1 the event is one more listener of its descriptor, and no other listener
  -- changes; when it returns -1 no listener changes.
  pub io_add-Listens :
      (m : IoMap E) (fd e : ℕ)
      → IsWatched wants E m
      → Listens wants E m fd e (io_add E m (pos fd) e (wants e))
  unfolding io_add
  io_add-Listens m fd e v = io_add_spaced-Listens m fd e _ v (make_space-Spaced wants E m fd v)

  -- What a removal does when the backend agrees.
  pub record Unlistens (m : IoMap E) (fd e : ℕ) (r : ℤ × IoMap E) : Type 0 where
    pub stops :
        (x : ℕ)
        → listeners E r.1 x
          ≡ (if x == fd then remove_first e (listeners E m fd) else listeners E m x)
    pub valid : r.0 ≢ negsuc 0 → IsWatched wants E r.1

  Unlistens-if :
      {m : IoMap E} {fd e : ℕ} {x y : ℤ × IoMap E} (t : Bool)
      → (t ≡ true → Unlistens m fd e x)
      → (t ≡ false → Unlistens m fd e y)
      → Unlistens m fd e (if t then x else y)
  Unlistens-if true p q = p refl
  Unlistens-if false p q = q refl

  accepted : (t : Bool) → (if t then pos 1 else negsuc 0) ≢ negsuc 0 → t ≡ true
  accepted true h = refl
  accepted false h = absurd (h refl)

  without-nothing : (m n : Mask) → is_some_mask n ≡ false → without m n ≡ m
  without-nothing m n blank = ground arith

  module _ (m : IoMap E) (fd e : ℕ) (c : EvmapIo) (v : IsWatched wants E m) (lt : fd < m.nentries)
      (at : m.entries fd ≡ some c) (there : 0 < occurs e c.events) where
    stopped :
        (x : ℕ)
        → entry_events (update m.entries fd (some (unlisten E c e (wants e))) x)
          ≡ (if x == fd then remove_first e (listeners E m fd) else listeners E m x)
    stopped x = elim (Bool-cases (x == fd)) [
      | inl yes_at ↦ rw yes_at (ap (λ o. remove_first e (entry_events o)) (sym at))
      | inr off ↦ rw off refl
    ]

    io_del_entry-Unlistens : Unlistens m fd e (io_del_entry E m fd e (wants e) c)
    unfolding io_del_entry
    io_del_entry-Unlistens =
        let ev = wants e in
        let c' = unlisten E c e ev in
        let here = v.same fd ∙ ap wanted at in
        let counted = subst (EntryCounted wants) at (v.counted fd) in
        let asked = E.del m.backend fd (watched c) (lost E c ev) ev.ev_et in
        let new = unlisten-IsCounted wants E c e there counted in
        let shrinks = watched-unlisten wants E c e there counted in
        Unlistens-if (not (is_some_mask (lost E c ev)))
          (λ quiet. record {
            stops = stopped;
            valid = λ p.
                store-IsWatched wants E m fd c' m.backend v lt new
                  (here
                    ∙ sym (without-nothing (watched c) (lost E c ev) (ground arith))
                    ∙ sym shrinks)
                  (λ x ne. refl);
          })
          λ news. record {
            stops = stopped;
            valid = λ p.
                store-IsWatched wants E m fd c' asked.1 v lt new
                  (E.del_lem m.backend fd (watched c) (lost E c ev) ev.ev_et here
                      (accepted asked.0 p)
                    ∙ sym shrinks)
                  (E.del_others m.backend fd (watched c) (lost E c ev) ev.ev_et);
          }

  io_del_slot-Unlistens :
      (o : Option EvmapIo) (m : IoMap E) (fd e : ℕ)
      → IsWatched wants E m
      → fd < m.nentries
      → m.entries fd ≡ o
      → 0 < occurs e (entry_events o)
      → Unlistens m fd e (io_del_slot E o m fd e (wants e))
  unfolding io_del_slot
  io_del_slot-Unlistens (some c) m fd e v lt at there =
      io_del_entry-Unlistens m fd e c v lt at there
  io_del_slot-Unlistens none m fd e v lt at there = absurd (omega arith)

  nobody :
      {m : IoMap E} {e : ℕ} {r : ℤ × IoMap E} (fd : ℕ)
      → m.entries fd ≡ none
      → 0 < occurs e (listeners E m fd)
      → Unlistens m fd e r
  nobody {m} {e} fd blank there =
      let nothing : 0 < 0 = subst (λ o. 0 < occurs e (entry_events o)) blank there in
      absurd (omega arith)

  -- evmap_io_del_ of a listener takes it off the listeners of its descriptor, and off no other's;
  -- unless the backend refuses, it goes on watching exactly what the listeners want.
  pub io_del-Unlistens :
      (m : IoMap E) (fd e : ℕ)
      → IsWatched wants E m
      → 0 < occurs e (listeners E m fd)
      → Unlistens m fd e (io_del E m (pos fd) e (wants e))
  unfolding io_del
  io_del-Unlistens m fd e v there =
      Unlistens-if (leb m.nentries fd) (λ out. nobody fd (v.inside fd (ground arith)) there)
        λ inside. io_del_slot-Unlistens (m.entries fd) m fd e v (ground arith) refl there
