-- ===== src/Buffer/Unlink.antt =====
-- How evbuffer_pullup unlinks the chains that it frees.
use swift_event.Base.{
  ℕ, ◌-◌, ◌<◌, ◌≡◌, refl, sym, ap, subst, ◌∙◌, Bool, true, false, inl, inr, List, [], ◌∷◌, ◌++◌,
  append_assoc, length-drop, drop, arith, leb, ◌==◌, if◌then◌else◌, Bool-cases,
}
use swift_event.Buffer.{Chain, off}
use swift_event.Buffer.Read.{advance, drain_rest, drain_loop}
use swift_event.Buffer.Pull.{frees_all, frees_head, relink, pulled}
use swift_event.Buffer.Valid.{bytes_of, ChainFits, AllFit, AllEmpty, LastWithData}
use swift_event.Buffer.Drain.{drain_loop-bytes, drain_loop-AllFit}

-- Where all the chains before `*last_with_datap` are freed, none is left there.
frees_all-drain : (bs cs : List Chain) (n : ℕ) → frees_all bs n ≡ true → (drain_loop bs cs n).0 ≡ []
unfolding drain_loop
frees_all-drain [] cs n h = refl
frees_all-drain (b ∷ bs) cs n h = ground (arith, frees_all-drain bs cs (n - off b))

pub drain_rest-AllEmpty : (cs : List Chain) (n : ℕ) → AllEmpty cs → AllEmpty (drain_rest cs n)
unfolding drain_rest
drain_rest-AllEmpty [] n h = tt
drain_rest-AllEmpty (c ∷ cs) n h =
    let past : leb (off c) n ≡ true = ground arith in
    rw past (drain_rest-AllEmpty cs (n - off c) h.1)

-- A first chain from `*last_with_datap` on that is not freed keeps data.
kept_head :
    (bs : List Chain) (c : Chain) (cs : List Chain) (n : ℕ)
    → 0 < off c
    → frees_head bs (c ∷ cs) n ≡ false
    → (c' : Chain) × ((drain_loop bs (c ∷ cs) n).1 ≡ c' ∷ cs) × (0 < off c')
unfolding drain_loop drain_rest
kept_head [] c cs n full h =
    let here : leb (off c) n ≡ false = ground arith in
    (advance c n, rw here refl, omega (arith, length-drop n c.bytes, leb_false here))
  where
    leb_false : {a b : ℕ} → leb a b ≡ false → b < a
    leb_false h = ground arith
kept_head (b ∷ bs) c cs n full h = elim (Bool-cases (leb (off b) n)) [
  | inl past ↦ rw past (kept_head bs c cs (n - off b) full (ground arith))
  | inr here ↦ rw here (c, refl, full)
]

-- A freed one leaves only empty chains behind it.
freed_head :
    (bs : List Chain) (c : Chain) (cs : List Chain) (n : ℕ)
    → AllEmpty cs
    → frees_head bs (c ∷ cs) n ≡ true
    → AllEmpty (drain_loop bs (c ∷ cs) n).1
unfolding drain_loop drain_rest
freed_head [] c cs n empty h =
    let past : leb (off c) n ≡ true = ground arith in
    rw past (drain_rest-AllEmpty cs (n - off c) empty)
freed_head (b ∷ bs) c cs n empty h =
    let past : leb (off b) n ≡ true = ground arith in
    rw past (freed_head bs c cs (n - off b) empty (ground arith))

-- The chains after a pullup hold the bytes of `tmp` and those that were not freed.
abbrev pub Chained : Chain → List Chain → List Chain → ℕ → List Chain × List Chain → Type 0
Chained tmp bs rest n (x, y) =
    (bytes_of x ++ bytes_of y ≡ tmp.bytes ++ drop n (bytes_of bs ++ bytes_of rest))
    × LastWithData x y

module _ (tmp : Chain) (datap : Bool) (bs : List Chain) (c : Chain) (cs : List Chain) (n : ℕ)
    (freed : datap ≡ true → frees_all bs n ≡ true) (full : 0 < off c) (empty : AllEmpty cs) where
  Chained-if :
      (x y : List Chain × List Chain) (t : Bool)
      → (t ≡ true → Chained tmp bs (c ∷ cs) n x)
      → (t ≡ false → Chained tmp bs (c ∷ cs) n y)
      → Chained tmp bs (c ∷ cs) n (if t then x else y)
  Chained-if x y true p q = p refl
  Chained-if x y false p q = q refl

  abbrev after : List Chain × List Chain
  after = drain_loop bs (c ∷ cs) n

  -- Nothing is left before `*last_with_datap`.
  alone :
      frees_all bs n ≡ true
      → tmp.bytes ++ bytes_of after.1 ≡ tmp.bytes ++ drop n (bytes_of bs ++ bytes_of (c ∷ cs))
  alone all = ap (◌++◌ tmp.bytes) (
      ap (λ x. bytes_of x ++ bytes_of after.1) (sym (frees_all-drain bs (c ∷ cs) n all))
      ∙ drain_loop-bytes bs (c ∷ cs) n)

  Chained-relink :
      (c' : Chain)
      → after.1 ≡ c' ∷ cs
      → 0 < off c'
      → frees_all bs n ≡ true
      → Chained tmp bs (c ∷ cs) n (relink tmp after.1)
  Chained-relink c' at some_left all =
      let same = alone all in
      subst (λ (r : List Chain). Chained tmp bs (c ∷ cs) n (relink tmp r)) (sym at)
        (Chained-if ([], tmp ∷ c' ∷ cs) (tmp ∷ [], c' ∷ cs) (off c' == 0)
          (λ z. absurd (ground arith))
          (λ _. (
            append_assoc tmp.bytes [] (bytes_of (c' ∷ cs))
                ∙ ap (λ r. tmp.bytes ++ bytes_of r) (sym at)
                ∙ same,
            (empty, inl some_left),
          )))

  pub pulled-Chained : Chained tmp bs (c ∷ cs) n (pulled tmp datap bs (c ∷ cs) n)
  unfolding pulled
  pulled-Chained =
      Chained-if ([], tmp ∷ after.1) _ (frees_head bs (c ∷ cs) n)
        (λ gone. (alone (ground arith), (freed_head bs c cs n empty gone, inr refl)))
        λ stays.
          let (c', at, some_left) = kept_head bs c cs n full stays in
          Chained-if (relink tmp after.1) (tmp ∷ after.0, after.1) datap
            (λ unlinked. Chained-relink c' at some_left (freed unlinked))
            λ linked. (
              append_assoc tmp.bytes (bytes_of after.0) (bytes_of after.1)
                  ∙ ap (◌++◌ tmp.bytes) (drain_loop-bytes bs (c ∷ cs) n),
              subst (LastWithData (tmp ∷ after.0)) (sym at) (empty, inl some_left),
            )

pub pulled-AllFit :
    (tmp : Chain) (datap : Bool) (bs rest : List Chain) (n : ℕ)
    → ChainFits tmp
    → AllFit bs
    → AllFit rest
    → let (x, y) = pulled tmp datap bs rest n in AllFit x × AllFit y
unfolding pulled
pulled-AllFit tmp datap bs rest n t h k =
    let (bs', rest') = drain_loop-AllFit bs rest n h k in
    elim (Bool-cases (frees_head bs rest n)) [
      | inl gone ↦ rw gone (tt, (t, rest'))
      | inr stays ↦ elim (Bool-cases datap) [
        | inl unlinked ↦ rw (stays, unlinked) (relink-AllFit (drain_loop bs rest n).1 rest')
        | inr linked ↦ rw (stays, linked) ((t, bs'), rest')
      ]
    ]
  where
    relink-AllFit : (r : List Chain) → AllFit r → let (x, y) = relink tmp r in AllFit x × AllFit y
    relink-AllFit [] h = (tt, (t, tt))
    relink-AllFit (d ∷ ds) h = elim (Bool-cases (off d == 0)) [
      | inl z ↦ rw z (tt, (t, h))
      | inr z ↦ rw z ((t, tt), h)
    ]
