-- ===== src/Buffer/Pullup.antt =====
-- evbuffer_pullup shows the first bytes of an evbuffer and keeps all of its bytes.
use swift_event.Base.{
  is_empty, ℕ, ◌-◌, ◌≤◌, ◌<◌, ◌≡◌, ◌⊎◌, refl, sym, ap, ap₂, subst, ◌∙◌, Bool, true, false, inl, inr,
  List, [], ◌∷◌, ◌++◌, append_assoc, length, length-take, take, drop, take-append_of_le,
  take-append_of_ge, take-append-drop, take_all, drop-append_of_ge, arith, leb, ◌==◌, if◌then◌else◌,
  Option, none, some, not, ◌&&◌, ◌||◌, ltb,
}
use mathlib.Core.Path.{subst₂}
use swift_event.Base.Int.{ℤ}
use swift_event.Buffer.{Chain, Buffer, off, chain_new, sub_size}
use swift_event.Buffer.Read.{drain_rest}
use swift_event.Buffer.Pull.{
  frees_all, pulled, extended, replaced, pullup_first, pullup_on, pullup_size, pullup, with_chains,
}
use swift_event.Buffer.Valid.{
  bytes_of, contents, ChainFits, AllFit, LastWithData, IsValid, SameSettings, bytes_of-append,
}
use swift_event.Buffer.Alloc.{IsNew, chain_new-IsNew}
use swift_event.Buffer.Unlink.{drain_rest-AllEmpty, Chained, pulled-Chained, pulled-AllFit}
use swift_event.Buffer.Drain.{drain_rest-bytes, drain_rest-AllFit}
use swift_event.Buffer.Taken.{copy_chains-take}

-- What evbuffer_pullup has done: the bytes shown are the first `size`, and the buffer holds what it
-- held; or nothing.
pub data Pulled (b : Buffer) (size : ℕ) : Option (List ℕ) × Buffer → Type 0 where
  shown :
      {xs : List ℕ} {b' : Buffer}
      → xs ≡ take size (contents b)
      → IsValid b'
      → contents b' ≡ contents b
      → SameSettings b b'
      → Pulled b size (some xs, b')
  refused : Pulled b size (none, b)

Pulled-if :
    {b : Buffer} {size : ℕ} {x y : Option (List ℕ) × Buffer} (t : Bool)
    → (t ≡ true → Pulled b size x)
    → (t ≡ false → Pulled b size y)
    → Pulled b size (if t then x else y)
Pulled-if true p q = p refl
Pulled-if false p q = q refl

Pulled-option :
    {b : Buffer} {size : ℕ} {x : Option (List ℕ) × Buffer} (f : Chain → Option (List ℕ) × Buffer)
    (o : Option Chain)
    → Pulled b size x
    → ((c : Chain) → o ≡ some c → Pulled b size (f c))
    → Pulled b size (elim o [ none ↦ x | some c ↦ f c ])
Pulled-option f none p q = p
Pulled-option f (some c) p q = q c refl

-- The bytes behind the first chain, when `size` bytes of all have moved into a chain `c`.
rejoin :
    (xs ys : List ℕ) (size : ℕ)
    → length xs ≤ size
    → take size (xs ++ ys) ++ drop (size - length xs) ys ≡ xs ++ ys
rejoin xs ys size le =
    ap (◌++◌ (take size (xs ++ ys))) (sym (drop-append_of_ge size xs ys le))
    ∙ take-append-drop size (xs ++ ys)

module _ (b : Buffer) (v : IsValid b) (c : Chain) (size : ℕ) (c_fits : ChainFits c) where
  -- The first chain is `*last_with_datap`.
  module _ (f : Chain) (cs : List Chain) (at₀ : b.before ≡ []) (at₁ : b.rest ≡ f ∷ cs)
      (le : off f ≤ size) (moved : c.bytes ≡ take size (f.bytes ++ bytes_of cs)) where
    abbrev last_kept : Buffer
    last_kept = with_chains b ([], c ∷ drain_rest cs (size - off f))

    last_kept-contents : contents last_kept ≡ contents b
    last_kept-contents =
        ap₂ ◌++◌ moved (drain_rest-bytes cs (size - off f))
        ∙ rejoin f.bytes (bytes_of cs) size le
        ∙ ap₂ (λ x y. bytes_of x ++ bytes_of y) (sym at₀) (sym at₁)

    last_kept-IsValid : IsValid last_kept
    last_kept-IsValid =
        let (empty, _) = subst (LastWithData b.before) at₁ v.last in
        let (_, fits) = subst AllFit at₁ v.rest_fits in
        record {
          counted = v.counted ∙ ap length (sym last_kept-contents);
          small = v.small;
          before_fits = tt;
          rest_fits = (c_fits, drain_rest-AllFit cs (size - off f) fits);
          last = (drain_rest-AllEmpty cs (size - off f) empty, inr refl);
        }

  -- The first chain stands before `*last_with_datap`.
  module _ (f : Chain) (bs : List Chain) (d : Chain) (ds : List Chain) (at₀ : b.before ≡ f ∷ bs)
      (at₁ : b.rest ≡ d ∷ ds) (le : off f ≤ size)
      (moved : c.bytes ≡ take size (f.bytes ++ (bytes_of bs ++ bytes_of (d ∷ ds))))
      (gone : Bool) where
    abbrev links : List Chain × List Chain
    links = pulled c (frees_all bs (size - off f) && gone) bs (d ∷ ds) (size - off f)

    chained : Chained c bs (d ∷ ds) (size - off f) links
    chained =
        let (empty, head) = subst₂ LastWithData at₀ at₁ v.last in
        pulled-Chained c _ bs d ds (size - off f) (λ h. ground arith) (some_data head) empty
      where
        some_data : (0 < off d) ⊎ (f ∷ bs ≡ []) → 0 < off d
        some_data (inl p) = p
        some_data (inr p) = absurd (cc p)

    relinked-contents : contents (with_chains b links) ≡ contents b
    relinked-contents =
        let rest = bytes_of bs ++ bytes_of (d ∷ ds) in
        chained.0
        ∙ ap (λ x. x ++ drop (size - off f) rest) moved
        ∙ rejoin f.bytes rest size le
        ∙ sym (append_assoc f.bytes (bytes_of bs) (bytes_of (d ∷ ds)))
        ∙ ap₂ (λ x y. bytes_of x ++ bytes_of y) (sym at₀) (sym at₁)

    relinked-IsValid : IsValid (with_chains b links)
    relinked-IsValid =
        let (_, fits) = subst AllFit at₀ v.before_fits in
        let (x, y) =
          pulled-AllFit c _ bs (d ∷ ds) (size - off f) c_fits fits (subst AllFit at₁ v.rest_fits) in
        record {
          counted = v.counted ∙ ap length (sym relinked-contents);
          small = v.small;
          before_fits = x;
          rest_fits = y;
          last = chained.1;
        }

-- What the first chain holds after the two ways of making it large enough.
extended-bytes :
    (f : Chain) (others : List Chain) (size : ℕ)
    → off f ≤ size
    → (extended f others size).bytes ≡ take size (f.bytes ++ bytes_of others)
extended-bytes f others size le =
    ap (◌++◌ f.bytes) (copy_chains-take others (size - off f))
    ∙ sym (take-append_of_ge size f.bytes (bytes_of others) le)

replaced-bytes :
    (tmp f : Chain) (others : List Chain) (size : ℕ)
    → (replaced tmp f others size).bytes ≡ take size (f.bytes ++ bytes_of others)
replaced-bytes tmp f others size = copy_chains-take (f ∷ others) size

shown_moved : (xs ys : List ℕ) (size : ℕ) → xs ≡ take size ys → take size xs ≡ take size ys
shown_moved xs ys size e =
    ap (take size) e ∙ take_all size (take size ys) (omega (arith, length-take size ys))

-- The first chain with room for `size` bytes, and its replacement, keep to their memory.
extended-ChainFits :
    (f : Chain) (others : List Chain) (size : ℕ)
    → ChainFits f
    → off f ≤ size
    → leb size (sub_size f.buffer_len f.misalign) ≡ true
    → ChainFits (extended f others size)
extended-ChainFits f others size fits le room =
    let all = ap length (extended-bytes f others size le) in
    (ground (arith, all, length-take size (f.bytes ++ bytes_of others), fits.0, fits.1), fits.1)

replaced-ChainFits :
    (tmp f : Chain) (others : List Chain) (size : ℕ)
    → IsNew size tmp
    → ChainFits (replaced tmp f others size)
replaced-ChainFits tmp f others size new =
    let all = ap length (replaced-bytes tmp f others size) in
    (
      omega (arith, all, length-take size (f.bytes ++ bytes_of others), new.room, new.start),
      new.fits.1,
    )

module _ (b : Buffer) (v : IsValid b) (size : ℕ) where
  -- From the branches of the code to the bytes; `kept` is what a branch makes of the chains.
  branches-Pulled :
      (f : Chain) (others : List Chain) (kept : Chain → Bool → List Chain × List Chain)
      → ChainFits f
      → contents b ≡ f.bytes ++ bytes_of others
      → (off f ≤ size
          → (c : Chain) (gone : Bool) → ChainFits c
          → c.bytes ≡ take size (f.bytes ++ bytes_of others)
          → IsValid (with_chains b (kept c gone))
            × (contents (with_chains b (kept c gone)) ≡ contents b))
      → Pulled b size (
          if leb size (off f)
          then (some (take size f.bytes), b)
          else if leb size (sub_size f.buffer_len f.misalign)
          then (
            some (take size (extended f others size).bytes),
            with_chains b (kept (extended f others size) false),
          )
          else elim (chain_new b.memory size) [
            | none ↦ (none, b)
            | some tmp ↦ (
              some (take size (replaced tmp f others size).bytes),
              with_chains b (kept (replaced tmp f others size) true),
            )
          ])
  branches-Pulled f others kept fits all keep =
      let whole = f.bytes ++ bytes_of others in
      let from_whole = ap (take size) (sym all) in
      Pulled-if (leb size (off f))
        (λ near.
          shown (sym (take-append_of_le size f.bytes (bytes_of others) (ground arith)) ∙ from_whole)
            v refl (refl, refl, refl))
        λ far.
          Pulled-if (leb size (sub_size f.buffer_len f.misalign))
            (λ room.
              let le : off f ≤ size = ground arith in
              let moved = extended-bytes f others size le in
              let (valid, same) =
                keep le _ false (extended-ChainFits f others size fits le room) moved in
              shown (shown_moved _ whole size moved ∙ from_whole) valid same (refl, refl, refl))
            λ no_room. Pulled-option _ (chain_new b.memory size) refused λ tmp made.
              let le : off f ≤ size = ground arith in
              let moved = replaced-bytes tmp f others size in
              let new = chain_new-IsNew _ _ tmp made in
              let (valid, same) = keep le _ true (replaced-ChainFits tmp f others size new) moved in
              shown (shown_moved _ whole size moved ∙ from_whole) valid same (refl, refl, refl)

  pullup_on-Pulled :
      (bs cs : List Chain) → b.before ≡ bs → b.rest ≡ cs → Pulled b size (pullup_on b bs cs size)
  unfolding pullup_on pullup_first
  pullup_on-Pulled [] [] at₀ at₁ = refused
  pullup_on-Pulled [] (f ∷ cs) at₀ at₁ =
      branches-Pulled f cs _ (subst AllFit at₁ v.rest_fits).0
        (ap₂ (λ x y. bytes_of x ++ bytes_of y) at₀ at₁)
        λ le c gone fits moved. (
          last_kept-IsValid b v c size fits f cs at₀ at₁ le moved,
          last_kept-contents b v c size fits f cs at₀ at₁ le moved,
        )
  pullup_on-Pulled (f ∷ bs) [] at₀ at₁ = absurd (cc (subst₂ LastWithData at₀ at₁ v.last))
  pullup_on-Pulled (f ∷ bs) (d ∷ ds) at₀ at₁ =
      branches-Pulled f (bs ++ d ∷ ds) _ (subst AllFit at₀ v.before_fits).0
        (ap₂ (λ x y. bytes_of x ++ bytes_of y) at₀ at₁
          ∙ append_assoc f.bytes (bytes_of bs) (bytes_of (d ∷ ds))
          ∙ ap (◌++◌ f.bytes) (sym (bytes_of-append bs (d ∷ ds))))
        λ le c gone fits moved.
          let moved' = moved ∙ ap (λ x. take size (f.bytes ++ x)) (bytes_of-append bs (d ∷ ds)) in
          let g = gone || not (is_empty bs) in
          (
            relinked-IsValid b v c size fits f bs d ds at₀ at₁ le moved' g,
            relinked-contents b v c size fits f bs d ds at₀ at₁ le moved' g,
          )

-- evbuffer_pullup on a valid buffer either shows the first `size` bytes, or all for a negative
-- size, or returns NULL; it keeps the buffer valid, with the same bytes and settings.
pub pullup-Pulled :
    (b : Buffer) (size : ℤ) → IsValid b → Pulled b (pullup_size b size) (pullup b size)
unfolding pullup
pullup-Pulled b size v =
    let n = pullup_size b size in
    Pulled-if (n == 0 || ltb b.total_len n) (λ out_of_range. refused)
      λ in_range. pullup_on-Pulled b v n b.before b.rest refl refl
