-- ===== src/Buffer/Add.antt =====
-- evbuffer_add puts its bytes at the end, or reports an error and changes nothing.
use swift_event.Base.{
  ℕ, ◌+◌, ◌-◌, ◌≤◌, ◌≡◌, refl, sym, ap, subst, ◌∙◌, Bool, true, false, Option, none, some, List, [],
  ◌∷◌, ◌++◌, append-nil, length, length-append, arith, ltb, leb, if◌then◌else◌, if_true, if_false,
  ◌||◌,
}
use swift_event.Base.Int.{ℤ, pos, negsuc}
use swift_event.Buffer.{
  Chain, Buffer, off, size_max, chain_max, chain_size, sub_size, chain_new, invoke_callbacks,
}
use swift_event.Buffer.Write.{
  chain_insert, should_realign, next_size, count_added, add_chain, add_to, add_on, add, insert_last,
}
use swift_event.Buffer.Valid.{
  contents, ChainFits, AllFit, IsValid, SameSettings, contents-invoke, invoke-IsValid,
  invoke-SameSettings, chain_insert-contents, chain_insert-IsValid,
}
use swift_event.Buffer.Alloc.{IsNew, chain_new-IsNew}
use swift_event.Buffer.Grown.{grown-contents, grown-IsValid, with_tail-IsValid, with_tail-contents}

-- What an addition of `xs` has done: all of it, or nothing.
pub data Added (b : Buffer) (xs : List ℕ) : ℤ × Buffer → Type 0 where
  done :
      {b' : Buffer}
      → IsValid b'
      → contents b' ≡ contents b ++ xs
      → SameSettings b b'
      → Added b xs (pos 0, b')
  refused : Added b xs (negsuc 0, b)

-- A test, or an allocation, that the code makes first.
module _ {b : Buffer} {xs : List ℕ} where
  pub Added-if :
      {x y : ℤ × Buffer} (t : Bool)
      → (t ≡ true → Added b xs x)
      → (t ≡ false → Added b xs y)
      → Added b xs (if t then x else y)
  Added-if true p q = p refl
  Added-if false p q = q refl

  pub Added-option :
      {x : ℤ × Buffer} (f : Chain → ℤ × Buffer) (o : Option Chain)
      → Added b xs x
      → ((c : Chain) → o ≡ some c → Added b xs (f c))
      → Added b xs (elim o [ none ↦ x | some c ↦ f c ])
  Added-option f none p q = p
  Added-option f (some c) p q = q c refl

-- The counters of the callbacks are no part of the invariant.
pub count-IsValid : (b : Buffer) (n : ℕ) → IsValid b → IsValid (record b { n_add_for_cb = n })
count-IsValid b n v = record {
  counted = v.counted;
  small = v.small;
  before_fits = v.before_fits;
  rest_fits = v.rest_fits;
  last = v.last;
}

add_chain-Added :
    (b : Buffer) (c : Chain) (cs : List Chain) (remain : ℕ) (xs : List ℕ)
    → IsValid b
    → b.rest ≡ c ∷ cs
    → remain ≤ length xs
    → c.misalign + off c + remain ≤ c.buffer_len
    → b.total_len + length xs ≤ size_max
    → Added b xs (add_chain b c cs remain xs)
unfolding add_chain chain_insert
add_chain-Added b c cs remain xs v at le room small =
    Added-option _ (chain_new b.memory (next_size c.buffer_len (length xs))) refused λ tmp made.
      let new = chain_new-IsNew _ _ tmp made in
      done
        (invoke-IsValid _
          (count-IsValid _ _ (with_tail-IsValid b c tmp cs remain xs v at le room small new)))
        (contents-invoke _ ∙ with_tail-contents b c tmp cs remain xs v at le room small new)
        (invoke-SameSettings _)

should_realign-fits :
    (c : Chain) (n : ℕ)
    → c.misalign + off c ≤ c.buffer_len
    → c.buffer_len ≤ chain_max - chain_size
    → should_realign c n ≡ true
    → 0 + (off c + n) ≤ c.buffer_len
unfolding should_realign
should_realign-fits c n fits large h = ground arith

add_to-Added :
    (b : Buffer) (c : Chain) (cs : List Chain) (xs : List ℕ)
    → IsValid b
    → b.rest ≡ c ∷ cs
    → b.total_len + length xs ≤ size_max
    → Added b xs (add_to b c cs xs)
unfolding add_to
add_to-Added b c cs xs v at small =
    let (limits, _) = subst AllFit at v.rest_fits in
    let in_memory : c.misalign + off c ≤ c.buffer_len = limits.0 in
    let longer = length-append c.bytes xs in
    Added-if c.is_immutable
      (λ shared. add_chain-Added b c cs 0 xs v at (omega arith) (omega arith) small)
      λ own.
        Added-if (leb (length xs) (sub_size (sub_size c.buffer_len c.misalign) (off c)))
          (λ fits. grow c.misalign (ground arith) limits.1)
          λ full.
            Added-if (should_realign c (length xs))
              (λ realign.
                grow 0 (should_realign-fits c (length xs) in_memory limits.1 realign) limits.1)
              λ moved. add_chain-Added b c cs _ xs v at (ground arith) (ground arith) small
  where
    grow :
        (start : ℕ)
        → start + (off c + length xs) ≤ c.buffer_len
        → c.buffer_len ≤ chain_max - chain_size
        → let c' = record c { misalign = start; bytes = c.bytes ++ xs } in
          Added b xs
            (pos 0, invoke_callbacks (count_added (length xs) (record b { rest = c' ∷ cs })))
    grow start fits large =
        let c' = record c { misalign = start; bytes = c.bytes ++ xs } in
        done
          (invoke-IsValid _ (
            grown-IsValid b c cs v at c' xs (length xs) refl refl
              (omega (arith, length-append c.bytes xs), large) small))
          (contents-invoke _ ∙ grown-contents b c cs v at c' xs (length xs) refl refl)
          (invoke-SameSettings _)

-- The first chain of a buffer is made large enough.
first_chain :
    (b : Buffer) (c : Chain) (xs : List ℕ)
    → IsValid b
    → b.rest ≡ []
    → IsNew (length xs) c
    → b.total_len + length xs ≤ size_max
    → Added b xs (add_to (chain_insert b c) c [] xs)
unfolding add_to chain_insert insert_last
first_chain b c xs v at new small =
    let empty : length c.bytes ≡ 0 = ap length new.none in
    let b₁ = chain_insert b c in
    let v₁ = chain_insert-IsValid b c v new.fits (omega (arith, empty, v.small)) in
    let rest₁ : b₁.rest ≡ c ∷ [] = ground arith in
    let same : contents b₁ ≡ contents b =
      chain_insert-contents b c v.last ∙ simp (new.none, append-nil) in
    let total : b₁.total_len ≡ b.total_len = omega (arith, empty, v.small) in
    let room : leb (length xs) (sub_size (sub_size c.buffer_len c.misalign) (off c)) ≡ true =
      ground (arith, new.start, new.room, new.fits.1, empty) in
    let c' = record c { bytes = c.bytes ++ xs } in
    let fits : ChainFits c' =
      (omega (arith, length-append c.bytes xs, new.start, new.room, empty), new.fits.1) in
    let run : add_to b₁ c [] xs
        ≡ (pos 0, invoke_callbacks (count_added (length xs) (record b₁ { rest = c' ∷ [] }))) =
      if_false _ _ new.writable ∙ if_true _ _ room in
    subst (Added b xs) (sym run) (
      done
        (invoke-IsValid _
          (grown-IsValid b₁ c [] v₁ rest₁ c' xs (length xs) refl refl fits (omega arith)))
        (contents-invoke _
          ∙ grown-contents b₁ c [] v₁ rest₁ c' xs (length xs) refl refl
          ∙ ap (λ t. t ++ xs) same)
        (invoke-SameSettings _))

-- evbuffer_add on a valid buffer returns 0 with exactly the given bytes appended and the buffer
-- still valid, or returns -1 with the buffer unchanged.
pub add-Added : (b : Buffer) (xs : List ℕ) → IsValid b → Added b xs (add b xs)
unfolding add add_on
add-Added b xs v =
    Added-if (b.freeze_end || ltb (size_max - b.total_len) (length xs)) (λ no_room. refused)
      λ room. add_on-Added b.rest refl (ground (arith, v.small))
  where
    add_on-Added :
        (rest : List Chain)
        → b.rest ≡ rest
        → b.total_len + length xs ≤ size_max
        → Added b xs (add_on b rest xs)
    add_on-Added [] at small =
        Added-option _ (chain_new b.memory (length xs)) refused
          λ c made. first_chain b c xs v at (chain_new-IsNew _ _ c made) small
    add_on-Added (c ∷ cs) at small = add_to-Added b c cs xs v at small
