-- ===== src/Buffer/AddSucceeds.antt =====
-- evbuffer_add does not fail without need.
use swift_event.Base.{
  ℕ, ◌+◌, ◌-◌, ◌≤◌, ◌≡◌, refl, ap, ◌∙◌, true, false, Option, none, some, List, [], ◌∷◌, length,
  arith, ltb, if_false, ◌||◌,
}
use swift_event.Base.Int.{ℤ, pos}
use swift_event.Buffer.{Chain, Buffer, off, size_max, chain_max, chain_size, sub_size, chain_new}
use swift_event.Buffer.Write.{chain_insert, next_size, add_chain, add_to, add_on, add, insert_last}
use swift_event.Buffer.Valid.{AllFit, IsValid}
use swift_event.Buffer.Alloc.{chain_new-IsNew, chain_new-ok}

-- The first test of evbuffer_add passes for a buffer that may grow.
not_full :
    (b : Buffer) (n : ℕ)
    → b.freeze_end ≡ false
    → b.total_len + n ≤ size_max
    → (b.freeze_end || ltb (size_max - b.total_len) n) ≡ false
not_full b n thawed small = ground arith

-- The branch that follows an allocation that succeeds.
allocated :
    (x : ℤ × Buffer) (f : Chain → ℤ × Buffer) (o : Option Chain) (c : Chain)
    → o ≡ some c
    → (f c).0 ≡ pos 0
    → let r : ℤ × Buffer = elim o [ none ↦ x | some d ↦ f d ] in r.0 ≡ pos 0
allocated x f none c made h = cc
allocated x f (some d) c made h = ground arith

-- An addition that no allocation refuses.
add_chain_succeeds :
    (b : Buffer) (c : Chain) (cs : List Chain) (remain : ℕ) (xs : List ℕ)
    → b.memory ≡ true
    → c.buffer_len ≤ chain_max - chain_size
    → length xs ≤ chain_max - chain_size
    → (add_chain b c cs remain xs).0 ≡ pos 0
unfolding add_chain
add_chain_succeeds b c cs remain xs mem small short =
    let (tmp, made) = chain_new-ok (next_size c.buffer_len (length xs)) (ground arith) in
    let made' : chain_new b.memory (next_size c.buffer_len (length xs)) ≡ some tmp =
      ap (λ m. chain_new m (next_size c.buffer_len (length xs))) mem ∙ made in
    allocated _ _ _ tmp made' refl

add_to_succeeds :
    (b : Buffer) (c : Chain) (cs : List Chain) (xs : List ℕ)
    → b.memory ≡ true
    → c.buffer_len ≤ chain_max - chain_size
    → length xs ≤ chain_max - chain_size
    → (add_to b c cs xs).0 ≡ pos 0
unfolding add_to
add_to_succeeds b c cs xs mem small short = ground (
  arith,
  add_chain_succeeds b c cs 0 xs mem small short,
  add_chain_succeeds b c cs (sub_size (sub_size c.buffer_len c.misalign) (off c)) xs mem small
      short,
)

-- evbuffer_add returns 0 when the end of the buffer is not frozen, memory is left, and neither the
-- new bytes nor the new length are too many.
pub add_succeeds :
    (b : Buffer) (xs : List ℕ)
    → IsValid b
    → b.freeze_end ≡ false
    → b.memory ≡ true
    → b.total_len + length xs ≤ size_max
    → length xs ≤ chain_max - chain_size
    → (add b xs).0 ≡ pos 0
unfolding add add_on chain_insert insert_last
add_succeeds b xs v thawed mem small short =
    ap (λ (t : ℤ × Buffer). t.0) (if_false _ _ (not_full b (length xs) thawed small))
    ∙ on_rest b.rest v.rest_fits
  where
    on_rest : (rest : List Chain) → AllFit rest → (add_on b rest xs).0 ≡ pos 0
    on_rest [] _ =
        let (c, made) = chain_new-ok (length xs) short in
        let made' : chain_new b.memory (length xs) ≡ some c =
          ap (λ m. chain_new m (length xs)) mem ∙ made in
        let new = chain_new-IsNew _ _ c made in
        allocated _ _ _ c made' (add_to_succeeds (chain_insert b c) c [] xs mem new.fits.1 short)
    on_rest (c ∷ cs) fits = add_to_succeeds b c cs xs mem fits.0.1 short
