-- ===== src/Buffer/Valid.antt =====
-- The bytes that an evbuffer holds, and the invariant that evbuffer-internal.h describes.
use swift_event.Base.{
  ℕ, ◌+◌, ◌-◌, ◌≤◌, ◌<◌, ◌≡◌, ◌⊎◌, refl, sym, ap, ap₂, subst, ◌∙◌, inl, inr, List, [], ◌∷◌, ◌++◌,
  append-nil, append_assoc, length, length-append, arith, ◌==◌, Bool-cases,
}
use swift_event.Buffer.{
  Chain, Buffer, off, size_max, chain_max, chain_size, invoke_callbacks, run_callbacks,
}
use mathlib.Core.Path.{subst₂}
use swift_event.Buffer.Write.{free_trailing_empty, insert_last, chain_insert}

abbrev pub bytes_of : List Chain → List ℕ
bytes_of [] = []
bytes_of (c ∷ cs) = c.bytes ++ bytes_of cs

-- The abstract view: one string of bytes.
abbrev pub contents : Buffer → List ℕ
contents b = bytes_of b.before ++ bytes_of b.rest

-- The bytes of a chain lie in its memory.
abbrev pub ChainFits : Chain → Type 0
ChainFits c = (c.misalign + off c ≤ c.buffer_len) × (c.buffer_len ≤ chain_max - chain_size)

abbrev pub AllFit : List Chain → Type 0
AllFit [] = Unit
AllFit (c ∷ cs) = ChainFits c × AllFit cs

abbrev pub AllEmpty : List Chain → Type 0
AllEmpty [] = Unit
AllEmpty (c ∷ cs) = (off c ≡ 0) × AllEmpty cs

-- `*last_with_datap` is the last chain with data, or the first chain where none has any, or NULL
-- where there is no chain.
abbrev pub LastWithData : List Chain → List Chain → Type 0
LastWithData before [] = before ≡ []
LastWithData before (c ∷ cs) = AllEmpty cs × ((0 < off c) ⊎ (before ≡ []))

pub record IsValid (b : Buffer) : Type 0 where
  pub counted : b.total_len ≡ length (contents b)
  pub small : b.total_len ≤ size_max
  pub before_fits : AllFit b.before
  pub rest_fits : AllFit b.rest
  pub last : LastWithData b.before b.rest

-- What the data operations leave alone.
abbrev pub SameSettings : Buffer → Buffer → Type 0
SameSettings b c =
    (c.freeze_start ≡ b.freeze_start) × (c.freeze_end ≡ b.freeze_end) × (c.memory ≡ b.memory)

pub bytes_of-append : (cs ds : List Chain) → bytes_of (cs ++ ds) ≡ bytes_of cs ++ bytes_of ds
bytes_of-append [] ds = refl
bytes_of-append (c ∷ cs) ds =
    ap (◌++◌ c.bytes) (bytes_of-append cs ds)
    ∙ sym (append_assoc c.bytes (bytes_of cs) (bytes_of ds))

AllFit-append : (cs ds : List Chain) → AllFit cs → AllFit ds → AllFit (cs ++ ds)
AllFit-append [] ds h k = k
AllFit-append (c ∷ cs) ds h k = (h.0, AllFit-append cs ds h.1 k)

pub empty_of_length : (xs : List ℕ) → length xs ≡ 0 → xs ≡ []
empty_of_length [] h = refl
empty_of_length (x ∷ xs) h = absurd (omega arith)

pub bytes_of-AllEmpty : (cs : List Chain) → AllEmpty cs → bytes_of cs ≡ []
bytes_of-AllEmpty [] h = refl
bytes_of-AllEmpty (c ∷ cs) h = rw (empty_of_length c.bytes h.0) (bytes_of-AllEmpty cs h.1)

free_trailing_empty-AllEmpty : (cs : List Chain) → AllEmpty cs → free_trailing_empty cs ≡ []
free_trailing_empty-AllEmpty [] h = refl
free_trailing_empty-AllEmpty (c ∷ cs) h = ground arith

free_trailing_empty-AllFit : (cs : List Chain) → AllFit cs → AllFit (free_trailing_empty cs)
free_trailing_empty-AllFit [] h = tt
free_trailing_empty-AllFit (c ∷ cs) h = elim (Bool-cases (off c == 0)) [
  | inl z ↦ rw z tt
  | inr z ↦ rw z (h.0, free_trailing_empty-AllFit cs h.1)
]

-- Running the callbacks leaves the chains and the settings of the buffer alone.
pub record SameData (b c : Buffer) : Type 0 where
  pub before : c.before ≡ b.before
  pub rest : c.rest ≡ b.rest
  pub total_len : c.total_len ≡ b.total_len
  pub freeze_start : c.freeze_start ≡ b.freeze_start
  pub freeze_end : c.freeze_end ≡ b.freeze_end
  pub memory : c.memory ≡ b.memory

invoke_callbacks-SameData : (b : Buffer) → SameData b (invoke_callbacks b)
unfolding invoke_callbacks run_callbacks
invoke_callbacks-SameData b = ground arith

pub invoke-SameSettings : (b : Buffer) → SameSettings b (invoke_callbacks b)
invoke-SameSettings b =
    let s = invoke_callbacks-SameData b in (s.freeze_start, s.freeze_end, s.memory)

pub contents-invoke : (b : Buffer) → contents (invoke_callbacks b) ≡ contents b
contents-invoke b =
    let s = invoke_callbacks-SameData b in ap₂ (λ x y. bytes_of x ++ bytes_of y) s.before s.rest

pub invoke-IsValid : (b : Buffer) → IsValid b → IsValid (invoke_callbacks b)
invoke-IsValid b v =
    let s = invoke_callbacks-SameData b in
    record {
      counted = s.total_len ∙ v.counted ∙ ap length (sym (contents-invoke b));
      small = omega (arith, s.total_len, v.small);
      before_fits = subst AllFit (sym s.before) v.before_fits;
      rest_fits = subst AllFit (sym s.rest) v.rest_fits;
      last = subst₂ LastWithData (sym s.before) (sym s.rest) v.last;
    }

-- A chain at the end adds its bytes at the end.
insert_last-bytes :
    (before rest : List Chain) (c : Chain)
    → LastWithData before rest
    → let (before', rest') = insert_last before rest c in
      bytes_of before' ++ bytes_of rest' ≡ (bytes_of before ++ bytes_of rest) ++ c.bytes
unfolding insert_last
insert_last-bytes before [] c last = simp (append-nil)
insert_last-bytes before (d ∷ ds) c (empty, head) =
    let nil = bytes_of-AllEmpty ds empty in
    let kept = free_trailing_empty-AllEmpty ds empty in
    elim (Bool-cases (off d == 0)) [
      | inl z ↦
          let none = empty_of_length d.bytes (ground arith) in
          elim (Bool-cases (off c == 0)) [
            | inl y ↦ rw (z, y) (simp (append-nil, none, nil))
            | inr y ↦ rw (z, y) (simp (append-nil, none, nil))
          ]
      | inr z ↦ elim (Bool-cases (off c == 0)) [
        | inl y ↦ rw (z, y, kept) (simp (append-nil, nil, append_assoc))
        | inr y ↦ rw (z, y, kept) (simp (bytes_of-append, append-nil, nil, append_assoc))
      ]
    ]

insert_last-LastWithData :
    (before rest : List Chain) (c : Chain)
    → LastWithData before rest
    → let (before', rest') = insert_last before rest c in LastWithData before' rest'
unfolding insert_last
insert_last-LastWithData before [] c last = (tt, inr last)
insert_last-LastWithData before (d ∷ ds) c (empty, head) =
    let kept = free_trailing_empty-AllEmpty ds empty in
    elim (Bool-cases (off d == 0)) [
      | inl z ↦
          let none : before ≡ [] = ground (arith, head) in
          elim (Bool-cases (off c == 0)) [
            | inl y ↦ rw (z, y) (tt, inr none)
            | inr y ↦ rw (z, y) (tt, inl (ground arith))
          ]
      | inr z ↦ elim (Bool-cases (off c == 0)) [
        | inl y ↦ rw (z, y, kept) (((ground arith), tt), inl (ground arith))
        | inr y ↦ rw (z, y) (tt, inl (ground arith))
      ]
    ]

insert_last-AllFit :
    (before rest : List Chain) (c : Chain)
    → AllFit before
    → AllFit rest
    → ChainFits c
    → let (before', rest') = insert_last before rest c in AllFit before' × AllFit rest'
unfolding insert_last
insert_last-AllFit before [] c h k f = (h, (f, tt))
insert_last-AllFit before (d ∷ ds) c h k f =
    let kept = free_trailing_empty-AllFit (d ∷ ds) k in
    elim (Bool-cases (off c == 0)) [
      | inl y ↦ rw y (h, AllFit-append _ _ kept (f, tt))
      | inr y ↦ rw y (AllFit-append _ _ h kept, (f, tt))
    ]

-- evbuffer_chain_insert appends the bytes of the chain to the string, where `*last_with_datap` is
-- the last chain with data.
pub chain_insert-contents :
    (b : Buffer) (c : Chain)
    → LastWithData b.before b.rest
    → contents (chain_insert b c) ≡ contents b ++ c.bytes
unfolding chain_insert
chain_insert-contents b c last = insert_last-bytes b.before b.rest c last

-- evbuffer_chain_insert keeps a buffer valid, when the chain keeps to its memory and the new length
-- fits into a size_t.
pub chain_insert-IsValid :
    (b : Buffer) (c : Chain)
    → IsValid b
    → ChainFits c
    → b.total_len + off c ≤ size_max
    → IsValid (chain_insert b c)
unfolding chain_insert
chain_insert-IsValid b c v fits small =
    let (before, rest) = insert_last-AllFit b.before b.rest c v.before_fits v.rest_fits fits in
    let same = insert_last-bytes b.before b.rest c v.last in
    record {
      counted = omega (arith, v.counted, ap length same, length-append (contents b) c.bytes);
      small = omega arith;
      before_fits = before;
      rest_fits = rest;
      last = insert_last-LastWithData b.before b.rest c v.last;
    }
