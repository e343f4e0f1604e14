-- ===== src/Buffer/Grown.antt =====
-- How the chains of an evbuffer grow when evbuffer_add puts bytes at the end.
use swift_event.Base.{
  ℕ, ◌+◌, ◌≤◌, ◌<◌, ◌≡◌, ◌⊎◌, refl, ap, subst, ◌∙◌, inl, inr, List, [], ◌∷◌, ◌++◌, append-nil,
  append_assoc, length, length-append, length-take, length-drop, take, drop, take-append-drop,
  arith,
}
use swift_event.Buffer.{Chain, Buffer, off, size_max}
use swift_event.Buffer.Write.{chain_insert, next_size, count_added}
use swift_event.Buffer.Valid.{
  contents, ChainFits, AllFit, LastWithData, IsValid, bytes_of-AllEmpty, chain_insert-contents,
  chain_insert-IsValid,
}
use swift_event.Buffer.Alloc.{IsNew}

-- The chain at `*last_with_datap` takes more bytes.
module _ (b : Buffer) (c : Chain) (cs : List Chain) (v : IsValid b) (at : b.rest ≡ c ∷ cs)
    (c' : Chain) (xs : List ℕ) (n : ℕ) (all : n ≡ length xs) where
  abbrev pub grown : Buffer
  grown = count_added n (record b { rest = c' ∷ cs })

  pub grown-contents : c'.bytes ≡ c.bytes ++ xs → contents grown ≡ contents b ++ xs
  grown-contents e =
      let (empty, _) = subst (LastWithData b.before) at v.last in
      let nil = bytes_of-AllEmpty cs empty in simp (at, e, nil, append-nil, append_assoc)

  pub grown-IsValid :
      c'.bytes ≡ c.bytes ++ xs → ChainFits c' → b.total_len + n ≤ size_max → IsValid grown
  grown-IsValid e fits small =
      let (empty, head) = subst (LastWithData b.before) at v.last in
      let (_, others) = subst AllFit at v.rest_fits in
      let size = ap length e ∙ length-append c.bytes xs in
      record {
        counted =
            omega (arith, v.counted, ap length (grown-contents e), length-append (contents b) xs);
        small = omega arith;
        before_fits = v.before_fits;
        rest_fits = (fits, others);
        last = (empty, longer head size);
      }
    where
      longer :
          (0 < off c) ⊎ (b.before ≡ [])
          → off c' ≡ length c.bytes + length xs
          → (0 < off c') ⊎ (b.before ≡ [])
      longer (inl p) e = inl (omega arith)
      longer (inr p) e = inr p

next_size-ge : (size n : ℕ) → n ≤ next_size size n
next_size-ge size n = ground arith

-- The addition that takes another chain, for a new chain `tmp`.
module _ (b : Buffer) (c tmp : Chain) (cs : List Chain) (remain : ℕ) (xs : List ℕ) (v : IsValid b)
    (at : b.rest ≡ c ∷ cs) (le : remain ≤ length xs)
    (room : c.misalign + off c + remain ≤ c.buffer_len) (small : b.total_len + length xs ≤ size_max)
    (new : IsNew (next_size c.buffer_len (length xs)) tmp) where
  abbrev pub filled : Chain
  filled = record c { bytes = c.bytes ++ take remain xs }

  abbrev pub with_tail : Buffer
  with_tail =
      chain_insert (count_added remain (record b { rest = filled ∷ cs }))
        (record tmp { bytes = drop remain xs })

  taken : remain ≡ length (take remain xs)
  taken = omega (arith, length-take remain xs)

  first-IsValid : IsValid (count_added remain (record b { rest = filled ∷ cs }))
  first-IsValid =
      let (limits, _) = subst AllFit at v.rest_fits in
      grown-IsValid b c cs v at filled (take remain xs) remain taken refl
        (omega (arith, length-append c.bytes (take remain xs), taken), limits.1) (omega arith)

  pub with_tail-IsValid : IsValid with_tail
  with_tail-IsValid =
      chain_insert-IsValid _ _ first-IsValid
        (
          omega (
            arith,
            new.room,
            new.start,
            length-drop remain xs,
            next_size-ge c.buffer_len (length xs),
          ),
          new.fits.1,
        )
        (omega (arith, length-drop remain xs))

  pub with_tail-contents : contents with_tail ≡ contents b ++ xs
  with_tail-contents =
      chain_insert-contents _ _ first-IsValid.last
      ∙ ap (λ t. t ++ drop remain xs)
          (grown-contents b c cs v at filled (take remain xs) remain taken refl)
      ∙ append_assoc (contents b) (take remain xs) (drop remain xs)
      ∙ ap (◌++◌ (contents b)) (take-append-drop remain xs)
