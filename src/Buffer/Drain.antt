-- ===== src/Buffer/Drain.antt =====
-- evbuffer_drain, evbuffer_copyout and evbuffer_remove on the string of bytes.
use swift_event.Base.{
  ℕ, zero, suc, ◌-◌, ◌≤◌, ◌<◌, ◌≡◌, refl, sym, ap, ◌∙◌, Bool, true, false, inl, inr, List, [], ◌∷◌,
  ◌++◌, append_assoc, length, length-append, length-drop, drop, drop-append_of_le,
  drop-append_of_ge, drop_all, arith, leb, ◌==◌, if◌then◌else◌, Bool-cases, if_true, if_false,
}
use swift_event.Base.Int.{ℤ, pos, negsuc}
use swift_event.Buffer.{Chain, Buffer, off, zero_chain}
use swift_event.Buffer.Read.{advance, drain_rest, drain_loop, drain}
use swift_event.Buffer.Valid.{
  bytes_of, contents, ChainFits, AllFit, LastWithData, IsValid, empty_of_length, bytes_of-AllEmpty,
  SameSettings, contents-invoke, invoke-IsValid, invoke-SameSettings,
}

pub drain_rest-bytes : (cs : List Chain) (n : ℕ) → bytes_of (drain_rest cs n) ≡ drop n (bytes_of cs)
unfolding drain_rest
drain_rest-bytes [] zero = refl
drain_rest-bytes [] (suc n) = refl
drain_rest-bytes (c ∷ cs) n = elim (Bool-cases (leb (off c) n)) [
  | inl past ↦ rw past (
      drain_rest-bytes cs (n - off c)
      ∙ sym (drop-append_of_ge n c.bytes (bytes_of cs) (ground arith)))
  | inr here ↦ rw here (sym (drop-append_of_le n c.bytes (bytes_of cs) (ground arith)))
]

pub drain_loop-bytes :
    (bs cs : List Chain) (n : ℕ)
    → let (bs', cs') = drain_loop bs cs n in
      bytes_of bs' ++ bytes_of cs' ≡ drop n (bytes_of bs ++ bytes_of cs)
unfolding drain_loop
drain_loop-bytes [] cs n = drain_rest-bytes cs n
drain_loop-bytes (b ∷ bs) cs n =
    let rest = bytes_of bs ++ bytes_of cs in
    elim (Bool-cases (leb (off b) n)) [
      | inl past ↦
          rw (past, append_assoc)
            (drain_loop-bytes bs cs (n - off b)
              ∙ sym (drop-append_of_ge n b.bytes rest (ground arith)))
      | inr here ↦ rw here (
          append_assoc (drop n b.bytes) (bytes_of bs) (bytes_of cs)
          ∙ sym (drop-append_of_le n b.bytes rest (ground arith))
          ∙ ap (drop n) (sym (append_assoc b.bytes (bytes_of bs) (bytes_of cs))))
    ]

advance-ChainFits : (c : Chain) (n : ℕ) → n ≤ off c → ChainFits c → ChainFits (advance c n)
advance-ChainFits c n le fits = omega (arith, length-drop n c.bytes)

pub drain_rest-AllFit : (cs : List Chain) (n : ℕ) → AllFit cs → AllFit (drain_rest cs n)
unfolding drain_rest
drain_rest-AllFit [] n h = tt
drain_rest-AllFit (c ∷ cs) n h = elim (Bool-cases (leb (off c) n)) [
  | inl past ↦ rw past (drain_rest-AllFit cs (n - off c) h.1)
  | inr here ↦ rw here (advance-ChainFits c n (ground arith) h.0, h.1)
]

pub drain_loop-AllFit :
    (bs cs : List Chain) (n : ℕ)
    → AllFit bs
    → AllFit cs
    → let (bs', cs') = drain_loop bs cs n in AllFit bs' × AllFit cs'
unfolding drain_loop
drain_loop-AllFit [] cs n h k = (tt, drain_rest-AllFit cs n k)
drain_loop-AllFit (b ∷ bs) cs n h k = elim (Bool-cases (leb (off b) n)) [
  | inl past ↦ rw past (drain_loop-AllFit bs cs (n - off b) h.1 k)
  | inr here ↦ rw here ((advance-ChainFits b n (ground arith) h.0, h.1), k)
]

drain_rest-LastWithData :
    (cs : List Chain) (n : ℕ)
    → n < length (bytes_of cs)
    → LastWithData [] cs
    → LastWithData [] (drain_rest cs n)
unfolding drain_rest
drain_rest-LastWithData [] n h last = absurd (omega arith)
drain_rest-LastWithData (c ∷ cs) n h (empty, head) =
    let size = length-append c.bytes (bytes_of cs) in
    let nil = ap length (bytes_of-AllEmpty cs empty) in
    let here : leb (off c) n ≡ false = ground (arith, size, nil) in rw here (empty, inr refl)

drain_loop-LastWithData :
    (bs cs : List Chain) (n : ℕ)
    → n < length (bytes_of bs ++ bytes_of cs)
    → LastWithData bs cs
    → let (bs', cs') = drain_loop bs cs n in LastWithData bs' cs'
unfolding drain_loop
drain_loop-LastWithData [] cs n h last = drain_rest-LastWithData cs n h last
drain_loop-LastWithData (b ∷ bs) [] n h last = absurd (cc last)
drain_loop-LastWithData (b ∷ bs) (c ∷ cs) n h (empty, inr none) = absurd (cc none)
drain_loop-LastWithData (b ∷ bs) (c ∷ cs) n h (empty, inl some) =
    let size = ap length (append_assoc b.bytes (bytes_of bs) (bytes_of (c ∷ cs))) in
    elim (Bool-cases (leb (off b) n)) [
      | inl past ↦ rw past (
          drain_loop-LastWithData bs (c ∷ cs) (n - off b)
            (ground (arith, size, length-append b.bytes (bytes_of bs ++ bytes_of (c ∷ cs))))
            (empty, inl some))
      | inr here ↦ rw here (empty, inl some)
    ]

module _ (b : Buffer) (v : IsValid b) where
  -- The two ways in which evbuffer_drain takes bytes away.
  whole-IsValid : IsValid (zero_chain b)
  whole-IsValid = record {
    counted = refl;
    small = omega arith;
    before_fits = tt;
    rest_fits = tt;
    last = refl;
  }

  abbrev partly : ℕ → Buffer
  partly n =
      let (bs, cs) = drain_loop b.before b.rest n in
      record b { before = bs; rest = cs; total_len = b.total_len - n }

  partly-IsValid : (n : ℕ) → n < b.total_len → IsValid (partly n)
  partly-IsValid n lt =
      let (bs, cs) = drain_loop-AllFit b.before b.rest n v.before_fits v.rest_fits in
      record {
        counted = omega (
          arith,
          ap length (drain_loop-bytes b.before b.rest n),
          length-drop n (contents b),
          v.counted,
        );
        small = omega (arith, v.small);
        before_fits = bs;
        rest_fits = cs;
        last = drain_loop-LastWithData b.before b.rest n (omega (arith, v.counted)) v.last;
      }

-- The counters of the callbacks are no part of the invariant.
deleted-IsValid : (b : Buffer) (n : ℕ) → IsValid b → IsValid (record b { n_del_for_cb = n })
deleted-IsValid b n v = record {
  counted = v.counted;
  small = v.small;
  before_fits = v.before_fits;
  rest_fits = v.rest_fits;
  last = v.last;
}

-- `n` bytes are gone from the front, and the buffer is valid.
pub record Drained (b : Buffer) (n : ℕ) (r : ℤ × Buffer) : Type 0 where
  pub status : r.0 ≡ pos 0
  pub valid : IsValid r.1
  pub rest : contents r.1 ≡ drop n (contents b)
  pub settings : SameSettings b r.1

Drained-if :
    {b : Buffer} {n : ℕ} {x y : ℤ × Buffer} (t : Bool)
    → (t ≡ true → Drained b n x)
    → (t ≡ false → Drained b n y)
    → Drained b n (if t then x else y)
Drained-if true p q = p refl
Drained-if false p q = q refl

-- evbuffer_drain on a valid buffer whose start is not frozen returns 0, removes the first `n` bytes,
-- or all where there are fewer, and keeps the buffer valid.
pub drain-Drained :
    (b : Buffer) (n : ℕ) → IsValid b → b.freeze_start ≡ false → Drained b n (drain b n)
unfolding drain
drain-Drained b n v thawed =
    Drained-if (b.total_len == 0)
      (λ none. record {
        status = refl;
        valid = v;
        rest = nothing (contents b) (ground (arith, v.counted));
        settings = (refl, refl, refl);
      })
      λ some.
        Drained-if b.freeze_start (λ frozen. absurd (cc frozen))
          λ _.
            Drained-if (leb b.total_len n)
              (λ all. record {
                status = refl;
                valid = invoke-IsValid _ (deleted-IsValid _ _ (whole-IsValid b v));
                rest =
                    contents-invoke _ ∙ sym (drop_all n (contents b) (ground (arith, v.counted)));
                settings = invoke-SameSettings _;
              })
              λ part. record {
                status = refl;
                valid =
                    invoke-IsValid _ (deleted-IsValid _ _ (partly-IsValid b v n (ground arith)));
                rest = contents-invoke _ ∙ drain_loop-bytes b.before b.rest n;
                settings = invoke-SameSettings _;
              }
  where
    nothing : (xs : List ℕ) → length xs ≡ 0 → xs ≡ drop n xs
    nothing xs e = empty_of_length xs e ∙ sym (drop_all n xs (omega arith))

-- evbuffer_drain of a buffer that is not empty and whose start is frozen returns -1 and changes
-- nothing.
drain_frozen :
    (b : Buffer) (n : ℕ) → b.freeze_start ≡ true → 0 < b.total_len → drain b n ≡ (negsuc 0, b)
unfolding drain
drain_frozen b n frozen some =
    let filled : (b.total_len == 0) ≡ false = ground arith in
    if_false _ _ filled ∙ if_true _ _ frozen
