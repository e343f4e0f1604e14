-- ===== src/Buffer/Taken.antt =====
-- evbuffer_copyout and evbuffer_remove read the first bytes of the string that an evbuffer holds.
use swift_event.Base.{
  ℕ, zero, suc, ◌-◌, ◌≡◌, refl, sym, ap, ap₂, ◌∙◌, Bool, true, false, inl, inr, List, [], ◌∷◌, ◌++◌,
  take, drop, take-append_of_le, take-append_of_ge, take-min-length, drop-min-length, arith, leb,
  ◌==◌, if◌then◌else◌, Bool-cases, if_true, if_false, min, ==_iff,
}
use swift_event.Base.Int.{ℤ, pos, eqb_ℤ}
use swift_event.Buffer.{Chain, Buffer, off}
use swift_event.Buffer.Read.{drain, copy_chains, copyout, remove, int_of_ssize}
use swift_event.Buffer.Valid.{bytes_of, contents, IsValid, SameSettings, bytes_of-append}
use swift_event.Buffer.Drain.{drain-Drained}

pub copy_chains-take : (cs : List Chain) (n : ℕ) → copy_chains cs n ≡ take n (bytes_of cs)
unfolding copy_chains
copy_chains-take [] zero = refl
copy_chains-take [] (suc n) = refl
copy_chains-take (c ∷ cs) n = elim (Bool-cases (n == 0)) [
  | inl z ↦ rw (z, (==_iff n 0).0 z)
  | inr some ↦ elim (Bool-cases (leb (off c) n)) [
    | inl past ↦
        rw (some, past)
          (ap (◌++◌ c.bytes) (copy_chains-take cs (n - off c))
            ∙ sym (take-append_of_ge n c.bytes (bytes_of cs) (ground arith)))
    | inr here ↦ rw (some, here) (sym (take-append_of_le n c.bytes (bytes_of cs) (ground arith)))
  ]
]

-- evbuffer_copyout on a valid buffer whose start is not frozen copies the first `n` bytes, or all
-- where there are fewer, and returns their number.
copyout_lem :
    (b : Buffer) (n : ℕ)
    → IsValid b
    → b.freeze_start ≡ false
    → copyout b n ≡ (pos (min n b.total_len), take n (contents b))
unfolding copyout
copyout_lem b n v thawed =
    let m = min n b.total_len in
    let upto : take m (contents b) ≡ take n (contents b) =
      ap (λ k. take (min n k) (contents b)) v.counted ∙ take-min-length n (contents b) in
    elim (Bool-cases (m == 0)) [
      | inl none ↦
          let zero_bytes : m ≡ 0 = (==_iff m 0).0 none in
          if_true _ _ none
          ∙ ap₂ (λ k xs. (pos k, xs)) (sym zero_bytes)
              (sym (ap (λ k. take k (contents b)) zero_bytes) ∙ upto)
      | inr some ↦
          if_false _ _ some
          ∙ if_false _ _ thawed
          ∙ ap (λ xs. (pos m, xs))
              (copy_chains-take (b.before ++ b.rest) m
                ∙ ap (take m) (bytes_of-append b.before b.rest)
                ∙ upto)
    ]

-- `n` bytes, or all, have been read and removed.
pub record Taken (b : Buffer) (n : ℕ) (r : ℤ × List ℕ × Buffer) : Type 0 where
  pub status : r.0 ≡ int_of_ssize (pos (min n b.total_len))
  pub bytes : r.1 ≡ take n (contents b)
  pub valid : IsValid r.2
  pub rest : contents r.2 ≡ drop n (contents b)
  pub settings : SameSettings b r.2

Taken-if :
    {b : Buffer} {n : ℕ} {x y : ℤ × List ℕ × Buffer} (t : Bool)
    → (t ≡ true → Taken b n x)
    → (t ≡ false → Taken b n y)
    → Taken b n (if t then x else y)
Taken-if true p q = p refl
Taken-if false p q = q refl

-- evbuffer_remove on a valid buffer whose start is not frozen returns the first `n` bytes, or all
-- where there are fewer, with their number as an `int`; the buffer is valid and holds the others.
pub remove-Taken :
    (b : Buffer) (n : ℕ) → IsValid b → b.freeze_start ≡ false → Taken b n (remove b n)
unfolding remove
remove-Taken b n v thawed =
    let m = min n b.total_len in
    let upto : drop m (contents b) ≡ drop n (contents b) =
      ap (λ k. drop (min n k) (contents b)) v.counted ∙ drop-min-length n (contents b) in
    let d = drain-Drained b m v thawed in
    rw (copyout_lem b n v thawed) (
      Taken-if (m == 0)
        (λ none. record {
          status = refl;
          bytes = refl;
          valid = v;
          rest = sym (ap (λ k. drop k (contents b)) ((==_iff m 0).0 none)) ∙ upto;
          settings = (refl, refl, refl);
        })
        λ some.
          Taken-if (eqb_ℤ (drain b m).0 (pos 0))
            (λ good. record {
              status = refl;
              bytes = refl;
              valid = d.valid;
              rest = d.rest ∙ upto;
              settings = d.settings;
            })
            λ bad. absurd (cc (sym (ap (λ z. eqb_ℤ z (pos 0)) d.status) ∙ bad)))
