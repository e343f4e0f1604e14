-- ===== src/Buffer/PullupSucceeds.antt =====
-- evbuffer_pullup returns a pointer wherever it is asked for bytes that are there.
use swift_event.Base.{
  ℕ, ◌+◌, ◌-◌, ◌≤◌, ◌<◌, ◌≡◌, refl, ap, ◌∙◌, Bool, true, false, List, [], ◌∷◌, length,
  length-append, arith, leb, ltb, ◌==◌, ◌||◌, Option, none, some, if◌then◌else◌,
}
use swift_event.Base.Int.{pos}
use swift_event.Buffer.{Chain, Buffer, off, sub_size, chain_new, chain_max, chain_size}
use swift_event.Buffer.Pull.{pullup_first, pullup_on, pullup}
use swift_event.Buffer.Valid.{bytes_of, LastWithData, IsValid}
use swift_event.Buffer.Alloc.{chain_new-ok}

-- A pointer, and not NULL.
pub data Shows : Option (List ℕ) × Buffer → Type 0 where
  shows : {xs : List ℕ} {b : Buffer} → Shows (some xs, b)

Shows-if :
    {x y : Option (List ℕ) × Buffer} (t : Bool)
    → (t ≡ true → Shows x)
    → (t ≡ false → Shows y)
    → Shows (if t then x else y)
Shows-if true p q = p refl
Shows-if false p q = q refl

Shows-option :
    (x : Option (List ℕ) × Buffer) (f : Chain → Option (List ℕ) × Buffer) (o : Option Chain)
    (c : Chain)
    → o ≡ some c
    → ((d : Chain) → Shows (f d))
    → Shows (elim o [ none ↦ x | some d ↦ f d ])
Shows-option x f none c h p = absurd (cc h)
Shows-option x f (some d) c h p = p d

pullup_first_succeeds :
    (b : Buffer) (f : Chain) (bs rest : List Chain) (f_is_last : Bool) (size : ℕ)
    → b.memory ≡ true
    → size ≤ chain_max - chain_size
    → Shows (pullup_first b f bs rest f_is_last size)
unfolding pullup_first
pullup_first_succeeds b f bs rest f_is_last size mem small =
    let (tmp, made) = chain_new-ok size small in
    let made' : chain_new b.memory size ≡ some tmp = ap (λ m. chain_new m size) mem ∙ made in
    Shows-if (leb size (off f)) (λ near. shows)
      λ far.
        Shows-if (leb size (sub_size f.buffer_len f.misalign)) (λ room. shows)
          λ no_room. Shows-option (none, b) _ (chain_new b.memory size) tmp made' λ d. shows

pullup_on_succeeds :
    (b : Buffer) (bs cs : List Chain) (size : ℕ)
    → b.memory ≡ true
    → 0 < length (bytes_of bs) + length (bytes_of cs)
    → LastWithData bs cs
    → size ≤ chain_max - chain_size
    → Shows (pullup_on b bs cs size)
unfolding pullup_on
pullup_on_succeeds b [] [] size mem some_bytes last small = absurd (ground arith)
pullup_on_succeeds b [] (f ∷ cs) size mem some_bytes last small =
    pullup_first_succeeds b f [] cs true size mem small
pullup_on_succeeds b (f ∷ bs) cs size mem some_bytes last small =
    pullup_first_succeeds b f bs cs false size mem small

-- evbuffer_pullup of a positive number of bytes that are there, up to the largest chain, returns a
-- pointer while memory is left.
pub pullup_succeeds :
    (b : Buffer) (n : ℕ)
    → b.memory ≡ true
    → 0 < n
    → n ≤ b.total_len
    → n ≤ chain_max - chain_size
    → IsValid b
    → Shows (pullup b (pos n))
unfolding pullup
pullup_succeeds b n mem some_bytes there small v =
    Shows-if (n == 0 || ltb b.total_len n) (λ out_of_range. absurd (ground arith))
      λ in_range.
        pullup_on_succeeds b b.before b.rest n mem
          (omega (arith, v.counted, length-append (bytes_of b.before) (bytes_of b.rest))) v.last
          small
