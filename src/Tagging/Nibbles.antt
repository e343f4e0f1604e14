-- ===== src/Tagging/Nibbles.antt =====
-- The nibbles of an encoded integer: what the loops of ENCODE_INT_INTERNAL and DECODE_INT_INTERNAL
-- write and read.
use swift_event.Base.{
  ℕ, zero, suc, ◌+◌, ◌*◌, ◌/◌, ◌%◌, ◌^◌, ◌≤◌, ◌<◌, ◌≡◌, ◌≢◌, refl, ap, ap₂, ◌∙◌, List, ◌==◌,
  if◌then◌else◌, get_or, length, length-set, arith, get_or-set_self, get_or-set_ne, inl, inr,
  Bool-cases, bit_and, bit_or,
}
use swift_event.Base.Bits.{bit_and_0x0f, bit_and_0xf0, bit_or-disjoint, disjoint-bit_or}
use native.Mathlib.Nat.{pow-suc, mod-eq_of_lt}
use swift_event.Tagging.{put_nibble, encode_loop, decode_loop}

-- The nibble `k` of some bytes: the low half of a byte for an odd `k`.
abbrev pub nibble : List ℕ → ℕ → ℕ
nibble bytes k =
    let byte = get_or bytes (k / 2) 0 in if k % 2 == 1 then byte % 16 else byte / 16 % 16

-- The number whose `n` digits are the nibbles from `off` on, the lowest first, below those of `high`.
abbrev pub value : ℕ → ℕ → List ℕ → ℕ → ℕ
value off zero bytes high = high
value off (suc n) bytes high = value off n bytes (high * 16 + nibble bytes (off + n))

value-low :
    (off n : ℕ) (bytes : List ℕ) (high : ℕ)
    → value off (suc n) bytes high ≡ value (off + 1) n bytes high * 16 + nibble bytes off
value-low off zero bytes high = ap (λ k. high * 16 + nibble bytes k) (omega arith)
value-low off (suc n) bytes high =
    ap (λ k. value off (suc n) bytes (high * 16 + nibble bytes k)) same
    ∙ value-low off n bytes (high * 16 + nibble bytes (off + 1 + n))
  where
    same : off + suc n ≡ off + 1 + n
    same = omega arith

value-grows : (off n : ℕ) (bytes : List ℕ) (high : ℕ) → high ≤ value off n bytes high
value-grows off zero bytes high = omega arith
value-grows off (suc n) bytes high =
    omega (arith, value-grows off n bytes (high * 16 + nibble bytes (off + n)))

pub value-same :
    (off n : ℕ) (bytes bytes' : List ℕ) (high : ℕ)
    → ((k : ℕ) → off ≤ k → k < off + n → nibble bytes' k ≡ nibble bytes k)
    → value off n bytes' high ≡ value off n bytes high
value-same off zero bytes bytes' high same = refl
value-same off (suc n) bytes bytes' high same =
    ap (λ x. value off n bytes' (high * 16 + x)) (same (off + n) (omega arith) (omega arith))
    ∙ value-same off n bytes bytes' (high * 16 + nibble bytes (off + n))
        (λ k le lt. same k le (omega arith))

-- The two halves of a byte, when one of them is written.
low_half : (byte x : ℕ) → bit_or (bit_and byte 0xf0) (bit_and x 0x0f) ≡ byte / 16 % 16 * 16 + x % 16
low_half byte x =
    ap₂ bit_or (bit_and_0xf0 byte) (bit_and_0x0f x)
    ∙ disjoint-bit_or 4 (byte / 16 % 16) (x % 16) (omega arith)

pub high_half :
    (byte x : ℕ) → bit_or (bit_and byte 0x0f) (bit_and x 0x0f * 16) ≡ byte % 16 + x % 16 * 16
high_half byte x =
    ap₂ (λ y z. bit_or y (z * 16)) (bit_and_0x0f byte) (bit_and_0x0f x)
    ∙ bit_or-disjoint 4 (byte % 16) (x % 16) (omega arith)

module _ (bytes : List ℕ) (off x : ℕ) (inside : off / 2 < length bytes) where
  put_nibble_self : nibble (put_nibble bytes off x) off ≡ x % 16
  put_nibble_self =
      let byte = get_or bytes (off / 2) 0 in
      elim (Bool-cases (off % 2 == 1)) [
        | inl odd ↦
            rw
              (
                odd,
                get_or-set_self bytes (off / 2) (bit_or (bit_and byte 0xf0) (bit_and x 0x0f)) 0
                    inside,
              )
              (omega (arith, low_half byte x))
        | inr even ↦
            rw
              (
                even,
                get_or-set_self bytes (off / 2) (bit_or (bit_and byte 0x0f) (bit_and x 0x0f * 16)) 0
                    inside,
              )
              (omega (arith, high_half byte x))
      ]

  put_nibble-below : (k : ℕ) → k < off → nibble (put_nibble bytes off x) k ≡ nibble bytes k
  put_nibble-below k lt =
      let byte = get_or bytes (off / 2) 0 in
      ground (
        arith,
        get_or-set_self bytes (off / 2) (bit_or (bit_and byte 0xf0) (bit_and x 0x0f)) 0 inside,
        get_or-set_ne bytes (off / 2) (k / 2) (bit_or (bit_and byte 0xf0) (bit_and x 0x0f)) 0,
        get_or-set_ne bytes (off / 2) (k / 2) (bit_or (bit_and byte 0x0f) (bit_and x 0x0f * 16)) 0,
        low_half byte x,
      )

  length-put_nibble : length (put_nibble bytes off x) ≡ length bytes
  length-put_nibble = length-set bytes (off / 2) _

-- What the loop has done to `bytes` from the nibble `off` on.
pub record Written (fuel : ℕ) (bytes : List ℕ) (off x : ℕ) (r : List ℕ × ℕ) : Type 0 where
  pub count : ℕ
  pub stop : r.1 ≡ off + count
  pub bound : count ≤ fuel
  pub some : x ≢ 0 → 0 < count
  pub holds : value off count r.0 0 ≡ x
  pub below : (k : ℕ) → k < off → nibble r.0 k ≡ nibble bytes k
  pub size : length r.0 ≡ length bytes
  pub idle : count ≡ 0 → r.0 ≡ bytes

-- The loop of ENCODE_INT_INTERNAL ends with all nibbles of the number written, when there are
-- rounds and bytes enough.
pub encode_loop-Written :
    (fuel : ℕ) (bytes : List ℕ) (off x : ℕ)
    → x < 16 ^ fuel
    → off + fuel ≤ 2 * length bytes
    → Written fuel bytes off x (encode_loop fuel bytes off x)
unfolding encode_loop
encode_loop-Written zero bytes off x small room = record {
  count = 0;
  stop = omega arith;
  bound = omega arith;
  some = λ h. ground arith;
  holds = ground arith;
  below = λ k lt. refl;
  size = refl;
  idle = λ h. refl;
}
encode_loop-Written (suc fuel) bytes off x small room = elim (Bool-cases (x == 0)) [
  | inl z ↦ rw z (record {
    count = 0;
    stop = omega arith;
    bound = omega arith;
    some = λ h. ground arith;
    holds = ground arith;
    below = λ k lt. refl;
    size = refl;
    idle = λ h. refl;
  })
  | inr some ↦
      let inside : off / 2 < length bytes = omega arith in
      let next = put_nibble bytes off x in
      let same = length-put_nibble bytes off x inside in
      let w =
        encode_loop-Written fuel next (off + 1) (x / 16) (omega (arith, pow-suc 16 fuel))
          (omega (arith, same)) in
      rw some (record {
        count = suc w.count;
        stop = omega (arith, w.stop);
        bound = omega (arith, w.bound);
        some = λ h. omega arith;
        holds = omega (
          arith,
          value-low off w.count (encode_loop fuel next (off + 1) (x / 16)).0 0,
          w.holds,
          w.below off (omega arith),
          put_nibble_self bytes off x inside,
        );
        below = λ k lt. w.below k (omega arith) ∙ put_nibble-below bytes off x inside k lt;
        size = w.size ∙ same;
        idle = λ h. absurd (omega arith);
      })
]

-- One round adds the next nibble, while the number stays in range.
put_digit :
    (modulus high k : ℕ) (bytes : List ℕ)
    → high * 16 < modulus
    → let byte = get_or bytes (k / 2) 0 in
      bit_or
        (high * 16 % modulus)
        (if k % 2 == 1 then bit_and byte 0x0f else bit_and byte 0xf0 / 16)
      ≡ high * 16 + nibble bytes k
put_digit modulus high k bytes small =
    let byte = get_or bytes (k / 2) 0 in
    let fits : high * 16 % modulus ≡ high * 16 = mod-eq_of_lt small in
    elim (Bool-cases (k % 2 == 1)) [
      | inl odd ↦
          rw (odd, fits, bit_and_0x0f byte) (disjoint-bit_or 4 high (byte % 16) (omega arith))
      | inr even ↦
          rw (even, fits, bit_and_0xf0 byte)
            (ap (bit_or (high * 16)) (upper (byte / 16 % 16))
              ∙ disjoint-bit_or 4 high (byte / 16 % 16) (omega arith))
    ]
  where
    upper : (x : ℕ) → x * 16 / 16 ≡ x
    upper x = omega arith

-- The loop of DECODE_INT_INTERNAL reads the nibbles from the last one down to the first.
pub decode_loop-value :
    (modulus n : ℕ) (bytes : List ℕ) (x : ℕ)
    → value 1 n bytes x < modulus
    → decode_loop modulus n bytes x ≡ value 1 n bytes x
unfolding decode_loop
decode_loop-value modulus zero bytes x small = refl
decode_loop-value modulus (suc n) bytes x small =
    ap (decode_loop modulus n bytes) (
      put_digit modulus x (suc n) bytes
        (omega (arith, value-grows 1 n bytes (x * 16 + nibble bytes (1 + n))))
      ∙ ap (λ k. x * 16 + nibble bytes k) first)
    ∙ decode_loop-value modulus n bytes (x * 16 + nibble bytes (1 + n)) small
  where
    first : suc n ≡ 1 + n
    first = omega arith
