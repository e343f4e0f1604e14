-- ===== src/Tagging/Coded.antt =====
-- What ENCODE_INT_INTERNAL makes of a number: the count of its nibbles, and then the nibbles.
use swift_event.Base.{
  ℕ, zero, suc, ◌+◌, ◌-◌, ◌*◌, ◌/◌, ◌%◌, ◌^◌, ◌≤◌, ◌<◌, ◌≡◌, refl, sym, ap, subst, ◌∙◌, List, ◌++◌,
  ltb, ◌==◌, if◌then◌else◌, take, get_or, set, replicate, length, length-set, length-take,
  length-replicate, arith, get_or-set_self, get_or-set_ne, get_or-take, bit_and, bit_or, ℕ_discrete,
  get_or-append_left,
}
use swift_event.Tagging.{encode_internal}
use swift_event.Tagging.Nibbles.{nibble, value, value-same, high_half, Written, encode_loop-Written}

-- The bytes `xs` code the number `x`, with at most `max` nibbles.
pub record Codes (max x : ℕ) (xs : List ℕ) : Type 0 where
  pub nibbles : ℕ
  pub first : nibble xs 0 + 1 ≡ nibbles
  pub size : length xs ≡ nibbles / 2 + 1
  pub bound : nibbles ≤ max
  pub holds : value 1 nibbles xs 0 ≡ x

-- Bytes that begin with a coded number have its nibbles.
pub nibble-take : (len k : ℕ) (xs : List ℕ) → k / 2 < len → nibble (take len xs) k ≡ nibble xs k
nibble-take len k xs lt =
    ap (λ x. if k % 2 == 1 then x % 16 else x / 16 % 16) (get_or-take len xs (k / 2) 0 lt)

nibble-append : (xs ys : List ℕ) (k : ℕ) → k / 2 < length xs → nibble (xs ++ ys) k ≡ nibble xs k
nibble-append xs ys k lt =
    ap (λ x. if k % 2 == 1 then x % 16 else x / 16 % 16) (get_or-append_left xs ys (k / 2) 0 lt)

get_or-blank : (n k : ℕ) → get_or {A = ℕ} (replicate n 0) k 0 ≡ 0
get_or-blank zero k = refl
get_or-blank (suc n) zero = refl
get_or-blank (suc n) (suc k) = get_or-blank n k

-- The first byte with the count of nibbles in its high half.
module _ (xs : List ℕ) (count : ℕ) (some : 0 < length xs) where
  abbrev headed : List ℕ
  headed = set xs 0 (bit_or (bit_and (get_or xs 0 0) 0x0f) (bit_and count 0x0f * 16))

  first_byte : get_or headed 0 0 ≡ get_or xs 0 0 % 16 + count % 16 * 16
  first_byte = get_or-set_self xs 0 _ 0 some ∙ high_half (get_or xs 0 0) count

  headed-first : nibble headed 0 ≡ count % 16
  headed-first = omega (arith, first_byte)

  headed-rest : (k : ℕ) → 1 ≤ k → nibble headed k ≡ nibble xs k
  headed-rest k le = elim (ℕ_discrete k 1) [
    | yes one ↦ subst (λ j. nibble headed j ≡ nibble xs j) (sym one) (omega (arith, first_byte))
    | no more ↦
        ap (λ x. if k % 2 == 1 then x % 16 else x / 16 % 16)
          (get_or-set_ne xs 0 (k / 2) _ 0 (λ same. more (omega arith)))
  ]

  headed-Codes :
      (max x n len : ℕ)
      → count + 1 ≡ n
      → n ≤ 16
      → n ≤ max
      → n / 2 + 1 ≡ len
      → len ≤ length xs
      → value 1 n xs 0 ≡ x
      → Codes max x (take len headed)
  headed-Codes max x n len counted narrow bound size inside holds = record {
    nibbles = n;
    first = omega (arith, nibble-take len 0 headed (omega arith), headed-first);
    size = omega (
      arith,
      length-take len headed,
      length-set xs 0 (bit_or (bit_and (get_or xs 0 0) 0x0f) (bit_and count 0x0f * 16)),
    );
    bound = bound;
    holds =
        value-same 1 n xs (take len headed) 0
          (λ k le lt. nibble-take len k headed (omega arith) ∙ headed-rest k le)
        ∙ holds;
  }

-- The end of ENCODE_INT_INTERNAL: a number without digits is coded with one.
module _ (width x : ℕ) (r : List ℕ × ℕ) (w : Written (2 * width) (replicate (width + 1) 0) 1 x r)
    (narrow : width ≤ 8) (wide : 0 < width) where
  room : length r.0 ≡ width + 1
  room = w.size ∙ length-replicate {A = ℕ} (width + 1) 0

  abbrev count : ℕ
  count = if ltb 2 r.1 then r.1 - 2 else 0

  finish-Codes : Codes (2 * width) x (take ((r.1 + 1) / 2) (headed r.0 count (omega (arith, room))))
  finish-Codes = elim (ℕ_discrete w.count 0) [
    | yes none ↦
        let start : 0 ≡ x = ap (λ k. value 1 k r.0 0) (sym none) ∙ w.holds in
        let byte : get_or r.0 0 0 ≡ 0 =
          ap (λ xs. get_or xs 0 0) (w.idle none) ∙ get_or-blank (width + 1) 0 in
        headed-Codes r.0 count (omega (arith, room)) (2 * width) x 1 ((r.1 + 1) / 2)
          (ground (arith, w.stop)) (omega arith) (omega arith) (omega (arith, w.stop))
          (omega (arith, w.stop, room)) (omega (arith, start, byte))
    | no some ↦
        headed-Codes r.0 count (omega (arith, room)) (2 * width) x w.count ((r.1 + 1) / 2)
          (ground (arith, w.stop)) (omega (arith, w.bound)) w.bound (omega (arith, w.stop))
          (omega (arith, w.stop, w.bound, room)) w.holds
  ]

-- ENCODE_INT_INTERNAL codes every number of `width` bytes, up to 8.
pub encode_internal-Codes :
    (width x : ℕ)
    → width ≤ 8
    → 0 < width
    → x < 16 ^ (2 * width)
    → let (xs, len) = encode_internal width x in Codes (2 * width) x (take len xs)
unfolding encode_internal
encode_internal-Codes width x narrow wide small =
    let size : length (replicate (width + 1) 0) ≡ width + 1 =
      length-replicate {A = ℕ} (width + 1) 0 in
    finish-Codes width x _
      (encode_loop-Written (2 * width) (replicate (width + 1) 0) 1 x small (omega (arith, size)))
      narrow wide
