-- ===== src/Tagging/TagRoundTrip.antt =====
-- A tag that has been encoded is decoded again.
use swift_event.Base.{
  ℕ, zero, suc, ◌+◌, ◌*◌, ◌/◌, ◌%◌, ◌^◌, ◌≤◌, ◌<◌, ◌≡◌, refl, sym, ap, ap₂, subst, ◌∙◌, true, false,
  ◌&&◌, ◌||◌, not, none, some, List, [], ◌∷◌, ◌++◌, ltb, leb, ◌==◌, if◌then◌else◌, if_true,
  if_false, get_or, drop, bit_and, bit_or, length, arith, dec_lt,
}
use native.Mathlib.Nat.{mod-eq_of_lt, mul_assoc, add-mul, mul-le-mul_right}
use swift_event.Base.Bits.{bit_and_0x7f, bit_and_0x80, bit_or-disjoint}
use swift_event.Tagging.Tags.{tag_bytes, encode_tag, tag_loop}

-- The byte at an index, where the rest of the string is known.
get_or-drop : (xs ys : List ℕ) (i x : ℕ) → drop i xs ≡ x ∷ ys → get_or xs i 0 ≡ x
get_or-drop xs ys zero x e = ap (λ zs. get_or zs 0 0) e
get_or-drop [] ys (suc i) x e = absurd (cc e)
get_or-drop (z ∷ xs) ys (suc i) x e = get_or-drop xs ys i x e

drop_next : (xs ys : List ℕ) (i j x : ℕ) → j ≡ i + 1 → drop i xs ≡ x ∷ ys → drop j xs ≡ ys
drop_next xs ys i zero x e at = absurd (omega arith)
drop_next [] ys zero (suc j) x e at = absurd (cc at)
drop_next (z ∷ xs) ys zero (suc j) x e at =
    let none : j ≡ 0 = omega arith in ap (λ k. drop k xs) none ∙ ap (drop 1) at
drop_next [] ys (suc i) (suc j) x e at = absurd (cc at)
drop_next (z ∷ xs) ys (suc i) (suc j) x e at = drop_next xs ys i j x (omega arith) at

-- One round of decode_tag_internal that reads the byte `w` with the seven bits `d`.
one_round :
    (fuel k : ℕ) (bytes : List ℕ) (len count low w d : ℕ)
    → get_or bytes count 0 ≡ w
    → bit_and w 0x7f ≡ d
    → low < 2 ^ k
    → k ≤ 28
    → (k ≡ 28 → d ≤ 15)
    → d * 2 ^ k < 4294967296
    → count < len
    → tag_loop (suc fuel) bytes len count k low ≡ (
        if bit_and w 0x80 == 0
        then some (count + 1, low + d * 2 ^ k)
        else tag_loop fuel bytes len (count + 1) (k + 7) (low + d * 2 ^ k))
unfolding tag_loop
one_round fuel k bytes len count low w d at mask below early top small inside =
    let added : bit_or low (d * 2 ^ k % 4294967296) ≡ low + d * 2 ^ k =
      ap (bit_or low) (mod-eq_of_lt small) ∙ bit_or-disjoint k low d below in
    let there : not (ltb count len) ≡ false = ground arith in
    let fits : (leb 28 k && (ltb 28 k || ltb 15 d)) ≡ false = ground (arith, top) in
    rw (at, mask)
      (if_false none _ there
        ∙ if_false none _ fits
        ∙ ap
            (λ n.
              if bit_and w 0x80 == 0
              then some (count + 1, n)
              else tag_loop fuel bytes len (count + 1) (k + 7) n)
            added)

-- The bytes of a tag: the last one, or one with others behind it.
tag_bytes_last : (fuel tag : ℕ) → tag < 128 → tag_bytes (suc fuel) tag ≡ tag ∷ []
unfolding tag_bytes
tag_bytes_last fuel tag h =
    let test : (tag / 128 == 0) ≡ true = ground arith in
    if_true _ _ test ∙ ap (λ x. x ∷ []) (omega (arith, bit_and_0x7f tag))

tag_bytes_more :
    (fuel tag : ℕ)
    → 128 ≤ tag
    → tag_bytes (suc fuel) tag ≡ (tag % 128 + 128) ∷ tag_bytes fuel (tag / 128)
unfolding tag_bytes
tag_bytes_more fuel tag h =
    let test : (tag / 128 == 0) ≡ false = ground arith in
    if_false _ _ test
    ∙ ap (λ x. bit_or x 0x80 ∷ tag_bytes fuel (tag / 128)) (bit_and_0x7f tag)
    ∙ ap (λ x. x ∷ tag_bytes fuel (tag / 128)) (bit_or-disjoint 7 (tag % 128) 1 (omega arith))

-- At least one byte, and at most as many as rounds.
pub length-tag_bytes :
    (fuel tag : ℕ) → (length (tag_bytes fuel tag) ≤ fuel) × (0 < length (tag_bytes (suc fuel) tag))
unfolding tag_bytes
length-tag_bytes zero tag = (omega arith, ground arith)
length-tag_bytes (suc fuel) tag =
    let (few, _) = length-tag_bytes fuel (tag / 128) in (ground arith, ground arith)

-- What the loop finds of a tag below `bound` that starts at the shift `k`.
abbrev Finds : ℕ → ℕ → ℕ → Type 0
Finds fuel k bound =
    (bytes rest : List ℕ) (len count low tag : ℕ)
    → tag < bound
    → low < 2 ^ k
    → count + length (tag_bytes fuel tag) ≤ len
    → drop count bytes ≡ tag_bytes fuel tag ++ rest
    → tag_loop (suc fuel) bytes len count k low
      ≡ some (count + length (tag_bytes fuel tag), low + tag * 2 ^ k)

last_group :
    (fuel k bound : ℕ)
    → k ≤ 28
    → bound ≤ 128
    → (k ≡ 28 → bound ≤ 16)
    → ((d : ℕ) → d < bound → d * 2 ^ k < 4294967296)
    → Finds (suc fuel) k bound
last_group fuel k bound early seven top small bytes rest len count low tag lt below there at =
    let code = tag_bytes_last fuel tag (omega arith) in
    let size : length (tag_bytes (suc fuel) tag) ≡ 1 = ap length code in
    let byte = get_or-drop bytes rest count tag (at ∙ ap (λ xs. xs ++ rest) code) in
    let clear : (bit_and tag 0x80 == 0) ≡ true = ground (arith, bit_and_0x80 tag) in
    one_round (suc fuel) k bytes len count low tag tag byte (omega (arith, bit_and_0x7f tag)) below
      early (λ h. omega (arith, top h)) (small tag lt) (omega (arith, size))
    ∙ if_true _ _ clear
    ∙ ap (λ n. some (count + n, low + tag * 2 ^ k)) (sym size)

-- A shift by seven bits more.
split_group : (tag p : ℕ) → tag % 128 * p + tag / 128 * (128 * p) ≡ tag * p
split_group tag p =
    let parts : tag ≡ tag % 128 + tag / 128 * 128 = omega arith in
    ap (λ x. tag % 128 * p + x) (sym (mul_assoc (tag / 128) 128 p))
    ∙ sym (add-mul (tag % 128) (tag / 128 * 128) p)
    ∙ ap (λ t. t * p) (sym parts)

group_below : (low d p : ℕ) → low < p → d < 128 → low + d * p < 128 * p
group_below low d p lt small =
    let most : d * p ≤ 127 * p = mul-le-mul_right p (omega arith) in omega (arith, most)

group :
    (fuel k bound : ℕ)
    → k ≤ 21
    → 2 ^ (k + 7) ≡ 128 * 2 ^ k
    → ((d : ℕ) → d < 128 → d * 2 ^ k < 4294967296)
    → Finds fuel (k + 7) bound
    → Finds (suc fuel) k (128 * bound)
group fuel k bound early power small next bytes rest len count low tag lt below there at =
    elim (dec_lt tag 128) [
      | yes few ↦
          last_group fuel k 128 (omega arith) (omega arith) (λ h. absurd (omega arith)) small bytes
            rest len count low tag few below there at
      | no many ↦
          let d = tag % 128 in
          let code = tag_bytes_more fuel tag (omega arith) in
          let more = tag_bytes fuel (tag / 128) in
          let size : length (tag_bytes (suc fuel) tag) ≡ length more + 1 =
            ap length code ∙ omega arith in
          let held : drop count bytes ≡ (d + 128) ∷ (more ++ rest) =
            at ∙ ap (λ xs. xs ++ rest) code in
          let set_bit : (bit_and (d + 128) 0x80 == 0) ≡ false =
            ground (arith, bit_and_0x80 (d + 128)) in
          let low' : low + d * 2 ^ k < 2 ^ (k + 7) =
            subst (λ q. low + d * 2 ^ k < q) (sym power)
              (group_below low d (2 ^ k) below (omega arith)) in
          one_round (suc fuel) k bytes len count low (d + 128) d
            (get_or-drop bytes (more ++ rest) count (d + 128) held)
            (omega (arith, bit_and_0x7f (d + 128))) below (omega arith) (λ h. absurd (omega arith))
            (small d (omega arith)) (omega (arith, size))
          ∙ if_false _ _ set_bit
          ∙ next bytes rest len (count + 1) (low + d * 2 ^ k) (tag / 128) (omega arith) low'
              (omega (arith, size))
              (drop_next bytes (more ++ rest) count (count + 1) (d + 128) refl held)
          ∙ ap₂ (λ n x. some (n, x)) (omega (arith, size))
              (omega (arith, split_group tag (2 ^ k), ap (λ q. tag / 128 * q) power))
    ]

-- The five groups of a 32-bit tag.
all_groups : Finds 5 0 4294967296
all_groups =
    group 4 0 33554432 (omega arith) refl (λ d h. omega arith)
      (group 3 7 262144 (omega arith) refl (λ d h. omega arith)
        (group 2 14 2048 (omega arith) refl (λ d h. omega arith)
          (group 1 21 16 (omega arith) refl (λ d h. omega arith)
            (last_group 0 28 16 (omega arith) (omega arith) (λ h. omega arith)
              (λ d h. omega arith)))))

-- decode_tag_internal finds the tag that evtag_encode_tag has put at the front of the bytes that it
-- is shown, and its length.
pub tag_loop-encode_tag :
    (tag len : ℕ) (rest : List ℕ)
    → tag < 4294967296
    → length (encode_tag tag) ≤ len
    → tag_loop 6 (encode_tag tag ++ rest) len 0 0 0 ≡ some (length (encode_tag tag), tag)
tag_loop-encode_tag tag len rest small there =
    all_groups (encode_tag tag ++ rest) rest len 0 0 tag small (omega arith) (omega arith) refl
    ∙ ap₂ (λ n x. some (n, x)) (omega arith) (omega arith)
