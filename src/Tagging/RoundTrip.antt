-- ===== src/Tagging/RoundTrip.antt =====
-- An integer that has been encoded into a byte buffer is decoded again, behind any offset.
use swift_event.Base.{
  ℕ, zero, suc, ◌+◌, ◌-◌, ◌/◌, ◌≤◌, ◌<◌, ◌≡◌, refl, sym, ap, ap₂, subst, ◌∙◌, false, List, [], ◌∷◌,
  ◌++◌, ltb, leb, ◌||◌, if◌then◌else◌, if_false, take, drop, get_or, length, length-append,
  length-drop, arith, get_or-take, get_or-append_left, take-length-append, drop-length-append,
  bit_and, Option, none, some,
}
use swift_event.Base.Bits.{bit_and_0xf0}
use swift_event.Base.Int.{pos}
use swift_event.Buffer.{chain_max, chain_size}
use swift_event.ByteBuffer.{ByteBuffer}
use swift_event.Tagging.{encode_int, encode_int64, decode_loop}
use swift_event.Tagging.Nibbles.{decode_loop-value}
use swift_event.Tagging.Coded.{Codes, encode_internal-Codes}
use swift_event.Tagging.Integers.{
  Decoded, rejected, wild, decoded, decode_nibbles, decode_count, decode_internal, drained,
  evtag_decode_int, evtag_decode_int64,
}

-- evtag_encode_int codes every 32-bit number: the count of its nibbles less one in the high half of
-- the first byte, and its nibbles from the lowest on, in at most 8.
pub encode_int-Codes : (x : ℕ) → x < 4294967296 → Codes 8 x (encode_int x)
unfolding encode_int
encode_int-Codes x small = encode_internal-Codes 4 x (omega arith) (omega arith) small

encode_int64-Codes : (x : ℕ) → x < 18446744073709551616 → Codes 16 x (encode_int64 x)
unfolding encode_int64
encode_int64-Codes x small = encode_internal-Codes 8 x (omega arith) (omega arith) small

take_nil : (n : ℕ) → take {A = ℕ} n [] ≡ []
take_nil zero = refl
take_nil (suc n) = refl

-- The bytes from `offset` on, of the first `offset + n` of a string.
pub behind :
    (offset n m : ℕ) (xs : List ℕ)
    → m ≡ offset + n
    → drop offset (take m xs) ≡ take n (drop offset xs)
behind zero n m xs e = ap (λ k. take k xs) (omega arith)
behind (suc offset) n zero xs e = absurd (omega arith)
behind (suc offset) n (suc m) [] e = sym (take_nil n)
behind (suc offset) n (suc m) (x ∷ xs) e = behind offset n m xs (omega arith)

-- Parts of results, for the equality of two.
abbrev pub get_len : Decoded → ℕ
get_len rejected = 0
get_len wild = 0
get_len (decoded n len) = len

abbrev pub get_some : Option (List ℕ) → List ℕ
get_some none = []
get_some (some xs) = xs

module _ (B : ByteBuffer) (max modulus x : ℕ) (code rest : List ℕ) (c : Codes max x code)
    (small : x < modulus) where
  module _ (b : B.Buf) (offset : ℕ) (at : drop offset (B.bytes b) ≡ code ++ rest)
      (short : offset + length code ≤ chain_max - chain_size) where
    -- The number has been read, and the buffer holds what it held.
    abbrev IsRead : Decoded × B.Buf → Type 0
    IsRead r = (r.0 ≡ decoded x (length code)) × B.IsGood r.1 × (B.bytes r.1 ≡ B.bytes b)

    long_enough : offset + length code + length rest ≡ length (B.bytes b)
    long_enough =
        omega (arith, ap length at, length-append code rest, length-drop offset (B.bytes b), c.size)

    nibbles-IsRead :
        (p : Option (List ℕ) × B.Buf) (ys : List ℕ)
        → p.0 ≡ some ys
        → drop offset ys ≡ code
        → B.IsGood p.1
        → B.bytes p.1 ≡ B.bytes b
        → IsRead (decode_nibbles B modulus c.nibbles (length code) offset p)
    unfolding decode_nibbles
    nibbles-IsRead (none, b') ys e from good same = absurd (cc e)
    nibbles-IsRead (some zs, b') ys e from good same =
        let code_read : drop offset zs ≡ code = ap (λ o. drop offset (get_some o)) e ∙ from in
        (
          ap (λ n. decoded n (length code))
              (ap (λ xs. decode_loop modulus c.nibbles xs 0) code_read
                ∙ decode_loop-value modulus c.nibbles code 0 (omega (arith, c.holds))
                ∙ c.holds),
          good,
          same,
        )

    -- The second pullup shows the whole number.
    all-IsRead :
        (b' : B.Buf)
        → B.IsGood b'
        → B.bytes b' ≡ B.bytes b
        → IsRead (
            decode_nibbles B modulus c.nibbles
              (length code)
              offset
              (B.pullup b' (pos (offset + length code))))
    all-IsRead b' good same =
        let enough : offset + length code ≤ length (B.bytes b') =
          omega (arith, long_enough, ap length same) in
        let (e, good', same') =
          B.pullup_lem b' (offset + length code) good (omega (arith, c.size)) enough short in
        nibbles-IsRead _ _ e
          (behind offset (length code) (offset + length code) (B.bytes b') refl
            ∙ ap (λ xs. take (length code) (drop offset xs)) same
            ∙ ap (take (length code)) at
            ∙ take-length-append code rest)
          good' (same' ∙ same)

    -- decode_count, for its two numbers
    abbrev counted : ℕ → ℕ → B.Buf → Decoded × B.Buf
    counted n all b' =
        if ltb max n || ltb (length code + length rest) all
        then (rejected, b')
        else decode_nibbles B modulus n all offset (B.pullup b' (pos (offset + all)))

    count-IsRead :
        (p : Option (List ℕ) × B.Buf) (ys : List ℕ)
        → p.0 ≡ some ys
        → get_or (drop offset ys) 0 0 ≡ get_or code 0 0
        → B.IsGood p.1
        → B.bytes p.1 ≡ B.bytes b
        → IsRead (decode_count B max modulus (length code + length rest) offset p)
    unfolding decode_count
    count-IsRead (none, b') ys e from good same = absurd (cc e)
    count-IsRead (some zs, b') ys e from good same =
        let byte : get_or (drop offset zs) 0 0 ≡ get_or code 0 0 =
          ap (λ o. get_or (drop offset (get_some o)) 0 0) e ∙ from in
        let nibbles : bit_and (get_or (drop offset zs) 0 0) 0xf0 / 16 + 1 ≡ c.nibbles =
          ap (λ k. bit_and k 0xf0 / 16 + 1) byte
          ∙ omega (arith, bit_and_0xf0 (get_or code 0 0), c.first) in
        let in_range : (ltb max c.nibbles || ltb (length code + length rest) (length code))
            ≡ false =
          ground (arith, c.bound) in
        subst (λ n. IsRead (counted n (n / 2 + 1) b')) (sym nibbles)
          (subst (λ m. IsRead (counted c.nibbles m b')) c.size
            (subst IsRead (sym (if_false (rejected, b') _ in_range)) (all-IsRead b' good same)))

    pub decodes : B.IsGood b → IsRead (decode_internal B max modulus b offset)
    unfolding decode_internal
    decodes good =
        let length_known : B.get_length b ≡ length (B.bytes b) = B.get_length_lem b good in
        let one : offset + 1 ≤ length (B.bytes b) = omega (arith, long_enough, c.size) in
        let (e, good', same') =
          B.pullup_lem b (offset + 1) good (omega arith) one (omega (arith, c.size)) in
        let left : B.get_length b - offset ≡ length code + length rest =
          omega (arith, length_known, long_enough) in
        let inside : leb (B.get_length b) offset ≡ false = ground (arith, length_known, one) in
        subst IsRead (sym (if_false (rejected, b) _ inside)) (
          subst (λ n. IsRead (decode_count B max modulus n offset (B.pullup b (pos (offset + 1)))))
            (sym left)
            (count-IsRead _ _ e
              (ap (λ xs. get_or xs 0 0)
                  (behind offset 1 (offset + 1) (B.bytes b) refl ∙ ap (take 1) at)
                ∙ get_or-take 1 (code ++ rest) 0 0 (omega arith)
                ∙ get_or-append_left code rest 0 0 (omega (arith, c.size)))
              good' same'))

  -- A number that has been read is drained.
  drained_read :
      (b : B.Buf) (p : Decoded × B.Buf)
      → p.0 ≡ decoded x (length code)
      → B.IsGood p.1
      → B.bytes p.1 ≡ code ++ rest
      → let (r, b') = drained B p in
        (r ≡ decoded x (length code)) × B.IsGood b' × (B.bytes b' ≡ rest)
  unfolding drained
  drained_read b (rejected, b') e good same = absurd (cc e)
  drained_read b (wild, b') e good same = absurd (cc e)
  drained_read b (decoded n len, b') e good same =
      let (_, good', left) = B.drain_lem b' len good in
      let all : len ≡ length code = ap get_len e in
      (e, good', left ∙ ap₂ drop all same ∙ drop-length-append code rest)

-- evtag_decode_int finds the number that evtag_encode_int has put at the front of a buffer, drains
-- exactly its bytes, and leaves the rest.
pub decode_int-encode_int :
    (B : ByteBuffer) (b : B.Buf) (x : ℕ) (rest : List ℕ)
    → B.IsGood b
    → x < 4294967296
    → B.bytes b ≡ encode_int x ++ rest
    → let (r, b') = evtag_decode_int B b in
      (r ≡ decoded x (length (encode_int x))) × B.IsGood b' × (B.bytes b' ≡ rest)
unfolding evtag_decode_int
decode_int-encode_int B b x rest good small at =
    let c = encode_int-Codes x small in
    let (e, good', same) =
      decodes B 8 4294967296 x (encode_int x) rest c small b 0 at (omega (arith, c.size, c.bound))
        good in
    drained_read B 8 4294967296 x (encode_int x) rest c small b _ e good' (same ∙ at)

-- evtag_decode_int64 finds the number that evtag_encode_int64 has put at the front of a buffer,
-- drains exactly its bytes, and leaves the rest.
pub decode_int64-encode_int64 :
    (B : ByteBuffer) (b : B.Buf) (x : ℕ) (rest : List ℕ)
    → B.IsGood b
    → x < 18446744073709551616
    → B.bytes b ≡ encode_int64 x ++ rest
    → let (r, b') = evtag_decode_int64 B b in
      (r ≡ decoded x (length (encode_int64 x))) × B.IsGood b' × (B.bytes b' ≡ rest)
unfolding evtag_decode_int64
decode_int64-encode_int64 B b x rest good small at =
    let c = encode_int64-Codes x small in
    let (e, good', same) =
      decodes B 16 18446744073709551616 x (encode_int64 x) rest c small b 0 at
        (omega (arith, c.size, c.bound)) good in
    drained_read B 16 18446744073709551616 x (encode_int64 x) rest c small b _ e good' (same ∙ at)
