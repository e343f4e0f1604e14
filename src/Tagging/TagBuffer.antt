-- ===== src/Tagging/TagBuffer.antt =====
-- evtag_decode_tag and evtag_peek on a byte buffer that begins with an encoded tag.
use swift_event.Base.{
  ℕ, ◌+◌, ◌-◌, ◌≤◌, ◌<◌, ◌≡◌, refl, sym, ap, subst, ◌∙◌, Bool, Option, none, some, List, [], ◌++◌,
  ltb, if◌then◌else◌, take, drop, length, length-append, take-append_of_ge, drop-length-append,
  arith, Bool-cases, inl, inr,
}
use swift_event.Base.Int.{pos}
use swift_event.ByteBuffer.{ByteBuffer}
use swift_event.Tagging.Tags.{encode_tag, tag_loop, tag_found, tag_shown, decode_tag_internal}
use swift_event.Tagging.TagRoundTrip.{length-tag_bytes, tag_loop-encode_tag}

abbrev get_some : Option (List ℕ) → List ℕ
get_some none = []
get_some (some xs) = xs

module _ (B : ByteBuffer) (b : B.Buf) (tag : ℕ) (rest : List ℕ) (dodrain : Bool)
    (small : tag < 4294967296) (at : B.bytes b ≡ encode_tag tag ++ rest) where
  -- The tag and its length have been found; the bytes of the tag are gone when they were drained.
  abbrev IsFound : Option (ℕ × ℕ) × B.Buf → Type 0
  IsFound r =
      (r.0 ≡ some (length (encode_tag tag), tag))
      × B.IsGood r.1
      × (B.bytes r.1 ≡ (if dodrain then rest else B.bytes b))

  found :
      (b' : B.Buf)
      → B.IsGood b'
      → B.bytes b' ≡ B.bytes b
      → IsFound (tag_found B dodrain (some (length (encode_tag tag), tag)) b')
  unfolding tag_found
  found b' good same = elim (Bool-cases dodrain) [
    | inl drains ↦
        let (_, good', left) = B.drain_lem b' (length (encode_tag tag)) good in
        rw drains (
          refl,
          good',
          left
              ∙ ap (drop (length (encode_tag tag))) (same ∙ at)
              ∙ drop-length-append (encode_tag tag) rest,
        )
    | inr keeps ↦ rw keeps (refl, good, same)
  ]

  shown-IsFound :
      (p : Option (List ℕ) × B.Buf) (m : ℕ)
      → p.0 ≡ some (take m (B.bytes b))
      → length (encode_tag tag) ≤ m
      → B.IsGood p.1
      → B.bytes p.1 ≡ B.bytes b
      → IsFound (tag_shown B dodrain (length (B.bytes b)) p)
  unfolding tag_shown
  shown-IsFound (none, b') m e enough good same = absurd (cc e)
  shown-IsFound (some xs, b') m e enough good same =
      let held : xs ≡ encode_tag tag ++ take (m - length (encode_tag tag)) rest =
        ap get_some e ∙ ap (take m) at ∙ take-append_of_ge m (encode_tag tag) rest enough in
      let there : length (encode_tag tag) ≤ length (B.bytes b) =
        omega (arith, ap length at, length-append (encode_tag tag) rest) in
      let read : tag_loop 6 xs (length (B.bytes b)) 0 0 0 ≡ some (length (encode_tag tag), tag) =
        ap (λ ys. tag_loop 6 ys (length (B.bytes b)) 0 0 0) held
        ∙ tag_loop-encode_tag tag (length (B.bytes b)) (take (m - length (encode_tag tag)) rest)
            small there in
      subst (λ o. IsFound (tag_found B dodrain o b')) (sym read) (found b' good same)

  -- decode_tag_internal on a good buffer that begins with an encoded 32-bit tag finds the tag and its
  -- length, and drains exactly its bytes for evtag_decode_tag and none for evtag_peek.
  pub decode_tag-encode_tag : B.IsGood b → IsFound (decode_tag_internal B dodrain b)
  unfolding decode_tag_internal
  decode_tag-encode_tag good =
      let known : B.get_length b ≡ length (B.bytes b) = B.get_length_lem b good in
      let m : ℕ = if ltb (B.get_length b) 5 then B.get_length b else 5 in
      let (few, _) = length-tag_bytes 5 tag in
      let (_, one) = length-tag_bytes 4 tag in
      let long : length (encode_tag tag) + length rest ≡ length (B.bytes b) =
        sym (ap length at ∙ length-append (encode_tag tag) rest) in
      let enough : length (encode_tag tag) ≤ m = ground arith in
      let inside : m ≤ length (B.bytes b) = ground arith in
      let short : m ≤ 5 = ground arith in
      let (e, good', same) = B.pullup_lem b m good (omega arith) inside (omega arith) in
      subst (λ n. IsFound (tag_shown B dodrain n (B.pullup b (pos m)))) (sym known)
        (shown-IsFound _ m e enough good' same)
