-- ===== src/Tagging/MarshalRoundTrip.antt =====
-- A marshalled value is unmarshalled again.
use swift_event.Base.{
  ℕ, ◌+◌, ◌≤◌, ◌<◌, ◌≡◌, ap, ◌∙◌, true, false, Option, none, some, List, ◌++◌, ltb, length,
  length-append, append_assoc, arith,
}
use swift_event.Base.Int.{pos}
use swift_event.MinHeap.{int_of_u32}
use swift_event.Buffer.{size_max}
use swift_event.ByteBuffer.{ByteBuffer}
use swift_event.Tagging.{encode_int}
use swift_event.Tagging.Tags.{encode_tag, decode_tag_internal, evtag_encode_tag}
use swift_event.Tagging.TagRoundTrip.{length-tag_bytes}
use swift_event.Tagging.TagBuffer.{decode_tag-encode_tag}
use swift_event.Tagging.Integers.{
  Decoded, rejected, wild, decoded, evtag_decode_int, evtag_encode_int,
}
use swift_event.Tagging.RoundTrip.{decode_int-encode_int, encode_int-Codes}
use swift_event.Tagging.Marshal.{evtag_marshal, header_length, header_tag, evtag_unmarshal_header}

-- The bytes of a tagged value.
abbrev pub marshalled : ℕ → List ℕ → List ℕ
marshalled tag xs = encode_tag tag ++ encode_int (length xs) ++ xs

-- Parts of results, for the equality of two.
abbrev pub number_of : Decoded → ℕ
number_of rejected = 0
number_of wild = 0
number_of (decoded x n) = x

abbrev pub tag_of : Option (ℕ × ℕ) → ℕ
tag_of none = 0
tag_of (some (n, tag)) = tag

module _ (B : ByteBuffer) where
  -- evtag_marshal appends the tag, the length and the bytes to a good buffer, when they fit.
  pub evtag_marshal_lem :
      (b : B.Buf) (tag : ℕ) (xs : List ℕ)
      → B.IsGood b
      → length (B.bytes b) + length xs + 10 ≤ size_max
      → length xs < 4294967296
      → let b' = evtag_marshal B b tag xs in
        B.IsGood b' × (B.bytes b' ≡ B.bytes b ++ marshalled tag xs)
  unfolding evtag_marshal evtag_encode_tag evtag_encode_int
  evtag_marshal_lem b tag xs good room short =
      let (few, _) = length-tag_bytes 5 tag in
      let c = encode_int-Codes (length xs) short in
      let (_, good₁, same₁) = B.add_lem b (encode_tag tag) good (omega arith) (omega arith) in
      let b₁ = (B.add b (encode_tag tag)).1 in
      let size₁ = ap length same₁ ∙ length-append (B.bytes b) (encode_tag tag) in
      let (_, good₂, same₂) =
        B.add_lem b₁ (encode_int (length xs)) good₁ (omega (arith, size₁, c.size, c.bound))
          (omega (arith, c.size, c.bound)) in
      let b₂ = (B.add b₁ (encode_int (length xs))).1 in
      let size₂ = ap length same₂ ∙ length-append (B.bytes b₁) (encode_int (length xs)) in
      let (_, good₃, same₃) =
        B.add_lem b₂ xs good₂ (omega (arith, size₁, size₂, c.size, c.bound)) (omega arith) in
      (
        good₃,
        same₃
            ∙ ap (λ ys. ys ++ xs) (same₂ ∙ ap (λ ys. ys ++ encode_int (length xs)) same₁)
            ∙ simp append_assoc,
      )

  -- After the length, the value and what follows it.
  header_length-decoded :
      (tag : ℕ) (xs rest : List ℕ) (n : ℕ) (p : Decoded × B.Buf)
      → length xs < 2147483648
      → p.0 ≡ decoded (length xs) n
      → B.IsGood p.1
      → B.bytes p.1 ≡ xs ++ rest
      → let (r, b') = header_length B tag p in
        (r ≡ some (tag, pos (length xs))) × B.IsGood b' × (B.bytes b' ≡ xs ++ rest)
  unfolding header_length
  header_length-decoded tag xs rest n (rejected, b) small e good same = absurd (cc e)
  header_length-decoded tag xs rest n (wild, b) small e good same = absurd (cc e)
  header_length-decoded tag xs rest n (decoded len m, b) small e good same =
      let all : len ≡ length xs = ap number_of e in
      let known = B.get_length_lem b good ∙ ap length same ∙ length-append xs rest in
      let there : ltb (B.get_length b) len ≡ false = ground (arith, known, all) in
      let positive : int_of_u32 len ≡ pos (length xs) = ground (arith, all) in
      rw there (ap (λ z. some (tag, z)) positive, good, same)

  header_tag-found :
      (tag m : ℕ) (xs rest : List ℕ) (p : Option (ℕ × ℕ) × B.Buf)
      → length xs < 2147483648
      → p.0 ≡ some (m, tag)
      → B.IsGood p.1
      → B.bytes p.1 ≡ encode_int (length xs) ++ (xs ++ rest)
      → let (r, b') = header_tag B p in
        (r ≡ some (tag, pos (length xs))) × B.IsGood b' × (B.bytes b' ≡ xs ++ rest)
  unfolding header_tag
  header_tag-found tag m xs rest (none, b) small e good same = absurd (cc e)
  header_tag-found tag m xs rest (some (n, t), b) small e good same =
      let tags : t ≡ tag = ap tag_of e in
      let (found, good', same') =
        decode_int-encode_int B b (length xs) (xs ++ rest) good (omega arith) same in
      rw tags (
        header_length-decoded tag xs rest (length (encode_int (length xs))) (evtag_decode_int B b)
          small found good' same')

  -- evtag_unmarshal_header of a good buffer that begins with a marshalled value of fewer than 2 ^ 31
  -- bytes finds its tag and its length, and leaves its bytes and what follows them.
  pub unmarshal_header-marshalled :
      (b : B.Buf) (tag : ℕ) (xs rest : List ℕ)
      → B.IsGood b
      → tag < 4294967296
      → length xs < 2147483648
      → B.bytes b ≡ marshalled tag xs ++ rest
      → let (r, b') = evtag_unmarshal_header B b in
        (r ≡ some (tag, pos (length xs))) × B.IsGood b' × (B.bytes b' ≡ xs ++ rest)
  unfolding evtag_unmarshal_header
  unmarshal_header-marshalled b tag xs rest good tag_small small at =
      let apart : marshalled tag xs ++ rest
          ≡ encode_tag tag ++ (encode_int (length xs) ++ (xs ++ rest)) =
        simp append_assoc in
      let (e, good', same) =
        decode_tag-encode_tag B b tag (encode_int (length xs) ++ (xs ++ rest)) true tag_small
          (at ∙ apart) good in
      header_tag-found tag (length (encode_tag tag)) xs rest (decode_tag_internal B true b) small e
        good' same
