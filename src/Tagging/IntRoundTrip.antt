-- ===== src/Tagging/IntRoundTrip.antt =====
-- evtag_unmarshal_int finds the integer that evtag_marshal_int has put into a buffer.
use swift_event.Base.{
  ℕ, ◌<◌, ◌≡◌, sym, ap, ap₂, ◌∙◌, true, false, Option, none, some, List, [], ◌++◌, ltb, ◌==◌, drop,
  length, length-append, drop-length-append, append_assoc, append-nil, arith,
}
use swift_event.ByteBuffer.{ByteBuffer}
use swift_event.Tagging.{encode_int}
use swift_event.Tagging.Tags.{encode_tag, decode_tag_internal}
use swift_event.Tagging.TagBuffer.{decode_tag-encode_tag}
use swift_event.Tagging.Integers.{
  Decoded, rejected, wild, decoded, decode_int_internal, evtag_decode_int,
}
use swift_event.Tagging.RoundTrip.{decode_int-encode_int, decodes, encode_int-Codes, get_len}
use swift_event.Tagging.Marshal.{
  evtag_marshal, evtag_marshal_int, payload_number, payload_int, tagged_int, evtag_unmarshal_int,
}
use swift_event.Tagging.MarshalRoundTrip.{marshalled, evtag_marshal_lem, number_of, tag_of}

module _ (B : ByteBuffer) (x : ℕ) (rest : List ℕ) (small : x < 4294967296) where
  -- The number and its length have been found, and what follows is left.
  abbrev IsTaken : Option (ℕ × ℕ) × B.Buf → Type 0
  IsTaken r = (r.0 ≡ some (length (encode_int x), x)) × B.IsGood r.1 × (B.bytes r.1 ≡ rest)

  payload_number-IsTaken :
      (len : ℕ) (p : Decoded × B.Buf)
      → len ≡ length (encode_int x)
      → p.0 ≡ decoded x (length (encode_int x))
      → B.IsGood p.1
      → B.bytes p.1 ≡ encode_int x ++ rest
      → IsTaken (payload_number B len p)
  unfolding payload_number
  payload_number-IsTaken len (rejected, b) all e good same = absurd (cc e)
  payload_number-IsTaken len (wild, b) all e good same = absurd (cc e)
  payload_number-IsTaken len (decoded y n, b) all e good same =
      let (_, good', left) = B.drain_lem b len good in
      let size : n ≡ length (encode_int x) = ap get_len e in
      let fits : ltb len n ≡ false = ground (arith, all, size) in
      rw fits (
        ap₂ (λ m z. some (m, z)) size (ap number_of e),
        good',
        left ∙ ap₂ drop all same ∙ drop-length-append (encode_int x) rest,
      )

  payload_int-IsTaken :
      (m : ℕ) (p : Decoded × B.Buf)
      → p.0 ≡ decoded (length (encode_int x)) m
      → B.IsGood p.1
      → B.bytes p.1 ≡ encode_int x ++ rest
      → IsTaken (payload_int B p)
  unfolding payload_int
  payload_int-IsTaken m (rejected, b) e good same = absurd (cc e)
  payload_int-IsTaken m (wild, b) e good same = absurd (cc e)
  payload_int-IsTaken m (decoded len n, b) e good same =
      let all : len ≡ length (encode_int x) = ap number_of e in
      let c = encode_int-Codes x small in
      let known = B.get_length_lem b good ∙ ap length same ∙ length-append (encode_int x) rest in
      let there : ltb (B.get_length b) len ≡ false = ground (arith, known, all) in
      let (read, good', same') =
        decodes B 8 4294967296 x (encode_int x) rest c small b 0 same
          (omega (arith, c.size, c.bound)) good in
      rw there
        (payload_number-IsTaken len (decode_int_internal B b 0) all read good' (same' ∙ same))

  tagged_int-IsTaken :
      (tag m : ℕ) (p : Option (ℕ × ℕ) × B.Buf)
      → p.0 ≡ some (m, tag)
      → B.IsGood p.1
      → B.bytes p.1 ≡ encode_int (length (encode_int x)) ++ (encode_int x ++ rest)
      → IsTaken (tagged_int B tag p)
  unfolding tagged_int
  tagged_int-IsTaken tag m (none, b) e good same = absurd (cc e)
  tagged_int-IsTaken tag m (some (n, t), b) e good same =
      let tags : t ≡ tag = ap tag_of e in
      let test : (tag == t) ≡ true = ground (arith, tags) in
      let c = encode_int-Codes x small in
      let (found, good', same') =
        decode_int-encode_int B b (length (encode_int x)) (encode_int x ++ rest) good
          (omega (arith, c.size, c.bound)) same in
      rw test (
        payload_int-IsTaken (length (encode_int (length (encode_int x)))) (evtag_decode_int B b)
          found good' same')

  -- evtag_unmarshal_int of a good buffer that begins with what evtag_marshal_int writes for a 32-bit
  -- tag and number finds that number when it is asked for that tag, and leaves what follows.
  unmarshal_int-marshalled :
      (b : B.Buf) (tag : ℕ)
      → B.IsGood b
      → tag < 4294967296
      → B.bytes b ≡ marshalled tag (encode_int x) ++ rest
      → IsTaken (evtag_unmarshal_int B b tag)
  unfolding evtag_unmarshal_int
  unmarshal_int-marshalled b tag good tag_small at =
      let code = encode_int x in
      let apart : marshalled tag code ++ rest
          ≡ encode_tag tag ++ (encode_int (length code) ++ (code ++ rest)) =
        simp append_assoc in
      let (e, good', same) =
        decode_tag-encode_tag B b tag (encode_int (length code) ++ (code ++ rest)) true tag_small
          (at ∙ apart) good in
      tagged_int-IsTaken tag (length (encode_tag tag)) (decode_tag_internal B true b) e good' same

-- A number that evtag_marshal_int puts into an empty good buffer comes out of evtag_unmarshal_int
-- with the same tag, and the buffer is empty again.
pub unmarshal_int-marshal_int :
    (B : ByteBuffer) (b : B.Buf) (tag x : ℕ)
    → B.IsGood b
    → B.bytes b ≡ []
    → tag < 4294967296
    → x < 4294967296
    → let (r, b') = evtag_unmarshal_int B (evtag_marshal_int B b tag x) tag in
      (r ≡ some (length (encode_int x), x)) × B.IsGood b' × (B.bytes b' ≡ [])
unfolding evtag_marshal_int
unmarshal_int-marshal_int B b tag x good empty tag_small small =
    let c = encode_int-Codes x small in
    let (good', same) =
      evtag_marshal_lem B b tag (encode_int x) good
        (omega (arith, ap length empty, c.size, c.bound)) (omega (arith, c.size, c.bound)) in
    unmarshal_int-marshalled B x [] small (evtag_marshal B b tag (encode_int x)) tag good' tag_small
      (same
        ∙ ap (λ ys. ys ++ marshalled tag (encode_int x)) empty
        ∙ sym (append-nil (marshalled tag (encode_int x))))
