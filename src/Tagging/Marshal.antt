-- ===== src/Tagging/Marshal.antt =====
-- The functions of event_tagging.c that put whole tagged values into a byte buffer, and those that
-- read their headers.
use swift_event.Base.{ℕ, true, false, Option, none, some, List, ltb, ◌==◌, if◌then◌else◌, length}
use swift_event.Base.Int.{ℤ}
use swift_event.MinHeap.{int_of_u32}
use swift_event.ByteBuffer.{ByteBuffer}
use swift_event.Tagging.{encode_int, encode_int64}
use swift_event.Tagging.Tags.{decode_tag_internal, evtag_encode_tag}
use swift_event.Tagging.Integers.{
  Decoded, rejected, wild, decoded, decode_int_internal, evtag_encode_int, evtag_decode_int,
}

module _ (B : ByteBuffer) where
  -- evtag_marshal, for fewer than 2 ^ 32 bytes
  unfoldable pub evtag_marshal : B.Buf → ℕ → List ℕ → B.Buf
  evtag_marshal b tag bytes =
      let b' = evtag_encode_int B (evtag_encode_tag B b tag).1 (length bytes) in (B.add b' bytes).1

  -- evtag_marshal_int and evtag_marshal_int64
  unfoldable pub evtag_marshal_int : B.Buf → ℕ → ℕ → B.Buf
  evtag_marshal_int b tag integer = evtag_marshal b tag (encode_int integer)

  unfoldable pub evtag_marshal_int64 : B.Buf → ℕ → ℕ → B.Buf
  evtag_marshal_int64 b tag integer = evtag_marshal b tag (encode_int64 integer)

  -- evtag_peek
  unfoldable pub evtag_peek : B.Buf → Option (ℕ × ℕ) × B.Buf
  evtag_peek b = decode_tag_internal B false b

  -- The end of evtag_unmarshal_header, with the length of the value decoded
  unfoldable pub header_length : ℕ → Decoded × B.Buf → Option (ℕ × ℤ) × B.Buf
  header_length tag (rejected, b) = (none, b)
  header_length tag (wild, b) = (none, b)
  header_length tag (decoded len n, b) =
      if ltb (B.get_length b) len then (none, b) else (some (tag, int_of_u32 len), b)

  unfoldable pub header_tag : Option (ℕ × ℕ) × B.Buf → Option (ℕ × ℤ) × B.Buf
  header_tag (none, b) = (none, b)
  header_tag (some (n, tag), b) = header_length tag (evtag_decode_int B b)

  -- evtag_unmarshal_header: the tag and the length as an `int`, or -1
  unfoldable pub evtag_unmarshal_header : B.Buf → Option (ℕ × ℤ) × B.Buf
  evtag_unmarshal_header b = header_tag (decode_tag_internal B true b)

  -- The end of evtag_unmarshal_int: a number longer than the value is refused.
  unfoldable pub payload_number : ℕ → Decoded × B.Buf → Option (ℕ × ℕ) × B.Buf
  payload_number len (rejected, b) = (none, (B.drain b len).1)
  payload_number len (wild, b) = (none, (B.drain b len).1)
  payload_number len (decoded x n, b) =
      if ltb len n then (none, (B.drain b len).1) else (some (n, x), (B.drain b len).1)

  unfoldable pub payload_int : Decoded × B.Buf → Option (ℕ × ℕ) × B.Buf
  payload_int (rejected, b) = (none, b)
  payload_int (wild, b) = (none, b)
  payload_int (decoded len n, b) =
      if ltb (B.get_length b) len then (none, b) else payload_number len (decode_int_internal B b 0)

  unfoldable pub tagged_int : ℕ → Option (ℕ × ℕ) × B.Buf → Option (ℕ × ℕ) × B.Buf
  tagged_int need_tag (none, b) = (none, b)
  tagged_int need_tag (some (n, tag), b) =
      if need_tag == tag then payload_int (evtag_decode_int B b) else (none, b)

  -- evtag_unmarshal_int: the length of the number and the number, or -1
  unfoldable pub evtag_unmarshal_int : B.Buf → ℕ → Option (ℕ × ℕ) × B.Buf
  evtag_unmarshal_int b need_tag = tagged_int need_tag (decode_tag_internal B true b)
