-- ===== src/Tagging/Integers.antt =====
-- evtag_encode_int, evtag_decode_int and their 64-bit forms on byte buffers.
use swift_event.Base.{
  ℕ, ◌+◌, ◌-◌, ◌/◌, ◌||◌, Option, none, some, List, ltb, leb, ◌==◌, if◌then◌else◌, get_or, drop,
  bit_and,
}
use swift_event.Base.Int.{pos}
use swift_event.ByteBuffer.{ByteBuffer}
use swift_event.Tagging.{encode_int, encode_int64, decode_loop}

-- What DECODE_INT_INTERNAL does: it returns -1; or it reads through a pointer that is an offset from
-- NULL; or it sets `*pnumber` and returns the length.
pub data Decoded : Type 0 where
  rejected : Decoded
  wild : Decoded
  decoded : ℕ → ℕ → Decoded

module _ (B : ByteBuffer) where
  -- A pullup that fails, seen through `data + offset`
  abbrev no_data : ℕ → Decoded
  no_data offset = if offset == 0 then rejected else wild

  -- DECODE_INT_INTERNAL, from its second pullup on
  unfoldable pub decode_nibbles : ℕ → ℕ → ℕ → ℕ → Option (List ℕ) × B.Buf → Decoded × B.Buf
  decode_nibbles modulus nibbles len offset (none, b) = (no_data offset, b)
  decode_nibbles modulus nibbles len offset (some xs, b) =
      (decoded (decode_loop modulus nibbles (drop offset xs) 0) len, b)

  -- from its first pullup on; `len` is the number of bytes from the offset on
  unfoldable pub decode_count : ℕ → ℕ → ℕ → ℕ → Option (List ℕ) × B.Buf → Decoded × B.Buf
  decode_count max modulus len offset (none, b) = (no_data offset, b)
  decode_count max modulus len offset (some xs, b) =
      let nibbles = bit_and (get_or (drop offset xs) 0 0) 0xf0 / 16 + 1 in
      let all = nibbles / 2 + 1 in
      if ltb max nibbles || ltb len all
      then (rejected, b)
      else decode_nibbles modulus nibbles all offset (B.pullup b (pos (offset + all)))

  -- DECODE_INT_INTERNAL for at most `max` nibbles, in numbers below `modulus`
  unfoldable pub decode_internal : ℕ → ℕ → B.Buf → ℕ → Decoded × B.Buf
  decode_internal max modulus b offset =
      if leb (B.get_length b) offset
      then (rejected, b)
      else decode_count max modulus (B.get_length b - offset) offset (B.pullup b (pos (offset + 1)))

  abbrev pub decode_int_internal : B.Buf → ℕ → Decoded × B.Buf
  decode_int_internal b offset = decode_internal 8 4294967296 b offset

  abbrev pub decode_int64_internal : B.Buf → ℕ → Decoded × B.Buf
  decode_int64_internal b offset = decode_internal 16 18446744073709551616 b offset

  -- The result of evtag_decode_int and evtag_decode_int64: the number is drained.
  unfoldable pub drained : Decoded × B.Buf → Decoded × B.Buf
  drained (rejected, b) = (rejected, b)
  drained (wild, b) = (wild, b)
  drained (decoded number len, b) = (decoded number len, (B.drain b len).1)

  unfoldable pub evtag_decode_int : B.Buf → Decoded × B.Buf
  evtag_decode_int b = drained (decode_int_internal b 0)

  unfoldable pub evtag_decode_int64 : B.Buf → Decoded × B.Buf
  evtag_decode_int64 b = drained (decode_int64_internal b 0)

  unfoldable pub evtag_encode_int : B.Buf → ℕ → B.Buf
  evtag_encode_int b number = (B.add b (encode_int number)).1

  unfoldable pub evtag_encode_int64 : B.Buf → ℕ → B.Buf
  evtag_encode_int64 b number = (B.add b (encode_int64 number)).1
