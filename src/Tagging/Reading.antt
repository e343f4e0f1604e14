-- ===== src/Tagging/Reading.antt =====
-- DECODE_INT_INTERNAL on any bytes at all, against a direct reading of the bytes.
use swift_event.Base.{
  ℕ, zero, suc, ◌+◌, ◌-◌, ◌*◌, ◌/◌, ◌≤◌, ◌<◌, ◌≡◌, List, ltb, ◌==◌, ◌||◌, if◌then◌else◌, drop,
  length,
}
use swift_event.Base.Int.{pos}
use swift_event.Buffer.{chain_max, chain_size}
use swift_event.ByteBuffer.{ByteBuffer}
use swift_event.Tagging.Nibbles.{nibble, value}
use swift_event.Tagging.Integers.{Decoded, rejected, decoded, decode_nibbles}

-- What the bytes say: the high half of the first one is the count of nibbles less one, and the nibbles
-- follow, the lowest first. Bytes that are too few, or that promise more than `max` nibbles, say
-- nothing.
abbrev pub read_int : ℕ → List ℕ → Decoded
read_int max xs =
    let nibbles = nibble xs 0 + 1 in
    let len = nibbles / 2 + 1 in
    if length xs == 0
    then rejected
    else if ltb max nibbles || ltb (length xs) len
    then rejected
    else decoded (value 1 nibbles xs 0) len

-- The largest number that `n` nibbles can hold below `high`
abbrev pub largest : ℕ → ℕ → ℕ
largest zero high = high
largest (suc n) high = largest n (high * 16 + 15)

module _ (B : ByteBuffer) (max modulus : ℕ) (fits : largest max 0 < modulus) (b : B.Buf)
    (offset : ℕ) (short : offset + max / 2 + 1 ≤ chain_max - chain_size) where
  abbrev xs : List ℕ
  xs = drop offset (B.bytes b)

  abbrev Reads : Decoded × B.Buf → Type 0
  Reads r = (r.0 ≡ read_int max xs) × B.IsGood r.1 × (B.bytes r.1 ≡ B.bytes b)

  abbrev nibbles : ℕ
  nibbles = nibble xs 0 + 1

  abbrev len : ℕ
  len = nibbles / 2 + 1

  -- decode_count, for its numbers of nibbles and of bytes
  abbrev counted : ℕ → ℕ → B.Buf → Decoded × B.Buf
  counted n left b' =
      let all = n / 2 + 1 in
      if ltb max n || ltb left all
      then (rejected, b')
      else decode_nibbles B modulus n all offset (B.pullup b' (pos (offset + all)))
