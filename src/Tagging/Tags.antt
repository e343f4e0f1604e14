-- ===== src/Tagging/Tags.antt =====
-- evtag_encode_tag and evtag_decode_tag: tags in groups of seven bits, the lowest first, with the
-- high bit of a byte set where another one follows.
use swift_event.Base.{
  ℕ, zero, suc, ◌+◌, ◌*◌, ◌/◌, ◌%◌, ◌^◌, Bool, ◌&&◌, ◌||◌, not, Option, none, some, List, [], ◌∷◌,
  ltb, leb, ◌==◌, if◌then◌else◌, get_or, bit_and, bit_or, length,
}
use swift_event.Base.Int.{pos}
use swift_event.ByteBuffer.{ByteBuffer}

-- The `do` loop of evtag_encode_tag: at most 5 rounds for 32 bits
unfoldable pub tag_bytes : ℕ → ℕ → List ℕ
tag_bytes zero tag = []
tag_bytes (suc fuel) tag =
    let lower = bit_and tag 0x7f in
    let more = tag_bytes fuel (tag / 128) in
    if tag / 128 == 0 then lower ∷ [] else bit_or lower 0x80 ∷ more

abbrev pub encode_tag : ℕ → List ℕ
encode_tag tag = tag_bytes 5 tag

-- The loop of decode_tag_internal over `bytes`, of a buffer with `len` bytes: the number of bytes and
-- the tag. Its sixth round at the latest ends it.
unfoldable pub tag_loop : ℕ → List ℕ → ℕ → ℕ → ℕ → ℕ → Option (ℕ × ℕ)
tag_loop zero bytes len count shift number = none
tag_loop (suc fuel) bytes len count shift number =
    let lower = get_or bytes count 0 in
    let bits = bit_and lower 0x7f in
    let number' = bit_or number (bits * 2 ^ shift % 4294967296) in
    let rest = tag_loop fuel bytes len (count + 1) (shift + 7) number' in
    if not (ltb count len)
    then none
    else if leb 28 shift && (ltb 28 shift || ltb 15 bits)
    then none
    else if bit_and lower 0x80 == 0
    then some (count + 1, number')
    else rest

module _ (B : ByteBuffer) where
  -- decode_tag_internal: the length and the tag, or -1
  unfoldable pub tag_found : Bool → Option (ℕ × ℕ) → B.Buf → Option (ℕ × ℕ) × B.Buf
  tag_found dodrain none b = (none, b)
  tag_found dodrain (some (count, number)) b =
      (some (count, number), if dodrain then (B.drain b count).1 else b)

  unfoldable pub tag_shown : Bool → ℕ → Option (List ℕ) × B.Buf → Option (ℕ × ℕ) × B.Buf
  tag_shown dodrain len (none, b) = (none, b)
  tag_shown dodrain len (some bytes, b) = tag_found dodrain (tag_loop 6 bytes len 0 0 0) b

  unfoldable pub decode_tag_internal : Bool → B.Buf → Option (ℕ × ℕ) × B.Buf
  decode_tag_internal dodrain b =
      let len = B.get_length b in
      tag_shown dodrain len (B.pullup b (pos (if ltb len 5 then len else 5)))

  unfoldable pub evtag_encode_tag : B.Buf → ℕ → ℕ × B.Buf
  evtag_encode_tag b tag = (length (encode_tag tag), (B.add b (encode_tag tag)).1)
