-- ===== src/Tagging.antt =====
-- Tagged values, Sources/libevent/src/event_tagging.c: the coding of integers by nibbles and of tags
-- by seven bits, and the functions that put them into byte buffers and take them out.
pub mod Nibbles
pub mod Coded
pub mod Integers
pub mod RoundTrip
pub mod Reading
pub mod Tags
pub mod TagRoundTrip
pub mod TagBuffer
pub mod Marshal
pub mod MarshalRoundTrip
pub mod IntRoundTrip
mod Tests
mod MarshalTests
use swift_event.Base.{
  ℕ, zero, suc, ◌+◌, ◌-◌, ◌*◌, ◌/◌, ◌%◌, Bool, List, [], ◌∷◌, ltb, ◌==◌, if◌then◌else◌, take,
  get_or, set, replicate, length, bit_and, bit_or,
}

-- One round of the loop of ENCODE_INT_INTERNAL: the nibble `off` of `data`
abbrev pub put_nibble : List ℕ → ℕ → ℕ → List ℕ
put_nibble bytes off number =
    let byte = get_or bytes (off / 2) 0 in
    let low = bit_or (bit_and byte 0xf0) (bit_and number 0x0f) in
    let high = bit_or (bit_and byte 0x0f) (bit_and number 0x0f * 16) in
    set bytes (off / 2) (if off % 2 == 1 then low else high)

-- `while (number)`: the data and the last `off`. A number of `n` bits takes `n / 4` rounds.
unfoldable pub encode_loop : ℕ → List ℕ → ℕ → ℕ → List ℕ × ℕ
encode_loop zero bytes off number = (bytes, off)
encode_loop (suc fuel) bytes off number =
    let rest = encode_loop fuel (put_nibble bytes off number) (off + 1) (number / 16) in
    if number == 0 then (bytes, off) else rest

-- ENCODE_INT_INTERNAL for a number of `width` bytes: the data, and the length that it returns
unfoldable pub encode_internal : ℕ → ℕ → List ℕ × ℕ
encode_internal width number =
    let (bytes, off) = encode_loop (2 * width) (replicate (width + 1) 0) 1 number in
    let nibbles = if ltb 2 off then off - 2 else 0 in
    let first = bit_or (bit_and (get_or bytes 0 0) 0x0f) (bit_and nibbles 0x0f * 16) in
    (set bytes 0 first, (off + 1) / 2)

-- The bytes that evtag_encode_int and evtag_encode_int64 add
unfoldable pub encode_int : ℕ → List ℕ
encode_int number = let (bytes, len) = encode_internal 4 number in take len bytes

unfoldable pub encode_int64 : ℕ → List ℕ
encode_int64 number = let (bytes, len) = encode_internal 8 number in take len bytes

-- `while (nibbles > 0)` of DECODE_INT_INTERNAL, for numbers below `modulus`
unfoldable pub decode_loop : ℕ → ℕ → List ℕ → ℕ → ℕ
decode_loop modulus zero bytes number = number
decode_loop modulus (suc n) bytes number =
    let byte = get_or bytes (suc n / 2) 0 in
    let shifted = number * 16 % modulus in
    let nibble = if suc n % 2 == 1 then bit_and byte 0x0f else bit_and byte 0xf0 / 16 in
    decode_loop modulus n bytes (bit_or shifted nibble)
