-- ===== src/Tagging/Tests.antt =====
-- A buffer on which the theorems of this part are used, and runs of the codings.
use swift_event.Base.{false, some, ◌≡◌, refl, true, inl, arith, [], ◌∷◌, ◌++◌, length}
use swift_event.Buffer.{Buffer, new}
use swift_event.Buffer.Valid.{contents}
use swift_event.ByteBuffer.Evbuffer.{evbuffer, IsOpen}
use swift_event.Tagging.{encode_int, encode_int64, encode_internal, encode_loop}
use swift_event.Tagging.Integers.{decoded, evtag_decode_int, evtag_decode_int64}
use swift_event.Tagging.Tags.{tag_bytes, encode_tag, decode_tag_internal}
use swift_event.Tagging.TagBuffer.{decode_tag-encode_tag}
use swift_event.Tagging.RoundTrip.{decode_int-encode_int, decode_int64-encode_int64}

-- 300 is 0x12c, and its lowest nibble comes first.
encode_300 : (encode_int 300 ≡ 0x2c ∷ 0x21 ∷ []) × (encode_int64 300 ≡ 0x2c ∷ 0x21 ∷ [])
unfolding encode_int encode_int64 encode_internal encode_loop
encode_300 = (refl, refl)

abbrev two_chains : Buffer
two_chains = record (new true) {
  before = record { buffer_len = 1; misalign = 0; bytes = 0x2c ∷ []; is_immutable = true } ∷ [];
  rest = record { buffer_len = 2; misalign = 0; bytes = 0x21 ∷ 9 ∷ []; is_immutable = true } ∷ [];
  total_len = 3;
}

two_chains-IsOpen : IsOpen two_chains
two_chains-IsOpen = record {
  valid = record {
    counted = refl;
    small = omega arith;
    before_fits = ((omega arith, omega arith), tt);
    rest_fits = ((omega arith, omega arith), tt);
    last = (tt, inl (omega arith));
  };
  start = refl;
  end = refl;
  memory = refl;
}

decode_int-encode_int_example :
    let (r, b) = evtag_decode_int evbuffer two_chains in
    (r ≡ decoded 300 (length (encode_int 300))) × IsOpen b × (contents b ≡ 9 ∷ [])
decode_int-encode_int_example =
    decode_int-encode_int evbuffer two_chains 300 (9 ∷ []) two_chains-IsOpen (omega arith) held
  where
    held : contents two_chains ≡ encode_int 300 ++ 9 ∷ []
    held = rw encode_300.0 refl

decode_int64-encode_int64_example :
    let (r, b) = evtag_decode_int64 evbuffer two_chains in
    (r ≡ decoded 300 (length (encode_int64 300))) × IsOpen b × (contents b ≡ 9 ∷ [])
decode_int64-encode_int64_example =
    decode_int64-encode_int64 evbuffer two_chains 300 (9 ∷ []) two_chains-IsOpen (omega arith) held
  where
    held : contents two_chains ≡ encode_int64 300 ++ 9 ∷ []
    held = rw encode_300.1 refl

-- 0x166 has two groups of seven bits.
encode_0x166 : encode_tag 0x166 ≡ 0xe6 ∷ 0x02 ∷ []
unfolding tag_bytes
encode_0x166 = refl

abbrev tagged : Buffer
tagged = record (new true) {
  rest =
      record { buffer_len = 8; misalign = 5; bytes = 0xe6 ∷ 0x02 ∷ 9 ∷ []; is_immutable = false }
      ∷ [];
  total_len = 3;
}

tagged-IsOpen : IsOpen tagged
tagged-IsOpen = record {
  valid = record {
    counted = refl;
    small = omega arith;
    before_fits = tt;
    rest_fits = ((omega arith, omega arith), tt);
    last = (tt, inl (omega arith));
  };
  start = refl;
  end = refl;
  memory = refl;
}

decode_tag-encode_tag_example :
    let (r, b) = decode_tag_internal evbuffer true tagged in
    (r ≡ some (length (encode_tag 0x166), 0x166)) × IsOpen b × (contents b ≡ 9 ∷ [])
decode_tag-encode_tag_example =
    decode_tag-encode_tag evbuffer tagged 0x166 (9 ∷ []) true (omega arith) held tagged-IsOpen
  where
    held : contents tagged ≡ encode_tag 0x166 ++ 9 ∷ []
    held = rw encode_0x166 refl
