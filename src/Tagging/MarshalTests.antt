-- ===== src/Tagging/MarshalTests.antt =====
-- Buffers on which the theorems of whole tagged values are used.
use swift_event.Base.{◌≡◌, refl, true, false, some, inl, arith, [], ◌∷◌, ◌++◌, length, List, ℕ}
use swift_event.Base.Int.{pos}
use swift_event.Buffer.{Buffer, new}
use swift_event.Buffer.Valid.{contents}
use swift_event.ByteBuffer.Evbuffer.{evbuffer, IsOpen}
use swift_event.Tagging.{encode_int, encode_internal, encode_loop}
use swift_event.Tagging.Tags.{tag_bytes}
use swift_event.Tagging.Marshal.{evtag_marshal_int, evtag_unmarshal_header, evtag_unmarshal_int}
use swift_event.Tagging.MarshalRoundTrip.{marshalled, unmarshal_header-marshalled}
use swift_event.Tagging.IntRoundTrip.{unmarshal_int-marshal_int}

abbrev nothing : Buffer
nothing = new true

nothing-IsOpen : IsOpen nothing
nothing-IsOpen = record {
  valid = record {
    counted = refl;
    small = omega arith;
    before_fits = tt;
    rest_fits = tt;
    last = refl;
  };
  start = refl;
  end = refl;
  memory = refl;
}

unmarshal_int-marshal_int_example :
    let (r, b) = evtag_unmarshal_int evbuffer (evtag_marshal_int evbuffer nothing 7 300) 7 in
    (r ≡ some (length (encode_int 300), 300)) × IsOpen b × (contents b ≡ [])
unmarshal_int-marshal_int_example =
    unmarshal_int-marshal_int evbuffer nothing 7 300 nothing-IsOpen refl (omega arith) (omega arith)

-- The tag 7, the length 2, two bytes, and one more.
abbrev value_and_more : Buffer
value_and_more = record (new true) {
  rest =
      record {
        buffer_len = 1000;
        misalign = 0;
        bytes = 7 ∷ 2 ∷ 1 ∷ 2 ∷ 9 ∷ [];
        is_immutable = false;
      }
      ∷ [];
  total_len = 5;
}

value_and_more-IsOpen : IsOpen value_and_more
value_and_more-IsOpen = record {
  valid = record {
    counted = refl;
    small = omega arith;
    before_fits = tt;
    rest_fits = ((omega arith, omega arith), tt);
    last = (tt, inl (omega arith));
  };
  start = refl;
  end = refl;
  memory = refl;
}

abbrev value : List ℕ
value = 1 ∷ 2 ∷ []

held : contents value_and_more ≡ marshalled 7 value ++ 9 ∷ []
unfolding tag_bytes encode_int encode_internal encode_loop
held = refl

unmarshal_header-marshalled_example :
    let (r, b) = evtag_unmarshal_header evbuffer value_and_more in
    (r ≡ some (7, pos (length value))) × IsOpen b × (contents b ≡ value ++ 9 ∷ [])
unmarshal_header-marshalled_example =
    unmarshal_header-marshalled evbuffer value_and_more 7 value (9 ∷ []) value_and_more-IsOpen
      (omega arith) (omega arith) held
