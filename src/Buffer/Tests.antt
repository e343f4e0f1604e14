-- ===== src/Buffer/Tests.antt =====
-- Buffers on which the theorems of this part are used, and runs of the operations.
use swift_event.Base.{ℕ, ◌≡◌, refl, true, false, inl, arith, List, [], ◌∷◌, some}
use swift_event.Base.Int.{pos}
use swift_event.Buffer.{Chain, Buffer, new, chain_new, allocation, double_until}
use swift_event.Buffer.Write.{add}
use swift_event.Buffer.Read.{drain, remove}
use swift_event.Buffer.Pull.{pullup, pullup_size}
use swift_event.Buffer.Valid.{IsValid}
use swift_event.Buffer.Add.{Added, add-Added}
use swift_event.Buffer.AddSucceeds.{add_succeeds}
use swift_event.Buffer.Drain.{Drained, drain-Drained}
use swift_event.Buffer.Taken.{Taken, remove-Taken}
use swift_event.Buffer.Pullup.{Pulled, pullup-Pulled}

abbrev chain_of : ℕ → List ℕ → Chain
chain_of at xs = record { buffer_len = 4048; misalign = at; bytes = xs; is_immutable = false }

-- Two chains with data and an empty one.
abbrev five_bytes : Buffer
five_bytes = record (new true) {
  before = chain_of 7 (1 ∷ 2 ∷ []) ∷ [];
  rest = chain_of 0 (3 ∷ 4 ∷ 5 ∷ []) ∷ chain_of 0 [] ∷ [];
  total_len = 5;
}

five_bytes-IsValid : IsValid five_bytes
five_bytes-IsValid = record {
  counted = refl;
  small = omega arith;
  before_fits = ((omega arith, omega arith), tt);
  rest_fits = ((omega arith, omega arith), ((omega arith, omega arith), tt));
  last = ((refl, tt), inl (omega arith));
}

add-Added_example : Added five_bytes (6 ∷ 7 ∷ []) (add five_bytes (6 ∷ 7 ∷ []))
add-Added_example = add-Added five_bytes (6 ∷ 7 ∷ []) five_bytes-IsValid

add_succeeds_example : (add five_bytes (6 ∷ 7 ∷ [])).0 ≡ pos 0
add_succeeds_example =
    add_succeeds five_bytes (6 ∷ 7 ∷ []) five_bytes-IsValid refl refl (omega arith) (omega arith)

drain-Drained_example : Drained five_bytes 3 (drain five_bytes 3)
drain-Drained_example = drain-Drained five_bytes 3 five_bytes-IsValid refl

remove-Taken_example : Taken five_bytes 4 (remove five_bytes 4)
remove-Taken_example = remove-Taken five_bytes 4 five_bytes-IsValid refl

pullup-Pulled_example :
    Pulled five_bytes (pullup_size five_bytes (pos 4)) (pullup five_bytes (pos 4))
pullup-Pulled_example = pullup-Pulled five_bytes (pos 4) five_bytes-IsValid

made : chain_new true 3000 ≡ some (chain_of 0 [])
unfolding chain_new allocation double_until
made = refl
