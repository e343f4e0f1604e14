-- ===== src/ByteBuffer.antt =====
-- The evbuffer as its clients use it: a string of bytes with operations at its two ends. The other
-- files of Sources/libevent/src see an evbuffer through the functions of event2/buffer.h only.
pub mod Evbuffer
use swift_event.Base.{ℕ, ◌+◌, ◌-◌, ◌≤◌, ◌<◌, ◌≡◌, Option, some, List, ◌++◌, length, take, drop}
use swift_event.Base.Int.{ℤ, pos}
use swift_event.Buffer.{size_max, chain_max, chain_size}

-- `IsGood` says that the buffer is intact, not frozen, and that memory is left.
pub record ByteBuffer : Type 1 where
  pub Buf : Type 0
  pub IsGood : Buf → Type 0
  pub bytes : Buf → List ℕ
  pub get_length : Buf → ℕ
  pub add : Buf → List ℕ → ℤ × Buf
  pub drain : Buf → ℕ → ℤ × Buf
  pub pullup : Buf → ℤ → Option (List ℕ) × Buf
  pub get_length_lem : (b : Buf) → IsGood b → get_length b ≡ length (bytes b)
  pub add_lem :
      (b : Buf) (xs : List ℕ)
      → IsGood b
      → length (bytes b) + length xs ≤ size_max
      → length xs ≤ chain_max - chain_size
      → ((add b xs).0 ≡ pos 0) × IsGood (add b xs).1 × (bytes (add b xs).1 ≡ bytes b ++ xs)
  pub drain_lem :
      (b : Buf) (n : ℕ)
      → IsGood b
      → ((drain b n).0 ≡ pos 0) × IsGood (drain b n).1 × (bytes (drain b n).1 ≡ drop n (bytes b))
  pub pullup_lem :
      (b : Buf) (n : ℕ)
      → IsGood b
      → 0 < n
      → n ≤ length (bytes b)
      → n ≤ chain_max - chain_size
      → ((pullup b (pos n)).0 ≡ some (take n (bytes b)))
        × IsGood (pullup b (pos n)).1
        × (bytes (pullup b (pos n)).1 ≡ bytes b)
