-- ===== src/Base/Bits.antt =====
-- Laws of `bit_and` and `bit_or` at variables, for the masks and shifts of the C code.
use Prim.Native.Nat.{
  ℕ, zero, suc, ◌+◌, ◌*◌, ◌/◌, ◌%◌, ◌^◌, ◌≤◌, ◌<◌, min, max, bit_and, bit_or, digits,
  bit_and-bitwise, bit_or-bitwise,
}
use mathlib.Core.Path.{◌≡◌, refl, sym, ap, ◌∙◌}
use native.Mathlib.Nat.{pow-suc}
use native.Mathlib.Omega.{arith}

-- The recursion on binary digits of `bit_and` and `bit_or`, for what each does once the first number
-- has run out of digits, and with two digits.
module _ (past : ℕ → ℕ) (op : ℕ → ℕ → ℕ) where
  no_digits : (n b : ℕ) → digits past op n 0 b ≡ past b
  no_digits zero b = refl
  no_digits (suc n) b = refl

  -- Any two bounds that are large enough give the same.
  same_digits : (a n m b : ℕ) → a ≤ n → a ≤ m → digits past op n a b ≡ digits past op m a b
  same_digits zero n m b p q = no_digits n b ∙ sym (no_digits m b)
  same_digits (suc a) zero m b p q = absurd (omega arith)
  same_digits (suc a) (suc n) zero b p q = absurd (omega arith)
  same_digits (suc a) (suc n) (suc m) b p q =
      rw (same_digits (suc a / 2) n m (b / 2) (omega arith) (omega arith))

  last_digit :
      (f : ℕ → ℕ → ℕ)
      → ((a b : ℕ) → f a b ≡ digits past op a a b)
      → (a b : ℕ) → 0 < a
      → f a b ≡ f (a / 2) (b / 2) * 2 + op (a % 2) (b % 2)
  last_digit f law zero b some = absurd (omega arith)
  last_digit f law (suc a) b some =
      law (suc a) b
      ∙ ap (λ high. high * 2 + op (suc a % 2) (b % 2))
          (same_digits (suc a / 2) a (suc a / 2) (b / 2) (omega arith) (omega arith)
            ∙ sym (law (suc a / 2) (b / 2)))

bit_or_step : (x y : ℕ) → bit_or x y ≡ max (x % 2) (y % 2) + bit_or (x / 2) (y / 2) * 2
bit_or_step zero y = omega (arith, bit_or-bitwise 0 (y / 2), bit_or-bitwise 0 y)
bit_or_step (suc x) y =
    omega (arith, last_digit (λ z. z) max bit_or bit_or-bitwise (suc x) y (omega arith))

bit_and_step : (x y : ℕ) → bit_and x y ≡ min (x % 2) (y % 2) + bit_and (x / 2) (y / 2) * 2
bit_and_step zero y = omega (arith, bit_and-bitwise 0 (y / 2), bit_and-bitwise 0 y)
bit_and_step (suc x) y =
    omega (arith, last_digit (λ z. 0) min bit_and bit_and-bitwise (suc x) y (omega arith))

-- A mask takes nothing but bits of both numbers.
bit_and-le_within : (n x y : ℕ) → x ≤ n → (bit_and x y ≤ x) × (bit_and x y ≤ y)
bit_and-le_within n zero y h =
    (omega (arith, bit_and-bitwise 0 y), omega (arith, bit_and-bitwise 0 y))
bit_and-le_within zero (suc x) y h = absurd (omega (arith, h))
bit_and-le_within (suc n) (suc x) y h =
    let (left, right) = bit_and-le_within n (suc x / 2) (y / 2) (omega (arith, h)) in
    let step = bit_and_step (suc x) y in (omega (arith, step, left), omega (arith, step, right))

pub bit_and-le : (x y : ℕ) → (bit_and x y ≤ x) × (bit_and x y ≤ y)
bit_and-le x y = bit_and-le_within x x y (omega arith)

-- By halving: with no digits in the second number, `and` gives none and `or` gives all.
zero_operand : (n a : ℕ) → a ≤ n → (bit_and a 0 ≡ 0) × (bit_or a 0 ≡ a)
zero_operand n zero h = (refl, refl)
zero_operand zero (suc a) h = absurd (omega arith)
zero_operand (suc n) (suc a) h =
    let (ands, ors) = zero_operand n (suc a / 2) (omega arith) in
    (omega (arith, ands, bit_and_step (suc a) 0), omega (arith, ors, bit_or_step (suc a) 0))

bit_and-zero : (a : ℕ) → bit_and a 0 ≡ 0
bit_and-zero a = (zero_operand a a (omega arith)).0

bit_or-zero : (a : ℕ) → bit_or a 0 ≡ a
bit_or-zero a = (zero_operand a a (omega arith)).1

-- The masks of ones, and of ones with zeros behind them: each takes one digit off the next.
bit_and_0x01 : (a : ℕ) → bit_and a 0x01 ≡ a % 2
bit_and_0x01 a = omega (arith, bit_and-zero (a / 2), bit_and_step a 0x01)

bit_and_0x03 : (a : ℕ) → bit_and a 0x03 ≡ a % 4
bit_and_0x03 a = omega (arith, bit_and_0x01 (a / 2), bit_and_step a 0x03)

bit_and_0x07 : (a : ℕ) → bit_and a 0x07 ≡ a % 8
bit_and_0x07 a = omega (arith, bit_and_0x03 (a / 2), bit_and_step a 0x07)

pub bit_and_0x0f : (a : ℕ) → bit_and a 0x0f ≡ a % 16
bit_and_0x0f a = omega (arith, bit_and_0x07 (a / 2), bit_and_step a 0x0f)

pub bit_and_0x7f : (a : ℕ) → bit_and a 0x7f ≡ a % 128
bit_and_0x7f a = omega (
  arith,
  bit_and_step a 0x7f,
  bit_and_step (a / 2) 0x3f,
  bit_and_step (a / 2 / 2) 0x1f,
  bit_and_0x0f (a / 2 / 2 / 2),
)

bit_and_0x1e : (a : ℕ) → bit_and a 0x1e ≡ a / 2 % 16 * 2
bit_and_0x1e a = omega (arith, bit_and_step a 0x1e, bit_and_0x0f (a / 2))

bit_and_0x3c : (a : ℕ) → bit_and a 0x3c ≡ a / 4 % 16 * 4
bit_and_0x3c a = omega (arith, bit_and_step a 0x3c, bit_and_0x1e (a / 2))

bit_and_0x78 : (a : ℕ) → bit_and a 0x78 ≡ a / 8 % 16 * 8
bit_and_0x78 a = omega (arith, bit_and_step a 0x78, bit_and_0x3c (a / 2))

pub bit_and_0xf0 : (a : ℕ) → bit_and a 0xf0 ≡ a / 16 % 16 * 16
bit_and_0xf0 a = omega (arith, bit_and_step a 0xf0, bit_and_0x78 (a / 2))

bit_and_0x02 : (a : ℕ) → bit_and a 0x02 ≡ a / 2 % 2 * 2
bit_and_0x02 a = omega (arith, bit_and_step a 0x02, bit_and_0x01 (a / 2))

bit_and_0x04 : (a : ℕ) → bit_and a 0x04 ≡ a / 4 % 2 * 4
bit_and_0x04 a = omega (arith, bit_and_step a 0x04, bit_and_0x02 (a / 2))

bit_and_0x08 : (a : ℕ) → bit_and a 0x08 ≡ a / 8 % 2 * 8
bit_and_0x08 a = omega (arith, bit_and_step a 0x08, bit_and_0x04 (a / 2))

bit_and_0x10 : (a : ℕ) → bit_and a 0x10 ≡ a / 16 % 2 * 16
bit_and_0x10 a = omega (arith, bit_and_step a 0x10, bit_and_0x08 (a / 2))

bit_and_0x20 : (a : ℕ) → bit_and a 0x20 ≡ a / 32 % 2 * 32
bit_and_0x20 a = omega (arith, bit_and_step a 0x20, bit_and_0x10 (a / 2))

bit_and_0x40 : (a : ℕ) → bit_and a 0x40 ≡ a / 64 % 2 * 64
bit_and_0x40 a = omega (arith, bit_and_step a 0x40, bit_and_0x20 (a / 2))

pub bit_and_0x80 : (a : ℕ) → bit_and a 0x80 ≡ a / 128 % 2 * 128
bit_and_0x80 a = omega (arith, bit_and_step a 0x80, bit_and_0x40 (a / 2))

halved : (hi p : ℕ) → hi * (p * 2) / 2 ≡ hi * p
halved hi p = omega arith

-- Fields that do not overlap add up.
pub bit_or-disjoint : (k lo hi : ℕ) → lo < 2 ^ k → bit_or lo (hi * 2 ^ k) ≡ lo + hi * 2 ^ k
bit_or-disjoint zero zero hi h = omega (arith, bit_or-bitwise 0 (hi * 1))
bit_or-disjoint zero (suc lo) hi h = absurd (omega arith)
bit_or-disjoint (suc k) lo hi h =
    let small : lo / 2 < 2 ^ k = omega (arith, pow-suc 2 k) in
    let ih = bit_or-disjoint k (lo / 2) hi small in
    rw pow-suc (
      omega
        (arith, bit_or_step lo (hi * (2 ^ k * 2)), ap (bit_or (lo / 2)) (halved hi (2 ^ k)) ∙ ih))

pub disjoint-bit_or : (k hi lo : ℕ) → lo < 2 ^ k → bit_or (hi * 2 ^ k) lo ≡ hi * 2 ^ k + lo
disjoint-bit_or zero hi zero h = omega (arith, bit_or-zero (hi * 1))
disjoint-bit_or zero hi (suc lo) h = absurd (omega arith)
disjoint-bit_or (suc k) hi lo h =
    let small : lo / 2 < 2 ^ k = omega (arith, pow-suc 2 k) in
    let ih = disjoint-bit_or k hi (lo / 2) small in
    rw pow-suc (
      omega (
        arith,
        bit_or_step (hi * (2 ^ k * 2)) lo,
        ap (λ (t : ℕ). bit_or t (lo / 2)) (halved hi (2 ^ k)) ∙ ih,
      ))
