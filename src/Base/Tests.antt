-- ===== src/Base/Tests.antt =====
-- Boolean tests on the native numbers, the conditional, and stores that map numbers to values.
use Prim.Native.Nat.{ℕ, ◌≤◌, ◌<◌, compare, Ordering}
use mathlib.Core.Path.{◌≡◌, refl, sym, subst}
use mathlib.Core.Logic.{◌↔◌, ◌⊎◌, inl, inr}
use mathlib.Core.Bool.{Bool, true, false}
use mathlib.Core.Option.{Option, none, some}
use native.Mathlib.Omega.{arith}

abbrev pub ltb : ℕ → ℕ → Bool
ltb a b = elim (compare a b) [ Ordering.lt ↦ true | _ ↦ false ]

abbrev pub leb : ℕ → ℕ → Bool
leb a b = elim (compare a b) [ Ordering.gt ↦ false | _ ↦ true ]

infix 50 ◌==◌
abbrev pub ◌==◌ : ℕ → ℕ → Bool
a == b = elim (compare a b) [ Ordering.eq ↦ true | _ ↦ false ]

infix 1 if◌then◌else◌
abbrev pub if◌then◌else◌ {ℓ} : {A : Type ℓ} → Bool → A → A → A
if true then x else y = x
if false then x else y = y

ltb→lt : (a b : ℕ) → ltb a b ≡ true → a < b
ltb→lt a b h = ground arith

leb→le : (a b : ℕ) → leb a b ≡ true → a ≤ b
leb→le a b h = ground arith

pub ==_iff : (a b : ℕ) → ((a == b) ≡ true) ↔ (a ≡ b)
==_iff a b = ground arith

pub Bool-cases : (b : Bool) → (b ≡ true) ⊎ (b ≡ false)
Bool-cases true = inl refl
Bool-cases false = inr refl

pub Option-cases {ℓ} : {A : Type ℓ} (o : Option A) → (o ≡ none) ⊎ ((a : A) × (o ≡ some a))
Option-cases none = inl refl
Option-cases (some a) = inr (a, refl)

-- `s[k] = v` on memory that is read by a number.
abbrev pub update {ℓ} : {A : Type ℓ} → (ℕ → A) → ℕ → A → ℕ → A
update s k v j = if j == k then v else s j

module _ {ℓ} {A : Type ℓ} {t : Bool} (x y : A) where
  pub if_true : t ≡ true → (if t then x else y) ≡ x
  if_true h = rw h

  pub if_false : t ≡ false → (if t then x else y) ≡ y
  if_false h = rw h

-- What holds of both branches holds of the conditional.
pub by_if {ℓ ℓ'} :
    {A : Type ℓ} (P : A → Type ℓ') {x y : A} (t : Bool)
    → (t ≡ true → P x)
    → (t ≡ false → P y)
    → P (if t then x else y)
by_if P true p q = p refl
by_if P false p q = q refl

module _ {ℓ} {A : Type ℓ} (s : ℕ → A) (k : ℕ) (v : A) where
  pub update_at : update s k v k ≡ v
  update_at = if_true v (s k) ((==_iff k k).1 refl)

  pub update_other : (x : ℕ) → (x ≡ k → ⊥) → update s k v x ≡ s x
  update_other x ne = elim (Bool-cases (x == k)) [
    | inl at ↦ absurd (ne ((==_iff x k).0 at))
    | inr off ↦ if_false v (s x) off
  ]

  -- What relates the old value to the new one, and each value to itself, relates all the entries.
  pub update_all {ℓ'} :
      (P : A → A → Type ℓ') → ((a : A) → P a a) → P (s k) v → (x : ℕ) → P (s x) (update s k v x)
  update_all P same new x = elim (Bool-cases (x == k)) [
    | inl at ↦ rw at (subst (λ y. P (s y) v) (sym ((==_iff x k).0 at)) new)
    | inr off ↦ rw off (same (s x))
  ]

  pub update_map {ℓ'} :
      {B : Type ℓ'} (g : A → B) (x : ℕ) → g (update s k v x) ≡ update (λ i. g (s i)) k (g v) x
  update_map g x = elim (Bool-cases (x == k)) [ inl at ↦ rw at refl | inr off ↦ rw off refl ]
