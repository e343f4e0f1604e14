-- ===== src/Base/Queues.antt =====
-- Linked lists of numbered objects, as TAILQ and LIST keep them, and sums over numbered objects.
use swift_event.Base.Tests.{◌==◌, if◌then◌else◌, ==_iff, Bool-cases}
use swift_event.Base.Lists.{length}
use Prim.Native.Nat.{ℕ, zero, suc, ◌+◌, ◌<◌}
use mathlib.Core.Path.{◌≡◌, refl, ap}
use mathlib.Core.Logic.{◌≢◌, inl, inr}
use mathlib.Core.Bool.{Bool}
use mathlib.Core.List.{List, [], ◌∷◌, ◌++◌}
use native.Mathlib.Omega.{arith}

abbrev pub to_ℕ : Bool → ℕ
to_ℕ b = if b then 1 else 0

-- How often an object stands in a list
abbrev pub occurs : ℕ → List ℕ → ℕ
occurs x [] = 0
occurs x (y ∷ ys) = to_ℕ (x == y) + occurs x ys

-- How many objects of a list have a property
abbrev pub tally : (ℕ → Bool) → List ℕ → ℕ
tally f [] = 0
tally f (x ∷ xs) = to_ℕ (f x) + tally f xs

-- TAILQ_REMOVE and LIST_REMOVE
unfoldable pub remove_first : ℕ → List ℕ → List ℕ
remove_first x [] = []
remove_first x (y ∷ ys) = if x == y then ys else y ∷ remove_first x ys

pub occurs-append : (x : ℕ) (xs ys : List ℕ) → occurs x (xs ++ ys) ≡ occurs x xs + occurs x ys
occurs-append x [] ys = omega arith
occurs-append x (z ∷ xs) ys = omega (arith, occurs-append x xs ys)

pub occurs-remove_first :
    (x y : ℕ) (ys : List ℕ)
    → 0 < occurs x ys
    → occurs y (remove_first x ys) + to_ℕ (y == x) ≡ occurs y ys
unfolding remove_first
occurs-remove_first x y [] some = absurd (omega arith)
occurs-remove_first x y (z ∷ ys) some = ground (arith, occurs-remove_first x y ys)

pub length-remove_first :
    (x : ℕ) (ys : List ℕ) → 0 < occurs x ys → length (remove_first x ys) + 1 ≡ length ys
unfolding remove_first
length-remove_first x [] some = absurd (omega arith)
length-remove_first x (z ∷ ys) some = ground (arith, length-remove_first x ys)

pub tally-remove_first :
    (f : ℕ → Bool) (x : ℕ) (ys : List ℕ)
    → 0 < occurs x ys
    → tally f (remove_first x ys) + to_ℕ (f x) ≡ tally f ys
unfolding remove_first
tally-remove_first f x [] some = absurd (omega arith)
tally-remove_first f x (z ∷ ys) some = ground (arith, tally-remove_first f x ys)

-- The sum of a number that each of the objects 0 to n - 1 has
abbrev pub total : (ℕ → ℕ) → ℕ → ℕ
total f zero = 0
total f (suc n) = total f n + f n

total-same : (f g : ℕ → ℕ) (n : ℕ) → ((i : ℕ) → i < n → g i ≡ f i) → total g n ≡ total f n
total-same f g zero same = refl
total-same f g (suc n) same =
    omega (arith, same n (omega arith), total-same f g n (λ i lt. same i (omega arith)))

-- One object changes.
pub total-change :
    (f g : ℕ → ℕ) (k n : ℕ)
    → k < n
    → ((i : ℕ) → i ≢ k → g i ≡ f i)
    → total g n + f k ≡ total f n + g k
total-change f g k zero lt same = absurd (omega arith)
total-change f g k (suc n) lt same = elim (Bool-cases (k == n)) [
  | inl last ↦
      let at : k ≡ n = (==_iff k n).0 last in
      omega
        (arith, ap f at, ap g at, total-same f g n (λ i less. same i (λ e. omega (arith, e, at))))
  | inr earlier ↦
      let ne : n ≢ k = λ e. ground (arith, e) in
      omega (arith, same n ne, total-change f g k n (ground arith) same)
]

-- What a removal and an addition at the end do to how often the object itself stands there, and others
pub taken_self :
    (x : ℕ) (ys : List ℕ) → 0 < occurs x ys → occurs x (remove_first x ys) + 1 ≡ occurs x ys
taken_self x ys there = ground (arith, occurs-remove_first x x ys there)

pub taken_other :
    (x y : ℕ) (ys : List ℕ) → 0 < occurs x ys → y ≢ x → occurs y (remove_first x ys) ≡ occurs y ys
taken_other x y ys there ne = ground (arith, occurs-remove_first x y ys there, ne)

pub put_self : (x : ℕ) (ys : List ℕ) → occurs x (ys ++ x ∷ []) ≡ occurs x ys + 1
put_self x ys = ground (arith, occurs-append x ys (x ∷ []))

pub put_other : (x y : ℕ) (ys : List ℕ) → y ≢ x → occurs y (ys ++ x ∷ []) ≡ occurs y ys
put_other x y ys ne = ground (arith, occurs-append y ys (x ∷ []), ne)

pub total-zero : (f : ℕ → ℕ) (n : ℕ) → ((i : ℕ) → f i ≡ 0) → total f n ≡ 0
total-zero f zero none = refl
total-zero f (suc n) none = omega (arith, none n, total-zero f n none)
