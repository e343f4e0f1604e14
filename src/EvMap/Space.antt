-- ===== src/EvMap/Space.antt =====
-- evmap_make_space makes room for a descriptor and keeps all entries.
use swift_event.Base.{
  ℕ, zero, suc, ◌*◌, ◌^◌, ◌≤◌, ◌<◌, ◌≡◌, refl, sym, ap, subst, ◌∙◌, Bool, true, false, not, ◌||◌,
  none, ltb, leb, ◌==◌, if◌then◌else◌, Bool-cases, inl, inr, arith,
}
use native.Mathlib.Nat.{pow-suc, mul_assoc, mul_comm}
use swift_event.Events.{Events}
use swift_event.EvMap.{Eventop, double_entries, IoMap, make_space}
use swift_event.EvMap.Watch.{wanted, EntryCounted, IsWatched}

-- The rounds of the doubling are enough.
double_entries-lt : (fuel slot n : ℕ) → slot < n * 2 ^ fuel → slot < double_entries fuel slot n
unfolding double_entries
double_entries-lt zero slot n lt = omega (arith)
double_entries-lt (suc fuel) slot n lt = elim (Bool-cases (leb n slot)) [
  | inl small ↦
      let twice : n * 2 * 2 ^ fuel ≡ n * 2 ^ suc fuel =
        mul_assoc n 2 (2 ^ fuel) ∙ ap (λ k. n * k) (mul_comm 2 (2 ^ fuel) ∙ sym (pow-suc 2 fuel)) in
      rw small (double_entries-lt fuel slot (n * 2) (omega (arith, twice)))
  | inr large ↦ rw large (ground arith)
]

double_entries-le : (fuel slot n : ℕ) → n ≤ double_entries fuel slot n
unfolding double_entries
double_entries-le zero slot n = omega arith
double_entries-le (suc fuel) slot n = ground (arith, double_entries-le fuel slot (n * 2))

module _ (wants : ℕ → Events) (E : Eventop) where
  -- Room for `slot`, or no change.
  pub data Spaced (m : IoMap E) (slot : ℕ) : Bool × IoMap E → Type 0 where
    space :
        {m' : IoMap E}
        → IsWatched wants E m'
        → slot < m'.nentries
        → ((x : ℕ) → m'.entries x ≡ m.entries x)
        → Spaced m slot (true, m')
    no_space : Spaced m slot (false, m)

  Spaced-if :
      {m : IoMap E} {slot : ℕ} {x y : Bool × IoMap E} (t : Bool)
      → (t ≡ true → Spaced m slot x)
      → (t ≡ false → Spaced m slot y)
      → Spaced m slot (if t then x else y)
  Spaced-if true p q = p refl
  Spaced-if false p q = q refl

  module _ (m : IoMap E) (v : IsWatched wants E m) (n : ℕ) (larger : m.nentries ≤ n) where
    abbrev grown : IoMap E
    grown = record m { nentries = n; entries = λ i. if ltb i m.nentries then m.entries i else none }

    kept : (x : ℕ) → grown.entries x ≡ m.entries x
    kept x = elim (Bool-cases (ltb x m.nentries)) [
      | inl old ↦ rw old refl
      | inr new ↦ rw new (sym (v.inside x (ground arith)))
    ]

    grown-IsWatched : IsWatched wants E grown
    grown-IsWatched = record {
      counted = λ x. subst (EntryCounted wants) (sym (kept x)) (v.counted x);
      same = λ x. v.same x ∙ ap wanted (sym (kept x));
      inside = λ x out. kept x ∙ v.inside x (omega arith);
    }

  -- evmap_make_space either makes the table longer than `slot`, with all entries as before, or fails
  -- and changes nothing.
  pub make_space-Spaced :
      (m : IoMap E) (slot : ℕ) → IsWatched wants E m → Spaced m slot (make_space E m slot)
  unfolding make_space
  make_space-Spaced m slot v =
      let start : ℕ = if m.nentries == 0 then 32 else m.nentries in
      let n = double_entries 31 slot start in
      let le : m.nentries ≤ n = ground (arith, double_entries-le 31 slot start) in
      Spaced-if (not (leb m.nentries slot)) (λ there. space v (ground arith) (λ x. refl))
        λ short.
          Spaced-if (ltb 1073741823 slot || (ltb 268435455 n || not m.memory)) (λ refused. no_space)
            λ fits.
              space (grown-IsWatched m v n le) (double_entries-lt 31 slot start (ground arith))
                (kept m v n le)
