-- ===== src/MinHeap/Index.antt =====
-- The back pointers: every event of the heap knows its index, and no other event claims one.
use swift_event.Base.{
  ℕ, ◌≤◌, ◌<◌, ◌≡◌, ◌≢◌, ◌⊎◌, refl, Bool, true, false, arith, if◌then◌else◌, ◌==◌,
}
use swift_event.Base.Int.{ℤ, pos, negsuc}
use swift_event.MinHeap.{MinHeap, store}

-- The room that the indices need: an index is kept in an `int`.
abbrev pub max_n : ℕ
max_n = 1073741824

-- With a hole at `h` that waits for `e`. The event `g`, which may be `e`, is being taken out: its
-- index is stale.
pub record HasHole (s : MinHeap) (h e g : ℕ) : Type 0 where
  pub forth :
      (i : ℕ) → i < s.n → i ≢ h → (s.min_heap_idx (s.p i) ≡ pos i) × (s.p i ≢ e) × (s.p i ≢ g)
  pub back :
      (x k : ℕ) → x ≢ e → x ≢ g → s.min_heap_idx x ≡ pos k → (k < s.n) × (k ≢ h) × (s.p k ≡ x)

-- With `e` put in, and the index of `g` still stale where that is another event.
pub record IsFilled (s : MinHeap) (e g : ℕ) : Type 0 where
  pub forth : (i : ℕ) → i < s.n → s.min_heap_idx (s.p i) ≡ pos i
  pub apart : (i : ℕ) → e ≢ g → i < s.n → s.p i ≢ g
  pub back : (x k : ℕ) → (x ≢ g) ⊎ (x ≡ e) → s.min_heap_idx x ≡ pos k → (k < s.n) × (s.p k ≡ x)

pub record IsIndexed (s : MinHeap) : Type 0 where
  pub forth : (i : ℕ) → i < s.n → s.min_heap_idx (s.p i) ≡ pos i
  pub back : (x k : ℕ) → s.min_heap_idx x ≡ pos k → (k < s.n) × (s.p k ≡ x)

-- An event is in the heap when it has an index.
unfoldable pub has_index : ℤ → Bool
has_index (pos k) = true
has_index (negsuc k) = false

abbrev pub member : MinHeap → ℕ → Bool
member s x = has_index (s.min_heap_idx x)

pub store-n : (s : MinHeap) (h e : ℕ) → (store s h e).n ≡ s.n
unfolding store
store-n s h e = refl

pub store-a : (s : MinHeap) (h e : ℕ) → (store s h e).a ≡ s.a
unfolding store
store-a s h e = refl

module _ (s : MinHeap) (h e g j : ℕ) (hole : HasHole s h e g) (fits : s.n ≤ max_n) (lt : j < s.n)
    (ne : j ≢ h) (inside : h < s.n) where
  pub move-HasHole : HasHole (store s h (s.p j)) j e g
  unfolding store
  move-HasHole = record {
    forth = λ i p q. ground (arith, hole.forth i, hole.forth j);
    back = λ x k p q r. ground (arith, hole.back x k, hole.forth j);
  }

  pub member-move : (x : ℕ) → member (store s h (s.p j)) x ≡ member s x
  unfolding store has_index
  member-move x = ground (arith, hole.forth j)

module _ (s : MinHeap) (h e g : ℕ) (hole : HasHole s h e g) (fits : s.n ≤ max_n)
    (inside : h < s.n) where
  pub fill-IsFilled : IsFilled (store s h e) e g
  unfolding store
  fill-IsFilled = record {
    forth = λ i p. ground (arith, hole.forth i);
    apart = λ i p q. ground (arith, hole.forth i);
    back = λ x k p q. ground (arith, hole.back x k);
  }

  pub member-fill : (x : ℕ) → member (store s h e) x ≡ (if x == e then true else member s x)
  unfolding store has_index
  member-fill x = ground arith
