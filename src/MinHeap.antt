-- ===== src/MinHeap.antt =====
-- The timer heap of Sources/libevent/src/minheap-internal.h: an array of event pointers ordered by
-- `ev_timeout`, where each event records its index in the array.
pub mod Index
pub mod Order
pub mod Up
pub mod Down
pub mod Ops
pub mod Remove
mod Tests
use swift_event.Base.{
  ℕ, zero, suc, ◌+◌, ◌-◌, ◌*◌, ◌/◌, ◌%◌, ◌^◌, Bool, true, false, ◌&&◌, ◌||◌, not, Option, none,
  some, ltb, leb, ◌==◌, if◌then◌else◌, update,
}
use swift_event.Base.Int.{ℤ, pos, negsuc, pos_part, eqb_ℤ, ltb_ℤ}
use swift_event.Time.{Timeval, timercmp_gt}

-- `unsigned` arithmetic, and the conversion of an `unsigned` to an `int`.
abbrev pub u32 : ℕ → ℕ
u32 x = x % 4294967296

abbrev pub uint32_max : ℕ
uint32_max = 4294967295

abbrev pub int_of_u32 : ℕ → ℤ
int_of_u32 x = if ltb x 2147483648 then pos x else negsuc (4294967295 - x)

abbrev pub u32_of_int : ℤ → ℕ
u32_of_int (pos x) = x
u32_of_int (negsuc x) = 4294967295 - x

-- `min_heap_t`, with `ev_timeout_pos.min_heap_idx` of every event. An event pointer is a number, and
-- `p` is the memory that `s->p` points to.
pub record MinHeap : Type 0 where
  pub p : ℕ → ℕ
  pub n : ℕ
  pub a : ℕ
  pub min_heap_idx : ℕ → ℤ

-- `(hole_index - 1) / 2` on `unsigned`
abbrev pub parent : ℕ → ℕ
parent i = u32 (i + 4294967295) / 2

-- `(s->p[i] = e)->ev_timeout_pos.min_heap_idx = i`
unfoldable pub store : MinHeap → ℕ → ℕ → MinHeap
store s i e = record s { p = update s.p i e; min_heap_idx = update s.min_heap_idx e (int_of_u32 i) }

-- min_heap_ctor_: the memory that `s->p` does not yet point to, and the indices of events, are
-- what they were.
unfoldable pub ctor : (ℕ → ℕ) → (ℕ → ℤ) → MinHeap
ctor memory indices = record { p = memory; n = 0; a = 0; min_heap_idx = indices }

unfoldable pub elem_init : MinHeap → ℕ → MinHeap
elem_init s e = record s { min_heap_idx = update s.min_heap_idx e (negsuc 0) }

unfoldable pub elt_is_top : MinHeap → ℕ → Bool
elt_is_top s e = eqb_ℤ (s.min_heap_idx e) (pos 0)

unfoldable pub empty : MinHeap → Bool
empty s = s.n == 0

unfoldable pub size : MinHeap → ℕ
size s = s.n

unfoldable pub top : MinHeap → Option ℕ
top s = if s.n == 0 then none else some (s.p 0)

abbrev grown : ℕ → ℕ → ℕ
grown old n = let a = if old == 0 then 8 else u32 (old * 2) in if ltb a n then n else a

-- `mem` tells whether mm_realloc succeeds; the result is 0 or -1.
unfoldable pub reserve : Bool → MinHeap → ℕ → ℤ × MinHeap
reserve mem s n =
    if ltb s.a n
    then (if mem then (pos 0, record s { a = grown s.a n }) else (negsuc 0, s))
    else (pos 0, s)

module _ (ev_timeout : ℕ → Timeval) where
  unfoldable pub elem_greater : ℕ → ℕ → Bool
  elem_greater x y = timercmp_gt (ev_timeout x) (ev_timeout y)

  -- The hole moves to a smaller index in each round, so `hole_index` rounds are enough.
  unfoldable pub shift_up_loop : ℕ → MinHeap → ℕ → ℕ → MinHeap
  shift_up_loop zero s hole e = store s hole e
  shift_up_loop (suc fuel) s hole e =
      let rest = shift_up_loop fuel (store s hole (s.p (parent hole))) (parent hole) e in
      if not (hole == 0) && elem_greater (s.p (parent hole)) e then rest else store s hole e

  unfoldable pub shift_up : MinHeap → ℕ → ℕ → MinHeap
  shift_up s hole e = shift_up_loop hole s hole e

  -- The `do` loop makes its first round without a test, and then is the loop of `shift_up`.
  unfoldable pub shift_up_unconditional : MinHeap → ℕ → ℕ → MinHeap
  shift_up_unconditional s hole e = shift_up (store s hole (s.p (parent hole))) (parent hole) e

  abbrev pub smaller_child : MinHeap → ℕ → ℕ
  smaller_child s min_child =
      if min_child == s.n || elem_greater (s.p min_child) (s.p (min_child - 1))
      then min_child - 1
      else min_child

  -- The hole moves to a larger index below `n` in each round.
  unfoldable pub shift_down_loop : ℕ → MinHeap → ℕ → ℕ → MinHeap
  shift_down_loop zero s hole e = store s hole e
  shift_down_loop (suc fuel) s hole e =
      let min_child = u32 (2 * (hole + 1)) in
      let c = smaller_child s min_child in
      let rest = shift_down_loop fuel (store s hole (s.p c)) c e in
      if leb min_child s.n && elem_greater e (s.p c) then rest else store s hole e

  unfoldable pub shift_down : MinHeap → ℕ → ℕ → MinHeap
  shift_down s hole e = shift_down_loop s.n s hole e

  unfoldable pub push : Bool → MinHeap → ℕ → ℤ × MinHeap
  push mem s e = if s.n == uint32_max then (negsuc 0, s) else add (reserve mem s (s.n + 1))
    where
      add : ℤ × MinHeap → ℤ × MinHeap
      add (r, s') =
          if eqb_ℤ r (pos 0)
          then (pos 0, shift_up (record s' { n = s'.n + 1 }) s'.n e)
          else (negsuc 0, s')

  unfoldable pub pop : MinHeap → Option ℕ × MinHeap
  pop s =
      let e = s.p 0 in
      let s' =
        shift_down (record s { n = u32 (s.n + 4294967295) }) 0 (s.p (u32 (s.n + 4294967295))) in
      if s.n == 0 then (none, s) else (some e, elem_init s' e)

  -- The part that `erase` and `adjust` share: `e` goes into the hole at the index `i`, and moves
  -- up or down from there.
  unfoldable pub shift : MinHeap → ℤ → ℕ → MinHeap
  shift s i e =
      if ltb_ℤ (pos 0) i && elem_greater (s.p ((pos_part i - 1) / 2)) e
      then shift_up_unconditional s (u32_of_int i) e
      else shift_down s (u32_of_int i) e

  unfoldable pub erase : MinHeap → ℕ → ℤ × MinHeap
  erase s e =
      let i = s.min_heap_idx e in
      let s' = record s { n = u32 (s.n + 4294967295) } in
      if eqb_ℤ i (negsuc 0) then (negsuc 0, s) else (pos 0, elem_init (shift s' i (s.p s'.n)) e)

  unfoldable pub adjust : Bool → MinHeap → ℕ → ℤ × MinHeap
  adjust mem s e =
      let i = s.min_heap_idx e in if eqb_ℤ i (negsuc 0) then push mem s e else (pos 0, shift s i e)
