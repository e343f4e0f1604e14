-- ===== src/MinHeap/Tests.antt =====
-- A timer heap on which the theorems of this part are used, and runs of its operations.
use swift_event.Base.{ℕ, ◌<◌, ◌≡◌, ◌+◌, refl, true, false, some, arith, ◌==◌, if◌then◌else◌}
use swift_event.Base.Int.{pos, negsuc}
use swift_event.Time.{Timeval, timercmp_gt}
use swift_event.MinHeap.{
  MinHeap, elem_greater, store, ctor, reserve, push, pop, erase, top, shift_up, shift_up_loop,
}
use swift_event.MinHeap.Index.{max_n, member, has_index}
use swift_event.MinHeap.Order.{IsHeap}
use swift_event.MinHeap.Ops.{ctor-IsHeap, push-IsHeap}
use swift_event.MinHeap.Remove.{Removed, pop-Removed, erase-Removed}

-- The event `x` times out at `x` seconds.
abbrev at_second : ℕ → Timeval
at_second x = record { tv_sec = pos x; tv_usec = pos 0 }

abbrev nothing : MinHeap
nothing = ctor (λ i. 0) (λ x. negsuc 0)

abbrev only_seven : MinHeap
only_seven = (push at_second true nothing 7).1

abbrev three_seven : MinHeap
three_seven = (push at_second true only_seven 3).1

nothing-IsHeap : IsHeap at_second nothing
nothing-IsHeap = ctor-IsHeap at_second (λ i. 0)

nothing_full : nothing.a < nothing.n + 1
unfolding ctor
nothing_full = omega arith

room_for_seven : (nothing.n < max_n) × (member nothing 7 ≡ false)
unfolding ctor has_index
room_for_seven = (omega arith, refl)

only_seven-IsHeap : IsHeap at_second only_seven
only_seven-IsHeap =
    (push-IsHeap at_second nothing 7 nothing-IsHeap room_for_seven.0 room_for_seven.1).1

room_for_three : (only_seven.n < max_n) × (member only_seven 3 ≡ false)
unfolding ctor push reserve shift_up shift_up_loop elem_greater store has_index timercmp_gt
room_for_three = (omega arith, refl)

three_seven_pushed :
    let (r, s) = push at_second true only_seven 3 in
    (r ≡ pos 0)
    × IsHeap at_second s
    × ((x : ℕ) → member s x ≡ (if x == 3 then true else member only_seven x))
    × (s.n ≡ only_seven.n + 1)
three_seven_pushed =
    push-IsHeap at_second only_seven 3 only_seven-IsHeap room_for_three.0 room_for_three.1

three_seven-IsHeap : IsHeap at_second three_seven
three_seven-IsHeap = three_seven_pushed.1

-- The event pushed last expires first, so it has moved to the top.
three_first :
    (three_seven.n ≡ 2)
    × (top three_seven ≡ some 3)
    × (member three_seven 3 ≡ true)
    × (member three_seven 7 ≡ true)
unfolding ctor push reserve shift_up shift_up_loop elem_greater store has_index timercmp_gt top
three_first = (refl, refl, refl, refl)

pop-Removed_example :
    let (r, s) = pop at_second three_seven in
    (r ≡ top three_seven) × Removed at_second three_seven (three_seven.p 0) s
pop-Removed_example =
    pop-Removed at_second three_seven three_seven-IsHeap (omega (arith, three_first.0))

erase-Removed_example :
    let (r, s) = erase at_second three_seven 7 in (r ≡ pos 0) × Removed at_second three_seven 7 s
erase-Removed_example = erase-Removed at_second three_seven 7 three_seven-IsHeap three_first.3
