-- ===== src/Time/Tests.antt =====
-- Times on which the theorems of this part are used, and runs of the macros.
use swift_event.Base.{◌≡◌, refl, false, arith}
use swift_event.Base.Int.{pos, ◌+ℤ◌, ◌-ℤ◌}
use swift_event.Time.{Timeval, timercmp_gt, timeradd}
use swift_event.Time.Order.{IsNormal}

abbrev early : Timeval
early = record { tv_sec = pos 2; tv_usec = pos 600000 }

abbrev late : Timeval
late = record { tv_sec = pos 3; tv_usec = pos 500000 }

early-IsNormal : IsNormal early
early-IsNormal = record { lower = ground arith; upper = refl }

late-IsNormal : IsNormal late
late-IsNormal = record { lower = ground arith; upper = refl }

carried : timeradd early late ≡ record { tv_sec = pos 6; tv_usec = pos 100000 }
unfolding timeradd ◌+ℤ◌ ◌-ℤ◌
carried = refl

early_first : (timercmp_gt early late ≡ false) × (timercmp_gt early early ≡ false)
unfolding timercmp_gt
early_first = (refl, refl)
