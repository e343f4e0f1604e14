-- ===== src/Time/Order.antt =====
-- The comparison of times is a total order, and `timersub` undoes `timeradd`.
use swift_event.Base.{◌≡◌, true, false, arith}
use swift_event.Base.Int.{ℤ, pos, ltb_ℤ, ◌≤ℤ◌, int_laws, +ℤ_parts, -ℤ_parts, ◌+ℤ◌, ◌-ℤ◌}
use swift_event.Time.{Timeval, timercmp_gt, timeradd, timersub}

pub timercmp_gt-asymm : (t u : Timeval) → timercmp_gt t u ≡ true → timercmp_gt u t ≡ false
unfolding timercmp_gt
timercmp_gt-asymm t u h = ground arith

-- The comparison of times is transitive: where `t` is not after `u` and `u` is not after `v`, `t` is
-- not after `v`.
pub not_gt_trans :
    (t u v : Timeval) → timercmp_gt t u ≡ false → timercmp_gt u v ≡ false → timercmp_gt t v ≡ false
unfolding timercmp_gt
not_gt_trans t u v h k = ground arith

-- A microsecond field in range.
pub record IsNormal (t : Timeval) : Type 0 where
  pub lower : pos 0 ≤ℤ t.tv_usec
  pub upper : ltb_ℤ t.tv_usec (pos 1000000) ≡ true

add-sub_carry :
    (a b c : ℤ) → (a +ℤ b -ℤ b ≡ a) × (a +ℤ b +ℤ c -ℤ b -ℤ c ≡ a) × (a +ℤ b -ℤ c -ℤ b +ℤ c ≡ a)
add-sub_carry a b c = (omega int_laws, omega int_laws, omega int_laws)

-- Adding an interval and taking it away again gives the first time back, for normalised values.
timersub-timeradd : (t u : Timeval) → IsNormal t → IsNormal u → timersub (timeradd t u) u ≡ t
unfolding timersub timeradd
timersub-timeradd t u nt nu =
    let (s, s', _) = add-sub_carry t.tv_sec u.tv_sec (pos 1) in
    let (m, _, m') = add-sub_carry t.tv_usec u.tv_usec (pos 1000000) in
    ground (
      arith,
      s,
      s',
      m,
      m',
      +ℤ_parts t.tv_usec u.tv_usec,
      -ℤ_parts (t.tv_usec +ℤ u.tv_usec) (pos 1000000),
      -ℤ_parts (t.tv_usec +ℤ u.tv_usec -ℤ pos 1000000) u.tv_usec,
    )

-- The sum of normalised values is normalised.
timeradd-IsNormal : (t u : Timeval) → IsNormal t → IsNormal u → IsNormal (timeradd t u)
unfolding timeradd
timeradd-IsNormal t u nt nu =
    ground (arith, +ℤ_parts t.tv_usec u.tv_usec, -ℤ_parts (t.tv_usec +ℤ u.tv_usec) (pos 1000000))

-- A time is not after itself and an interval that is not negative.
pub timeradd_later :
    (t u : Timeval)
    → IsNormal t
    → IsNormal u
    → pos 0 ≤ℤ u.tv_sec
    → timercmp_gt t (timeradd t u) ≡ false
unfolding timercmp_gt timeradd
timeradd_later t u nt nu le = ground (
  arith,
  +ℤ_parts t.tv_sec u.tv_sec,
  +ℤ_parts t.tv_usec u.tv_usec,
  +ℤ_parts (t.tv_sec +ℤ u.tv_sec) (pos 1),
  -ℤ_parts (t.tv_usec +ℤ u.tv_usec) (pos 1000000),
)
