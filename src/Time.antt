-- ===== src/Time.antt =====
-- `struct timeval` and the timer macros of Sources/libevent/include/event2/util.h.
pub mod Order
mod Tests
use swift_event.Base.{◌≡◌, ◌&&◌, ◌||◌, Bool, if◌then◌else◌, not}
use swift_event.Base.Int.{ℤ, pos, negsuc, ltb_ℤ, ◌+ℤ◌, ◌-ℤ◌, pos_part, neg_part, eqb_ℤ}

-- Both fields are signed; a normalised value has `0 ≤ tv_usec < 1000000`.
pub record Timeval : Type 0 where
  pub tv_sec : ℤ
  pub tv_usec : ℤ

-- `evutil_timercmp(tvp, uvp, >)`
unfoldable pub timercmp_gt : Timeval → Timeval → Bool
timercmp_gt t u =
    if eqb_ℤ t.tv_sec u.tv_sec then ltb_ℤ u.tv_usec t.tv_usec else ltb_ℤ u.tv_sec t.tv_sec

-- `evutil_timeradd`
unfoldable pub timeradd : Timeval → Timeval → Timeval
timeradd t u =
    let sec = t.tv_sec +ℤ u.tv_sec in
    let usec = t.tv_usec +ℤ u.tv_usec in
    if ltb_ℤ usec (pos 1000000)
    then record { tv_sec = sec; tv_usec = usec }
    else record { tv_sec = sec +ℤ pos 1; tv_usec = usec -ℤ pos 1000000 }

-- `evutil_timersub`
unfoldable pub timersub : Timeval → Timeval → Timeval
timersub t u =
    let sec = t.tv_sec -ℤ u.tv_sec in
    let usec = t.tv_usec -ℤ u.tv_usec in
    if ltb_ℤ usec (pos 0)
    then record { tv_sec = sec -ℤ pos 1; tv_usec = usec +ℤ pos 1000000 }
    else record { tv_sec = sec; tv_usec = usec }
