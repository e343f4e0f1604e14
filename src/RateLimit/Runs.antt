-- ===== src/RateLimit/Runs.antt =====
-- What suspending a bufferevent and letting it go on do to its flags and to its transport.
use swift_event.Base.{◌≡◌, refl, Bool, true, false, not, ◌&&◌, fun_ext, arith}
use swift_event.RateLimit.{Way, reading, writing}
use swift_event.RateLimit.Suspend.{
  Reason, by_limit, by_group, Bufferevent, set_way, is_suspended, suspend, unsuspend,
}

-- The transport runs where it is enabled and not suspended for any reason.
abbrev pub RunsWhereFree : Bufferevent → Type 0
RunsWhereFree b = (w : Way) → b.running w ≡ (b.enabled w && not (is_suspended (b.suspended w)))

-- Whether a bufferevent is suspended because of its own limit, for each way
abbrev pub limited_ways : Bufferevent → Way → Bool
limited_ways b w = (b.suspended w).bw

pub suspend-RunsWhereFree :
    (b : Bufferevent) (w : Way) (what : Reason) → RunsWhereFree b → RunsWhereFree (suspend b w what)
unfolding suspend
suspend-RunsWhereFree b reading by_limit runs reading = ground (arith, runs reading)
suspend-RunsWhereFree b reading by_group runs reading = ground (arith, runs reading)
suspend-RunsWhereFree b writing by_limit runs writing = ground (arith, runs writing)
suspend-RunsWhereFree b writing by_group runs writing = ground (arith, runs writing)
suspend-RunsWhereFree b reading what runs writing = ground (arith, runs writing)
suspend-RunsWhereFree b writing what runs reading = ground (arith, runs reading)

pub unsuspend-RunsWhereFree :
    (b : Bufferevent) (w : Way) (what : Reason)
    → RunsWhereFree b
    → RunsWhereFree (unsuspend b w what)
unfolding unsuspend
unsuspend-RunsWhereFree b reading by_limit runs reading = ground (arith, runs reading)
unsuspend-RunsWhereFree b reading by_group runs reading = ground (arith, runs reading)
unsuspend-RunsWhereFree b writing by_limit runs writing = ground (arith, runs writing)
unsuspend-RunsWhereFree b writing by_group runs writing = ground (arith, runs writing)
unsuspend-RunsWhereFree b reading what runs writing = ground (arith, runs writing)
unsuspend-RunsWhereFree b writing what runs reading = ground (arith, runs reading)

-- The reason that a call names is set or cleared, and nothing else of the flags.
pub suspend-limited_ways :
    (b : Bufferevent) (w : Way)
    → limited_ways (suspend b w by_limit) ≡ set_way (limited_ways b) w true
unfolding suspend
suspend-limited_ways b reading = fun_ext (elim [ reading ↦ refl | writing ↦ refl ])
suspend-limited_ways b writing = fun_ext (elim [ reading ↦ refl | writing ↦ refl ])

pub unsuspend-limited_ways :
    (b : Bufferevent) (w : Way)
    → limited_ways (unsuspend b w by_limit) ≡ set_way (limited_ways b) w false
unfolding unsuspend
unsuspend-limited_ways b reading = fun_ext (elim [ reading ↦ refl | writing ↦ refl ])
unsuspend-limited_ways b writing = fun_ext (elim [ reading ↦ refl | writing ↦ refl ])

pub suspend_group_ways :
    (b : Bufferevent) (w : Way) → limited_ways (suspend b w by_group) ≡ limited_ways b
unfolding suspend
suspend_group_ways b reading = fun_ext (elim [ reading ↦ refl | writing ↦ refl ])
suspend_group_ways b writing = fun_ext (elim [ reading ↦ refl | writing ↦ refl ])

pub unsuspend_group_ways :
    (b : Bufferevent) (w : Way) → limited_ways (unsuspend b w by_group) ≡ limited_ways b
unfolding unsuspend
unsuspend_group_ways b reading = fun_ext (elim [ reading ↦ refl | writing ↦ refl ])
unsuspend_group_ways b writing = fun_ext (elim [ reading ↦ refl | writing ↦ refl ])
