-- ===== src/RateLimit/Membership.antt =====
-- Joining and leaving a group of bufferevents, in bufferevent_ratelim.c.
use swift_event.Base.{ℕ, Bool, true, Option, none, some, ◌∷◌, if◌then◌else◌, remove_first}
use swift_event.Base.Int.{pos, ◌-ℤ◌, ◌+ℤ◌}
use swift_event.RateLimit.{Way, reading, writing}
use swift_event.RateLimit.Suspend.{Bufferevent, RateLimiting, by_group, suspend, unsuspend}
use swift_event.RateLimit.Groups.{Limits, Group, set_bev, set_group}
use swift_event.RateLimit.Limiting.{set_limiting, limiting_or_new, is_same, is_set_ptr}

-- bufferevent_remove_from_rate_limit_group_internal_; the number of members goes down by one.
unfoldable pub leave_group : Limits → ℕ → RateLimiting → Option ℕ → Limits
leave_group l e r none = l
leave_group l e r (some g) =
    let x = l.groups g in
    set_bev
      (set_group l g
        (record x { members = remove_first e x.members; n_members = x.n_members -ℤ pos 1 }))
      e (set_limiting (l.bevs e) (record r { group = none }))

abbrev pub leave_any : Limits → ℕ → Option RateLimiting → Limits
leave_any l e none = l
leave_any l e (some r) = leave_group l e r r.group

unfoldable pub remove_from_group : Limits → ℕ → Bool → Limits
remove_from_group l e unsuspends =
    let l' = leave_any l e (l.bevs e).rate_limiting in
    let b = l'.bevs e in
    if unsuspends
    then set_bev l' e (unsuspend (unsuspend b reading by_group) writing by_group)
    else l'

-- What a bufferevent that joins a group finds
abbrev pub suspend_as : Group → Way → Bufferevent → Bufferevent
suspend_as x w b = if x.suspended w then suspend b w by_group else b

-- The bufferevent at the head of the members of the group
unfoldable pub join_group : Limits → ℕ → RateLimiting → ℕ → Limits
join_group l e r g =
    let x = l.groups g in
    let b = set_limiting (l.bevs e) (record r { group = some g }) in
    set_bev (set_group l g (record x { members = e ∷ x.members; n_members = x.n_members +ℤ pos 1 }))
      e (suspend_as x writing (suspend_as x reading b))

-- bufferevent_add_to_rate_limit_group, where there is memory
unfoldable pub add_to_group : Limits → ℕ → ℕ → Limits
add_to_group l e g =
    let r = limiting_or_new (l.bevs e).rate_limiting in
    let l' = set_bev l e (set_limiting (l.bevs e) r) in
    let left = if is_set_ptr r.group then remove_from_group l' e true else l' in
    if is_same r.group g
    then l'
    else join_group left e (limiting_or_new (left.bevs e).rate_limiting) g
