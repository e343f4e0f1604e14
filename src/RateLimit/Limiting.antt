-- ===== src/RateLimit/Limiting.antt =====
-- The rate limit of one bufferevent, and its group, in bufferevent_ratelim.c. A configuration is a
-- pointer, and `cfgs` is what the pointers point to.
use swift_event.Base.{
  ℕ, Bool, true, false, not, ◌&&◌, ◌||◌, Option, none, some, ltb, ◌==◌, if◌then◌else◌,
}
use swift_event.Base.Int.{ℤ, pos, negsuc, ltb_ℤ}
use swift_event.Time.{Timeval}
use swift_event.RateLimit.{
  Way, reading, writing, TokenBucketCfg, ssize_max, quotient, bucket_init, bucket_update,
  bucket_decrement, get_tick,
}
use swift_event.RateLimit.Suspend.{
  Bufferevent, RateLimiting, set_way, by_limit, by_group, suspend, unsuspend,
}
use swift_event.RateLimit.Groups.{Limits, Group, set_bev, charge_group}

abbrev pub set_limiting : Bufferevent → RateLimiting → Bufferevent
set_limiting b r = record b { rate_limiting = some r }

-- `x > 0`
abbrev pub is_positive : ℤ → Bool
is_positive x = ltb_ℤ (pos 0) x

-- A bufferevent after calloc
abbrev pub no_limits : RateLimiting
no_limits = record {
  cfg = none;
  limit = record { limit = λ w. pos 0; last_updated = 0 };
  group = none;
  refill_pending = false;
}

abbrev pub limiting_or_new : Option RateLimiting → RateLimiting
limiting_or_new none = no_limits
limiting_or_new (some r) = r

-- The other way
abbrev pub other_way : Way → Way
other_way reading = writing
other_way writing = reading

abbrev pub is_same : Option ℕ → ℕ → Bool
is_same none x = false
is_same (some y) x = y == x

abbrev pub is_set_ptr : Option ℕ → Bool
is_set_ptr none = false
is_set_ptr (some x) = true

-- `n_members` as a divisor: it is positive while there is a member.
abbrev pub members_of : ℤ → ℕ
members_of (pos n) = n
members_of (negsuc n) = 0

-- `event_add` of the refill event
abbrev pub add_refill : Bool → RateLimiting → RateLimiting
add_refill timer_ok r = record r { refill_pending = r.refill_pending || timer_ok }

-- `event_del` of the refill event
abbrev pub del_refill : RateLimiting → RateLimiting
del_refill r = record r { refill_pending = false }

-- bufferevent_set_max_single_read and bufferevent_set_max_single_write
unfoldable pub set_max_single : Bufferevent → Way → ℕ → Bufferevent
set_max_single b w size = record b {
  max_single = set_way b.max_single w (if size == 0 || ltb ssize_max size then 16384 else size);
}

module _ (cfgs : ℕ → TokenBucketCfg) where
  -- bufferevent_update_buckets, for a bucket with the configuration `c`
  unfoldable pub update_buckets : RateLimiting → ℕ → Timeval → RateLimiting
  update_buckets r c now =
      let tick = get_tick now (cfgs c) in
      if tick == r.limit.last_updated
      then r
      else record r { limit = (bucket_update r.limit (cfgs c) tick).1 }

  -- The limit of the bufferevent itself, before that of its group
  unfoldable pub own_max : RateLimiting → Option ℕ → ℕ → Timeval → Way → ℤ × RateLimiting
  own_max r none max_single now w = (pos max_single, r)
  own_max r (some c) max_single now w = let r' = update_buckets r c now in (r'.limit.limit w, r')

  -- The share of a member of a group that is not suspended
  abbrev pub group_share : Group → Way → ℤ
  group_share x w =
      let share = quotient (x.rate_limit.limit w) (members_of x.n_members) in
      if ltb_ℤ share (pos x.min_share) then pos x.min_share else share

  abbrev pub at_most : ℤ → ℤ → ℤ
  at_most x max_so_far = if ltb_ℤ x max_so_far then x else max_so_far

  -- CLAMPTO the share of the group
  unfoldable pub group_max : Limits → ℕ → Option ℕ → ℤ → Way → ℤ × Limits
  group_max l e none max_so_far w = (max_so_far, l)
  group_max l e (some g) max_so_far w =
      let x = l.groups g in
      if x.suspended w
      then (at_most (pos 0) max_so_far, set_bev l e (suspend (l.bevs e) w by_group))
      else (at_most (group_share x w) max_so_far, l)

  abbrev pub not_negative : ℤ × Limits → ℤ × Limits
  not_negative (m, l) = (if ltb_ℤ m (pos 0) then pos 0 else m, l)

  -- bufferevent_get_rlim_max_
  unfoldable pub rlim_max_of : Limits → ℕ → Option RateLimiting → Way → ℤ × Limits
  rlim_max_of l e none w = (pos ((l.bevs e).max_single w), l)
  rlim_max_of l e (some r) w =
      let (own, r') = own_max r r.cfg ((l.bevs e).max_single w) l.now w in
      not_negative (group_max (set_bev l e (set_limiting (l.bevs e) r')) e r.group own w)

  abbrev pub get_rlim_max : Limits → ℕ → Way → ℤ × Limits
  get_rlim_max l e w = rlim_max_of l e (l.bevs e).rate_limiting w

  -- The part of bufferevent_decrement_read_buckets_ for the bufferevent itself; -1 where event_add fails
  unfoldable pub charge_own : Bufferevent → RateLimiting → Way → ℤ → Bool → ℤ × Bufferevent
  charge_own b r w bytes timer_ok =
      let r' = record r { limit = bucket_decrement r.limit w bytes } in
      let woken = if (b.suspended (other_way w)).bw then r' else del_refill r' in
      if not (is_positive (r'.limit.limit w))
      then (
        if timer_ok then pos 0 else negsuc 0,
        set_limiting (suspend b w by_limit) (add_refill timer_ok r'),
      )
      else if (b.suspended w).bw
      then (pos 0, set_limiting (unsuspend b w by_limit) woken)
      else (pos 0, set_limiting b r')

  unfoldable pub charge_cfg : Limits → ℕ → RateLimiting → Option ℕ → Way → ℤ → ℤ × Limits
  charge_cfg l e r none w bytes = (pos 0, l)
  charge_cfg l e r (some c) w bytes =
      let (res, b) = charge_own (l.bevs e) r w bytes l.timer_ok in (res, set_bev l e b)

  abbrev pub charge_shared : Option ℕ → Way → ℤ → ℕ → ℤ × Limits → ℤ × Limits
  charge_shared none w bytes which (res, l) = (res, l)
  charge_shared (some g) w bytes which (res, l) = (res, charge_group l g w bytes which)

  -- bufferevent_decrement_read_buckets_ and bufferevent_decrement_write_buckets_
  unfoldable pub decrement_of : Limits → ℕ → Option RateLimiting → Way → ℤ → ℕ → ℤ × Limits
  decrement_of l e none w bytes which = (pos 0, l)
  decrement_of l e (some r) w bytes which =
      charge_shared r.group w bytes which (charge_cfg l e r r.cfg w bytes)

  abbrev pub decrement_buckets : Limits → ℕ → Way → ℤ → ℕ → ℤ × Limits
  decrement_buckets l e w bytes which = decrement_of l e (l.bevs e).rate_limiting w bytes which

  -- Let one way go on where the bucket has filled; the flag tells whether to wait again.
  abbrev pub wake_way : RateLimiting → Way → Bool × Bufferevent → Bool × Bufferevent
  wake_way r w (again, b) =
      if (b.suspended w).bw
      then (if is_positive (r.limit.limit w) then (again, unsuspend b w by_limit) else (true, b))
      else (again, b)

  -- bev_refill_callback_, for a bufferevent with a configuration. The event that calls it is not pending
  -- any more.
  unfoldable pub refill_callback : Bufferevent → RateLimiting → ℕ → Timeval → Bool → Bufferevent
  refill_callback b r c now timer_ok =
      let bucket = (bucket_update r.limit (cfgs c) (get_tick now (cfgs c))).1 in
      let r' = record r { limit = bucket; refill_pending = false } in
      let (again, b') = wake_way r' writing (wake_way r' reading (false, b)) in
      set_limiting b' (if again then add_refill timer_ok r' else r')

  -- `rlim->limit.read_limit > 0`: unsuspend, and suspend otherwise
  abbrev pub settle_way : RateLimiting → Way → Bool × Bufferevent → Bool × Bufferevent
  settle_way r w (suspended, b) =
      if is_positive (r.limit.limit w)
      then (suspended, unsuspend b w by_limit)
      else (true, suspend b w by_limit)

  -- Without a configuration nothing is limited.
  unfoldable pub clear_rate_limit : Bufferevent → Option RateLimiting → Bufferevent
  clear_rate_limit b none = b
  clear_rate_limit b (some r) =
      set_limiting (unsuspend (unsuspend b reading by_limit) writing by_limit)
        (del_refill (record r { cfg = none }))

  -- The new configuration `c`, where it is another one
  unfoldable pub put_rate_limit : Bufferevent → RateLimiting → ℕ → Timeval → Bool → Bufferevent
  put_rate_limit b r c now timer_ok =
      let bucket = bucket_init r.limit (cfgs c) (get_tick now (cfgs c)) (is_set_ptr r.cfg) in
      let r' = record r { cfg = some c; limit = bucket; refill_pending = false } in
      let (suspended, b') = settle_way r' writing (settle_way r' reading (false, b)) in
      set_limiting b' (if suspended then add_refill timer_ok r' else r')

  -- bufferevent_set_rate_limit, where there is memory
  unfoldable pub set_rate_limit : Bufferevent → Option ℕ → Timeval → Bool → Bufferevent
  set_rate_limit b none now timer_ok = clear_rate_limit b b.rate_limiting
  set_rate_limit b (some c) now timer_ok =
      let r = limiting_or_new b.rate_limiting in
      if is_same r.cfg c then b else put_rate_limit b r c now timer_ok

  -- bufferevent_decrement_read_limit and bufferevent_decrement_write_limit, with a configuration
  unfoldable pub decrement_limit : Bufferevent → RateLimiting → Way → ℤ → Bool → ℤ × Bufferevent
  decrement_limit b r w decr timer_ok =
      let r' = record r { limit = bucket_decrement r.limit w decr } in
      let had = is_positive (r.limit.limit w) in
      let has = is_positive (r'.limit.limit w) in
      let woken = if (b.suspended (other_way w)).bw then r' else del_refill r' in
      if had && not has
      then (
        if timer_ok then pos 0 else negsuc 0,
        set_limiting (suspend b w by_limit) (add_refill timer_ok r'),
      )
      else if not had && has
      then (pos 0, set_limiting (unsuspend b w by_limit) woken)
      else (pos 0, set_limiting b r')
