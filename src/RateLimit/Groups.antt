-- ===== src/RateLimit/Groups.antt =====
-- The groups of bufferevents that share a rate limit, in bufferevent_ratelim.c.
use swift_event.Base.{
  ℕ, ◌+◌, Bool, true, false, not, ◌&&◌, ◌||◌, List, [], ◌∷◌, ◌++◌, ltb, if◌then◌else◌, update, take,
  drop,
}
use swift_event.Base.Int.{ℤ, pos, negsuc, ltb_ℤ}
use swift_event.Time.{Timeval}
use swift_event.RateLimit.{
  Way, reading, writing, TokenBucket, TokenBucketCfg, u64, to_size, ssize_max, clip, bucket_init,
  bucket_update, bucket_decrement, get_tick,
}
use swift_event.RateLimit.Suspend.{Bufferevent, set_way, by_group, suspend, unsuspend}

-- `struct bufferevent_rate_limit_group`. The refill event of a group is always pending.
pub record Group : Type 0 where
  pub members : List ℕ
  pub n_members : ℤ
  pub rate_limit : TokenBucket
  pub rate_limit_cfg : TokenBucketCfg
  pub suspended : Way → Bool
  pub pending_unsuspend : Way → Bool
  pub total : Way → ℕ
  pub min_share : ℕ
  pub configured_min_share : ℕ

-- The bufferevents and the groups, by number. `now` is the cached time, and `timer_ok` tells whether
-- event_add works.
pub record Limits : Type 0 where
  pub bevs : ℕ → Bufferevent
  pub groups : ℕ → Group
  pub now : Timeval
  pub timer_ok : Bool

abbrev pub set_bev : Limits → ℕ → Bufferevent → Limits
set_bev l e b = record l { bevs = update l.bevs e b }

abbrev pub set_group : Limits → ℕ → Group → Limits
set_group l g x = record l { groups = update l.groups g x }

-- LIST_FOREACH over the members, each of which can be locked
unfoldable pub suspend_all : List ℕ → (ℕ → Bufferevent) → Way → ℕ → Bufferevent
suspend_all [] bevs w = bevs
suspend_all (e ∷ es) bevs w = suspend_all es (update bevs e (suspend (bevs e) w by_group)) w

unfoldable pub unsuspend_all : List ℕ → (ℕ → Bufferevent) → Way → ℕ → Bufferevent
unsuspend_all [] bevs w = bevs
unsuspend_all (e ∷ es) bevs w = unsuspend_all es (update bevs e (unsuspend (bevs e) w by_group)) w

-- FOREACH_RANDOM_ORDER starts with the member that stands at the place `which`.
abbrev pub random_order : ℕ → List ℕ → List ℕ
random_order which members = drop which members ++ take which members

-- bev_group_suspend_reading_ and bev_group_suspend_writing_
unfoldable pub group_suspend : Limits → ℕ → Way → Limits
group_suspend l g w =
    let x = l.groups g in
    record (set_group l g (record x {
      suspended = set_way x.suspended w true;
      pending_unsuspend = set_way x.pending_unsuspend w false;
    })) { bevs = suspend_all x.members l.bevs w }

-- bev_group_unsuspend_reading_ and bev_group_unsuspend_writing_. `which` is what
-- evutil_weakrand_range_ returns.
unfoldable pub group_unsuspend : Limits → ℕ → Way → ℕ → Limits
group_unsuspend l g w which =
    let x = l.groups g in
    record (set_group l g (record x {
      suspended = set_way x.suspended w false;
      pending_unsuspend = set_way x.pending_unsuspend w false;
    })) { bevs = unsuspend_all (random_order which x.members) l.bevs w }

-- bufferevent_rate_limit_group_set_min_share, for a group
unfoldable pub set_min_share : Group → ℕ → ℤ × Group
set_min_share x share =
    let r = x.rate_limit_cfg.rate reading in
    let w = x.rate_limit_cfg.rate writing in
    let once = if ltb r share then r else share in
    if ltb ssize_max share then (negsuc 0, x) else (
      pos 0,
      record x { configured_min_share = share; min_share = if ltb w once then w else once },
    )

-- bufferevent_rate_limit_group_new, where there is memory
unfoldable pub group_new : TokenBucketCfg → Timeval → Group
group_new cfg now =
    (set_min_share
      (record {
        members = [];
        n_members = pos 0;
        rate_limit =
            bucket_init (record { limit = λ w. pos 0; last_updated = 0 }) cfg (get_tick now cfg)
              false;
        rate_limit_cfg = cfg;
        suspended = λ w. false;
        pending_unsuspend = λ w. false;
        total = λ w. 0;
        min_share = 0;
        configured_min_share = 0;
      })
      64).1

-- bufferevent_rate_limit_group_set_cfg
unfoldable pub group_set_cfg : Group → TokenBucketCfg → Group
group_set_cfg x cfg =
    (set_min_share
      (record x {
        rate_limit_cfg = cfg;
        rate_limit = record x.rate_limit {
          limit = λ w. clip (x.rate_limit.limit w) (cfg.maximum w);
        };
      })
      x.configured_min_share).1

-- One of the two tests of bev_group_refill_callback_
abbrev pub go_on_after : Limits → ℕ → Way → ℕ → Limits
go_on_after l g w which =
    let x = l.groups g in
    if x.pending_unsuspend w
      || (x.suspended w && not (ltb_ℤ (x.rate_limit.limit w) (pos x.min_share)))
    then group_unsuspend l g w which
    else l

-- bev_group_refill_callback_
unfoldable pub group_refill : Limits → ℕ → ℕ → ℕ → Limits
group_refill l g which_read which_write =
    let x = l.groups g in
    let bucket =
      (bucket_update x.rate_limit x.rate_limit_cfg (get_tick l.now x.rate_limit_cfg)).1 in
    go_on_after
      (go_on_after (set_group l g (record x { rate_limit = bucket })) g reading which_read) g
      writing which_write

-- What an addition of `bytes` to a total, and the subtraction from the limit, leave
abbrev pub charged : Group → Way → ℤ → Group
charged x w bytes = record x {
  rate_limit = bucket_decrement x.rate_limit w bytes;
  total = set_way x.total w (u64 (x.total w + to_size bytes));
}

-- The part of bufferevent_decrement_read_buckets_ and bufferevent_decrement_write_buckets_ for a group
unfoldable pub charge_group : Limits → ℕ → Way → ℤ → ℕ → Limits
charge_group l g w bytes which =
    let x = charged (l.groups g) w bytes in
    let l' = set_group l g x in
    if not (ltb_ℤ (pos 0) (x.rate_limit.limit w))
    then group_suspend l' g w
    else if x.suspended w
    then group_unsuspend l' g w which
    else l'

-- bufferevent_rate_limit_group_decrement_read and bufferevent_rate_limit_group_decrement_write
unfoldable pub group_decrement : Limits → ℕ → Way → ℤ → ℕ → Limits
group_decrement l g w decr which =
    let x = l.groups g in
    let x' = record x { rate_limit = bucket_decrement x.rate_limit w decr } in
    let had = ltb_ℤ (pos 0) (x.rate_limit.limit w) in
    let has = ltb_ℤ (pos 0) (x'.rate_limit.limit w) in
    let l' = set_group l g x' in
    if had && not has
    then group_suspend l' g w
    else if not had && has
    then group_unsuspend l' g w which
    else l'

-- bufferevent_rate_limit_group_reset_totals
abbrev pub reset_totals : Group → Group
reset_totals x = record x { total = λ w. 0 }
