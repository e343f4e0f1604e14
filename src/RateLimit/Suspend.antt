-- ===== src/RateLimit/Suspend.antt =====
-- A bufferevent as the rate limits see it: the flags of bufferevent-internal.h, and the functions of
-- Sources/libevent/src/bufferevent.c that suspend it and let it go on.
use swift_event.Base.{ℕ, Bool, true, false, not, ◌&&◌, ◌||◌, Option, if◌then◌else◌}
use swift_event.RateLimit.{Way, same_way, TokenBucket}

-- One entry of two is set.
abbrev pub set_way {ℓ} : {A : Type ℓ} → (Way → A) → Way → A → Way → A
set_way f w a v = if same_way v w then a else f v

-- BEV_SUSPEND_BW and BEV_SUSPEND_BW_GROUP
pub data Reason : Type 0 where
  by_limit by_group : Reason

-- `read_suspended` or `write_suspended`; `others` is for the flags that are not about bandwidth.
pub record Suspended : Type 0 where
  pub bw : Bool
  pub bw_group : Bool
  pub others : Bool

abbrev pub is_suspended : Suspended → Bool
is_suspended s = s.bw || (s.bw_group || s.others)

abbrev pub with_reason : Suspended → Reason → Bool → Suspended
with_reason s by_limit x = record s { bw = x }
with_reason s by_group x = record s { bw_group = x }

-- `struct bufferevent_rate_limit`: the configuration is a pointer, and so is the group. A pending
-- refill is that of `refill_bucket_event`.
pub record RateLimiting : Type 0 where
  pub cfg : Option ℕ
  pub limit : TokenBucket
  pub group : Option ℕ
  pub refill_pending : Bool

-- `running` tells whether the transport was last told to enable or to disable reading or writing.
pub record Bufferevent : Type 0 where
  pub enabled : Way → Bool
  pub suspended : Way → Suspended
  pub running : Way → Bool
  pub max_single : Way → ℕ
  pub rate_limiting : Option RateLimiting

-- bufferevent_suspend_read_ and bufferevent_suspend_write_
unfoldable pub suspend : Bufferevent → Way → Reason → Bufferevent
suspend b w what =
    let s = b.suspended w in
    record b {
      running = if is_suspended s then b.running else set_way b.running w false;
      suspended = set_way b.suspended w (with_reason s what true);
    }

-- bufferevent_unsuspend_read_ and bufferevent_unsuspend_write_
unfoldable pub unsuspend : Bufferevent → Way → Reason → Bufferevent
unsuspend b w what =
    let s = with_reason (b.suspended w) what false in
    record b {
      running = if not (is_suspended s) && b.enabled w then set_way b.running w true else b.running;
      suspended = set_way b.suspended w s;
    }
