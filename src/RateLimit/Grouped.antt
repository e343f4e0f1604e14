-- ===== src/RateLimit/Grouped.antt =====
-- The bufferevents and their groups of bufferevent_ratelim.c, as a state machine.
use swift_event.Base.{
  ℕ, ◌≡◌, refl, ap, sym, ◌∙◌, true, false, some, [], to_ℕ, occurs, length, update_all,
}
use swift_event.Base.Int.{ℤ, pos}
use swift_event.RateLimit.{Way}
use swift_event.RateLimit.Suspend.{RateLimiting, Bufferevent}
use swift_event.RateLimit.Groups.{Limits, set_bev, charge_group, group_refill, group_decrement}
use swift_event.RateLimit.Membership.{join_group, remove_from_group}
use swift_event.RateLimit.Spread.{group_flag}
use swift_event.RateLimit.Agreement.{
  is_in, IsAgreed, charge_group-IsAgreed, group_refill-IsAgreed, group_decrement-IsAgreed,
}
use swift_event.RateLimit.Joined.{join_group-IsAgreed}
use swift_event.RateLimit.Left.{leave_group-IsAgreed}

-- What can happen to the groups. A bufferevent joins when it is in no group. What changes only its own
-- limit, and the flags that are not its group's, is one step.
pub data Grouped : Limits → Type 0 where
  starts :
      {l : Limits}
      → ((g : ℕ) → ((l.groups g).members ≡ []) × ((l.groups g).n_members ≡ pos 0))
      → ((e g : ℕ) → is_in (l.bevs e).rate_limiting g ≡ false)
      → ((e : ℕ) (w : Way) → group_flag (l.bevs e) w ≡ false)
      → Grouped l
  joins :
      {l : Limits} (e : ℕ) (r : RateLimiting) (g : ℕ)
      → Grouped l
      → ((h : ℕ) → is_in (l.bevs e).rate_limiting h ≡ false)
      → Grouped (join_group l e r g)
  leaves :
      {l : Limits} (e : ℕ) (r : RateLimiting) (g : ℕ)
      → Grouped l
      → (l.bevs e).rate_limiting ≡ some r
      → r.group ≡ some g
      → Grouped (remove_from_group l e true)
  charges :
      {l : Limits} (g : ℕ) (w : Way) (bytes : ℤ) (which : ℕ)
      → Grouped l
      → Grouped (charge_group l g w bytes which)
  decrements :
      {l : Limits} (g : ℕ) (w : Way) (decr : ℤ) (which : ℕ)
      → Grouped l
      → Grouped (group_decrement l g w decr which)
  refills :
      {l : Limits} (g which_read which_write : ℕ)
      → Grouped l
      → Grouped (group_refill l g which_read which_write)
  changes :
      {l : Limits} (e : ℕ) (b : Bufferevent)
      → Grouped l
      → ((g : ℕ) → is_in b.rate_limiting g ≡ is_in (l.bevs e).rate_limiting g)
      → ((w : Way) → group_flag b w ≡ group_flag (l.bevs e) w)
      → Grouped (set_bev l e b)

changed-IsAgreed :
    (l : Limits) (e : ℕ) (b : Bufferevent)
    → IsAgreed l
    → ((g : ℕ) → is_in b.rate_limiting g ≡ is_in (l.bevs e).rate_limiting g)
    → ((w : Way) → group_flag b w ≡ group_flag (l.bevs e) w)
    → IsAgreed (set_bev l e b)
changed-IsAgreed l e b v place flag =
    let places = λ (y g : ℕ).
      update_all l.bevs e b (λ a c. is_in c.rate_limiting g ≡ is_in a.rate_limiting g) (λ a. refl)
        (place g) y in
    let flags = λ (y : ℕ) (w : Way).
      update_all l.bevs e b (λ a c. group_flag c w ≡ group_flag a w) (λ a. refl) (flag w) y in
    record {
      members = λ y g. v.members y g ∙ ap to_ℕ (sym (places y g));
      flags = λ y g w there. flags y w ∙ v.flags y g w (sym (places y g) ∙ there);
      alone = λ y w out. flags y w ∙ v.alone y w (λ g. sym (places y g) ∙ out g);
      count = v.count;
    }

-- However bufferevents join and leave groups, spend and are refilled: the members of a group are the
-- bufferevents that name it, once each, their number is right, and each is suspended by the group for
-- exactly the ways for which the group is suspended.
pub Grouped-IsAgreed : (l : Limits) → Grouped l → IsAgreed l
Grouped-IsAgreed l (starts nobody nowhere free) = record {
  members = λ e g. ap (occurs e) (nobody g).0 ∙ ap to_ℕ (sym (nowhere e g));
  flags = λ e g w there. absurd (cc (there, nowhere e g));
  alone = λ e w out. free e w;
  count = λ g. (nobody g).1 ∙ ap (λ es. pos (length es)) (sym (nobody g).0);
}
Grouped-IsAgreed _ (joins {l} e r g before out) =
    join_group-IsAgreed l e r g (Grouped-IsAgreed l before) out
Grouped-IsAgreed _ (leaves {l} e r g before at in_g) =
    leave_group-IsAgreed l e r g (Grouped-IsAgreed l before) at in_g
Grouped-IsAgreed _ (charges {l} g w bytes which before) =
    charge_group-IsAgreed l g w bytes which (Grouped-IsAgreed l before)
Grouped-IsAgreed _ (decrements {l} g w decr which before) =
    group_decrement-IsAgreed l g w decr which (Grouped-IsAgreed l before)
Grouped-IsAgreed _ (refills {l} g which_read which_write before) =
    group_refill-IsAgreed l g which_read which_write (Grouped-IsAgreed l before)
Grouped-IsAgreed _ (changes {l} e b before place flag) =
    changed-IsAgreed l e b (Grouped-IsAgreed l before) place flag
