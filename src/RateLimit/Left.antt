-- ===== src/RateLimit/Left.antt =====
-- Leaving a group in bufferevent_ratelim.c keeps the agreement of groups and members.
use swift_event.Base.{
  ℕ, ◌<◌, ◌≡◌, inl, inr, refl, sym, ap, subst, ◌∙◌, true, false, none, some, ◌==◌, ==_iff, update,
  update_at, fun_ext, remove_first, occurs-remove_first, length-remove_first, occurs, Bool-cases,
  arith,
}
use swift_event.Base.Int.{pos, ◌-ℤ◌}
use swift_event.RateLimit.{Way, reading, writing}
use swift_event.RateLimit.Suspend.{RateLimiting, Bufferevent, by_group, unsuspend}
use swift_event.RateLimit.Groups.{Limits, set_bev, set_group}
use swift_event.RateLimit.Limiting.{is_same}
use swift_event.RateLimit.Limiting.{is_same, set_limiting}
use swift_event.RateLimit.Membership.{leave_group, leave_any, remove_from_group}
use swift_event.RateLimit.Spread.{group_flag, unsuspend_flag}
use swift_event.RateLimit.Agreement.{is_in, IsAgreed}
use swift_event.RateLimit.Joined.{Places, Places-IsAgreed}

update_twice :
    (bevs : ℕ → Bufferevent) (e : ℕ) (b c : Bufferevent)
    → update (update bevs e b) e c ≡ update bevs e c
update_twice bevs e b c =
    fun_ext λ y. elim (Bool-cases (y == e)) [ inl at ↦ rw at refl | inr off ↦ rw off refl ]

freed_flag :
    (b : Bufferevent) (v : Way)
    → group_flag (unsuspend (unsuspend b reading by_group) writing by_group) v ≡ false
freed_flag b reading =
    unsuspend_flag (unsuspend b reading by_group) writing reading ∙ unsuspend_flag b reading reading
freed_flag b writing = unsuspend_flag (unsuspend b reading by_group) writing writing

freed_same :
    (b : Bufferevent)
    → (unsuspend (unsuspend b reading by_group) writing by_group).rate_limiting ≡ b.rate_limiting
unfolding unsuspend
freed_same b = refl

-- A member of a group leaves it, and is not suspended by it any more.
pub leave_group-IsAgreed :
    (l : Limits) (e : ℕ) (r : RateLimiting) (g : ℕ)
    → IsAgreed l
    → (l.bevs e).rate_limiting ≡ some r
    → r.group ≡ some g
    → IsAgreed (remove_from_group l e true)
unfolding remove_from_group leave_group ◌-ℤ◌
leave_group-IsAgreed l e r g v at in_g =
    let old = l.groups g in
    let x = record old {
      members = remove_first e old.members;
      n_members = old.n_members -ℤ pos 1;
    } in
    let b₁ = set_limiting (l.bevs e) (record r { group = none }) in
    let left = set_bev (set_group l g x) e b₁ in
    let free = λ (b : Bufferevent). unsuspend (unsuspend b reading by_group) writing by_group in
    let start : leave_any l e (l.bevs e).rate_limiting ≡ left =
      ap (leave_any l e) at ∙ ap (leave_group l e r) in_g in
    subst (λ (m : Limits). IsAgreed (set_bev m e (free (m.bevs e)))) (sym start)
      (subst (λ (b : Bufferevent). IsAgreed (set_bev left e (free b))) (sym (update_at l.bevs e b₁))
        (subst (λ (f : ℕ → Bufferevent). IsAgreed (record (set_group l g x) { bevs = f }))
          (sym (update_twice l.bevs e b₁ (free b₁))) (Places-IsAgreed l e g (free b₁) x leaves v)))
  where
    inside : (h : ℕ) → is_in (l.bevs e).rate_limiting h ≡ (g == h)
    inside h = ap (λ o. is_in o h) at ∙ ap (λ o. is_same o h) in_g

    there : 0 < occurs e (l.groups g).members
    there = ground (arith, v.members e g, inside g)

    out :
        (b₁ : Bufferevent) (h : ℕ)
        → b₁.rate_limiting ≡ some (record r { group = none })
        → is_in (unsuspend (unsuspend b₁ reading by_group) writing by_group).rate_limiting h ≡ false
    out b₁ h is_free = ap (λ o. is_in o h) (freed_same b₁ ∙ is_free)

    leaves :
        Places l e g
          (unsuspend
            (unsuspend (set_limiting (l.bevs e) (record r { group = none })) reading by_group)
            writing
            by_group)
          (record (l.groups g) {
            members = remove_first e (l.groups g).members;
            n_members = (l.groups g).n_members -ℤ pos 1;
          })
    leaves =
        let b₁ = set_limiting (l.bevs e) (record r { group = none }) in
        record {
          members = λ y.
              let rest = occurs-remove_first e y (l.groups g).members there in
              elim (Bool-cases (y == e)) [
                | inl here ↦
                    let it = ap (λ i. occurs i (l.groups g).members) ((==_iff y e).0 here) in
                    ground (arith, here, rest, it, v.members e g, inside g, out b₁ g refl)
                | inr off ↦ ground (arith, off, rest, v.members y g)
              ];
          elsewhere = λ h ne. (out b₁ h refl, inside h ∙ ground (arith, λ (y : g ≡ h). ne (sym y)));
          suspended = refl;
          flags = λ w on. absurd (cc (on, out b₁ g refl));
          alone = λ w off. freed_flag b₁ w;
          count =
              ap (λ n. n -ℤ pos 1) (v.count g)
              ∙ ground (arith, length-remove_first e (l.groups g).members there);
        }
