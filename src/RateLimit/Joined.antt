-- ===== src/RateLimit/Joined.antt =====
-- Joining a group in bufferevent_ratelim.c keeps the agreement of groups and members.
use swift_event.Base.{
  ℕ, ◌≡◌, ◌≢◌, inl, inr, refl, sym, ap, subst, ◌∙◌, Bool, true, false, ◌&&◌, some, length, ◌==◌,
  ==_iff, if◌then◌else◌, update, update_at, update_other, update_map, ℕ_discrete, to_ℕ, occurs,
  by_if, Bool-cases, arith,
}
use swift_event.Base.Int.{pos, ◌+ℤ◌}
use swift_event.RateLimit.{Way, reading, writing, same_way}
use swift_event.RateLimit.Suspend.{RateLimiting, Bufferevent, suspend}
use swift_event.RateLimit.Groups.{Group, Limits, set_bev, set_group}
use swift_event.RateLimit.Limiting.{set_limiting}
use swift_event.RateLimit.Membership.{suspend_as, join_group}
use swift_event.RateLimit.Spread.{group_flag, suspend_flag}
use swift_event.RateLimit.Agreement.{is_in, IsAgreed, kept_fields}

-- One bufferevent, and the one group that it may join or leave, change.
pub record Places (l : Limits) (e g : ℕ) (b : Bufferevent) (x : Group) : Type 0 where
  pub members :
      (y : ℕ)
      → occurs y x.members
        ≡ to_ℕ (if y == e then is_in b.rate_limiting g else is_in (l.bevs y).rate_limiting g)
  pub elsewhere :
      (h : ℕ)
      → h ≢ g
      → (is_in b.rate_limiting h ≡ false) × (is_in (l.bevs e).rate_limiting h ≡ false)
  pub suspended : x.suspended ≡ (l.groups g).suspended
  pub flags : (w : Way) → is_in b.rate_limiting g ≡ true → group_flag b w ≡ x.suspended w
  pub alone : (w : Way) → is_in b.rate_limiting g ≡ false → group_flag b w ≡ false
  pub count : x.n_members ≡ pos (length x.members)

pub Places-IsAgreed :
    (l : Limits) (e g : ℕ) (b : Bufferevent) (x : Group)
    → Places l e g b x
    → IsAgreed l
    → IsAgreed (set_bev (set_group l g x) e b)
Places-IsAgreed l e g b x p v =
    let bev_here = λ (y : ℕ) (at : y ≡ e). ap (update l.bevs e b) at ∙ update_at l.bevs e b in
    let group_here = λ (h : ℕ) (at : h ≡ g). ap (update l.groups g x) at ∙ update_at l.groups g x in
    let waits = λ (h : ℕ). kept_fields (λ (z : Group). z.suspended) l g x p.suspended h in
    record {
      members = λ y h.
          let place = λ (z : Bufferevent). is_in z.rate_limiting h in
          elim (ℕ_discrete h g) [
            | yes at ↦
                ap (λ (z : Group). occurs y z.members) (group_here h at)
                ∙ p.members y
                ∙ subst
                    (λ i.
                      to_ℕ (
                        if y == e
                        then is_in b.rate_limiting i
                        else is_in (l.bevs y).rate_limiting i)
                      ≡ to_ℕ (place (update l.bevs e b y)))
                    at (ap to_ℕ (sym (update_map l.bevs e b place y)))
            | no ne ↦
                ap (λ (z : Group). occurs y z.members) (update_other l.groups g x h ne)
                ∙ v.members y h
                ∙ ap to_ℕ (
                    sym (
                      update_map l.bevs e b place y
                      ∙ by_if (λ z. z ≡ place (l.bevs y)) (y == e)
                          (λ at.
                            (p.elsewhere h ne).0
                            ∙ sym (
                                ap (λ i. place (l.bevs i)) ((==_iff y e).0 at)
                                ∙ (p.elsewhere h ne).1))
                          λ off. refl))
          ];
      flags = λ y h w there. elim (ℕ_discrete y e) [
        | yes at ↦
            let inside : is_in b.rate_limiting h ≡ true =
              ap (λ (z : Bufferevent). is_in z.rate_limiting h) (sym (bev_here y at)) ∙ there in
            elim (ℕ_discrete h g) [
              | yes it ↦
                  ap (λ (z : Bufferevent). group_flag z w) (bev_here y at)
                  ∙ p.flags w (subst (λ i. is_in b.rate_limiting i ≡ true) it inside)
                  ∙ sym (ap (λ (z : Group). z.suspended w) (group_here h it))
              | no ne ↦ absurd (cc (inside, (p.elsewhere h ne).0))
            ]
        | no ne ↦
            let same = update_other l.bevs e b y ne in
            ap (λ (z : Bufferevent). group_flag z w) same
            ∙ v.flags y h w (ap (λ (z : Bufferevent). is_in z.rate_limiting h) (sym same) ∙ there)
            ∙ sym (ap (λ (f : Way → Bool). f w) (waits h))
      ];
      alone = λ y w out. elim (ℕ_discrete y e) [
        | yes at ↦
            ap (λ (z : Bufferevent). group_flag z w) (bev_here y at)
            ∙ p.alone w
                (ap (λ (z : Bufferevent). is_in z.rate_limiting g) (sym (bev_here y at)) ∙ out g)
        | no ne ↦
            let same = update_other l.bevs e b y ne in
            ap (λ (z : Bufferevent). group_flag z w) same
            ∙ v.alone y w
                (λ h. ap (λ (z : Bufferevent). is_in z.rate_limiting h) (sym same) ∙ out h)
      ];
      count = λ h. elim (ℕ_discrete h g) [
        | yes at ↦
            ap (λ (z : Group). z.n_members) (group_here h at)
            ∙ p.count
            ∙ ap (λ (z : Group). pos (length z.members)) (sym (group_here h at))
        | no ne ↦
            let same = update_other l.groups g x h ne in
            ap (λ (z : Group). z.n_members) same
            ∙ v.count h
            ∙ ap (λ (z : Group). pos (length z.members)) (sym same)
      ];
    }

suspend_as_flag :
    (x : Group) (b : Bufferevent) (w v : Way)
    → group_flag (suspend_as x w b) v
      ≡ (if same_way v w && x.suspended w then true else group_flag b v)
suspend_as_flag x b w v =
    by_if (λ z. group_flag z v ≡ (if same_way v w && x.suspended w then true else group_flag b v))
      (x.suspended w) (λ on. suspend_flag b w v ∙ ground (arith, on)) λ off. ground (arith, off)

suspend_as_same :
    (x : Group) (b : Bufferevent) (w : Way) → (suspend_as x w b).rate_limiting ≡ b.rate_limiting
unfolding suspend
suspend_as_same x b w =
    by_if (λ (z : Bufferevent). z.rate_limiting ≡ b.rate_limiting) (x.suspended w) (λ on. refl)
      λ off. refl

-- A bufferevent that is in no group joins one, and is suspended as that group is.
pub join_group-IsAgreed :
    (l : Limits) (e : ℕ) (r : RateLimiting) (g : ℕ)
    → IsAgreed l
    → ((h : ℕ) → is_in (l.bevs e).rate_limiting h ≡ false)
    → IsAgreed (join_group l e r g)
unfolding join_group ◌+ℤ◌
join_group-IsAgreed l e r g v out =
    let x = l.groups g in
    let b₀ = set_limiting (l.bevs e) (record r { group = some g }) in
    let b₁ = suspend_as x reading b₀ in
    let b = suspend_as x writing b₁ in
    let same : b.rate_limiting ≡ some (record r { group = some g }) =
      suspend_as_same x b₁ writing ∙ suspend_as_same x b₀ reading in
    let inside = λ (h : ℕ). ap (λ o. is_in o h) same in
    let before = λ (w : Way). v.alone e w out in
    Places-IsAgreed l e g b _
      (record {
        members = λ y. elim (Bool-cases (y == e)) [
          | inl at ↦
              let it : occurs y x.members ≡ 0 =
                ap (λ i. occurs i x.members) ((==_iff y e).0 at)
                ∙ v.members e g
                ∙ ap to_ℕ (out g) in
              ground (arith, at, it, inside g)
          | inr off ↦ ground (arith, off, v.members y g)
        ];
        elsewhere = λ h ne. (inside h ∙ ground (arith, λ (y : g ≡ h). ne (sym y)), out h);
        suspended = refl;
        flags = elim [
          | reading ↦ λ on.
              suspend_as_flag x b₁ writing reading
              ∙ suspend_as_flag x b₀ reading reading
              ∙ ground (arith, before reading)
          | writing ↦ λ on.
              suspend_as_flag x b₁ writing writing
              ∙ ground (arith, before writing, suspend_as_flag x b₀ reading writing)
        ];
        alone = λ w off. absurd (ground (arith, off, inside g));
        count = ap (λ n. n +ℤ pos 1) (v.count g) ∙ ground arith;
      })
      v
