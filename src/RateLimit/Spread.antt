-- ===== src/RateLimit/Spread.antt =====
-- What the loops over the members of a group in bufferevent_ratelim.c do to their flags.
use swift_event.Base.{
  ℕ, ◌≡◌, inl, inr, refl, sym, ap, ◌∙◌, Bool, true, false, not, ◌&&◌, List, [], ◌∷◌, take, drop,
  take-append-drop, ◌==◌, ==_iff, if◌then◌else◌, update, occurs, occurs-append, Bool-cases, arith,
}
use swift_event.RateLimit.{Way, reading, writing, same_way}
use swift_event.RateLimit.Suspend.{Bufferevent, by_group, suspend, unsuspend}
use swift_event.RateLimit.Groups.{suspend_all, unsuspend_all, random_order}

abbrev pub group_flag : Bufferevent → Way → Bool
group_flag b w = (b.suspended w).bw_group

-- What one call does to the flags of a group, and a pass over its members
pub suspend_flag :
    (b : Bufferevent) (w v : Way)
    → group_flag (suspend b w by_group) v ≡ (if same_way v w then true else group_flag b v)
unfolding suspend
suspend_flag b reading reading = refl
suspend_flag b reading writing = refl
suspend_flag b writing reading = refl
suspend_flag b writing writing = refl

pub unsuspend_flag :
    (b : Bufferevent) (w v : Way)
    → group_flag (unsuspend b w by_group) v ≡ (if same_way v w then false else group_flag b v)
unfolding unsuspend
unsuspend_flag b reading reading = refl
unsuspend_flag b reading writing = refl
unsuspend_flag b writing reading = refl
unsuspend_flag b writing writing = refl

-- The members of a list get the flag `x`, and what else it is that a bufferevent is in stays.
pub record Spread (es : List ℕ) (w : Way) (x : Bool) (bevs bevs' : ℕ → Bufferevent) : Type 0 where
  pub flag :
      (e : ℕ) (v : Way)
      → group_flag (bevs' e) v
        ≡ (if not (occurs e es == 0) && same_way v w then x else group_flag (bevs e) v)
  pub same : (e : ℕ) → (bevs' e).rate_limiting ≡ (bevs e).rate_limiting

Spread-cons :
    (e : ℕ) (es : List ℕ) (w : Way) (x : Bool) (bevs bevs' : ℕ → Bufferevent) (b : Bufferevent)
    → ((v : Way) → group_flag b v ≡ (if same_way v w then x else group_flag (bevs e) v))
    → b.rate_limiting ≡ (bevs e).rate_limiting
    → Spread es w x (update bevs e b) bevs'
    → Spread (e ∷ es) w x bevs bevs'
Spread-cons e es w x bevs bevs' b here kept rest = record {
  flag = λ y v. rest.flag y v ∙ elim (Bool-cases (y == e)) [
    | inl at ↦
        let eq : y ≡ e = (==_iff y e).0 at in
        rw at (ground (arith, here v, ap (λ i. group_flag (bevs i) v) eq))
    | inr off ↦ rw off (ground arith)
  ];
  same = λ y. rest.same y ∙ elim (Bool-cases (y == e)) [
    | inl at ↦ rw at (kept ∙ ap (λ i. (bevs i).rate_limiting) (sym ((==_iff y e).0 at)))
    | inr off ↦ rw off refl
  ];
}

pub suspend_all-Spread :
    (es : List ℕ) (w : Way) (bevs : ℕ → Bufferevent) → Spread es w true bevs (suspend_all es bevs w)
unfolding suspend_all suspend
suspend_all-Spread [] w bevs = record { flag = λ e v. refl; same = λ e. refl }
suspend_all-Spread (e ∷ es) w bevs =
    let b = suspend (bevs e) w by_group in
    Spread-cons e es w true bevs (suspend_all es (update bevs e b) w) b (suspend_flag (bevs e) w)
      refl (suspend_all-Spread es w (update bevs e b))

pub unsuspend_all-Spread :
    (es : List ℕ) (w : Way) (bevs : ℕ → Bufferevent)
    → Spread es w false bevs (unsuspend_all es bevs w)
unfolding unsuspend_all unsuspend
unsuspend_all-Spread [] w bevs = record { flag = λ e v. refl; same = λ e. refl }
unsuspend_all-Spread (e ∷ es) w bevs =
    let b = unsuspend (bevs e) w by_group in
    Spread-cons e es w false bevs (unsuspend_all es (update bevs e b) w) b
      (unsuspend_flag (bevs e) w) refl (unsuspend_all-Spread es w (update bevs e b))

-- Whatever the member is that it starts with, a pass meets each of them.
pub occurs-random_order :
    (which e : ℕ) (es : List ℕ) → occurs e (random_order which es) ≡ occurs e es
occurs-random_order which e es =
    occurs-append e (drop which es) (take which es)
    ∙ omega (
      arith,
      occurs-append e (take which es) (drop which es),
      ap (occurs e) (take-append-drop which es),
    )
