-- ===== src/RateLimit/Agreement.antt =====
-- The bufferevents of a group and the group agree: who is a member, how many, and for which ways the
-- group is suspended.
use swift_event.Base.{
  ℕ, ◌≡◌, ◌≢◌, inl, inr, refl, sym, ap, subst, ◌∙◌, Bool, true, false, not, ◌&&◌, ◌||◌, Option,
  none, some, List, length, ◌==◌, ==_iff, if◌then◌else◌, update, update_all, to_ℕ, occurs, by_if,
  Bool-cases, arith,
}
use swift_event.Base.Int.{ℤ, pos, ltb_ℤ}
use swift_event.RateLimit.{
  bucket_decrement, Way, reading, writing, same_way, bucket_update, get_tick,
}
use swift_event.RateLimit.Suspend.{RateLimiting, set_way}
use swift_event.RateLimit.Groups.{
  Group, Limits, set_group, random_order, group_suspend, group_unsuspend, go_on_after, group_refill,
  charged, charge_group, group_decrement,
}
use swift_event.RateLimit.Limiting.{is_same, is_positive}
use swift_event.RateLimit.Spread.{
  group_flag, Spread, suspend_all-Spread, unsuspend_all-Spread, occurs-random_order,
}

-- Whether a bufferevent is in the group `g`
abbrev pub is_in : Option RateLimiting → ℕ → Bool
is_in none g = false
is_in (some r) g = is_same r.group g

pub record IsAgreed (l : Limits) : Type 0 where
  pub members : (e g : ℕ) → occurs e (l.groups g).members ≡ to_ℕ (is_in (l.bevs e).rate_limiting g)
  pub flags :
      (e g : ℕ) (w : Way)
      → is_in (l.bevs e).rate_limiting g ≡ true
      → group_flag (l.bevs e) w ≡ (l.groups g).suspended w
  pub alone :
      (e : ℕ) (w : Way)
      → ((g : ℕ) → is_in (l.bevs e).rate_limiting g ≡ false)
      → group_flag (l.bevs e) w ≡ false
  pub count : (g : ℕ) → (l.groups g).n_members ≡ pos (length (l.groups g).members)

same_group : (o : Option ℕ) (g h : ℕ) → is_same o g ≡ true → is_same o h ≡ true → g ≡ h
same_group none g h p q = absurd (cc p)
same_group (some x) g h p q = ground (arith, p, q)

only_group : (o : Option RateLimiting) (g h : ℕ) → is_in o g ≡ true → is_in o h ≡ true → g ≡ h
only_group none g h p q = absurd (cc p)
only_group (some r) g h p q = same_group r.group g h p q

-- A group becomes suspended for a way, or is no more, and its members with it; what the groups keep of
-- their members stays.
record Follows (g : ℕ) (w : Way) (x : Bool) (l l' : Limits) : Type 0 where
  spread :
      (es : List ℕ) × Spread es w x l.bevs l'.bevs
      × ((e : ℕ) → occurs e es ≡ occurs e (l.groups g).members)
  members : (h : ℕ) → (l'.groups h).members ≡ (l.groups h).members
  n_members : (h : ℕ) → (l'.groups h).n_members ≡ (l.groups h).n_members
  suspended :
      (h : ℕ) (v : Way)
      → (l'.groups h).suspended v ≡ (if h == g && same_way v w then x else (l.groups h).suspended v)

Follows-IsAgreed :
    (g : ℕ) (w : Way) (x : Bool) (l l' : Limits) → Follows g w x l l' → IsAgreed l → IsAgreed l'
Follows-IsAgreed g w x l l' f v =
    let (es, spread, all) = f.spread in
    record {
      members = λ e h.
          ap (occurs e) (f.members h)
          ∙ v.members e h
          ∙ ap (λ o. to_ℕ (is_in o h)) (sym (spread.same e));
      flags = λ e h u there.
          let here = ap (λ o. is_in o h) (sym (spread.same e)) ∙ there in
          let listed = all e ∙ v.members e g in
          spread.flag e u ∙ elim (Bool-cases (h == g)) [
            | inl at ↦
                let it : is_in (l.bevs e).rate_limiting g ≡ true =
                  subst (λ i. is_in (l.bevs e).rate_limiting i ≡ true) ((==_iff h g).0 at) here in
                ground (arith, listed, it, at, v.flags e h u here, f.suspended h u)
            | inr off ↦
                let out : is_in (l.bevs e).rate_limiting g ≢ true =
                  λ it. ground (arith, off, only_group (l.bevs e).rate_limiting h g here it) in
                ground (arith, listed, out, off, v.flags e h u here, f.suspended h u)
          ];
      alone = λ e u out.
          let before : (h : ℕ) → is_in (l.bevs e).rate_limiting h ≡ false =
            λ h. ap (λ o. is_in o h) (sym (spread.same e)) ∙ out h in
          let listed = all e ∙ v.members e g in
          spread.flag e u ∙ ground (arith, listed, before g, v.alone e u before);
      count = λ h. f.n_members h ∙ v.count h ∙ ap (λ es. pos (length es)) (sym (f.members h));
    }

-- The pieces of a group that do not matter here
pub kept_fields :
    {A : Type 0} (f : Group → A) (l : Limits) (g : ℕ) (x : Group)
    → f x ≡ f (l.groups g)
    → (h : ℕ) → f (update l.groups g x h) ≡ f (l.groups h)
kept_fields f l g x same = update_all l.groups g x (λ a b. f b ≡ f a) (λ a. refl) same

way_fields :
    (l : Limits) (g : ℕ) (w : Way) (x : Bool) (y : Group)
    → y.suspended ≡ set_way (l.groups g).suspended w x
    → (h : ℕ) (v : Way)
    → (update l.groups g y h).suspended v
      ≡ (if h == g && same_way v w then x else (l.groups h).suspended v)
way_fields l g w x y set h v = elim (Bool-cases (h == g)) [
  | inl at ↦ rw at (
      ap (λ (f : Way → Bool). f v) set
      ∙ ap (λ i. if same_way v w then x else (l.groups i).suspended v) (sym ((==_iff h g).0 at)))
  | inr off ↦ rw off refl
]

group_suspend-IsAgreed :
    (l : Limits) (g : ℕ) (w : Way) → IsAgreed l → IsAgreed (group_suspend l g w)
unfolding group_suspend
group_suspend-IsAgreed l g w = Follows-IsAgreed g w true l (group_suspend l g w) (record {
  spread = ((l.groups g).members, suspend_all-Spread (l.groups g).members w l.bevs, λ e. refl);
  members = kept_fields (λ x. x.members) l g _ refl;
  n_members = kept_fields (λ x. x.n_members) l g _ refl;
  suspended = way_fields l g w true _ refl;
})

group_unsuspend-IsAgreed :
    (l : Limits) (g : ℕ) (w : Way) (which : ℕ) → IsAgreed l → IsAgreed (group_unsuspend l g w which)
unfolding group_unsuspend
group_unsuspend-IsAgreed l g w which =
    let es = random_order which (l.groups g).members in
    Follows-IsAgreed g w false l (group_unsuspend l g w which) (record {
      spread = (
        es,
        unsuspend_all-Spread es w l.bevs,
        λ e. occurs-random_order which e (l.groups g).members,
      );
      members = kept_fields (λ x. x.members) l g _ refl;
      n_members = kept_fields (λ x. x.n_members) l g _ refl;
      suspended = way_fields l g w false _ refl;
    })

-- A group with another limit or total agrees as before.
charged-IsAgreed :
    (l : Limits) (g : ℕ) (x : Group)
    → x.members ≡ (l.groups g).members
    → x.n_members ≡ (l.groups g).n_members
    → x.suspended ≡ (l.groups g).suspended
    → IsAgreed l
    → IsAgreed (set_group l g x)
charged-IsAgreed l g x members n suspended v =
    let same = kept_fields (λ x. x.members) l g x members in
    record {
      members = λ e h. ap (occurs e) (same h) ∙ v.members e h;
      flags = λ e h w there.
          v.flags e h w there
          ∙ sym (ap (λ (f : Way → Bool). f w) (kept_fields (λ x. x.suspended) l g x suspended h));
      alone = v.alone;
      count = λ h.
          kept_fields (λ x. x.n_members) l g x n h
          ∙ v.count h
          ∙ ap (λ es. pos (length es)) (sym (same h));
    }

-- Reading and writing by the members of a group leaves the group and its members in agreement.
pub charge_group-IsAgreed :
    (l : Limits) (g : ℕ) (w : Way) (bytes : ℤ) (which : ℕ)
    → IsAgreed l
    → IsAgreed (charge_group l g w bytes which)
unfolding charge_group
charge_group-IsAgreed l g w bytes which v =
    let x = charged (l.groups g) w bytes in
    let l' = set_group l g x in
    let v' = charged-IsAgreed l g x refl refl refl v in
    by_if IsAgreed (not (is_positive (x.rate_limit.limit w)))
      (λ spent. group_suspend-IsAgreed l' g w v')
      λ left.
        by_if IsAgreed (x.suspended w) (λ back. group_unsuspend-IsAgreed l' g w which v') λ same. v'

go_on_after-IsAgreed :
    (l : Limits) (g : ℕ) (w : Way) (which : ℕ) → IsAgreed l → IsAgreed (go_on_after l g w which)
go_on_after-IsAgreed l g w which v =
    let x = l.groups g in
    by_if IsAgreed
      (x.pending_unsuspend w
        || (x.suspended w && not (ltb_ℤ (x.rate_limit.limit w) (pos x.min_share))))
      (λ on. group_unsuspend-IsAgreed l g w which v) λ off. v

-- So does the tick of the group.
pub group_refill-IsAgreed :
    (l : Limits) (g which_read which_write : ℕ)
    → IsAgreed l
    → IsAgreed (group_refill l g which_read which_write)
unfolding group_refill
group_refill-IsAgreed l g which_read which_write v =
    let x = l.groups g in
    let bucket =
      (bucket_update x.rate_limit x.rate_limit_cfg (get_tick l.now x.rate_limit_cfg)).1 in
    let x' = record x { rate_limit = bucket } in
    let l' = set_group l g x' in
    go_on_after-IsAgreed (go_on_after l' g reading which_read) g writing which_write
      (go_on_after-IsAgreed l' g reading which_read (charged-IsAgreed l g x' refl refl refl v))

-- And a spending by hand
pub group_decrement-IsAgreed :
    (l : Limits) (g : ℕ) (w : Way) (decr : ℤ) (which : ℕ)
    → IsAgreed l
    → IsAgreed (group_decrement l g w decr which)
unfolding group_decrement
group_decrement-IsAgreed l g w decr which v =
    let x = l.groups g in
    let x' = record x { rate_limit = bucket_decrement x.rate_limit w decr } in
    let had = is_positive (x.rate_limit.limit w) in
    let has = is_positive (x'.rate_limit.limit w) in
    let l' = set_group l g x' in
    let v' = charged-IsAgreed l g x' refl refl refl v in
    by_if IsAgreed (had && not has) (λ spent. group_suspend-IsAgreed l' g w v')
      λ same.
        by_if IsAgreed (not had && has) (λ back. group_unsuspend-IsAgreed l' g w which v')
          λ other. v'
