-- ===== src/EventBase/Fuel.antt =====
-- The fuel of event_base_loop: more of it never changes a result.
use swift_event.Base.{
  ℕ, zero, suc, ◌+◌, ◌≡◌, refl, ap, ◌∙◌, arith, Bool, true, false, not, ◌&&◌, ◌||◌, Option, none,
  some, if◌then◌else◌,
}
use swift_event.Base.Int.{ℤ, pos, negsuc, eqb_ℤ}
use swift_event.Time.{Timeval}
use swift_event.EvMap.{Eventop}
use swift_event.EventBase.{EventBase, make_later_events_active}
use swift_event.EventBase.Loop.{timeout_process}
use swift_event.EventBase.Process.{process_active}
use swift_event.EventBase.Serve.{
  LoopFlags, has_active, reset, wait_for, nothing_to_do, after_active, stopped, serve_active, serve,
  base_loop,
}

-- One optional value has the result that another has, if that has one.
abbrev Extends {ℓ} : {A : Type ℓ} → Option A → Option A → Type ℓ
Extends {A = A} x y = (r : A) → x ≡ some r → y ≡ some r

Extends-if {ℓ} :
    {A : Type ℓ} {x x' y y' : Option A} (t : Bool)
    → Extends x x'
    → Extends y y'
    → Extends (if t then x else y) (if t then x' else y')
Extends-if true p q = p
Extends-if false p q = q

module _ (E : Eventop) (callback : ℕ → EventBase E → EventBase E)
    (dispatch : Option Timeval → EventBase E → ℤ × EventBase E) (flags : LoopFlags)
    (rounds : ℕ) where
  abbrev Next : Type 0
  Next = EventBase E → Option (ℤ × EventBase E)

  after-Extends :
      (o : Option (ℤ × EventBase E)) (next next' : Next)
      → ((b : EventBase E) → Extends (next b) (next' b))
      → Extends (after_active E flags o next) (after_active E flags o next')
  after-Extends none next next' more = λ r at. at
  after-Extends (some (n, b)) next next' more =
      Extends-if (flags.once && (not (has_active E b) && not (eqb_ℤ n (pos 0)))) (λ r at. at)
        (more b)

  active-Extends :
      (b : EventBase E) (next next' : Next)
      → ((b : EventBase E) → Extends (next b) (next' b))
      → Extends
          (serve_active E callback flags rounds b next)
          (serve_active E callback flags rounds b next')
  unfolding serve_active
  active-Extends b next next' more =
      Extends-if (has_active E b)
        (after-Extends (process_active E callback rounds b) next next' more)
        (Extends-if flags.nonblock (λ r at. at) (more b))

  serve-Extends :
      (fuel : ℕ) (b : EventBase E)
      → Extends
          (serve E callback dispatch flags rounds fuel b)
          (serve E callback dispatch flags rounds (suc fuel) b)
  unfolding serve
  serve-Extends zero b = λ r at. absurd (cc at)
  serve-Extends (suc fuel) b =
      let b' = reset E b in
      let d = dispatch (wait_for E flags b') (make_later_events_active E b') in
      Extends-if (b'.event_gotterm || b'.event_break) (λ r at. at)
        (Extends-if (nothing_to_do E flags b') (λ r at. at)
          (Extends-if (eqb_ℤ d.0 (negsuc 0)) (λ r at. at)
            (active-Extends (timeout_process E d.1) _ _ (serve-Extends fuel))))

  stopped-Extends :
      (x y : Option (ℤ × EventBase E)) → Extends x y → Extends (stopped E x) (stopped E y)
  stopped-Extends none y more = λ r at. absurd (cc at)
  stopped-Extends (some q) y more = λ r at. ap (stopped E) (more q refl) ∙ at

  loop-Extends :
      (fuel : ℕ) (b : EventBase E)
      → Extends
          (base_loop E callback dispatch flags rounds fuel b)
          (base_loop E callback dispatch flags rounds (suc fuel) b)
  unfolding base_loop
  loop-Extends fuel b =
      Extends-if b.running_loop (λ r at. at) (stopped-Extends _ _ (serve-Extends fuel _))

  more_fuel :
      (more fuel all : ℕ) (b : EventBase E)
      → all ≡ more + fuel
      → Extends
          (base_loop E callback dispatch flags rounds fuel b)
          (base_loop E callback dispatch flags rounds all b)
  more_fuel zero fuel all b e r at =
      ap (λ n. base_loop E callback dispatch flags rounds n b) (omega (arith, e)) ∙ at
  more_fuel (suc more) fuel zero b e r at = absurd (omega (arith, e))
  more_fuel (suc more) fuel (suc all) b e r at =
      loop-Extends all b r (more_fuel more fuel all b (omega (arith, e)) r at)

  -- A result of event_base_loop is the result with any more fuel for its rounds.
  pub base_loop_more :
      (more fuel : ℕ) (b : EventBase E) (r : ℤ × EventBase E)
      → base_loop E callback dispatch flags rounds fuel b ≡ some r
      → base_loop E callback dispatch flags rounds (more + fuel) b ≡ some r
  base_loop_more more fuel b r = more_fuel more fuel (more + fuel) b refl r
