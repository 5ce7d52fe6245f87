-- ===== src/Signal/Plan/Managed.antt =====
-- Emit's loop over the managed connections (ks/KsSignal.hpp) does what is planned.
use native.Mathlib.Nat.{zero-add}
use ks_core.Base.{
  ℕ, ◌+◌, ◌%◌, ◌^◌, ◌<◌, ◌≡◌, ◌≢◌, refl, ap, ◌∙◌, Bool, List, [], ◌∷◌, ◌++◌, arith, length, All,
  Bool-cases, Option-cases, inl, inr,
}
use ks_core.Event.{slot_event}
use ks_core.Host.{Host, call, Result-cases}
use ks_core.Signal.{blocking, Function, ManagedConnection, ConnectionType-cases}
use ks_core.Signal.Expiry.{dead}
use ks_core.Signal.Emit.{bind, at_end, fails, direct_invoke, emit_managed}
use ks_core.Signal.Plan.{
  Steady, Effect, called, posted, before_ok, before_threw, invocation, plan_managed, effect,
  effects, walk_of,
}

module _ {A B W : Type 0} (h : Host B W) (q : Steady h) (self : ℕ) (args : A) where
  pub effects-append :
      (xs ys : List (Effect B)) (w : W) → effects h (xs ++ ys) w ≡ effects h ys (effects h xs w)
  effects-append [] ys w = refl
  effects-append (x ∷ xs) ys w = effects-append xs ys (effect h x w)

  pub effects-alive : (xs : List (Effect B)) (w : W) → h.alive (effects h xs w) ≡ h.alive w
  effects-alive [] w = refl
  effects-alive (called b ∷ xs) w = effects-alive xs _ ∙ q.run_alive b w
  effects-alive (posted l c ∷ xs) w = effects-alive xs _ ∙ q.post_alive l c w

  pub effects-loop : (xs : List (Effect B)) (w : W) → h.event_loop (effects h xs w) ≡ h.event_loop w
  effects-loop [] w = refl
  effects-loop (called b ∷ xs) w = effects-loop xs _ ∙ q.run_loop b w
  effects-loop (posted l c ∷ xs) w = effects-loop xs _ ∙ q.post_loop l c w

  module _ (alive : ℕ → Bool) (loop : ℕ → ℕ) where
    -- A direct call does what is planned for it.
    pub invoked :
        (fn : Function A B) (w : W)
        → h.alive w ≡ alive
        → direct_invoke h self args fn w ≡ (
          effects h (invocation q.outcome alive loop args fn).0 w,
          (invocation q.outcome alive loop args fn).1,
        )
    unfolding direct_invoke call
    invoked fn w a = elim (Option-cases fn.guard) [
      | inl e ↦ rw (e, call) (ap (λ r. ((h.run (fn.slot args) w).0, r)) (q.run_outcome _ w))
      | inr (o, e) ↦ elim (Bool-cases (alive o)) [
        | inl live ↦
            rw (e, ap (λ f. f o) a ∙ live, live, call)
              (ap (λ r. ((h.run (fn.slot args) w).0, r)) (q.run_outcome _ w))
        | inr gone ↦ rw (e, ap (λ f. f o) a ∙ gone, gone, call) refl
      ]
    ]

    pub managed_planned :
        (cs : List (ManagedConnection A B)) (n : ℕ) (w : W)
        → h.alive w ≡ alive
        → h.event_loop w ≡ loop
        → All (λ c. c.type ≢ blocking) cs
        → n + length cs < 2 ^ 32
        → emit_managed h self args cs n w ≡ (
          effects h (plan_managed q.outcome alive loop args cs).0 w,
          walk_of (n + dead alive cs) (plan_managed q.outcome alive loop args cs).1,
        )
    unfolding emit_managed
    managed_planned [] n w a l g m = ap (λ k. (w, at_end k)) (omega arith)
    managed_planned (c ∷ cs) n w a l g m = elim (Bool-cases (alive c.context)) [
      | inr gone ↦
          rw (ap (λ f. f c.context) a ∙ gone, gone, emit_managed)
            (managed_planned cs ((n + 1) % 2 ^ 32) w a l g.1 (omega arith)
              ∙ ap
                  (λ k. (
                    effects h (plan_managed q.outcome alive loop args cs).0 w,
                    walk_of k (plan_managed q.outcome alive loop args cs).1,
                  ))
                  (omega arith))
      | inl live ↦ elim (ConnectionType-cases c.type) [
        | inl d ↦
            let i = invocation q.outcome alive loop args c.fn in
            let rest = plan_managed q.outcome alive loop args cs in
            let e = invoked c.fn w a in
            elim (Result-cases i.1) [
              | inl k ↦
                  rw
                    (
                      ap (λ f. f c.context) a ∙ live,
                      live,
                      d,
                      ap (λ p. p.1) e ∙ k,
                      before_ok q.outcome alive loop args i rest k,
                      zero-add,
                      effects-append i.0 rest.0 w,
                      emit_managed,
                    )
                    (ap (λ p. emit_managed h self args cs n p.0) e
                      ∙ managed_planned cs n (effects h i.0 w) (effects-alive i.0 w ∙ a)
                          (effects-loop i.0 w ∙ l) g.1 (omega arith))
              | inr (x, k) ↦
                  rw
                    (
                      ap (λ f. f c.context) a ∙ live,
                      live,
                      d,
                      ap (λ p. p.1) e ∙ k,
                      before_threw q.outcome alive loop args x i rest k,
                      emit_managed,
                    )
                    (ap (λ p. (p.0, fails x)) e)
            ]
        | inr (inl d) ↦
            rw
              (
                ap (λ f. f c.context) a ∙ live,
                live,
                d,
                zero-add,
                ap (λ f. f c.context) l,
                emit_managed,
              )
              (managed_planned cs n (h.post_event (loop c.context) (slot_event (bind c.fn args)) w)
                (q.post_alive _ _ w ∙ a) (q.post_loop _ _ w ∙ l) g.1 (omega arith))
        | inr (inr d) ↦ absurd (g.0 d)
      ]
    ]
