-- ===== src/Signal/Plan/Whole.antt =====
-- All of Emit (ks/KsSignal.hpp) does what is planned.
use native.Mathlib.Nat.{zero-add}
use ks_core.Base.{
  ℕ, ◌+◌, ◌^◌, ◌<◌, ◌≡◌, ◌≢◌, refl, ap, ◌∙◌, Bool, Option, none, some, List, [], ◌∷◌, arith, length,
  All, inl, inr,
}
use ks_core.Host.{Host, Error, Result, ok, threw, Result-cases}
use ks_core.Signal.{blocking, UnmanagedConnection, Signal}
use ks_core.Signal.Expiry.{dead, remove_expired-living}
use ks_core.Signal.Emit.{Progress, returned, thrown, emit_unmanaged, emit_managed, after_walk, emit}
use ks_core.Signal.Plan.{
  Steady, Plan, before_ok, before_threw, invocation, plan_managed, plan_unmanaged, plan, effects,
  walk_of, ending,
}
use ks_core.Signal.Plan.Managed.{
  effects-append, effects-alive, effects-loop, invoked, managed_planned,
}

module _ {A B W : Type 0} (h : Host B W) (q : Steady h) (self : ℕ) (args : A) where
  module _ (s : Signal A B) (alive : ℕ → Bool) (loop : ℕ → ℕ)
      (others : All (λ c. c.type ≢ blocking) s.managed) (few : length s.managed < 2 ^ 32) where
    abbrev rest : Plan B
    rest = plan_managed q.outcome alive loop args s.managed

    abbrev after_unmanaged : W × Result → W × Progress A B
    after_unmanaged p = elim p.1 [
      | ok ↦ after_walk h self args s (emit_managed h self args s.managed 0 p.0)
      | threw e ↦ (p.0, thrown e)
    ]

    removed :
        (w : W) (e : Option Error)
        → h.alive w ≡ alive
        → after_walk h self args s (w, walk_of (0 + dead alive s.managed) e) ≡ (w, ending alive s e)
    unfolding after_walk
    removed w none a =
        ap (λ t. (w, returned t)) (rw zero-add (remove_expired-living h self args alive s w a))
    removed w (some e) a = refl

    -- The loop over the managed connections, and the removal behind it.
    managed_ends :
        (w : W)
        → h.alive w ≡ alive
        → h.event_loop w ≡ loop
        → after_walk h self args s (emit_managed h self args s.managed 0 w)
          ≡ (effects h rest.0 w, ending alive s rest.1)
    managed_ends w a l =
        ap (after_walk h self args s)
          (managed_planned h q self args alive loop s.managed 0 w a l others (omega arith))
        ∙ removed (effects h rest.0 w) rest.1 (effects-alive h q self args rest.0 w ∙ a)

    unmanaged_ends :
        (us : List (UnmanagedConnection A B)) (w : W)
        → h.alive w ≡ alive
        → h.event_loop w ≡ loop
        → let p = plan_unmanaged q.outcome alive loop args rest us in
          after_unmanaged (emit_unmanaged h self args us w) ≡ (effects h p.0 w, ending alive s p.1)
    unfolding emit_unmanaged
    unmanaged_ends [] w a l = managed_ends w a l
    unmanaged_ends (u ∷ us) w a l =
        let i = invocation q.outcome alive loop args u.fn in
        let p = plan_unmanaged q.outcome alive loop args rest us in
        let e = invoked h q self args alive loop u.fn w a in
        elim (Result-cases i.1) [
          | inl k ↦
              rw
                (
                  ap (λ r. r.1) e ∙ k,
                  before_ok q.outcome alive loop args i p k,
                  effects-append h q self args i.0 p.0 w,
                  emit_unmanaged,
                )
                (ap (λ r. after_unmanaged (emit_unmanaged h self args us r.0)) e
                  ∙ unmanaged_ends us (effects h i.0 w) (effects-alive h q self args i.0 w ∙ a)
                      (effects-loop h q self args i.0 w ∙ l))
          | inr (x, k) ↦
              rw
                (
                  ap (λ r. r.1) e ∙ k,
                  before_threw q.outcome alive loop args x i p k,
                  emit_unmanaged,
                )
                (ap (λ r. (r.0, thrown x)) e)
        ]

  -- Where user code leaves objects and loops alone, but may throw, and no connection is blocking,
  -- Emit does what is planned of the connections at its start, in that order, and nothing else: a
  -- call of each unmanaged connection, and for each managed connection with a living context a call
  -- or an event in its loop's queue, up to the first call that throws. If none throws, Emit returns,
  -- and the connections with dead contexts are gone; else it throws that exception.
  pub emit-plan :
      (s : Signal A B) (w : W)
      → All (λ c. c.type ≢ blocking) s.managed
      → length s.managed < 2 ^ 32
      → let p = plan q.outcome (h.alive w) (h.event_loop w) args s in
        emit h self args s w ≡ (effects h p.0 w, ending (h.alive w) s p.1)
  unfolding emit
  emit-plan s w others few =
      unmanaged_ends s (h.alive w) (h.event_loop w) others few s.unmanaged w refl refl
