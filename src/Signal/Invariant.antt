-- ===== src/Signal/Invariant.antt =====
-- What `Emit` keeps (ks/KsSignal.hpp): whatever posting, flags and user code keep.
use ks_core.Base.{ℕ, List, [], ◌∷◌, ◌==◌, Bool-cases, Option-cases, inl, inr, ◌+◌, ◌%◌, ◌^◌}
use ks_core.Event.{Callback, slot_event, blocking_slot_event}
use ks_core.Host.{Host, ok, threw, call, Result-cases}
use ks_core.Signal.{Function, ManagedConnection, UnmanagedConnection, Signal, ConnectionType-cases}
use ks_core.Signal.Emit.{
  Walk, at_end, waits, fails, bind, direct_invoke, emit_unmanaged, emit_managed, after_walk, emit,
  resume,
}

-- A predicate on the rest of the program that outlasts what `Emit` does to it.
pub record IsKept {B W : Type 0} (h : Host B W) (P : W → Type 0) : Type 0 where
  pub kept_run : (b : B) (w : W) → P w → P (h.run b w).0
  pub kept_slot : (l : ℕ) (c : Callback B) (w : W) → P w → P (h.post_event l (slot_event c) w)
  pub kept_blocking :
      (l f : ℕ) (c : Callback B) (w : W) → P w → P (h.post_event l (blocking_slot_event c f) w)
  pub kept_flag : (w : W) → P w → P (h.new_flag w).0

module _ {A B W : Type 0} (h : Host B W) (P : W → Type 0) (kept : IsKept h P) (self : ℕ)
    (args : A) where
  pub call-keeps : (c : Callback B) (w : W) → P w → P (call h c w).0
  unfolding call
  call-keeps c w p = elim (Option-cases c.guard) [
    | inl e ↦ rw (e, call) (kept.kept_run c.body w p)
    | inr (o, e) ↦ elim (Bool-cases (h.alive w o)) [
      | inl live ↦ rw (e, call) (rw live (kept.kept_run c.body w p))
      | inr gone ↦ rw (e, call) (rw gone p)
    ]
  ]

  direct_invoke-keeps : (fn : Function A B) (w : W) → P w → P (direct_invoke h self args fn w).0
  unfolding direct_invoke
  direct_invoke-keeps fn w p = call-keeps (bind fn args) w p

  emit_unmanaged-keeps :
      (cs : List (UnmanagedConnection A B)) (w : W) → P w → P (emit_unmanaged h self args cs w).0
  unfolding emit_unmanaged
  emit_unmanaged-keeps [] w p = p
  emit_unmanaged-keeps (c ∷ cs) w p =
      let called = direct_invoke-keeps c.fn w p in
      elim (Result-cases (direct_invoke h self args c.fn w).1) [
        | inl r ↦ rw (r, emit_unmanaged) (emit_unmanaged-keeps cs _ called)
        | inr (e, r) ↦ rw (r, emit_unmanaged) called
      ]

  abbrev Holds : W × Walk A B → Type 0
  Holds r = P r.0

  -- A slot that is called at once, and the connections behind it.
  at_once-keeps :
      (c : ManagedConnection A B) (cs : List (ManagedConnection A B)) (n : ℕ) (w : W)
      → P w
      → ((v : W) → P v → P (emit_managed h self args cs n v).0)
      → Holds (elim (direct_invoke h self args c.fn w).1 [
        | ok ↦ emit_managed h self args cs n (direct_invoke h self args c.fn w).0
        | threw e ↦ ((direct_invoke h self args c.fn w).0, fails e)
      ])
  at_once-keeps c cs n w p rest = elim (Result-cases (direct_invoke h self args c.fn w).1) [
    | inl r ↦ rw r (rest _ (direct_invoke-keeps c.fn w p))
    | inr (e, r) ↦ rw r (direct_invoke-keeps c.fn w p)
  ]

  emit_managed-keeps :
      (cs : List (ManagedConnection A B)) (n : ℕ) (w : W)
      → P w
      → P (emit_managed h self args cs n w).0
  unfolding emit_managed
  emit_managed-keeps [] n w p = p
  emit_managed-keeps (c ∷ cs) n w p = elim (Bool-cases (h.alive w c.context)) [
    | inr gone ↦ rw (gone, emit_managed) (emit_managed-keeps cs ((n + 1) % 2 ^ 32) w p)
    | inl live ↦ elim (ConnectionType-cases c.type) [
      | inl t ↦ rw (live, t, emit_managed) (at_once-keeps c cs n w p (emit_managed-keeps cs n))
      | inr (inl t) ↦
          rw (live, t, emit_managed) (emit_managed-keeps cs n _ (kept.kept_slot _ _ w p))
      | inr (inr t) ↦ elim (Bool-cases (h.get_state w (h.event_loop w c.context)).started) [
        | inr off ↦ rw (live, t, off, emit_managed) p
        | inl on ↦
            elim (Bool-cases ((h.get_state w (h.event_loop w c.context)).thread_id == self)) [
              | inl same ↦
                  rw (live, t, on, same, emit_managed)
                    (at_once-keeps c cs n w p (emit_managed-keeps cs n))
              | inr other ↦
                  rw (live, t, on, other, emit_managed)
                    (kept.kept_blocking _ _ _ _ (kept.kept_flag w p))
            ]
      ]
    ]
  ]

  after_walk-keeps : (s : Signal A B) (r : W × Walk A B) → P r.0 → P (after_walk h self args s r).0
  unfolding after_walk
  after_walk-keeps s (w, at_end n) p = p
  after_walk-keeps s (w, waits f cs n) p = p
  after_walk-keeps s (w, fails e) p = p

  pub emit-keeps : (s : Signal A B) (w : W) → P w → P (emit h self args s w).0
  unfolding emit
  emit-keeps s w p =
      let first = emit_unmanaged-keeps s.unmanaged w p in
      elim (Result-cases (emit_unmanaged h self args s.unmanaged w).1) [
        | inl r ↦ rw (r, emit) (after_walk-keeps s _ (emit_managed-keeps s.managed 0 _ first))
        | inr (e, r) ↦ rw (r, emit) first
      ]

  pub resume-keeps :
      (s : Signal A B) (f : ℕ) (cs : List (ManagedConnection A B)) (n : ℕ) (w : W)
      → P w
      → P (resume h self args s f cs n w).0
  unfolding resume
  resume-keeps s f cs n w p = elim (Bool-cases (h.invoked w f)) [
    | inl set ↦ rw (set, resume) (after_walk-keeps s _ (emit_managed-keeps cs n w p))
    | inr unset ↦ rw (unset, resume) p
  ]
