-- ===== src/Signal/Waiting.antt =====
-- Where the loop of Emit over the managed connections (ks/KsSignal.hpp) stops to wait.
use mathlib.Core.List.{append_assoc}
use ks_core.Base.{
  ℕ, ◌+◌, ◌%◌, ◌^◌, ◌≡◌, ◌≢◌, refl, sym, ◌∙◌, true, List, [], ◌∷◌, ◌++◌, arith, ◌==◌, Bool-cases,
  inl, inr,
}
use ks_core.Event.{blocking_slot_event}
use ks_core.Host.{Host, ok, threw, Result-cases}
use ks_core.Signal.{blocking, ManagedConnection, ConnectionType-cases}
use ks_core.Signal.Emit.{bind, Walk, at_end, waits, fails, direct_invoke, emit_managed}

module _ {A B W : Type 0} (h : Host B W) (self : ℕ) (args : A) where
  -- Where the walk over the connections `all` stops to wait: for the event of one of them, `c`, that
  -- it has just put into the queue of a loop that has been started, by another thread, with a
  -- fresh flag. The connections behind `c` are still to come.
  abbrev pub WaitsFor : List (ManagedConnection A B) → W × Walk A B → Type 0
  WaitsFor all (w, waits flag cs n) =
      (before : List (ManagedConnection A B)) × (c : ManagedConnection A B) × (v : W) × (all
        ≡ before ++ c ∷ cs)
      × (c.type ≡ blocking)
      × (h.alive v c.context ≡ true)
      × ((h.get_state v (h.event_loop v c.context)).started ≡ true)
      × ((h.get_state v (h.event_loop v c.context)).thread_id ≢ self)
      × (flag ≡ (h.new_flag v).1)
      × (w
          ≡ h.post_event (h.event_loop v c.context) (blocking_slot_event (bind c.fn args) flag)
              (h.new_flag v).0)
  WaitsFor all (w, at_end n) = Unit {0}
  WaitsFor all (w, fails e) = Unit {0}

  -- A slot that is called at once leaves the waiting to the connections behind it.
  at_once :
      (all : List (ManagedConnection A B)) (c : ManagedConnection A B)
      (cs : List (ManagedConnection A B)) (n : ℕ) (w : W)
      → WaitsFor all (emit_managed h self args cs n (direct_invoke h self args c.fn w).0)
      → WaitsFor all (elim (direct_invoke h self args c.fn w).1 [
        | ok ↦ emit_managed h self args cs n (direct_invoke h self args c.fn w).0
        | threw e ↦ ((direct_invoke h self args c.fn w).0, fails e)
      ])
  at_once all c cs n w rest = elim (Result-cases (direct_invoke h self args c.fn w).1) [
    | inl r ↦ rw r rest
    | inr (e, r) ↦ rw r tt
  ]

  pub behind :
      {all : List (ManagedConnection A B)} (before : List (ManagedConnection A B))
      (c : ManagedConnection A B) (cs : List (ManagedConnection A B))
      → all ≡ before ++ c ∷ cs
      → all ≡ (before ++ c ∷ []) ++ cs
  behind before c cs e = e ∙ sym (append_assoc before (c ∷ []) cs)

  pub emit_managed-WaitsFor :
      (all before cs : List (ManagedConnection A B)) (n : ℕ) (w : W)
      → all ≡ before ++ cs
      → WaitsFor all (emit_managed h self args cs n w)
  unfolding emit_managed
  emit_managed-WaitsFor all before [] n w e = tt
  emit_managed-WaitsFor all before (c ∷ cs) n w e =
      let rest = λ (m : ℕ) (v : W).
        emit_managed-WaitsFor all (before ++ c ∷ []) cs m v (behind before c cs e) in
      elim (Bool-cases (h.alive w c.context)) [
        | inr gone ↦ rw (gone, emit_managed) (rest ((n + 1) % 2 ^ 32) w)
        | inl live ↦ elim (ConnectionType-cases c.type) [
          | inl t ↦ rw (live, t, emit_managed) (at_once all c cs n w (rest n _))
          | inr (inl t) ↦ rw (live, t, emit_managed) (rest n _)
          | inr (inr t) ↦ elim (Bool-cases (h.get_state w (h.event_loop w c.context)).started) [
            | inr off ↦ rw (live, t, off, emit_managed) tt
            | inl on ↦
                elim (Bool-cases ((h.get_state w (h.event_loop w c.context)).thread_id == self)) [
                  | inl same ↦
                      rw (live, t, on, same, emit_managed) (at_once all c cs n w (rest n _))
                  | inr other ↦
                      rw (live, t, on, other, emit_managed)
                        (before, c, w, e, t, live, on, ground arith, refl, refl)
                ]
          ]
        ]
      ]
