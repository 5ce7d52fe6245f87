-- ===== src/Signal/Mutex/Iteration.antt =====
-- Emit (ks/KsSignal.hpp) goes over vectors that nobody changes meanwhile.
use ks_core.Base.{
  ℕ, Bool, true, false, some, List, [], ◌∷◌, update, update_self, ◌==◌, ==_iff, ◌≡◌, ◌⊎◌, inl, inr,
  refl, sym, ap, ◌∙◌, arith, Bool-cases,
}
use ks_core.Signal.Mutex.{
  default_mutex, can_lock, Frame, asks, holds, walks, in_slot, leaves, State, Step, calls,
  slot_calls, locks, runs, begins, enters, passes, returns, throws, expires, unlocks, Run, start,
}
use ks_core.Signal.Mutex.Exclusion.{fits, has_mutex, Inv, mine, owns-some, reached-Inv}

some_inj : (a b : ℕ) → some a ≡ some b → a ≡ b
some_inj a b e = cc

module _ {A B : Type 0} where
  -- The thread is between the first and the last connection of an Emit, or in one of its slots.
  abbrev pub emitting : List (Frame A B) → Bool
  emitting (walks n ∷ fs) = true
  emitting (in_slot n ∷ fs) = true
  emitting (asks m ∷ in_slot n ∷ fs) = true
  emitting _ = false

  pub emitting_owns :
      (own : Bool) (fs : List (Frame A B)) → fits own fs ≡ true → emitting fs ≡ true → own ≡ true
  emitting_owns own [] e on = cc
  emitting_owns own (asks m ∷ []) e on = cc
  emitting_owns own (holds m ∷ []) e on = cc
  emitting_owns own (walks n ∷ []) e on = e
  emitting_owns own (in_slot n ∷ []) e on = e
  emitting_owns own (leaves ∷ []) e on = cc
  emitting_owns own (f ∷ g ∷ []) e on = ground (arith, e)
  emitting_owns own (f ∷ g ∷ h ∷ fs) e on = cc

  pub emitter_owns :
      (i : ℕ) (s : State A B) → Inv s → emitting (s.stack i) ≡ true → s.owner ≡ some i
  emitter_owns i s v on = owns-some s.owner i (emitting_owns _ (s.stack i) (v.each i) on)

  -- Nobody locks the mutex of an Emit that goes on, and only the emitter itself has a call with it.
  pub shut : (i : ℕ) (s : State A B) → Inv s → s.owner ≡ some i → can_lock s.mutex s.owner ≡ false
  shut i s v e = rw (v.default, e) refl

  pub only :
      (i j : ℕ) (f : Frame A B) (fs : List (Frame A B)) (s : State A B)
      → Inv s
      → s.owner ≡ some i
      → s.stack j ≡ f ∷ fs
      → has_mutex f ≡ true
      → (j ≡ i) × (fs ≡ [])
  only i j f fs s v e at h =
      let (own, alone) = mine j f fs s v at h in (some_inj _ _ (sym own ∙ e), alone)

  -- Thread `i` is still in its Emit, or its stack was replaced by one that is in an Emit.
  goes_on :
      (i j : ℕ) (fs : List (Frame A B)) (s t : State A B)
      → t.stack ≡ update s.stack j fs
      → emitting fs ≡ true
      → emitting (s.stack i) ≡ true
      → emitting (t.stack i) ≡ true
  goes_on i j fs s t e new old =
      rw e (elim (Bool-cases (j == i)) [ inl eq ↦ rw eq new | inr ne ↦ rw ne old ])

  gone :
      (i j : ℕ) (f : Frame A B) (fs : List (Frame A B)) (s t : State A B)
      → Inv s
      → emitting (s.stack i) ≡ true
      → s.stack j ≡ f ∷ fs
      → has_mutex f ≡ true
      → t.stack ≡ update s.stack j (leaves ∷ fs)
      → t.stack i ≡ leaves ∷ []
  gone i j f fs s t v on at h e =
      let (eq, alone) = only i j f fs s v (emitter_owns i s v on) at h in
      rw (e, alone, eq) (update_self s.stack i (leaves ∷ []))

  -- A call that has the mutex is the emitter's own, and so in its loops.
  at_emitter :
      (i j : ℕ) (f : Frame A B) (fs : List (Frame A B)) (s : State A B)
      → Inv s
      → emitting (s.stack i) ≡ true
      → s.stack j ≡ f ∷ fs
      → has_mutex f ≡ true
      → emitting (f ∷ fs) ≡ true
  at_emitter i j f fs s v on at h =
      let (eq, alone) = only i j f fs s v (emitter_owns i s v on) at h in
      ap emitting (sym at ∙ ap s.stack eq) ∙ on

  abbrev Outcome : ℕ → State A B → State A B → Type 0
  Outcome i s t =
      ((t.signal ≡ s.signal) × (emitting (t.stack i) ≡ true)) ⊎ (t.stack i ≡ leaves ∷ [])

  step_fixed :
      (i : ℕ) (s t : State A B) → Inv s → emitting (s.stack i) ≡ true → Step s t → Outcome i s t
  step_fixed i s t v on (calls j m e k) = elim (Bool-cases (j == i)) [
    | inl eq ↦ absurd (cc (sym on ∙ ap emitting (ap s.stack (sym ((==_iff j i).0 eq)) ∙ e)))
    | inr ne ↦ inl (ap (λ x. x.signal) k, rw (ap (λ x. x.stack) k, ne) on)
  ]
  step_fixed i s t v on (slot_calls j n m fs e k) =
      inl (ap (λ x. x.signal) k, goes_on i j _ s t (ap (λ x. x.stack) k) refl on)
  step_fixed i s t v on (locks j m fs e free k) =
      absurd (cc (sym free ∙ shut i s v (emitter_owns i s v on)))
  step_fixed i s t v on (runs j m fs e plain k) = absurd (cc (at_emitter i j _ fs s v on e refl))
  step_fixed i s t v on (begins j args fs e k) = absurd (cc (at_emitter i j _ fs s v on e refl))
  step_fixed i s t v on (enters j n fs c e at ne k) =
      inl (ap (λ x. x.signal) k, goes_on i j _ s t (ap (λ x. x.stack) k) refl on)
  step_fixed i s t v on (passes j n fs c e at k) =
      inl (ap (λ x. x.signal) k, goes_on i j _ s t (ap (λ x. x.stack) k) refl on)
  step_fixed i s t v on (returns j n fs e k) =
      inl (ap (λ x. x.signal) k, goes_on i j _ s t (ap (λ x. x.stack) k) refl on)
  step_fixed i s t v on (throws j n fs e k) =
      inr (gone i j _ fs s t v on e refl (ap (λ x. x.stack) k))
  step_fixed i s t v on (expires j n fs alive e end k) =
      inr (gone i j _ fs s t v on e refl (ap (λ x. x.stack) k))
  step_fixed i s t v on (unlocks j fs e k) = absurd (cc (at_emitter i j _ fs s v on e refl))

  -- With the default mutex: while a thread is in an Emit, or in a slot that it has called, each step
  -- of any thread leaves the signal's connections as they are, so that Emit's iterators stay valid;
  -- the emitting thread itself goes on with its Emit, or comes to the end of it.
  pub emit_lists_fixed :
      (i : ℕ) (s t : State A B)
      → Run (start default_mutex) s
      → emitting (s.stack i) ≡ true
      → Step s t
      → ((t.signal ≡ s.signal) × (emitting (t.stack i) ≡ true)) ⊎ (t.stack i ≡ leaves ∷ [])
  emit_lists_fixed i s t r on st = step_fixed i s t (reached-Inv r) on st
