-- ===== src/Signal/Mutex/Bounds.antt =====
-- The index of Emit's loops (ks/KsSignal.hpp) stays inside the vectors of connections.
use ks_core.Base.{
  ℕ, zero, suc, ◌≤◌, true, false, some, List, [], ◌∷◌, update, ◌==◌, length, get_elem?, ◌≡◌, inl,
  inr, refl, ap, ◌∙◌, arith, Bool-cases,
}
use ks_core.Signal.Mutex.{
  default_mutex, Frame, asks, holds, walks, in_slot, leaves, State, connections, Step, calls,
  slot_calls, locks, runs, begins, enters, passes, returns, throws, expires, unlocks, Run, here,
  next, start,
}
use ks_core.Signal.Mutex.Exclusion.{body_keeps, fits, has_mutex, Inv, mine, reached-Inv}

get_elem?-bound :
    {C : Type 0} (xs : List C) (n : ℕ) (c : C) → get_elem? xs n ≡ some c → suc n ≤ length xs
get_elem?-bound [] n c e = cc
get_elem?-bound (x ∷ xs) zero c e = omega arith
get_elem?-bound (x ∷ xs) (suc n) c e = omega (arith, get_elem?-bound xs n c e)

module _ {A B : Type 0} where
  -- The index of the next connection in an Emit.
  abbrev pub position : List (Frame A B) → ℕ
  position (walks n ∷ fs) = n
  position (in_slot n ∷ fs) = n
  position (asks m ∷ in_slot n ∷ fs) = n
  position _ = 0

  abbrev Bounded : State A B → Type 0
  Bounded s = (i : ℕ) → position (s.stack i) ≤ length (connections s.signal)

  position_free : (fs : List (Frame A B)) → fits false fs ≡ true → position fs ≡ 0
  position_free [] e = refl
  position_free (asks m ∷ []) e = refl
  position_free (holds m ∷ []) e = refl
  position_free (walks n ∷ []) e = cc
  position_free (in_slot n ∷ []) e = cc
  position_free (leaves ∷ []) e = refl
  position_free (f ∷ g ∷ []) e = ground (arith, e)
  position_free (f ∷ g ∷ h ∷ fs) e = cc

  placed :
      (j : ℕ) (fs : List (Frame A B)) (s t : State A B)
      → Bounded s
      → t.signal ≡ s.signal
      → t.stack ≡ update s.stack j fs
      → position fs ≤ length (connections s.signal)
      → Bounded t
  placed j fs s t b same e new i =
      rw (e, same) (elim (Bool-cases (j == i)) [ inl eq ↦ rw eq new | inr ne ↦ rw ne (b i) ])

  -- The thread that changes the connections is the only one with the mutex, and is not in a loop.
  changed :
      (j : ℕ) (f : Frame A B) (fs : List (Frame A B)) (s t : State A B)
      → Inv s
      → s.stack j ≡ f ∷ fs
      → has_mutex f ≡ true
      → t.stack ≡ update s.stack j (leaves ∷ fs)
      → Bounded t
  changed j f fs s t v at h e i =
      let (own, alone) = mine j f fs s v at h in
      rw e (elim (Bool-cases (j == i)) [
        | inl eq ↦ rw eq (omega arith)
        | inr ne ↦ rw ne (omega (arith, position_free (s.stack i) (rw (own, ne) at (v.each i))))
      ])

  Step-Bounded : (s t : State A B) → Inv s → Bounded s → Step s t → Bounded t
  Step-Bounded s t v b (calls j m e k) =
      placed j _ s t b (ap (λ x. x.signal) k) (ap (λ x. x.stack) k) (omega arith)
  Step-Bounded s t v b (slot_calls j n m fs e k) =
      placed j _ s t b (ap (λ x. x.signal) k) (ap (λ x. x.stack) k) (rw e at (b j))
  Step-Bounded s t v b (locks j m fs e free k) =
      placed j _ s t b (ap (λ x. x.signal) k) (ap (λ x. x.stack) k) (omega arith)
  Step-Bounded s t v b (runs j m fs e plain k) =
      changed j _ fs s t v e refl
        (ap (λ x. x.stack) k ∙ ap (λ st. update st j (leaves ∷ fs)) (body_keeps m s).2)
  Step-Bounded s t v b (begins j args fs e k) =
      placed j _ s t b (ap (λ x. x.signal) k) (ap (λ x. x.stack) k) (omega arith)
  Step-Bounded s t v b (enters j n fs c e at ne k) =
      placed j _ s t b (ap (λ x. x.signal) k) (ap (λ x. x.stack) k) (get_elem?-bound _ n c at)
  Step-Bounded s t v b (passes j n fs c e at k) =
      placed j _ s t b (ap (λ x. x.signal) k) (ap (λ x. x.stack) k)
        (get_elem?-bound _ n (some c) at)
  Step-Bounded s t v b (returns j n fs e k) =
      placed j _ s t b (ap (λ x. x.signal) k) (ap (λ x. x.stack) k) (rw e at (b j))
  Step-Bounded s t v b (throws j n fs e k) =
      placed j _ s t b (ap (λ x. x.signal) k) (ap (λ x. x.stack) k) (omega arith)
  Step-Bounded s t v b (expires j n fs alive e end k) =
      changed j _ fs s t v e refl (ap (λ x. x.stack) k)
  Step-Bounded s t v b (unlocks j fs e k) =
      let (own, alone) = mine j _ fs s v e refl in
      placed j fs s t b (ap (λ x. x.signal) k) (ap (λ x. x.stack) k) (rw alone (omega arith))

  Run-Bounded : {s : State A B} → Run (start default_mutex) s → Bounded s
  Run-Bounded (here e) = λ i. rw e (omega arith)
  Run-Bounded (next {t} {u} r st) = Step-Bounded t u (reached-Inv r) (Run-Bounded r) st

  -- With the default mutex, whatever any number of threads and the slots do: an Emit never looks at
  -- a connection behind the end of the signal's vectors.
  pub emit_in_bounds :
      {s : State A B}
      → Run (start default_mutex) s
      → (i : ℕ) → position (s.stack i) ≤ length (connections s.signal)
  emit_in_bounds r i = Run-Bounded r i
