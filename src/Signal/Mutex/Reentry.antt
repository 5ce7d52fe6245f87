-- ===== src/Signal/Mutex/Reentry.antt =====
-- A slot that Emit (ks/KsSignal.hpp) calls, and that calls a method of the same signal: the guard
-- locks a std::mutex that its own thread holds.
use ks_core.Base.{
  ℕ, Bool, false, some, List, [], ◌∷◌, update, ◌==◌, ==_iff, ◌≡◌, inl, inr, refl, sym, ap, ◌∙◌,
  Bool-cases,
}
use ks_core.Signal.Mutex.{
  default_mutex, Method, Frame, asks, in_slot, State, Step, calls, slot_calls, locks, runs, begins,
  enters, passes, returns, throws, expires, unlocks, Run, here, next, start,
}
use ks_core.Signal.Mutex.Exclusion.{has_mutex, Inv, Run-Inv, reached-Inv}
use ks_core.Signal.Mutex.Iteration.{emitting, emitter_owns, shut, only}

module _ {A B : Type 0} where
  -- Thread `i` waits for the mutex inside a slot of its own Emit.
  abbrev Stuck : ℕ → List (Frame A B) → State A B → State A B → Type 0
  Stuck i fs s t = (t.stack i ≡ fs) × (t.signal ≡ s.signal) × (t.owner ≡ some i)

  module _ (i n : ℕ) (m : Method A B) (fs : List (Frame A B)) where
    abbrev waiting : List (Frame A B)
    waiting = asks m ∷ in_slot n ∷ fs

    -- No thread has a call with the mutex: it would be thread `i`, which asks for it.
    nobody :
        (j : ℕ) (f : Frame A B) (gs : List (Frame A B)) (s : State A B)
        → Inv s
        → s.stack i ≡ waiting
        → s.owner ≡ some i
        → s.stack j ≡ f ∷ gs
        → has_mutex f ≡ false
    nobody j f gs s v e o at = elim (Bool-cases (has_mutex f)) [
      | inr h ↦ h
      | inl h ↦ let (eq, alone) = only i j f gs s v o at h in ap top (sym at ∙ ap s.stack eq ∙ e)
    ]
      where
        top : List (Frame A B) → Bool
        top [] = false
        top (f ∷ gs) = has_mutex f

    other_moves :
        (j : ℕ) (gs : List (Frame A B)) (s t : State A B)
        → s.stack i ≡ waiting
        → s.owner ≡ some i
        → t.stack ≡ update s.stack j gs
        → t.signal ≡ s.signal
        → t.owner ≡ s.owner
        → s.stack j ≡ []
        → Stuck i waiting s t
    other_moves j gs s t e o k same own at = (
      elim (Bool-cases (j == i)) [
        | inl eq ↦ absurd (cc (sym at ∙ ap s.stack ((==_iff j i).0 eq) ∙ e))
        | inr ne ↦ rw (k, ne) e
      ],
      same,
      own ∙ o,
    )

    Step-Stuck :
        (s t : State A B)
        → Inv s
        → s.stack i ≡ waiting
        → s.owner ≡ some i
        → Step s t
        → Stuck i waiting s t
    Step-Stuck s t v e o (calls j p at k) =
        other_moves j _ s t e o (ap (λ x. x.stack) k) (ap (λ x. x.signal) k) (ap (λ x. x.owner) k)
          at
    Step-Stuck s t v e o (slot_calls j l p gs at k) = absurd (cc (nobody j _ gs s v e o at))
    Step-Stuck s t v e o (locks j p gs at free k) = absurd (cc (sym free ∙ shut i s v o))
    Step-Stuck s t v e o (runs j p gs at plain k) = absurd (cc (nobody j _ gs s v e o at))
    Step-Stuck s t v e o (begins j args gs at k) = absurd (cc (nobody j _ gs s v e o at))
    Step-Stuck s t v e o (enters j l gs c at is ne k) = absurd (cc (nobody j _ gs s v e o at))
    Step-Stuck s t v e o (passes j l gs c at is k) = absurd (cc (nobody j _ gs s v e o at))
    Step-Stuck s t v e o (returns j l gs at k) = absurd (cc (nobody j _ gs s v e o at))
    Step-Stuck s t v e o (throws j l gs at k) = absurd (cc (nobody j _ gs s v e o at))
    Step-Stuck s t v e o (expires j l gs alive at end k) = absurd (cc (nobody j _ gs s v e o at))
    Step-Stuck s t v e o (unlocks j gs at k) = absurd (cc (nobody j _ gs s v e o at))

    Run-Stuck :
        {s t : State A B}
        → Inv s
        → s.stack i ≡ waiting
        → s.owner ≡ some i
        → Run s t
        → Stuck i waiting s t
    Run-Stuck v e o (here q) = rw q (e, refl, o)
    Run-Stuck {s} v e o (next {t} {u} r st) =
        let (e1, same1, o1) = Run-Stuck v e o r in
        let (e2, same2, o2) = Step-Stuck t u (Run-Inv v r) e1 o1 st in (e2, same2 ∙ same1, o2)

    -- With the default mutex: if a slot that Emit has called on its own thread calls any method of
    -- the same signal, be it Connect, Disconnect, ConnectionValid, GetConnectionCount or Emit, then
    -- whatever follows, the thread waits at the method's lock for ever, and keeps the mutex, so that
    -- the signal's connections never change again.
    pub slot_locks_out :
        {s t : State A B}
        → Run (start default_mutex) s
        → s.stack i ≡ asks m ∷ in_slot n ∷ fs
        → Run s t
        → (t.stack i ≡ asks m ∷ in_slot n ∷ fs) × (t.signal ≡ s.signal) × (t.owner ≡ some i)
    slot_locks_out {s} r e r' =
        let v = reached-Inv r in Run-Stuck v e (emitter_owns i s v (ap emitting e)) r'
