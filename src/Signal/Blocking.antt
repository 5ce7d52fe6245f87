-- ===== src/Signal/Blocking.antt =====
-- Blocking connections in `Emit`: for whom the emitting thread waits, and that it comes to an end.
use ks_core.Base.{
  ℕ, zero, suc, ◌+◌, ◌%◌, ◌^◌, ◌≤◌, ◌≡◌, ◌≢◌, refl, sym, true, List, [], ◌∷◌, ◌++◌, arith, length,
  Bool-cases, ◌⊎◌, inl, inr,
}
use ks_core.Event.{slot_event, blocking_slot_event}
use ks_core.Host.{Host, Error, Result-cases}
use ks_core.Signal.{blocking, ManagedConnection, Signal}
use ks_core.Signal.Emit.{
  bind, Walk, at_end, waits, fails, Progress, returned, waiting, thrown, direct_invoke,
  emit_unmanaged, emit_managed, after_walk, emit, resume,
}
use ks_core.Signal.Waiting.{WaitsFor, behind, emit_managed-WaitsFor}

-- The connections that are still to come when the walk stops to wait, and the one it waits for.
abbrev left : {A B : Type 0} → Walk A B → ℕ
left (waits flag cs n) = suc (length cs)
left _ = 0

abbrev to_come : {A B : Type 0} → Progress A B → ℕ
to_come (waiting flag cs n) = suc (length cs)
to_come _ = 0

module _ {A B W : Type 0} (h : Host B W) (self : ℕ) (args : A) where
  left-emit_managed :
      (cs : List (ManagedConnection A B)) (n : ℕ) (w : W)
      → left (emit_managed h self args cs n w).1 ≤ length cs
  unfolding emit_managed
  left-emit_managed [] n w = omega arith
  left-emit_managed (c ∷ cs) n w = ground (
    arith,
    left-emit_managed cs ((n + 1) % 2 ^ 32) w,
    left-emit_managed cs n (direct_invoke h self args c.fn w).0,
    left-emit_managed cs n
        (h.post_event (h.event_loop w c.context) (slot_event (bind c.fn args)) w),
  )

  to_come-after_walk :
      (s : Signal A B) (p : W × Walk A B) → to_come (after_walk h self args s p).1 ≤ left p.1
  unfolding after_walk
  to_come-after_walk s (w, at_end n) = omega arith
  to_come-after_walk s (w, waits flag cs n) = omega arith
  to_come-after_walk s (w, fails e) = omega arith

  -- What Emit of `s` in `w` comes to: its first part, and then its looks at the flag that it waits
  -- for, each in any state that the other threads have made meanwhile.
  pub data Emission (s : Signal A B) (w : W) : W × Progress A B → Type 0 where
    begins : {r : W × Progress A B} → r ≡ emit h self args s w → Emission s w r
    wakes :
        (flag : ℕ) (cs : List (ManagedConnection A B)) (n : ℕ) (u v : W) {r : W × Progress A B}
        → Emission s w (u, waiting flag cs n)
        → r ≡ resume h self args s flag cs n v
        → Emission s w r

  -- The wait began when Emit had just posted the event of `c` to another thread's started loop.
  abbrev pub EmitWaitsFor : Signal A B → W → W × Progress A B → Type 0
  EmitWaitsFor s w (u, waiting flag cs n) =
      (before : List (ManagedConnection A B)) × (c : ManagedConnection A B) × (v : W) × (s.managed
        ≡ before ++ c ∷ cs)
      × (c.type ≡ blocking)
      × (h.alive v c.context ≡ true)
      × ((h.get_state v (h.event_loop v c.context)).started ≡ true)
      × ((h.get_state v (h.event_loop v c.context)).thread_id ≢ self)
      × (flag ≡ (h.new_flag v).1)
      × Emission s w (
        h.post_event (h.event_loop v c.context) (blocking_slot_event (bind c.fn args) flag)
            (h.new_flag v).0,
        waiting flag cs n,
      )
  EmitWaitsFor s w (u, returned t) = Unit {0}
  EmitWaitsFor s w (u, thrown e) = Unit {0}

  -- A walk that Emit has come to.
  after_walk-WaitsFor :
      (s : Signal A B) (w : W) (p : W × Walk A B)
      → WaitsFor h self args s.managed p
      → Emission s w (after_walk h self args s p)
      → EmitWaitsFor s w (after_walk h self args s p)
  unfolding after_walk
  after_walk-WaitsFor s w (u, at_end n) f r = tt
  after_walk-WaitsFor s w (u, fails e) f r = tt
  after_walk-WaitsFor s w (u, waits flag cs n) (before, c, v, all, t, live, on, other, fresh, e) r =
      (before, c, v, all, t, live, on, other, fresh, rw e at r)

  emit-WaitsFor : (s : Signal A B) (w : W) → EmitWaitsFor s w (emit h self args s w)
  unfolding emit
  emit-WaitsFor s w =
      let run : Emission s w (emit h self args s w) = begins refl in
      elim (Result-cases (emit_unmanaged h self args s.unmanaged w).1) [
        | inl r ↦
            rw (r, emit)
              (after_walk-WaitsFor s w _
                (emit_managed-WaitsFor h self args s.managed [] s.managed 0 _ refl)
                (rw (r, emit) at run))
        | inr (e, r) ↦ rw (r, emit) tt
      ]

  -- Whatever user code and the other threads do: whenever Emit of `s` waits, then for the event of
  -- one of its managed connections, a blocking one whose context was alive when the loop came to
  -- it. The event, with a fresh flag, went to the context's event loop, which had been started by
  -- another thread, when the wait began: `Emit` never waits for its own thread, nor for a loop that
  -- is not started. What it goes on with are the connections behind that one.
  pub emit_waits_for :
      (s : Signal A B) (w : W) {r : W × Progress A B} → Emission s w r → EmitWaitsFor s w r
  unfolding resume
  emit_waits_for s w (begins e) = rw e (emit-WaitsFor s w)
  emit_waits_for s w (wakes flag cs n u v run e) =
      let (before, c, v', all, t, live, on, other, fresh, first) = emit_waits_for s w run in
      elim (Bool-cases (h.invoked v flag)) [
        | inl set ↦
            let same : resume h self args s flag cs n v
                ≡ after_walk h self args s (emit_managed h self args cs n v) =
              rw (set, resume) refl in
            rw (e, same)
              (after_walk-WaitsFor s w _
                (emit_managed-WaitsFor h self args s.managed (before ++ c ∷ []) cs n v
                  (behind h self args before c cs all))
                (wakes flag cs n u v run (sym same)))
        | inr unset ↦
            let same : resume h self args s flag cs n v ≡ (v, waiting flag cs n) =
              rw (unset, resume) refl in
            rw (e, same) (before, c, v', all, t, live, on, other, fresh, first)
      ]

  -- The emitting thread until `Emit` is over: whenever it waits, `others` is what the other threads
  -- do until it is woken.
  unfoldable pub finish : ℕ → (ℕ → W → W) → Signal A B → W × Progress A B → W × Progress A B
  finish zero others s r = r
  finish (suc fuel) others s (w, waiting flag cs n) =
      finish fuel others s (resume h self args s flag cs n (others flag w))
  finish (suc fuel) others s (w, returned t) = (w, returned t)
  finish (suc fuel) others s (w, thrown e) = (w, thrown e)

  abbrev pub IsOver : Progress A B → Type 0
  IsOver p = ((t : Signal A B) × (p ≡ returned t)) ⊎ ((e : Error) × (p ≡ thrown e))

  IsOver_lem : (p : Progress A B) → to_come p ≡ 0 → IsOver p
  IsOver_lem (returned t) e = inl (t, refl)
  IsOver_lem (thrown x) e = inr (x, refl)
  IsOver_lem (waiting flag cs n) e = absurd (omega arith)

  to_come-resume :
      (s : Signal A B) (flag : ℕ) (cs : List (ManagedConnection A B)) (n : ℕ) (w : W)
      → h.invoked w flag ≡ true
      → to_come (resume h self args s flag cs n w).1 ≤ length cs
  unfolding resume
  to_come-resume s flag cs n w e =
      rw (e, resume)
        (omega
          (arith, to_come-after_walk s (emit_managed h self args cs n w), left-emit_managed cs n w))

  finish_lem :
      (fuel : ℕ) (others : ℕ → W → W) (s : Signal A B) (r : W × Progress A B)
      → ((flag : ℕ) (w : W) → h.invoked (others flag w) flag ≡ true)
      → to_come r.1 ≤ fuel
      → to_come (finish fuel others s r).1 ≡ 0
  unfolding finish
  finish_lem zero others s r sets m = omega arith
  finish_lem (suc fuel) others s (w, waiting flag cs n) sets m =
      finish_lem fuel others s _ sets
        (omega (arith, to_come-resume s flag cs n (others flag w) (sets flag w)))
  finish_lem (suc fuel) others s (w, returned t) sets m = refl
  finish_lem (suc fuel) others s (w, thrown e) sets m = refl

  -- If the receivers' threads get to every blocking event, so that its flag is set, then `Emit`
  -- returns or throws, whatever user code and the other threads do besides: it waits at most once
  -- for each managed connection.
  pub emit_comes_back :
      (fuel : ℕ) (others : ℕ → W → W) (s : Signal A B) (w : W)
      → ((flag : ℕ) (v : W) → h.invoked (others flag v) flag ≡ true)
      → length s.managed ≤ fuel
      → IsOver (finish fuel others s (emit h self args s w)).1
  unfolding emit
  emit_comes_back fuel others s w sets m = IsOver_lem _ (finish_lem fuel others s _ sets start)
    where
      start : to_come (emit h self args s w).1 ≤ fuel
      start = elim (Result-cases (emit_unmanaged h self args s.unmanaged w).1) [
        | inl r ↦
            rw (r, emit)
              (omega (
                arith,
                to_come-after_walk s (
                    emit_managed h self args s.managed 0
                      (emit_unmanaged h self args s.unmanaged w).0),
                left-emit_managed s.managed 0 (emit_unmanaged h self args s.unmanaged w).0,
              ))
        | inr (e, r) ↦ rw (r, emit) (omega arith)
      ]
