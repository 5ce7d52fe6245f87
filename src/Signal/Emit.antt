-- ===== src/Signal/Emit.antt =====
-- Signal::Emit (ks/KsSignal.hpp), on the thread `self`. A blocking call to another thread stops
-- the walk over the connections until the flag of its event is set: `emit` then gives the place
-- to go on from, and `resume` is the thread's next look at the flag, which it makes whenever the
-- condition variable wakes it.
use ks_core.Base.{ℕ, ◌+◌, ◌%◌, ◌^◌, true, false, List, [], ◌∷◌, ltb, ◌==◌, if◌then◌else◌, keep_if}
use ks_core.Event.{Callback, slot_event, blocking_slot_event}
use ks_core.Host.{Host, Error, event_loop_inactive, Result, ok, threw, call}
use ks_core.Signal.{
  direct, queued, blocking, Function, ManagedConnection, UnmanagedConnection, Signal,
}

-- std::bind(connection.fn, args...)
abbrev pub bind : {A B : Type 0} → Function A B → A → Callback B
bind fn args = record { guard = fn.guard; body = fn.slot args }

-- How far the loop over the managed connections came: to its end, with the number of expired
-- connections; to the wait for a flag, with the connections behind it; or to an exception.
pub data Walk (A B : Type 0) : Type 0 where
  at_end : ℕ → Walk A B
  waits : ℕ → List (ManagedConnection A B) → ℕ → Walk A B
  fails : Error → Walk A B

-- What `Emit` has come to: it returned, with the signal that it leaves; it waits; or it threw.
pub data Progress (A B : Type 0) : Type 0 where
  returned : Signal A B → Progress A B
  waiting : ℕ → List (ManagedConnection A B) → ℕ → Progress A B
  thrown : Error → Progress A B

module _ {A B W : Type 0} (h : Host B W) (self : ℕ) (args : A) where
  -- directInvoke
  unfoldable pub direct_invoke : Function A B → W → W × Result
  unfolding call
  direct_invoke fn w = call h (bind fn args) w

  unfoldable pub emit_unmanaged : List (UnmanagedConnection A B) → W → W × Result
  emit_unmanaged [] w = (w, ok)
  emit_unmanaged (c ∷ cs) w =
      let (w', r) = direct_invoke c.fn w in
      elim r [ ok ↦ emit_unmanaged cs w' | threw e ↦ (w', threw e) ]

  unfoldable pub emit_managed : List (ManagedConnection A B) → ℕ → W → W × Walk A B
  emit_managed [] expired w = (w, at_end expired)
  emit_managed (c ∷ cs) expired w = elim (h.alive w c.context) [
    | false ↦ emit_managed cs ((expired + 1) % 2 ^ 32) w
    | true ↦ elim c.type [
      | direct ↦
          let (w', r) = direct_invoke c.fn w in
          elim r [ ok ↦ emit_managed cs expired w' | threw e ↦ (w', fails e) ]
      | queued ↦
          emit_managed cs expired
            (h.post_event (h.event_loop w c.context) (slot_event (bind c.fn args)) w)
      | blocking ↦
          let loop = h.event_loop w c.context in
          let state = h.get_state w loop in
          elim state.started [
            | false ↦ (w, fails event_loop_inactive)
            | true ↦ elim (state.thread_id == self) [
              | true ↦
                  let (w', r) = direct_invoke c.fn w in
                  elim r [ ok ↦ emit_managed cs expired w' | threw e ↦ (w', fails e) ]
              | false ↦
                  let (w', flag) = h.new_flag w in
                  (
                    h.post_event loop (blocking_slot_event (bind c.fn args) flag) w',
                    waits flag cs expired,
                  )
            ]
          ]
    ]
  ]

  -- std::remove_if and erase, made only if the loop met an expired connection.
  unfoldable pub remove_expired : Signal A B → ℕ → W → Signal A B
  remove_expired s expired w =
      if ltb 0 expired
      then record s { managed = keep_if (λ c. h.alive w c.context) s.managed }
      else s

  unfoldable pub after_walk : Signal A B → W × Walk A B → W × Progress A B
  unfolding remove_expired
  after_walk s (w, at_end expired) = (w, returned (remove_expired s expired w))
  after_walk s (w, waits flag cs expired) = (w, waiting flag cs expired)
  after_walk s (w, fails e) = (w, thrown e)

  unfoldable pub emit : Signal A B → W → W × Progress A B
  unfolding after_walk
  emit s w =
      let (w', r) = emit_unmanaged s.unmanaged w in
      elim r [ ok ↦ after_walk s (emit_managed s.managed 0 w') | threw e ↦ (w', thrown e) ]

  -- The test of `while(!invoked)`, after the thread was woken.
  unfoldable pub resume : Signal A B → ℕ → List (ManagedConnection A B) → ℕ → W → W × Progress A B
  unfolding after_walk
  resume s flag cs expired w =
      if h.invoked w flag
      then after_walk s (emit_managed cs expired w)
      else (w, waiting flag cs expired)
