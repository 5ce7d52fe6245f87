-- ===== src/Timer/Parts.antt =====
-- TimeoutHandler (ks/KsEventLoop.cpp) does not hold the loop's mutex, which startTimer and stopTimer
-- take: other threads may start and stop timers while it runs. Here it is split where they can come
-- in between: the test of TimerInfo, what it does with the timer, and Emit.
use ks_core.Base.{
  ℕ, ◌≡◌, refl, Bool, true, false, not, ◌||◌, ◌&&◌, List, [], if◌then◌else◌, Bool-cases, inl, inr,
}
use ks_core.Host.{Result, ok}
use ks_core.Signal.Emit.{emit}
use ks_core.Asio.{IoService}
use ks_core.World.{Handler, timeout_handler, World, set_timer}
use ks_core.EventLoop.Post.{host}
use ks_core.EventLoop.Handlers.{Handled, completed, settle, rearm, handle_timeout, handle}
use ks_core.EventLoop.Lifecycle.{Call, steps}

module _ {B S U : Type 0} (io : IoService (Handler B) S) where
  -- Whether the handler goes on.
  abbrev pub is_due : ℕ → Bool → World B S U → Bool
  is_due i aborted w = not (aborted || (w.infos i).canceled) && (w.objects (w.infos i).timer).alive

  module _ (run : B → World B S U → World B S U × Result) where
    -- The timer again, or marked inactive.
    unfoldable pub mark_timeout : ℕ → World B S U → World B S U
    mark_timeout i w =
        let t = (w.infos i).timer in
        if (w.infos i).repeat
        then rearm io run i w
        else set_timer t (record (w.timers t) { active = false }) w

    unfoldable pub emit_timeout : ℕ → ℕ → World B S U → World B S U × Handled B
    emit_timeout self i w =
        let t = (w.infos i).timer in
        settle io run t (emit (host io run) self tt (w.timers t).signal_timeout w)

    -- The handler on thread `self`, with the calls `cs` of other threads behind the test, and `ds`
    -- before Emit.
    unfoldable pub handle_timeout_between :
        List (Call B) → List (Call B) → ℕ → ℕ → Bool → World B S U → World B S U × Handled B
    unfolding mark_timeout emit_timeout
    handle_timeout_between cs ds self i aborted w =
        if is_due i aborted w
        then emit_timeout self i (steps io ds (mark_timeout i (steps io cs w)))
        else (w, completed ok)

    -- Without such calls it is the handler as one step.
    pub handle_timeout_between_lem :
        (self i : ℕ) (aborted : Bool) (w : World B S U)
        → handle_timeout_between [] [] self i aborted w
          ≡ handle io run self (timeout_handler i aborted) w
    unfolding handle_timeout_between handle handle_timeout mark_timeout emit_timeout rearm steps
    handle_timeout_between_lem self i aborted w = elim (Bool-cases aborted) [
      | inl a ↦ rw (a, handle, handle_timeout) refl
      | inr a ↦ elim (Bool-cases (w.infos i).canceled) [
        | inl c ↦ rw (a, c, handle, handle_timeout) refl
        | inr c ↦ elim (Bool-cases (w.objects (w.infos i).timer).alive) [
          | inr dead ↦ rw (a, c, dead, handle, handle_timeout) refl
          | inl live ↦ elim (Bool-cases (w.infos i).repeat) [
            | inl r ↦ rw (a, c, live, r, handle, handle_timeout) refl
            | inr r ↦ rw (a, c, live, r, handle, handle_timeout) refl
          ]
        ]
      ]
    ]

    pub goes_on :
        (cs : List (Call B)) (self i : ℕ) (w : World B S U)
        → (w.infos i).canceled ≡ false
        → (w.objects (w.infos i).timer).alive ≡ true
        → handle_timeout_between cs [] self i false w
          ≡ emit_timeout self i (mark_timeout i (steps io cs w))
    unfolding handle_timeout_between steps
    goes_on cs self i w live there = rw (live, there, handle_timeout_between) refl
