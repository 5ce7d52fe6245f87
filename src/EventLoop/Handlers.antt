-- ===== src/EventLoop/Handlers.antt =====
-- ks/KsEventLoop.cpp: what the functors posted to asio do when a thread runs them, and the two
-- methods that run them, `ProcessEvents` and `Run`.
use ks_core.Base.{
  ℕ, zero, suc, Bool, true, false, not, ◌||◌, Option, none, some, List, if◌then◌else◌, update,
}
use ks_core.Event.{
  Event, null_event, slot_event, blocking_slot_event, start_timer_event, stop_timer_event,
}
use ks_core.Host.{Error, Result, ok, threw, call}
use ks_core.Signal.{ManagedConnection}
use ks_core.Signal.Emit.{Progress, returned, waiting, thrown, emit, resume}
use ks_core.Asio.{IoService}
use ks_core.World.{
  Handler, event_handler, task_handler, stop_handler, timeout_handler, World, set_timer,
}
use ks_core.EventLoop.{ensure_active, enter_run, leave_run, stop}
use ks_core.EventLoop.Post.{set_service, host}
use ks_core.Task.{invoke}

-- A handler has returned or thrown; or its thread waits in the `Emit` of a timer's timeout signal,
-- for a flag, with the connections still to come.
pub data Handled (B : Type 0) : Type 0 where
  completed : Result → Handled B
  blocked : ℕ → ℕ → List (ManagedConnection (Unit {0}) B) → ℕ → Handled B

-- How a run over the ready handlers ends: there is no more of them, one of them threw, its thread
-- waits in one of them, or the model's bound on their number is used up.
pub data Polled (B : Type 0) : Type 0 where
  idle : Polled B
  failed : Error → Polled B
  stuck : ℕ → ℕ → List (ManagedConnection (Unit {0}) B) → ℕ → Polled B
  out_of_fuel : Polled B

module _ {B S U : Type 0} (io : IoService (Handler B) S)
    (run_user : B → World B S U → World B S U × Result) where
  -- BlockingSlotEvent::Invoke: the flag is set behind the slot, if that returns.
  unfoldable pub invoke_blocking : ℕ → World B S U × Result → World B S U × Handled B
  invoke_blocking f (w, ok) = (record w { flags = update w.flags f true }, completed ok)
  invoke_blocking f (w, threw e) = (w, completed (threw e))

  -- EventHandler::operator(): by the type of the event.
  unfoldable pub handle_event : Event B → World B S U → World B S U × Handled B
  unfolding invoke_blocking call
  handle_event (slot_event c) w = let (w', r) = call (host io run_user) c w in (w', completed r)
  handle_event (blocking_slot_event c f) w = invoke_blocking f (call (host io run_user) c w)
  handle_event null_event w = (w, completed ok)
  handle_event (start_timer_event ev) w = (w, completed ok)
  handle_event (stop_timer_event id) w = (w, completed ok)

  -- The end of `signal_timeout.Emit()` of timer `t`.
  unfoldable pub settle : ℕ → World B S U × Progress (Unit {0}) B → World B S U × Handled B
  settle t (w, returned s) =
      (set_timer t (record (w.timers t) { signal_timeout = s }) w, completed ok)
  settle t (w, waiting f cs n) = (w, blocked t f cs n)
  settle t (w, thrown e) = (w, completed (threw e))

  -- The timer `i` again, after its interval.
  unfoldable pub rearm : ℕ → World B S U → World B S U
  rearm i w =
      let l = (w.infos i).loop in
      set_service io l
        (io.async_wait i (timeout_handler i)
          (io.expires_from_now i (w.infos i).interval_ms (w.loops l).service))
        w

  -- TimeoutHandler::operator(), on thread `self`.
  unfoldable pub handle_timeout : ℕ → ℕ → Bool → World B S U → World B S U × Handled B
  unfolding settle rearm
  handle_timeout self i aborted w =
      let info = w.infos i in
      let t = info.timer in
      if aborted || info.canceled
      then (w, completed ok)
      else if not (w.objects t).alive
      then (w, completed ok)
      else let w' =
          if info.repeat
          then rearm i w
          else set_timer t (record (w.timers t) { active = false }) w in
        settle t (emit (host io run_user) self tt (w'.timers t).signal_timeout w')

  unfoldable pub handle : ℕ → Handler B → World B S U → World B S U × Handled B
  unfolding handle_event handle_timeout invoke stop
  handle self (event_handler e) w = handle_event e w
  handle self (task_handler t) w = let (w', r) = invoke run_user t w in (w', completed r)
  handle self (stop_handler l) w = (stop io l w, completed ok)
  handle self (timeout_handler i aborted) w = handle_timeout self i aborted w

  -- A thread that waits in a timeout signal looks at its flag again.
  unfoldable pub resume_timeout :
      ℕ → ℕ → ℕ → List (ManagedConnection (Unit {0}) B) → ℕ → World B S U → World B S U × Handled B
  unfolding settle
  resume_timeout self t f cs n w =
      settle t (resume (host io run_user) self tt (w.timers t).signal_timeout f cs n w)

  -- asio's `poll`: ready handlers are taken and run until there is none, for at most `fuel` of them.
  unfoldable pub poll : ℕ → ℕ → ℕ → World B S U → World B S U × Polled B
  poll zero self l w = (w, out_of_fuel)
  poll (suc fuel) self l w = elim (io.next (w.loops l).service) [
    | none ↦ (w, idle)
    | some (x, s) ↦
        let (w', r) = handle self x (set_service io l s w) in
        elim r [
          | completed q ↦ elim q [ ok ↦ poll fuel self l w' | threw e ↦ (w', failed e) ]
          | blocked t f cs n ↦ (w', stuck t f cs n)
        ]
  ]

  unfoldable pub process_events : ℕ → ℕ → ℕ → World B S U → World B S U × Polled B
  unfolding ensure_active
  process_events fuel self l w = elim (ensure_active self (w.loops l)) [
    | ok ↦ poll fuel self l w
    | threw e ↦ (w, failed e)
  ]

  -- Run from asio's `run` on, which returns when the loop's work is gone and nothing is ready; the
  -- result `none` says that it goes on waiting for handlers. Where a handler throws, the exception
  -- leaves `Run` past the line that resets `m_running`.
  abbrev pub run_end : ℕ → World B S U × Polled B → World B S U × Option (Polled B)
  run_end l (v, p) = elim p [
    | idle ↦ if (v.loops l).work then (v, none) else (leave_run l v, some idle)
    | failed e ↦ (v, some (failed e))
    | stuck t f cs n ↦ (v, some (stuck t f cs n))
    | out_of_fuel ↦ (v, some out_of_fuel)
  ]

  -- Run, while nobody else stops the loop.
  unfoldable pub run : ℕ → ℕ → ℕ → World B S U → World B S U × Option (Polled B)
  unfolding enter_run leave_run
  run fuel self l w =
      let (w', r) = enter_run self l w in
      elim r [ threw e ↦ (w', some (failed e)) | ok ↦ run_end l (poll fuel self l w') ]
