-- ===== src/Task/Stays.antt =====
-- What the handlers, ProcessEvents, Run and PostTask (ks/KsEventLoop.cpp) do with a task whose
-- function throws.
use ks_core.Base.{
  ℕ, zero, suc, ◌≡◌, ◌⊎◌, refl, ap, ◌∙◌, Bool, true, false, List, ◌==◌, Bool-cases, ==_iff, arith,
  inl, inr, Option-cases,
}
use ks_core.Event.{
  Event, null_event, slot_event, blocking_slot_event, start_timer_event, stop_timer_event,
}
use ks_core.Host.{Error, Result, ok, threw, call, Result-cases}
use ks_core.Signal.{ManagedConnection}
use ks_core.Signal.Emit.{Progress, returned, waiting, thrown, emit, resume}
use ks_core.Signal.Invariant.{IsKept, call-keeps, emit-keeps, resume-keeps}
use ks_core.Asio.{IoService}
use ks_core.World.{
  Handler, event_handler, task_handler, stop_handler, timeout_handler, Task, World, set_timer,
}
use ks_core.EventLoop.{get_thread_id, ensure_active, enter_run, leave_run, stop}
use ks_core.EventLoop.Post.{set_service, host, post, post_task}
use ks_core.EventLoop.Handlers.{
  run_end, Handled, completed, blocked, Polled, idle, failed, stuck, out_of_fuel, invoke_blocking,
  handle_event, settle, rearm, handle_timeout, handle, resume_timeout, poll, process_events,
}
use ks_core.EventLoop.Handlers
use ks_core.Task.{fulfil, invoke}
use ks_core.Task.Untouched.{post_event-tasks, enter_run-tasks}

module _ {B S U : Type 0} (io : IoService (Handler B) S)
    (run : B → World B S U → World B S U × Result) (t : ℕ) (k : Task B) (e : Error)
    (keeps : (b : B) (w : World B S U) → w.tasks t ≡ k → (run b w).0.tasks t ≡ k)
    (raises : (w : World B S U) → (run k.task w).1 ≡ threw e) where
  abbrev pub Stays : World B S U → Type 0
  Stays w = w.tasks t ≡ k

  Stays-IsKept : IsKept (host io run) Stays
  Stays-IsKept = record {
    kept_run = keeps;
    kept_slot = λ l c w p. ap (λ f. f t) (post_event-tasks io l (slot_event c) w) ∙ p;
    kept_blocking =
        λ l f c w p. ap (λ g. g t) (post_event-tasks io l (blocking_slot_event c f) w) ∙ p;
    kept_flag = λ w p. p;
  }

  settle-Stays :
      (i : ℕ) (r : World B S U × Progress (Unit {0}) B) → Stays r.0 → Stays (settle io run i r).0
  unfolding settle
  settle-Stays i (w, returned s) p = p
  settle-Stays i (w, waiting f cs n) p = p
  settle-Stays i (w, thrown x) p = p

  fulfil-Stays :
      (j : ℕ) (r : World B S U × Result) → (j == t) ≡ false → Stays r.0 → Stays (fulfil j r).0
  unfolding fulfil
  fulfil-Stays j (w, ok) other p = ground arith
  fulfil-Stays j (w, threw x) other p = p

  -- Invoke of this task throws what its function throws, and leaves the task as it is.
  pub invoke_raises :
      (w : World B S U) → Stays w → Stays (invoke run t w).0 × ((invoke run t w).1 ≡ threw e)
  unfolding invoke fulfil
  invoke_raises w p =
      let thrown' : (run (w.tasks t).task w).1 ≡ threw e =
        ap (λ x. (run x.task w).1) p ∙ raises w in
      let whole : invoke run t w ≡ ((run (w.tasks t).task w).0, threw e) =
        ap (λ r. fulfil t ((run (w.tasks t).task w).0, r)) thrown' in
      (ap (λ r. r.0.tasks t) whole ∙ keeps (w.tasks t).task w p, ap (λ r. r.1) whole)

  invoke-Stays : (j : ℕ) (w : World B S U) → Stays w → Stays (invoke run j w).0
  unfolding invoke
  invoke-Stays j w p = elim (Bool-cases (j == t)) [
    | inl same ↦ rw ((==_iff j t).0 same) (invoke_raises w p).0
    | inr other ↦ fulfil-Stays j (run (w.tasks j).task w) other (keeps (w.tasks j).task w p)
  ]

  invoke_blocking-Stays :
      (f : ℕ) (r : World B S U × Result) → Stays r.0 → Stays (invoke_blocking io run f r).0
  unfolding invoke_blocking
  invoke_blocking-Stays f (w, ok) p = p
  invoke_blocking-Stays f (w, threw x) p = p

  handle_event-Stays : (v : Event B) (w : World B S U) → Stays w → Stays (handle_event io run v w).0
  unfolding handle_event
  handle_event-Stays (slot_event c) w p = call-keeps (host io run) Stays Stays-IsKept 0 tt c w p
  handle_event-Stays (blocking_slot_event c f) w p =
      invoke_blocking-Stays f (call (host io run) c w)
        (call-keeps (host io run) Stays Stays-IsKept 0 tt c w p)
  handle_event-Stays null_event w p = p
  handle_event-Stays (start_timer_event ev) w p = p
  handle_event-Stays (stop_timer_event id) w p = p

  emit-Stays :
      (i self : ℕ) (w : World B S U)
      → Stays w
      → Stays (settle io run i (emit (host io run) self tt (w.timers i).signal_timeout w)).0
  emit-Stays i self w p =
      settle-Stays i (emit (host io run) self tt (w.timers i).signal_timeout w)
        (emit-keeps (host io run) Stays Stays-IsKept self tt (w.timers i).signal_timeout w p)

  handle_timeout-Stays :
      (self i : ℕ) (aborted : Bool) (w : World B S U)
      → Stays w
      → Stays (handle_timeout io run self i aborted w).0
  unfolding handle_timeout rearm
  handle_timeout-Stays self i true w p = p
  handle_timeout-Stays self i false w p = elim (Bool-cases (w.infos i).canceled) [
    | inl c ↦ rw (c, handle_timeout) p
    | inr c ↦ elim (Bool-cases (w.objects (w.infos i).timer).alive) [
      | inr dead ↦ rw (c, dead, handle_timeout) p
      | inl live ↦ elim (Bool-cases (w.infos i).repeat) [
        | inl r ↦
            rw (c, live, r, handle_timeout) (emit-Stays (w.infos i).timer self (rearm io run i w) p)
        | inr r ↦
            let j = (w.infos i).timer in
            rw (c, live, r, handle_timeout)
              (emit-Stays j self (set_timer j (record (w.timers j) { active = false }) w) p)
      ]
    ]
  ]

  handle-Stays :
      (self : ℕ) (x : Handler B) (w : World B S U) → Stays w → Stays (handle io run self x w).0
  unfolding handle stop
  handle-Stays self (event_handler v) w p = handle_event-Stays v w p
  handle-Stays self (task_handler j) w p = invoke-Stays j w p
  handle-Stays self (stop_handler l) w p = p
  handle-Stays self (timeout_handler i aborted) w p = handle_timeout-Stays self i aborted w p

  Handled-cases :
      (h : Handled B)
      → (h ≡ completed ok)
        ⊎ (((x : Error) × (h ≡ completed (threw x)))
            ⊎ ((i f : ℕ) × (cs : List (ManagedConnection (Unit {0}) B)) × (n : ℕ) × (h
                  ≡ blocked i f cs n)))
  Handled-cases (completed ok) = inl refl
  Handled-cases (completed (threw x)) = inr (inl (x, refl))
  Handled-cases (blocked i f cs n) = inr (inr (i, f, cs, n, refl))

  poll-Stays : (n self l : ℕ) (w : World B S U) → Stays w → Stays (poll io run n self l w).0
  unfolding poll
  poll-Stays zero self l w p = p
  poll-Stays (suc n) self l w p = elim (Option-cases (io.next (w.loops l).service)) [
    | inl e' ↦ rw (e', poll) p
    | inr ((x, s), e') ↦
        let q = handle-Stays self x (set_service io l s w) p in
        elim (Handled-cases (handle io run self x (set_service io l s w)).1) [
          | inl r ↦ rw (e', poll) (rw r (poll-Stays n self l _ q))
          | inr (inl (y, r)) ↦ rw (e', poll) (rw r q)
          | inr (inr (i, f, cs, m, r)) ↦ rw (e', poll) (rw r q)
        ]
  ]

  pub process_events-Stays :
      (n self l : ℕ) (w : World B S U) → Stays w → Stays (process_events io run n self l w).0
  unfolding process_events
  process_events-Stays n self l w p = elim (Result-cases (ensure_active self (w.loops l))) [
    | inl r ↦ rw (r, process_events) (poll-Stays n self l w p)
    | inr (x, r) ↦ rw (r, process_events) p
  ]

  run_end-Stays : (l : ℕ) (r : World B S U × Polled B) → Stays r.0 → Stays (run_end io run l r).0
  unfolding leave_run
  run_end-Stays l (w, idle) p = ground arith
  run_end-Stays l (w, failed x) p = p
  run_end-Stays l (w, stuck i f cs n) p = p
  run_end-Stays l (w, out_of_fuel) p = p

  pub run-Stays :
      (n self l : ℕ) (w : World B S U) → Stays w → Stays (Handlers.run io run n self l w).0
  unfolding Handlers.run
  run-Stays n self l w p =
      let q : Stays (enter_run self l w).0 = ap (λ f. f t) (enter_run-tasks io self l w) ∙ p in
      elim (Result-cases (enter_run self l w).1) [
        | inl r ↦
            rw (r, Handlers.run)
              (run_end-Stays l (poll io run n self l (enter_run self l w).0)
                (poll-Stays n self l _ q))
        | inr (x, r) ↦ rw (r, Handlers.run) q
      ]

  pub post_task-Stays :
      (self l j : ℕ) (w : World B S U) → Stays w → Stays (post_task io run self l j w).0
  unfolding post_task post
  post_task-Stays self l j w p = elim (Bool-cases (self == get_thread_id l w)) [
    | inl own ↦ rw (own, post_task) (invoke-Stays j w p)
    | inr other ↦ rw (other, post_task) p
  ]

  pub resume_timeout-Stays :
      (self i f : ℕ) (cs : List (ManagedConnection (Unit {0}) B)) (n : ℕ) (w : World B S U)
      → Stays w
      → Stays (resume_timeout io run self i f cs n w).0
  unfolding resume_timeout
  resume_timeout-Stays self i f cs n w p =
      settle-Stays i (resume (host io run) self tt (w.timers i).signal_timeout f cs n w) (
        resume-keeps (host io run) Stays Stays-IsKept self tt (w.timers i).signal_timeout f cs n w
          p)
