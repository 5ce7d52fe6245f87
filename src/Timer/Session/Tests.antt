-- ===== src/Timer/Session/Tests.antt =====
-- An asio service with timers, and timer 1 with the id 11 on loop 1, which thread 5 has started.
use ks_core.Base.{
  ℕ, ◌+◌, ◌≡◌, refl, sym, ap, ◌∙◌, Bool, true, false, Option, none, some, List, [], ◌∷◌, ◌++◌,
  update, update_self, Option-cases, inl, inr, arith, if◌then◌else◌, ◌==◌,
}
use ks_core.Signal.{direct, queued, Signal}
use ks_core.Asio.{IoService, Queue, Waits}
use ks_core.World.{Handler, timeout_handler, World}
use ks_core.EventLoop.{ensure_active}
use ks_core.EventLoop.Handlers.{Handled, completed, idle, handle, process_events}
use ks_core.EventLoop.Interface.{events}
use ks_core.Event.{slot_event}
use ks_core.Timer.Timeout.{timeout_fires}
use ks_core.Timer.{start, stop, get_active}
use ks_core.Timer.Session.{ticks, timer_session}
use ks_core.Host.{Result, ok}
use ks_core.Fixture.{ListService, list_io, list_queue, note}

-- The handlers that are ready, and those that wait for a timer.
record TimedService : Type 0 where
  queue : ListService
  waits : ℕ → Option (Bool → Handler ℕ)

-- The timer does not wait any more: its handler is ready, with its error code.
abbrev wake : ℕ → Bool → TimedService → TimedService
wake i aborted s = elim (s.waits i) [
  | none ↦ s
  | some f ↦ record { queue = list_io.post (f aborted) s.queue; waits = update s.waits i none }
]

abbrev with_waits :
    (ℕ → Option (Bool → Handler ℕ))
    → Option (Handler ℕ × ListService)
    → Option (Handler ℕ × TimedService)
with_waits waits none = none
with_waits waits (some (x, s)) = some (x, record { queue = s; waits = waits })

abbrev timed_io : IoService (Handler ℕ) TimedService
timed_io = record {
  new_service = record { queue = list_io.new_service; waits = λ i. none };
  post = λ x s. record s { queue = list_io.post x s.queue };
  add_work = λ s. s;
  drop_work = λ s. s;
  reset = λ s. record s { queue = list_io.reset s.queue };
  stop = λ s. record s { queue = list_io.stop s.queue };
  next = λ s. with_waits s.waits (list_io.next s.queue);
  new_timer = λ i ms s. record s { waits = update s.waits i none };
  expires_from_now = λ i ms s. wake i true s;
  async_wait = λ i f s. record s { waits = update s.waits i (some f) };
  cancel = λ i s. wake i true s;
}

next_ready_timed :
    (s : TimedService) (x : Handler ℕ) (xs : List (Handler ℕ))
    → s.queue.halted ≡ false
    → s.queue.ready ≡ x ∷ xs
    → (t : TimedService) × (timed_io.next s ≡ some (x, t))
      × (t.queue.ready ≡ xs)
      × (t.queue.halted ≡ false)
next_ready_timed s x xs o e =
    let (t, next, left, still) = list_queue.next_ready s.queue x xs o e in
    (record { queue = t; waits = s.waits }, rw next refl, left, still)

abbrev timed_queue : Queue timed_io
timed_queue = record {
  queued = λ s. s.queue.ready;
  stopped = λ s. s.queue.halted;
  post_queued = λ x s. refl;
  post_stopped = λ x s. refl;
  work_queued = λ s. refl;
  work_stopped = λ s. refl;
  drop_queued = λ s. refl;
  reset_queued = λ s. refl;
  reset_stopped = λ s. refl;
  stop_queued = λ s. refl;
  stop_stopped = λ s. refl;
  next_stopped = λ s e. rw (list_queue.next_stopped s.queue e) refl;
  next_empty = λ s e. rw (list_queue.next_empty s.queue e) refl;
  next_ready = next_ready_timed;
}

wake_queued :
    (i : ℕ) (b : Bool) (f : Bool → Handler ℕ) (s : TimedService)
    → s.waits i ≡ some f
    → (wake i b s).queue.ready ≡ s.queue.ready ++ f b ∷ []
wake_queued i b f s e = rw (e, wake) refl

wake-none : (i : ℕ) (b : Bool) (s : TimedService) → s.waits i ≡ none → wake i b s ≡ s
wake-none i b s e = rw (e, wake) refl

wake_stopped : (i : ℕ) (b : Bool) (s : TimedService) → (wake i b s).queue.halted ≡ s.queue.halted
wake_stopped i b s = elim (Option-cases (s.waits i)) [
  | inl e ↦ rw (e, wake) refl
  | inr (f, e) ↦ rw (e, wake) refl
]

wake_waits : (i : ℕ) (b : Bool) (s : TimedService) → (wake i b s).waits i ≡ none
wake_waits i b s = elim (Option-cases (s.waits i)) [
  | inl e ↦ rw (e, wake) e
  | inr (f, e) ↦ rw (e, wake) (update_self s.waits i none)
]

abbrev waits_of :
    (ℕ → Option (Bool → Handler ℕ))
    → Option (Handler ℕ × TimedService)
    → ℕ
    → Option (Bool → Handler ℕ)
waits_of waits none = waits
waits_of waits (some (x, s)) = s.waits

waits_of-with_waits :
    (waits : ℕ → Option (Bool → Handler ℕ)) (o : Option (Handler ℕ × ListService))
    → waits_of waits (with_waits waits o) ≡ waits
waits_of-with_waits waits none = refl
waits_of-with_waits waits (some (x, s)) = refl

next_waits_timed :
    (x : Handler ℕ) (i : ℕ) (s t : TimedService)
    → timed_io.next s ≡ some (x, t)
    → t.waits i ≡ s.waits i
next_waits_timed x i s t e =
    ap (λ o. waits_of s.waits o i) (sym e)
    ∙ ap (λ f. f i) (waits_of-with_waits s.waits (list_io.next s.queue))

abbrev timed_waits : Waits timed_io timed_queue
timed_waits = record {
  waiter = λ s i. s.waits i;
  expire = λ i s. wake i false s;
  new_timer_queued = λ i ms s. refl;
  new_timer_stopped = λ i ms s. refl;
  expires_queued = λ i ms s e. ap (λ x. x.queue.ready) (wake-none i true s e);
  expires_stopped = λ i ms s. wake_stopped i true s;
  async_wait_waits = λ i f s. update_self s.waits i (some f);
  async_wait_queued = λ i f s. refl;
  async_wait_stopped = λ i f s. refl;
  expire_queued = λ i f s e. wake_queued i false f s e;
  expire_waits = λ i s. wake_waits i false s;
  expire_stopped = λ i s. wake_stopped i false s;
  cancel_queued = λ i f s e. wake_queued i true f s e;
  cancel_stopped = λ i s. wake_stopped i true s;
  post_waits = λ x i s. refl;
  next_waits = next_waits_timed;
}

abbrev TimedWorld : Type 0
TimedWorld = World ℕ TimedService (List ℕ)

abbrev run : ℕ → TimedWorld → TimedWorld × Result
run b w = (record w { user = note b w.user }, ok)

-- A function, a slot of object 2, which is dead, a direct slot of object 3 and a queued one of
-- object 4, which is on loop 1 as well.
abbrev ticking : Signal (Unit {0}) ℕ
ticking = record {
  managed =
      record { id = 1; type = queued; context = 2; fn = record { guard = some 2; slot = λ u. 8 } }
      ∷ record { id = 2; type = queued; context = 4; fn = record { guard = some 4; slot = λ u. 6 } }
      ∷ record { id = 3; type = direct; context = 3; fn = record { guard = some 3; slot = λ u. 9 } }
      ∷ [];
  unmanaged = record { id = 4; fn = record { guard = none; slot = λ u. 7 } } ∷ [];
}

abbrev ready : TimedWorld
ready = record {
  loops = λ l. record {
    id = l;
    thread_id = 5;
    started = true;
    running = false;
    list_timers = [];
    service = timed_io.new_service;
    work = true;
  };
  objects = λ o. record { id = o + 10; event_loop = 1; alive = if o == 2 then false else true };
  timers =
      λ t. record { interval_ms = 0; repeating = false; active = false; signal_timeout = ticking };
  infos =
      λ i. record { id = 0; timer = 0; interval_ms = 0; repeat = false; canceled = true; loop = 0 };
  next_info = 0;
  tasks = λ t. record { task = t; ready = false; complete = false };
  flags = λ f. false;
  next_flag = 0;
  user = [];
}

timer_session_example :
    (x w' : TimedWorld) × (ticks timed_io timed_queue timed_waits run 5 1 0 5 2
        (start timed_io 1 50 true ready)
      ≡ some x)
    × (process_events timed_io run 2 5 1 (stop timed_io 1 x) ≡ (w', idle))
    × (x.user ≡ 7 ∷ 9 ∷ 6 ∷ 7 ∷ 9 ∷ 6 ∷ [])
    × (w'.user ≡ x.user)
    × (get_active 1 (start timed_io 1 50 true ready) ≡ true)
    × (get_active 1 x ≡ true)
    × (get_active 1 w' ≡ false)
    × ((w'.loops 1).service.queue.ready ≡ [])
timer_session_example =
    timer_session timed_io timed_queue timed_waits run note (λ b w. refl) (λ u. u) (λ b u. refl) 5 1
      1 50 2 5 0 ready (unfold ensure_active in refl) refl refl refl refl refl
      ((refl, tt), ((λ e. cc e, refl), ((λ e. cc e, refl), ((λ e. cc e, refl), tt))), omega arith)
      (omega arith)

-- The repeating timer 1 when its TimerInfo 0 has expired.
abbrev expired : TimedWorld
expired = record ready {
  infos = λ i. record {
    id = 11;
    timer = 1;
    interval_ms = 50;
    repeat = true;
    canceled = false;
    loop = 1;
  };
  timers =
      λ t. record { interval_ms = 50; repeating = true; active = true; signal_timeout = ticking };
}

abbrev fired : TimedWorld × Handled ℕ
fired = handle timed_io run 5 (timeout_handler 0 false) expired

timeout_fires_example :
    ((fired.1 ≡ completed ok)
      × ((fired.0.timers 1).signal_timeout ≡ record ticking {
        managed =
            record {
              id = 2;
              type = queued;
              context = 4;
              fn = record { guard = some 4; slot = λ u. 6 };
            }
            ∷ record {
              id = 3;
              type = direct;
              context = 3;
              fn = record { guard = some 3; slot = λ u. 9 };
            }
            ∷ [];
      })
      × (fired.0.user ≡ 7 ∷ 9 ∷ [])
      × (events (fired.0.loops 1).service.queue.ready
          ≡ slot_event (record { guard = some 4; body = 6 }) ∷ []))
    × ((fired.0.timers 1).active ≡ true)
    × ((fired.0.loops 1).service.waits 0 ≡ some (timeout_handler 0))
timeout_fires_example =
    timeout_fires timed_io run note (λ b w. refl) timed_queue (λ u. u) (λ b u. refl) timed_waits 5 0
      1 expired refl refl
      ((refl, tt), ((λ e. cc e, refl), ((λ e. cc e, refl), ((λ e. cc e, refl), tt))), omega arith)
      refl
