-- ===== src/EventLoop/Handshake/Tests.antt =====
-- Thread 9 emits a signal of six connections, while thread 5 runs loop 1.
use ks_core.Base.{ℕ, ◌+◌, ◌≡◌, refl, arith, [], ◌∷◌, none, some, if◌then◌else◌, ◌==◌, false, true}
use ks_core.Event.{slot_event}
use ks_core.Signal.{direct, queued, blocking, ConnectionType, ManagedConnection, Signal}
use ks_core.Signal.Emit.{returned, emit}
use ks_core.Signal.Blocking.{finish}
use ks_core.World.{event_handler}
use ks_core.EventLoop.{ensure_active}
use ks_core.EventLoop.Post.{host}
use ks_core.EventLoop.Handlers.{process_events}
use ks_core.EventLoop.Handshake.{finish-process_events}
use ks_core.Fixture.{TestWorld, list_io, list_queue, note, run, started_with}

-- All objects are on loop 1; object 2 is dead.
abbrev crowd : TestWorld
crowd = record (started_with []) {
  objects = λ o. record { id = o + 10; event_loop = 1; alive = if o == 2 then false else true };
}

abbrev managed_to : ℕ → ConnectionType → ℕ → ManagedConnection ℕ ℕ
managed_to id type context = record {
  id = id;
  type = type;
  context = context;
  fn = record { guard = some context; slot = λ a. a + id };
}

abbrev crossing : Signal ℕ ℕ
crossing = record {
  managed =
      managed_to 1 queued 1
      ∷ managed_to 2 direct 3
      ∷ managed_to 3 blocking 2
      ∷ managed_to 4 blocking 4
      ∷ managed_to 5 queued 5
      ∷ [];
  unmanaged = record { id = 6; fn = record { guard = none; slot = λ a. a } } ∷ [];
}

finish-process_events_example :
    (w : TestWorld) × (finish
        (host list_io run)
        9
        40
        5
        (λ f w. (process_events list_io run 7 5 1 w).0)
        crossing
        (emit (host list_io run) 9 40 crossing crowd)
      ≡ (
        w,
        returned (record crossing {
          managed =
              managed_to 1 queued 1
              ∷ managed_to 2 direct 3
              ∷ managed_to 4 blocking 4
              ∷ managed_to 5 queued 5
              ∷ [];
        }),
      ))
    × (w.user ≡ 40 ∷ 42 ∷ 41 ∷ 44 ∷ [])
    × ((w.loops 1).service.ready
        ≡ event_handler (slot_event (record { guard = some 5; body = 45 })) ∷ [])
finish-process_events_example =
    finish-process_events list_io list_queue run note (λ b w. refl) 9 5 1 7 5 crossing 40 crowd
      (λ e. cc) (unfold ensure_active in refl) refl refl (refl, (refl, (refl, (refl, (refl, tt)))))
      (omega arith) (omega arith) (omega arith)
