-- ===== src/Signal/Tests.antt =====
-- A signal with an unmanaged connection and three managed ones, of which one has a dead receiver.
use mathlib.Core.Quot
use ks_core.Base.{
  ℕ, List, ◌+◌, ◌≡◌, refl, sym, true, false, none, some, [], ◌∷◌, arith, update, ==_refl,
}
use ks_core.Event.{slot_event}
use ks_core.Host.{Host, Quiet}
use ks_core.Signal.{
  direct, queued, blocking, Signal, ConnectionType, ManagedConnection, receiver, connect,
  ConnectCall, connect_receiver, disconnect, find_managed_connection, find_unmanaged_connection,
  connection_valid, get_connection_count,
}
use ks_core.Signal.Connections.{HasUniqueIds, connect-HasUniqueIds}
use ks_core.Signal.Registry.{
  Call, connects, disconnects, asks_valid, asks_count, new_id, answer, number, performs, promises,
  abstraction, performs-promises,
}
use ks_core.Signal.Emit.{returned, waiting, Progress, emit, resume, emit_managed, emit_unmanaged}
use ks_core.Signal.Delivery.{emit_delivers}
use ks_core.Signal.Blocking.{
  emit_waits_for, emit_comes_back, finish, EmitWaitsFor, IsOver, begins, wakes,
}
use ks_core.EventLoop.Post.{host, post_event}
use ks_core.EventLoop.Interface.{host-Quiet, events}
use ks_core.EventLoop.{ensure_active, get_state}
use ks_core.EventLoop.Handlers.{idle, process_events}
use ks_core.EventLoop.Delivered.{process_events-emit}
use ks_core.Fixture.{TestWorld, list_io, list_queue, fresh, note, run, started_with}

abbrev test_host : Host ℕ TestWorld
test_host = host list_io run

abbrev managed_to : ℕ → ConnectionType → ℕ → ManagedConnection ℕ ℕ
managed_to id type o = record {
  id = id;
  type = type;
  context = o;
  fn = record { guard = some o; slot = λ n. n + o };
}

-- Emitted with 40: object 2 is dead.
abbrev mixed : Signal ℕ ℕ
mixed = record {
  managed = managed_to 1 queued 1 ∷ managed_to 2 queued 2 ∷ managed_to 3 direct 3 ∷ [];
  unmanaged = record { id = 4; fn = record { guard = none; slot = λ n. n } } ∷ [];
}

mixed_ids : HasUniqueIds 5 mixed
mixed_ids = record {
  unique = λ j. ground arith;
  below = λ j h. ground arith;
  nonzero = omega arith;
}

abbrev call : ConnectCall ℕ ℕ ℕ
call = receiver 3 (λ o n. n + o) blocking

-- Calls of all four methods, with a second Disconnect that fails.
abbrev calls : List (Call ℕ ℕ ℕ)
calls =
    asks_count
    ∷ connects call
    ∷ disconnects 3
    ∷ disconnects 3
    ∷ asks_valid 4
    ∷ asks_valid 3
    ∷ asks_count
    ∷ []

calls_answered :
    (performs calls 5 mixed).2
    ≡ number 4 ∷ new_id 5 ∷ answer true ∷ answer false ∷ answer true ∷ answer false ∷ number 4 ∷ []
unfolding connect_receiver disconnect find_managed_connection find_unmanaged_connection
    connection_valid get_connection_count
calls_answered = refl

performs-promises_example :
    abstraction (performs calls 5 mixed) ≡ promises calls 5 (Quot.mk (1 ∷ 2 ∷ 3 ∷ 4 ∷ []))
performs-promises_example = performs-promises calls 5 mixed

connect-HasUniqueIds_example :
    HasUniqueIds (connect call 5 mixed).counter (connect call 5 mixed).signal
connect-HasUniqueIds_example =
    connect-HasUniqueIds call 5 mixed (omega arith) (omega arith) mixed_ids

abbrev view : Quiet test_host
view = host-Quiet list_io list_queue run note (λ b w. refl) (λ u. u) (λ b u. refl)

emit_delivers_example :
    ((emit test_host 9 40 mixed fresh).1
      ≡ returned (record mixed { managed = managed_to 1 queued 1 ∷ managed_to 3 direct 3 ∷ [] }))
    × (events ((emit test_host 9 40 mixed fresh).0.loops 1).service.ready
        ≡ slot_event (record { guard = some 1; body = 41 }) ∷ [])
    × ((emit test_host 9 40 mixed fresh).0.user ≡ 40 ∷ 43 ∷ [])
emit_delivers_example =
    emit_delivers test_host view 9 40 mixed fresh 1 (refl, tt)
      (((λ e. cc), refl), (((λ e. cc), refl), (((λ e. cc), refl), tt))) (omega arith)

-- Loop 3 runs on thread 5; object 3 is to be called there, by thread 9, which waits.
abbrev running : TestWorld
running = record fresh {
  loops =
      update fresh.loops 3 (record (fresh.loops 3) { started = true; thread_id = 5; work = true });
}

abbrev calling : Signal ℕ ℕ
calling = record { managed = managed_to 1 blocking 3 ∷ mixed.managed; unmanaged = [] }

-- The loop of object 3 sets the flag.
abbrev others : ℕ → TestWorld → TestWorld
others f w = record w { flags = update w.flags f true }

-- Two blocking connections to object 3: when thread 9 is woken with its flag set, it goes on to the
-- second one, and waits again.
abbrev calling_twice : Signal ℕ ℕ
calling_twice = record {
  managed = managed_to 1 blocking 3 ∷ managed_to 2 blocking 3 ∷ [];
  unmanaged = [];
}

abbrev first_wait : TestWorld × Progress ℕ ℕ
first_wait = emit test_host 9 40 calling_twice running

abbrev second_wait : TestWorld × Progress ℕ ℕ
second_wait =
    resume test_host 9 40 calling_twice 0 (managed_to 2 blocking 3 ∷ []) 0 (others 0 first_wait.0)

second_wait_waits : second_wait.1 ≡ waiting 1 [] 0
unfolding resume emit emit_managed emit_unmanaged get_state post_event
second_wait_waits = refl

first_wait_waits : first_wait ≡ (first_wait.0, waiting 0 (managed_to 2 blocking 3 ∷ []) 0)
unfolding emit emit_unmanaged emit_managed get_state
first_wait_waits = refl

emit_waits_for_example : EmitWaitsFor test_host 9 40 calling_twice running second_wait
emit_waits_for_example = emit_waits_for test_host 9 40 calling_twice running (
    wakes 0 (managed_to 2 blocking 3 ∷ []) 0 first_wait.0 (others 0 first_wait.0)
      (begins (sym first_wait_waits)) refl)

emit_comes_back_example :
    IsOver test_host 9 40
      (finish test_host 9 40 4 others calling (emit test_host 9 40 calling running)).1
emit_comes_back_example =
    emit_comes_back test_host 9 40 4 others calling running (λ f w. ground (arith, ==_refl f))
      (omega arith)

-- Thread 9 emits, and then thread 5 processes the events of loop 1.
process_events-emit_example :
    (w : TestWorld) × ((emit test_host 9 40 mixed (started_with [])).1
      ≡ returned (record mixed { managed = managed_to 1 queued 1 ∷ managed_to 3 direct 3 ∷ [] }))
    × (process_events list_io run 2 5 1 (emit test_host 9 40 mixed (started_with [])).0 ≡ (w, idle))
    × (w.user ≡ 40 ∷ 43 ∷ 41 ∷ [])
    × ((w.loops 1).service.ready ≡ [])
process_events-emit_example =
    process_events-emit list_io list_queue run note (λ b w. refl) (λ u. u) (λ b u. refl) mixed 40 9
      5 1 0 (started_with []) (refl, tt)
      (((λ e. cc), refl), (((λ e. cc), refl), (((λ e. cc), refl), tt))) (omega arith)
      (unfold ensure_active in refl) refl refl
