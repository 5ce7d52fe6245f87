-- ===== src/Signal/Plan/Tests.antt =====
-- Thread 9 emits a signal whose third slot throws.
use ks_core.Base.{ℕ, ◌+◌, ◌≡◌, refl, none, some, [], ◌∷◌, arith, ltb, if◌then◌else◌}
use ks_core.Host.{Host, Result, ok, threw, user_error}
use ks_core.Signal.{direct, queued, Signal, ManagedConnection, ConnectionType}
use ks_core.Signal.Emit.{emit, thrown}
use ks_core.Signal.Plan.{Steady, effects, called, posted}
use ks_core.Signal.Plan.Whole.{emit-plan}
use ks_core.EventLoop.Post.{host, post_event, post}
use ks_core.Fixture.{TestWorld, list_io, note, fresh}

-- User code that throws its number, if that is 43 or more, once it has written it down.
abbrev result : ℕ → Result
result b = if ltb b 43 then ok else threw (user_error b)

abbrev run_or_throw : ℕ → TestWorld → TestWorld × Result
run_or_throw b w = (record w { user = note b w.user }, result b)

abbrev throwing_host : Host ℕ TestWorld
throwing_host = host list_io run_or_throw

abbrev steady : Steady throwing_host
unfolding post_event post
steady = record {
  outcome = result;
  run_outcome = λ b w. refl;
  run_alive = λ b w. refl;
  run_loop = λ b w. refl;
  post_alive = λ l c w. refl;
  post_loop = λ l c w. refl;
}

abbrev managed_to : ℕ → ConnectionType → ℕ → ManagedConnection ℕ ℕ
managed_to id type o = record {
  id = id;
  type = type;
  context = o;
  fn = record { guard = some o; slot = λ n. n + o };
}

-- Object 2 is dead, and object 5's slot is not reached.
abbrev five : Signal ℕ ℕ
five = record {
  managed =
      managed_to 1 queued 1
      ∷ managed_to 2 direct 2
      ∷ managed_to 3 direct 3
      ∷ managed_to 4 direct 5
      ∷ [];
  unmanaged = record { id = 5; fn = record { guard = none; slot = λ n. n } } ∷ [];
}

emit-plan_example : emit throwing_host 9 40 five fresh ≡ (
  effects throwing_host
      (called 40 ∷ posted 1 (record { guard = some 1; body = 41 }) ∷ called 43 ∷ [])
      fresh,
  thrown (user_error 43),
)
unfolding steady
emit-plan_example =
    emit-plan throwing_host steady 9 40 five fresh
      ((λ e. cc), ((λ e. cc), ((λ e. cc), ((λ e. cc), tt)))) (omega arith)
