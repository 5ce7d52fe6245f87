-- ===== src/Timer/Tests.antt =====
-- Timer 1 with id 11 on loop 1, started once or twice.
use ks_core.Base.{none, some, ℕ, ◌≡◌, refl, true, false, List, [], ◌∷◌, arith, update}
use ks_core.Event.{StartTimer, start_timer_event}
use ks_core.World.{timeout_handler}
use ks_core.EventLoop
use ks_core.EventLoop.Post.{start_timer, stop_timer, insert_info, post_event}
use ks_core.EventLoop.Handlers.{completed, handle}
use ks_core.EventLoop.Lifecycle.{Call, starts, posts, steps, step}
use ks_core.Host.{ok}
use ks_core.Timer.Registry.{IsRegistered, one_live_info}
use ks_core.Timer.Stale.{stale_timeout}
use ks_core.Timer.Parts.{handle_timeout_between}
use ks_core.Timer.Concurrent.{IsArmed, restart_loses_active}
use ks_core.Timer.{get_active}
use ks_core.Signal.{Signal, direct, queued}
use ks_core.Fixture.{TestWorld, list_io, fresh, note, run}

abbrev every_50 : StartTimer
every_50 = record { timer_id = 11; timer = 1; interval_ms = 50; repeating = true }

abbrev ticking : TestWorld
ticking = start_timer list_io 1 every_50 fresh

abbrev calls : List (Call ℕ)
calls = starts 5 1 ∷ posts 1 (start_timer_event every_50) ∷ []

fresh-IsRegistered : IsRegistered fresh
fresh-IsRegistered = record { live = λ i b c. cc; found = λ l id i e. cc }

one_live_info_example : ◌≡◌ {A = ℕ} 0 0
unfolding steps step start_timer post_event insert_info EventLoop.start
one_live_info_example =
    one_live_info list_io calls fresh 0 0 fresh-IsRegistered (omega arith) (omega arith) refl refl
      refl refl

stale_timeout_example :
    handle list_io run 5
      (timeout_handler 0 false)
      (steps list_io calls (stop_timer list_io 1 11 ticking))
    ≡ (steps list_io calls (stop_timer list_io 1 11 ticking), completed ok)
unfolding start_timer insert_info
stale_timeout_example =
    (stale_timeout list_io run calls 1 0 5 every_50 false ticking (omega arith) refl refl).1

-- A one-shot timer with a function, a slot of the dead object 2 and one of object 3.
abbrev due_signal : Signal (Unit {0}) ℕ
due_signal = record {
  managed =
      record { id = 1; type = queued; context = 2; fn = record { guard = some 2; slot = λ u. 8 } }
      ∷ record { id = 2; type = direct; context = 3; fn = record { guard = some 3; slot = λ u. 9 } }
      ∷ [];
  unmanaged = record { id = 3; fn = record { guard = none; slot = λ u. 7 } } ∷ [];
}

abbrev due : TestWorld
due = record fresh {
  infos = λ i. record {
    id = 11;
    timer = 1;
    interval_ms = 50;
    repeat = false;
    canceled = false;
    loop = 1;
  };
  timers = λ t. record {
    interval_ms = 50;
    repeating = false;
    active = true;
    signal_timeout = due_signal;
  };
}

-- The one-shot timer as loop 1 has registered it, and the event that starts it anew.
abbrev armed_once : TestWorld
armed_once = record due {
  next_info = 1;
  loops = update due.loops 1 (record (due.loops 1) { list_timers = (11, 0) ∷ [] });
}

abbrev once_50 : StartTimer
once_50 = record every_50 { repeating = false }

restart_loses_active_example :
    let before =
      (handle list_io run 5
        (timeout_handler 0 false)
        (start_timer list_io 1 once_50 armed_once)).0 in
    let behind =
      start_timer list_io 1 once_50 (handle list_io run 5 (timeout_handler 0 false) armed_once).0 in
    let between =
      (handle_timeout_between list_io run
        (posts 1 (start_timer_event once_50) ∷ [])
        []
        5
        0
        false
        armed_once).0 in
    (get_active 1 before ≡ true)
    × (get_active 1 behind ≡ true)
    × (get_active 1 between ≡ false)
    × IsArmed list_io 1 11 1 before
    × IsArmed list_io 1 11 1 behind
    × IsArmed list_io 1 11 1 between
restart_loses_active_example =
    restart_loses_active list_io run note (λ b w. refl) 1 0 5 once_50 armed_once (omega arith) refl
      refl refl refl refl
