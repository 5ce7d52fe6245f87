-- ===== src/Timer.antt =====
-- ks/KsTimer.cpp: a timer is an object, and asks its event loop to start and stop by events, which
-- the loop handles at once.
pub mod Stale
pub mod Timeout
pub mod Repeating
pub mod Parts
pub mod Concurrent
pub mod Session
pub mod Registry
pub mod Tests
use ks_core.Base.{ℕ, Bool, false, update}
use ks_core.Event.{start_timer_event, stop_timer_event}
use ks_core.Asio.{IoService}
use ks_core.World.{Handler, Timer, World, set_timer}
use ks_core.Signal.{new_signal}
use ks_core.EventLoop.Post.{post_event}

unfoldable pub new_timer : {B : Type 0} → Timer B
unfolding new_signal
new_timer = record {
  interval_ms = 0;
  repeating = false;
  active = false;
  signal_timeout = new_signal;
}

module _ {B S U : Type 0} where
  unfoldable pub get_repeating : ℕ → World B S U → Bool
  get_repeating t w = (w.timers t).repeating

  unfoldable pub get_active : ℕ → World B S U → Bool
  get_active t w = (w.timers t).active

module _ {B S U : Type 0} (io : IoService (Handler B) S) where
  unfoldable pub start : ℕ → ℕ → Bool → World B S U → World B S U
  start t interval_ms repeating w =
      let v =
        set_timer t (record (w.timers t) { interval_ms = interval_ms; repeating = repeating }) w in
      post_event io (v.objects t).event_loop
        (start_timer_event (record {
          timer_id = (v.objects t).id;
          timer = t;
          interval_ms = (v.timers t).interval_ms;
          repeating = (v.timers t).repeating;
        }))
        v

  unfoldable pub stop : ℕ → World B S U → World B S U
  stop t w = post_event io (w.objects t).event_loop (stop_timer_event (w.objects t).id) w

  -- The last shared_ptr goes, so that no weak_ptr locks any more; then the destructor runs.
  unfoldable pub destroy : ℕ → World B S U → World B S U
  unfolding stop
  destroy t w =
      stop t (record w { objects = update w.objects t (record (w.objects t) { alive = false }) })
