-- ===== src/EventLoop.antt =====
-- ks/KsEventLoop.cpp: the operations of an event loop that thread `self` calls. Each holds
-- `m_mutex` around all it does to the loop's own state, so it is one step, except for `Run` and
-- `ProcessEvents`, which release it before asio runs handlers: `enter_run`, `leave_run` and
-- `EventLoop.Handlers` are their parts.
pub mod Post
pub mod Handlers
pub mod Lifecycle
pub mod Ownership
pub mod Posting
pub mod Stopping
pub mod Failing
pub mod Launch
pub mod Interface
pub mod Delivered
pub mod Handshake
pub mod Mailbox
pub mod Refinement
pub mod Removal
pub mod Spawning
pub mod Casts
pub mod Tests
use ks_core.Base.{[], ℕ, Bool, true, false, ◌&&◌, ◌||◌, ◌==◌, if◌then◌else◌}
use ks_core.Asio.{IoService}
use ks_core.Host.{Result, ok, threw, event_loop_inactive, called_from_wrong_thread, LoopState}
use ks_core.World.{Handler, null_thread, EventLoop, World, set_loop}

module _ {S : Type 0} where
  unfoldable pub ensure_active_loop : EventLoop S → Result
  ensure_active_loop v = if v.started && v.work then ok else threw event_loop_inactive

  unfoldable pub ensure_active_thread : ℕ → EventLoop S → Result
  ensure_active_thread self v = if v.thread_id == self then ok else threw called_from_wrong_thread

  -- The checks that `Run` and `ProcessEvents` begin with.
  unfoldable pub ensure_active : ℕ → EventLoop S → Result
  unfolding ensure_active_loop ensure_active_thread
  ensure_active self v = elim (ensure_active_loop v) [
    | ok ↦ ensure_active_thread self v
    | threw e ↦ threw e
  ]

module _ {B S : Type 0} (io : IoService (Handler B) S) where
  -- The constructor, with the id from `genId`.
  unfoldable pub new_event_loop : ℕ → EventLoop S
  new_event_loop id = record {
    id = id;
    thread_id = null_thread;
    started = false;
    running = false;
    list_timers = [];
    service = io.new_service;
    work = false;
  }

module _ {B S U : Type 0} where
  unfoldable pub get_id : ℕ → World B S U → ℕ
  get_id l w = (w.loops l).id

  unfoldable pub get_thread_id : ℕ → World B S U → ℕ
  get_thread_id l w = (w.loops l).thread_id

  unfoldable pub get_started : ℕ → World B S U → Bool
  get_started l w = (w.loops l).started

  unfoldable pub get_running : ℕ → World B S U → Bool
  get_running l w = (w.loops l).running

  unfoldable pub get_state : ℕ → World B S U → LoopState
  get_state l w = record {
    thread_id = (w.loops l).thread_id;
    started = (w.loops l).started;
    running = (w.loops l).running;
  }

  -- Run, up to the call of asio's `run`.
  unfoldable pub enter_run : ℕ → ℕ → World B S U → World B S U × Result
  unfolding ensure_active
  enter_run self l w = elim (ensure_active self (w.loops l)) [
    | ok ↦ (set_loop l (record (w.loops l) { running = true }) w, ok)
    | threw e ↦ (w, threw e)
  ]

  -- Run, once asio's `run` has returned.
  unfoldable pub leave_run : ℕ → World B S U → World B S U
  leave_run l w = set_loop l (record (w.loops l) { running = false }) w

module _ {B S U : Type 0} (io : IoService (Handler B) S) where
  unfoldable pub start : ℕ → ℕ → World B S U → World B S U
  start self l w =
      let v = w.loops l in
      if v.started || v.work
      then w
      else set_loop l
          (record v {
            service = io.add_work (io.reset v.service);
            work = true;
            thread_id = self;
            started = true;
          })
          w

  unfoldable pub stop : ℕ → World B S U → World B S U
  stop l w =
      let v = w.loops l in
      set_loop l
        (record v {
          work = false;
          service = io.stop (if v.work then io.drop_work v.service else v.service);
          thread_id = null_thread;
          started = false;
        })
        w

  -- The destructor stops the loop.
  unfoldable pub destroy : ℕ → World B S U → World B S U
  unfolding stop
  destroy l w = stop l w
