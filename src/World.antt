-- ===== src/World.antt =====
-- The state of the program: event loops (ks/KsEventLoop.hpp, KsEventLoop.cpp), objects
-- (ks/KsObject.hpp), timers (ks/KsTimer.hpp) and tasks (ks/KsTask.hpp), each under the number that
-- stands for its address. `B` is user code with its arguments bound, `S` the state of an asio
-- service, and `U` what belongs to the user.
use ks_core.Base.{ℕ, Bool, List, update}
use ks_core.Event.{Event}
use ks_core.Signal.{Signal}

-- The functors that are posted to asio: EventHandler, TaskHandler, the bound EventLoop::Stop, and
-- TimeoutHandler with its error code (`true` is operation_aborted).
pub data Handler (B : Type 0) : Type 0 where
  event_handler : Event B → Handler B
  task_handler : ℕ → Handler B
  stop_handler : ℕ → Handler B
  timeout_handler : ℕ → Bool → Handler B

-- m_thread_id_null
abbrev pub null_thread : ℕ
null_thread = 0

-- `work` is whether m_asio_work is set; `list_timers` takes a timer's id to its TimerInfo.
pub record EventLoop (S : Type 0) : Type 0 where
  pub id : ℕ
  pub thread_id : ℕ
  pub started : Bool
  pub running : Bool
  pub list_timers : List (ℕ × ℕ)
  pub service : S
  pub work : Bool

-- A TimerInfo is shared by `list_timers` and the handlers of its asio timer; `loop` is the event
-- loop whose service the asio timer was made with.
pub record TimerInfo : Type 0 where
  pub id : ℕ
  pub timer : ℕ
  pub interval_ms : ℕ
  pub repeat : Bool
  pub canceled : Bool
  pub loop : ℕ

-- An object is alive as long as a shared_ptr to it is held.
pub record Object : Type 0 where
  pub id : ℕ
  pub event_loop : ℕ
  pub alive : Bool

pub record Timer (B : Type 0) : Type 0 where
  pub interval_ms : ℕ
  pub repeating : Bool
  pub active : Bool
  pub signal_timeout : Signal (Unit {0}) B

-- `ready` is whether the promise is set.
pub record Task (B : Type 0) : Type 0 where
  pub task : B
  pub ready : Bool
  pub complete : Bool

pub record World (B S U : Type 0) : Type 0 where
  pub loops : ℕ → EventLoop S
  pub objects : ℕ → Object
  pub timers : ℕ → Timer B
  pub infos : ℕ → TimerInfo
  pub next_info : ℕ
  pub tasks : ℕ → Task B
  pub flags : ℕ → Bool
  pub next_flag : ℕ
  pub user : U

module _ {B S U : Type 0} where
  abbrev pub set_loop : ℕ → EventLoop S → World B S U → World B S U
  set_loop l v w = record w { loops = update w.loops l v }

  abbrev pub set_timer : ℕ → Timer B → World B S U → World B S U
  set_timer t v w = record w { timers = update w.timers t v }

  abbrev pub set_info : ℕ → TimerInfo → World B S U → World B S U
  set_info i v w = record w { infos = update w.infos i v }

  abbrev pub set_task : ℕ → Task B → World B S U → World B S U
  set_task t v w = record w { tasks = update w.tasks t v }
