-- ===== src/Task/Failing.antt =====
-- A task whose function throws (Task::Invoke and the wait functions of ks/KsTask.cpp, TaskHandler of
-- ks/KsEventLoop.cpp): Invoke leaves before the lines that set the promise and `m_complete`.
use ks_core.Base.{ℕ, ◌≡◌, refl, ap, ◌∙◌, none, List, [], ◌∷◌}
use ks_core.Host.{Error, Result, threw}
use ks_core.Signal.{ManagedConnection}
use ks_core.Asio.{IoService}
use ks_core.World.{Handler, task_handler, Task, World}
use ks_core.EventLoop.Post.{post_task}
use ks_core.EventLoop.Handlers.{completed, handle, resume_timeout, process_events}
use ks_core.EventLoop.Handlers
use ks_core.EventLoop.Lifecycle.{Call, step}
use ks_core.Task.{WaitStatus, new_task, wait, wait_for}
use ks_core.Task.Untouched.{step-tasks}
use ks_core.Task.Stays.{
  invoke_raises, process_events-Stays, run-Stays, post_task-Stays, resume_timeout-Stays,
}

-- What threads do: a call of a loop, PostTask, ProcessEvents, Run up to where asio's `run` returns or
-- waits, and another look at the flag that a timeout signal waits for.
pub data Move (B : Type 0) : Type 0 where
  calls : Call B → Move B
  posts_task : ℕ → ℕ → ℕ → Move B
  processes_events : ℕ → ℕ → ℕ → Move B
  runs : ℕ → ℕ → ℕ → Move B
  resumes : ℕ → ℕ → ℕ → List (ManagedConnection (Unit {0}) B) → ℕ → Move B

module _ {B S U : Type 0} (io : IoService (Handler B) S)
    (run : B → World B S U → World B S U × Result) where
  unfoldable pub move : Move B → World B S U → World B S U
  move (calls c) w = step io c w
  move (posts_task self l t) w = (post_task io run self l t w).0
  move (processes_events n self l) w = (process_events io run n self l w).0
  move (runs n self l) w = (Handlers.run io run n self l w).0
  move (resumes self t f cs n) w = (resume_timeout io run self t f cs n w).0

  unfoldable pub moves : List (Move B) → World B S U → World B S U
  moves [] w = w
  moves (m ∷ ms) w = moves ms (move m w)

module _ {B S U : Type 0} (io : IoService (Handler B) S)
    (run : B → World B S U → World B S U × Result) (t : ℕ) (k : Task B) (e : Error)
    (keeps : (b : B) (w : World B S U) → w.tasks t ≡ k → (run b w).0.tasks t ≡ k)
    (raises : (w : World B S U) → (run k.task w).1 ≡ threw e) where
  move_stays : (m : Move B) (w : World B S U) → w.tasks t ≡ k → (move io run m w).tasks t ≡ k
  unfolding move
  move_stays (calls c) w p = ap (λ f. f t) (step-tasks io c w) ∙ p
  move_stays (posts_task self l j) w p = post_task-Stays io run t k e keeps raises self l j w p
  move_stays (processes_events n self l) w p =
      process_events-Stays io run t k e keeps raises n self l w p
  move_stays (runs n self l) w p = run-Stays io run t k e keeps raises n self l w p
  move_stays (resumes self i f cs n) w p =
      resume_timeout-Stays io run t k e keeps raises self i f cs n w p

  moves_stay :
      (ms : List (Move B)) (w : World B S U) → w.tasks t ≡ k → (moves io run ms w).tasks t ≡ k
  unfolding moves
  moves_stay [] w p = p
  moves_stay (m ∷ ms) w p = moves_stay ms (move io run m w) (move_stays m w p)

-- A task whose function always throws, and user code that keeps the task as it is: whatever calls,
-- PostTask, ProcessEvents and Run come in whatever order, each TaskHandler of the task throws the
-- exception, a thread in `Wait` stays blocked, and `WaitFor` comes back with Timeout.
pub failing_task_never_ready :
    {B S U : Type 0} (io : IoService (Handler B) S) (run : B → World B S U → World B S U × Result)
    (t self : ℕ) (b : B) (e : Error) (ms ns : List (Move B)) (w : World B S U)
    → ((c : B) (u : World B S U) → u.tasks t ≡ new_task b → (run c u).0.tasks t ≡ new_task b)
    → ((u : World B S U) → (run b u).1 ≡ threw e)
    → w.tasks t ≡ new_task b
    → let v = moves io run ms w in
      let u = moves io run ns v in
      ((handle io run self (task_handler t) v).1 ≡ completed (threw e))
      × (wait (v.tasks t) ≡ none)
      × (wait_for (v.tasks t) (u.tasks t) ≡ WaitStatus.timeout)
unfolding new_task handle wait wait_for
failing_task_never_ready io run t self b e ms ns w keeps raises p =
    let v = moves io run ms w in
    let q = moves_stay io run t (new_task b) e keeps raises ms w p in
    let r = moves_stay io run t (new_task b) e keeps raises ns v q in
    (
      ap completed (invoke_raises io run t (new_task b) e keeps raises v q).1,
      ap wait q,
      rw (q, r) refl,
    )
