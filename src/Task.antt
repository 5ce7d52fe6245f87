-- ===== src/Task.antt =====
-- ks/KsTask.cpp. The promise and its future are one flag, `ready`.
mod Tests
pub mod Waiting
pub mod Untouched
pub mod Stays
pub mod Failing
use ks_core.Base.{ℕ, true, false, Option, none, some, if◌then◌else◌}
use ks_core.Host.{Result, ok, threw, promise_already_satisfied}
use ks_core.World.{Task, World, set_task}

pub data WaitStatus : Type 0 where
  finished ready timeout : WaitStatus

module _ {B : Type 0} where
  unfoldable pub new_task : B → Task B
  new_task b = record { task = b; ready = false; complete = false }

  -- Wait: `none` is a thread that stays blocked in `m_future.wait()`.
  unfoldable pub wait : Task B → Option WaitStatus
  wait t =
      if t.complete
      then some WaitStatus.finished
      else if t.ready
      then some WaitStatus.ready
      else none

  -- WaitFor: `later` is the task as it is when the time is over.
  unfoldable pub wait_for : Task B → Task B → WaitStatus
  wait_for t later =
      if t.complete
      then WaitStatus.finished
      else if later.ready
      then WaitStatus.ready
      else WaitStatus.timeout

module _ {B S U : Type 0} where
  -- The end of Invoke, where the task has returned or thrown: to set the promise a second time
  -- throws.
  unfoldable pub fulfil : ℕ → World B S U × Result → World B S U × Result
  fulfil t (w, ok) =
      if (w.tasks t).ready
      then (w, threw promise_already_satisfied)
      else (set_task t (record (w.tasks t) { ready = true; complete = true }) w, ok)
  fulfil t (w, threw e) = (w, threw e)

  unfoldable pub invoke :
      (B → World B S U → World B S U × Result) → ℕ → World B S U → World B S U × Result
  unfolding fulfil
  invoke run t w = fulfil t (run (w.tasks t).task w)
