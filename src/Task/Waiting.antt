-- ===== src/Task/Waiting.antt =====
-- Waiting for tasks (ks/KsTask.cpp, and EventLoop::PostTask of ks/KsEventLoop.cpp): when `Wait`
-- comes back, for a task that is invoked or posted.
use ks_core.Base.{
  ℕ, suc, ◌≡◌, refl, ap, ◌∙◌, true, false, none, some, [], ◌∷◌, ◌++◌, ◌==◌, update_self,
}
use ks_core.Host.{Error, Result, ok, threw, promise_already_satisfied}
use ks_core.Asio.{IoService, Queue}
use ks_core.World.{Handler, task_handler, EventLoop, Task, World, set_task}
use ks_core.EventLoop.{get_thread_id, ensure_active}
use ks_core.EventLoop.Post.{set_service, post, post_task}
use ks_core.EventLoop.Handlers.{completed, idle, handle, poll, process_events}
use ks_core.EventLoop.Posting.{IsTame, post-Grown, poll_empty}
use ks_core.Task.{WaitStatus, wait, wait_for, fulfil, invoke}

module _ {B S U : Type 0} (run : B → World B S U → World B S U × Result) where
  -- A task whose function throws passes the exception on, and leaves the state as the function
  -- left it. If the promise is not set in that state, then a thread in `Wait` stays blocked, and
  -- `WaitFor` comes back with Timeout.
  pub invoke_throws :
      (t : ℕ) (w w' : World B S U) (e : Error)
      → run (w.tasks t).task w ≡ (w', threw e)
      → (w'.tasks t).ready ≡ false
      → (w'.tasks t).complete ≡ false
      → (invoke run t w ≡ (w', threw e))
        × (wait (w'.tasks t) ≡ none)
        × (wait_for (w'.tasks t) (w'.tasks t) ≡ WaitStatus.timeout)
  unfolding invoke wait wait_for
  invoke_throws t w w' e raised unset incomplete = (
    ap (fulfil t) raised,
    rw (incomplete, wait) (rw unset refl),
    rw (incomplete, wait_for) (rw unset refl),
  )

module _ {B S U : Type 0} (run : B → World B S U → World B S U × Result) (note : B → U → U)
    (tame : IsTame note run) where
  -- The state after a first Invoke.
  abbrev pub invoked : ℕ → World B S U → World B S U
  invoked t w =
      set_task t (record (w.tasks t) { ready = true; complete = true })
        (record w { user = note (w.tasks t).task w.user })

  invoke_once :
      (t : ℕ) (w : World B S U) → (w.tasks t).ready ≡ false → invoke run t w ≡ (invoked t w, ok)
  unfolding invoke fulfil
  invoke_once t w fresh = ap (fulfil t) (tame (w.tasks t).task w) ∙ rw fresh refl

  invoke_again :
      (t : ℕ) (w : World B S U)
      → (w.tasks t).ready ≡ true
      → invoke run t w
        ≡ (record w { user = note (w.tasks t).task w.user }, threw promise_already_satisfied)
  unfolding invoke fulfil
  invoke_again t w spent = ap (fulfil t) (tame (w.tasks t).task w) ∙ rw spent refl

  wait_invoked : (t : ℕ) (w : World B S U) → wait ((invoked t w).tasks t) ≡ some WaitStatus.finished
  unfolding wait
  wait_invoked t w = rw (update_self w.tasks t _, wait) refl

  -- Invoke is called twice for a task whose promise is not set, with a function that returns: the
  -- function runs both times, the second Invoke throws promise_already_satisfied, and whoever
  -- waits after the first one is told that the task is finished.
  pub invoke_twice :
      (t : ℕ) (w : World B S U)
      → (w.tasks t).ready ≡ false
      → (v v' : World B S U) × (invoke run t w ≡ (v, ok))
        × (invoke run t v ≡ (v', threw promise_already_satisfied))
        × (v'.user ≡ note (w.tasks t).task (note (w.tasks t).task w.user))
        × (wait (v.tasks t) ≡ some WaitStatus.finished)
        × (wait (v'.tasks t) ≡ some WaitStatus.finished)
  invoke_twice t w fresh =
      let v = invoked t w in
      let at = update_self w.tasks t (record (w.tasks t) { ready = true; complete = true }) in
      (
        v,
        record v { user = note (v.tasks t).task v.user },
        invoke_once t w fresh,
        invoke_again t v (ap (λ (x : Task B). x.ready) at),
        ap (λ (x : Task B). note x.task v.user) at,
        wait_invoked t w,
        wait_invoked t w,
      )

  module _ (io : IoService (Handler B) S) where
    -- PostTask on the thread that runs the loop, for a task whose promise is not set and whose
    -- function returns: the task is invoked at once, the loops stay as they are, and `Wait`
    -- comes back.
    pub post_task_own_thread :
        (t self l : ℕ) (w : World B S U)
        → (self == get_thread_id l w) ≡ true
        → (w.tasks t).ready ≡ false
        → (v : World B S U) × (post_task io run self l t w ≡ (v, ok))
          × (v.user ≡ note (w.tasks t).task w.user)
          × (v.loops ≡ w.loops)
          × (wait (v.tasks t) ≡ some WaitStatus.finished)
    unfolding post_task
    post_task_own_thread t self l w own fresh =
        (invoked t w, rw (own, post_task) (invoke_once t w fresh), refl, refl, wait_invoked t w)

    handle_task :
        (t self : ℕ) (w : World B S U)
        → (w.tasks t).ready ≡ false
        → handle io run self (task_handler t) w ≡ (invoked t w, completed ok)
    unfolding handle
    handle_task t self w fresh = ap (λ r. (r.0, completed r.1)) (invoke_once t w fresh)

    poll_task :
        (t n self l : ℕ) (w : World B S U) (s : S)
        → io.next (w.loops l).service ≡ some (task_handler t, s)
        → (w.tasks t).ready ≡ false
        → poll io run (suc n) self l w ≡ poll io run n self l (invoked t (set_service io l s w))
    unfolding poll
    poll_task t n self l w s e fresh =
        let done = handle_task t self (set_service io l s w) fresh in
        rw (e, poll) (rw (ap (λ r. r.1) done) (ap (λ r. poll io run n self l r.0) done))

    -- PostTask on another thread, for a task whose promise is not set and whose function returns,
    -- and a running loop with an empty queue: nothing of the task changes until the loop's thread
    -- next calls ProcessEvents, which runs it once and returns with an empty queue, and then
    -- `Wait` comes back.
    pub process_events-post_task :
        (q : Queue io) (t n self other l : ℕ) (w : World B S U)
        → (other == get_thread_id l w) ≡ false
        → ensure_active self (w.loops l) ≡ ok
        → q.stopped (w.loops l).service ≡ false
        → q.queued (w.loops l).service ≡ []
        → (w.tasks t).ready ≡ false
        → (v w' : World B S U) × (post_task io run other l t w ≡ (v, ok))
          × (v.tasks ≡ w.tasks)
          × (process_events io run (suc (suc n)) self l v ≡ (w', idle))
          × (w'.user ≡ note (w.tasks t).task w.user)
          × (q.queued (w'.loops l).service ≡ [])
          × (wait (w'.tasks t) ≡ some WaitStatus.finished)
    unfolding post_task process_events post
    process_events-post_task q t n self other l w foreign active o e fresh =
        let g = post-Grown io run note tame q l (task_handler t) w in
        let v = post io l (task_handler t) w in
        let (s, taken, left, still) =
          q.next_ready (v.loops l).service (task_handler t) [] (g.open' ∙ o)
            (g.queue ∙ ap (λ z. z ++ task_handler t ∷ []) e) in
        let w' = invoked t (set_service io l s v) in
        let empty : q.queued (w'.loops l).service ≡ [] =
          ap (λ (x : EventLoop S). q.queued x.service) (update_self v.loops l _) ∙ left in
        (
          v,
          w',
          rw (foreign, post_task) refl,
          refl,
          rw (g.active self ∙ active, process_events)
              (poll_task t (suc n) self l v s taken fresh
                ∙ poll_empty io run note tame q n self l w' empty),
          refl,
          empty,
          wait_invoked t (set_service io l s v),
        )
