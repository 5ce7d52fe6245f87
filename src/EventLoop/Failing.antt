-- ===== src/EventLoop/Failing.antt =====
-- A slot that throws (EventLoop::Run, Stop and the events of ks/KsEventLoop.cpp): the exception leaves
-- `Run` past the line that resets `m_running`.
use ks_core.Base.{ℕ, suc, ◌≡◌, refl, ap, ◌∙◌, true, false, none, some, List, ◌∷◌, update_self}
use ks_core.Event.{slot_event}
use ks_core.Host.{Error, Result, ok, threw, call}
use ks_core.Asio.{IoService, Queue}
use ks_core.World.{Handler, event_handler, EventLoop, World, set_loop}
use ks_core.EventLoop.{ensure_active, enter_run, stop, get_running, get_started}
use ks_core.EventLoop.Post.{set_service}
use ks_core.EventLoop.Handlers.{completed, failed, handle, poll}
use ks_core.EventLoop.Handlers

module _ {B S U : Type 0} (io : IoService (Handler B) S) (q : Queue io)
    (user : B → World B S U → World B S U × Result) (b : B) (e : Error) (note : U → U)
    (raises : (w : World B S U) → user b w ≡ (record w { user = note w.user }, threw e)) where
  abbrev thrower : Handler B
  thrower = event_handler (slot_event (record { guard = none; body = b }))

  handle-thrower :
      (self : ℕ) (w : World B S U)
      → handle io user self thrower w ≡ (record w { user = note w.user }, completed (threw e))
  unfolding handle call
  handle-thrower self w = ap (λ r. (r.0, completed r.1)) (raises w)

  poll-thrower :
      (n self l : ℕ) (w : World B S U) (t : S)
      → io.next (w.loops l).service ≡ some (thrower, t)
      → poll io user (suc n) self l w
        ≡ (record (set_service io l t w) { user = note w.user }, failed e)
  unfolding poll
  poll-thrower n self l w t taken =
      let done = handle-thrower self (set_service io l t w) in
      rw (taken, poll) (rw (ap (λ r. r.1) done) (ap (λ r. (r.0, failed e)) done))

  enters :
      (self l : ℕ) (w : World B S U)
      → ensure_active self (w.loops l) ≡ ok
      → enter_run self l w ≡ (set_loop l (record (w.loops l) { running = true }) w, ok)
  unfolding enter_run
  enters self l w active = rw (active, enter_run) refl

  -- The first handler that Run finds is a slot that throws: Run ends with the exception and leaves
  -- the handlers behind it in the queue. The loop is still started, and GetRunning goes on saying
  -- that it is running, also after Stop.
  pub run_throws :
      (n self l : ℕ) (rest : List (Handler B)) (w : World B S U)
      → ensure_active self (w.loops l) ≡ ok
      → q.stopped (w.loops l).service ≡ false
      → q.queued (w.loops l).service ≡ thrower ∷ rest
      → (v : World B S U) × (Handlers.run io user (suc n) self l w ≡ (v, some (failed e)))
        × (q.queued (v.loops l).service ≡ rest)
        × (get_started l v ≡ get_started l w)
        × (get_running l v ≡ true)
        × (get_running l (stop io l v) ≡ true)
  unfolding Handlers.run get_started get_running stop
  run_throws n self l rest w active o queue =
      let w' : World B S U = set_loop l (record (w.loops l) { running = true }) w in
      let at = update_self w.loops l (record (w.loops l) { running = true }) in
      let (t, taken, left, still) = q.next_ready (w.loops l).service thrower rest o queue in
      let v : World B S U = record (set_service io l t w') { user = note w'.user } in
      let polled =
        poll-thrower n self l w' t (ap (λ (x : EventLoop S). io.next x.service) at ∙ taken) in
      let entered = enters self l w active in
      let ends = ap (λ r. poll io user (suc n) self l r.0) entered ∙ polled in
      let there = update_self w'.loops l (record (w'.loops l) { service = t }) in
      let running : (v.loops l).running ≡ true =
        ap (λ (x : EventLoop S). x.running) there ∙ ap (λ (x : EventLoop S). x.running) at in
      (
        v,
        rw (ap (λ r. r.1) entered, Handlers.run)
            (rw (ap (λ r. r.1) ends) (ap (λ r. (r.0, some (failed e))) ends)),
        ap (λ (x : EventLoop S). q.queued x.service) there ∙ left,
        ap (λ (x : EventLoop S). x.started) there ∙ ap (λ (x : EventLoop S). x.started) at,
        running,
        ap (λ (x : EventLoop S). x.running) (update_self v.loops l _) ∙ running,
      )
