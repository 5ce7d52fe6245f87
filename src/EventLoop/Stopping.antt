-- ===== src/EventLoop/Stopping.antt =====
-- A stop event (EventLoop::PostStopEvent, EventLoop::Stop of ks/KsEventLoop.cpp) among the slot
-- events that `ProcessEvents` runs.
use ks_core.Base.{
  ℕ, suc, ◌+◌, ◌≡◌, refl, ap, ◌∙◌, true, false, List, ◌∷◌, ◌++◌, length, if◌then◌else◌, Bool-cases,
  inl, inr,
}
use ks_core.Event.{Callback}
use ks_core.Host.{Result, ok}
use ks_core.Asio.{IoService, Queue}
use ks_core.World.{Handler, stop_handler, EventLoop, World}
use ks_core.EventLoop.{ensure_active, stop}
use ks_core.EventLoop.Post.{set_service}
use ks_core.EventLoop.Handlers.{idle, handle, poll, process_events}
use ks_core.EventLoop.Posting.{IsTame, noted, slots, poll-slots, service_of}

module _ {B S U : Type 0} (io : IoService (Handler B) S)
    (run : B → World B S U → World B S U × Result) (note : B → U → U) (tame : IsTame note run)
    (q : Queue io) where
  -- `Stop` leaves the queue as it is, and nothing is taken out of it any more.
  pub stop_lem :
      (l : ℕ) (w : World B S U)
      → let v = (stop io l w).loops l in
        (q.queued v.service ≡ q.queued (w.loops l).service)
        × (q.stopped v.service ≡ true)
        × (v.started ≡ false)
  unfolding stop
  stop_lem l w =
      let v = w.loops l in
      rw (service_of io run note tame q l _ w) (q.stop_queued _ ∙ dropped v, q.stop_stopped _, refl)
    where
      dropped :
          (v : EventLoop S)
          → q.queued (if v.work then io.drop_work v.service else v.service) ≡ q.queued v.service
      dropped v = elim (Bool-cases v.work) [
        | inl e ↦ rw e (q.drop_queued v.service)
        | inr e ↦ rw e refl
      ]

  pub poll_stopped :
      (n self l : ℕ) (w : World B S U)
      → q.stopped (w.loops l).service ≡ true
      → poll io run (suc n) self l w ≡ (w, idle)
  unfolding poll
  poll_stopped n self l w e = rw (q.next_stopped _ e, poll) refl

  poll_stop :
      (rest : List (Handler B)) (n self l : ℕ) (w : World B S U)
      → q.stopped (w.loops l).service ≡ false
      → q.queued (w.loops l).service ≡ stop_handler l ∷ rest
      → (w' : World B S U) × (poll io run (suc (suc n)) self l w ≡ (w', idle))
        × (w'.user ≡ w.user)
        × (q.queued (w'.loops l).service ≡ rest)
        × ((w'.loops l).started ≡ false)
  unfolding poll handle
  poll_stop rest n self l w o e =
      let (t, taken, left, still) = q.next_ready (w.loops l).service _ _ o e in
      let u : World B S U = set_service io l t w in
      let (queue, closed, off) = stop_lem l u in
      (
        stop io l u,
        rw (taken, poll) (poll_stopped n self l (stop io l u) closed),
        stop_user l u,
        queue
            ∙ ap (λ (x : EventLoop S). q.queued x.service) (service_of io run note tame q l _ w)
            ∙ left,
        off,
      )
    where
      stop_user : (l : ℕ) (w : World B S U) → (stop io l w).user ≡ w.user
      stop_user l w = unfold stop in refl

  -- A stop event in the queue of a started loop: the slot events before it are run, in order,
  -- then the loop is stopped; those behind it are not run, and stay in the queue.
  pub process_events_until_stop :
      (cs : List (Callback B)) (rest : List (Handler B)) (n self l : ℕ) (w : World B S U)
      → ensure_active self (w.loops l) ≡ ok
      → q.stopped (w.loops l).service ≡ false
      → q.queued (w.loops l).service ≡ slots io run note tame q cs ++ stop_handler l ∷ rest
      → (w' : World B S U) × (process_events io run (length cs + suc (suc n)) self l w ≡ (w', idle))
        × (w'.user ≡ noted note w.objects cs w.user)
        × (q.queued (w'.loops l).service ≡ rest)
        × ((w'.loops l).started ≡ false)
  unfolding process_events
  process_events_until_stop cs rest n self l w active o e =
      let (v, same, ran) =
        poll-slots io run note tame q cs (stop_handler l ∷ rest) (suc (suc n)) self l w o e in
      let (w', ends, user, queue, off) = poll_stop rest n self l v ran.open' ran.queue in
      (w', rw (active, process_events) (same ∙ ends), user ∙ ran.user, queue, off)
