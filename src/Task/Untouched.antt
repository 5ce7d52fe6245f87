-- ===== src/Task/Untouched.antt =====
-- ks/KsEventLoop.cpp: the calls that any thread may make of any loop do not look at tasks.
use ks_core.Base.{ℕ, ◌≡◌, refl, arith, Bool-cases, inl, inr, Option-cases}
use ks_core.Event.{
  StartTimer, Event, null_event, slot_event, blocking_slot_event, start_timer_event,
  stop_timer_event,
}
use ks_core.Asio.{IoService}
use ks_core.World.{Handler, World}
use ks_core.EventLoop.{start, stop, enter_run, leave_run}
use ks_core.EventLoop.Post.{
  find_timer, cancel_info, insert_info, start_timer, stop_timer, post, post_event, post_callback,
  post_stop_event,
}
use ks_core.EventLoop.Lifecycle.{
  Call, starts, stops, enters_run, leaves_run, posts, posts_callback, posts_stop_event, step,
}

module _ {B S U : Type 0} (io : IoService (Handler B) S) where
  start_timer-tasks :
      (l : ℕ) (ev : StartTimer) (w : World B S U) → (start_timer io l ev w).tasks ≡ w.tasks
  unfolding start_timer insert_info cancel_info
  start_timer-tasks l ev w = elim (Bool-cases (w.objects ev.timer).alive) [
    | inr gone ↦ rw (gone, start_timer) refl
    | inl live ↦ elim (Option-cases (find_timer ev.timer_id (w.loops l).list_timers)) [
      | inl e ↦ rw (live, e, start_timer) refl
      | inr (i, e) ↦ rw (live, e, start_timer) refl
    ]
  ]

  stop_timer-tasks : (l id : ℕ) (w : World B S U) → (stop_timer io l id w).tasks ≡ w.tasks
  unfolding stop_timer cancel_info
  stop_timer-tasks l id w = elim (Option-cases (find_timer id (w.loops l).list_timers)) [
    | inl e ↦ rw (e, stop_timer) refl
    | inr (i, e) ↦
        rw (e, stop_timer)
          (elim (Bool-cases (w.objects (w.infos i).timer).alive) [
            | inl live ↦ rw live refl
            | inr gone ↦ rw gone refl
          ])
  ]

  pub post_event-tasks :
      (l : ℕ) (e : Event B) (w : World B S U) → (post_event io l e w).tasks ≡ w.tasks
  unfolding post_event post
  post_event-tasks l (start_timer_event ev) w = start_timer-tasks l ev w
  post_event-tasks l (stop_timer_event id) w = stop_timer-tasks l id w
  post_event-tasks l null_event w = refl
  post_event-tasks l (slot_event c) w = refl
  post_event-tasks l (blocking_slot_event c f) w = refl

  pub enter_run-tasks : (self l : ℕ) (w : World B S U) → (enter_run self l w).0.tasks ≡ w.tasks
  unfolding enter_run
  enter_run-tasks self l w = ground arith

  pub step-tasks : (c : Call B) (w : World B S U) → (step io c w).tasks ≡ w.tasks
  unfolding step start stop leave_run post_callback post_stop_event post
  step-tasks (starts self l) w = ground arith
  step-tasks (stops l) w = refl
  step-tasks (enters_run self l) w = enter_run-tasks self l w
  step-tasks (leaves_run l) w = refl
  step-tasks (posts l e) w = post_event-tasks l e w
  step-tasks (posts_callback l b) w = refl
  step-tasks (posts_stop_event l) w = refl
