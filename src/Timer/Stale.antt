-- ===== src/Timer/Stale.antt =====
-- Timeouts that come too late: of a timer that has been stopped, started anew or destroyed. asio
-- may have queued their handlers before the cancellation, or may run them as aborted.
use ks_core.Base.{
  ℕ, ◌<◌, ◌≡◌, refl, ap, Bool, true, false, some, List, [], ◌∷◌, arith, if◌then◌else◌, update_self,
  Bool-cases, Option-cases, inl, inr, ◌⊎◌,
}
use ks_core.Event.{
  StartTimer, null_event, slot_event, blocking_slot_event, start_timer_event, stop_timer_event,
}
use ks_core.Host.{Result, ok}
use ks_core.Asio.{IoService}
use ks_core.World.{Handler, timeout_handler, Object, World, set_timer}
use ks_core.EventLoop
use ks_core.EventLoop.Post.{
  find_timer, cancel_info, insert_info, start_timer, stop_timer, post_event, post_callback,
  post_stop_event,
}
use ks_core.EventLoop.Handlers.{completed, handle, handle_timeout}
use ks_core.EventLoop.Lifecycle.{
  Call, starts, stops, enters_run, leaves_run, posts, posts_callback, posts_stop_event, step, steps,
}
use ks_core.Timer.{destroy}

module _ {B S U : Type 0} (io : IoService (Handler B) S) where
  -- A TimerInfo that exists and is cancelled, or whose timer has died.
  abbrev pub IsStale : ℕ → World B S U → Type 0
  IsStale i w =
      (i < w.next_info)
      × (((w.infos i).canceled ≡ true) ⊎ ((w.objects (w.infos i).timer).alive ≡ false))

  cancel_info-IsStale :
      (l id i j : ℕ) (w : World B S U) → IsStale j w → IsStale j (cancel_info io l id i w)
  unfolding cancel_info
  cancel_info-IsStale l id i j w v = ground arith

  insert_info-IsStale :
      (l j : ℕ) (ev : StartTimer) (w : World B S U)
      → IsStale j w
      → IsStale j (insert_info io l ev w)
  unfolding insert_info
  insert_info-IsStale l j ev w v = ground arith

  start_timer-IsStale :
      (l j : ℕ) (ev : StartTimer) (w : World B S U)
      → IsStale j w
      → IsStale j (start_timer io l ev w)
  unfolding start_timer
  start_timer-IsStale l j ev w v = elim (Bool-cases (w.objects ev.timer).alive) [
    | inr gone ↦ rw (gone, start_timer) v
    | inl live ↦ elim (Option-cases (find_timer ev.timer_id (w.loops l).list_timers)) [
      | inl e ↦ rw (live, e, start_timer) (insert_info-IsStale l j ev w v)
      | inr (i, e) ↦
          rw (live, e, start_timer)
            (insert_info-IsStale l j ev (cancel_info io l ev.timer_id i w)
              (cancel_info-IsStale l ev.timer_id i j w v))
    ]
  ]

  stop_timer-IsStale :
      (l id j : ℕ) (w : World B S U) → IsStale j w → IsStale j (stop_timer io l id w)
  unfolding stop_timer
  stop_timer-IsStale l id j w v = elim (Option-cases (find_timer id (w.loops l).list_timers)) [
    | inl e ↦ rw (e, stop_timer) v
    | inr (i, e) ↦
        rw (e, stop_timer)
          (elim (Bool-cases (w.objects (w.infos i).timer).alive) [
            | inl live ↦ rw live (
                cancel_info-IsStale l id i j
                  (set_timer (w.infos i).timer
                    (record (w.timers (w.infos i).timer) { active = false }) w)
                  v)
            | inr gone ↦ rw gone (cancel_info-IsStale l id i j w v)
          ])
  ]

  step-IsStale : (c : Call B) (j : ℕ) (w : World B S U) → IsStale j w → IsStale j (step io c w)
  unfolding step EventLoop.start EventLoop.stop EventLoop.enter_run EventLoop.leave_run
      post_callback post_stop_event post_event
  step-IsStale (starts self l) j w v = ground arith
  step-IsStale (stops l) j w v = v
  step-IsStale (enters_run self l) j w v = ground arith
  step-IsStale (leaves_run l) j w v = v
  step-IsStale (posts l (start_timer_event ev)) j w v = start_timer-IsStale l j ev w v
  step-IsStale (posts l (stop_timer_event id)) j w v = stop_timer-IsStale l id j w v
  step-IsStale (posts l null_event) j w v = v
  step-IsStale (posts l (slot_event c)) j w v = v
  step-IsStale (posts l (blocking_slot_event c x)) j w v = v
  step-IsStale (posts_callback l b) j w v = v
  step-IsStale (posts_stop_event l) j w v = v

  steps-IsStale :
      (cs : List (Call B)) (j : ℕ) (w : World B S U) → IsStale j w → IsStale j (steps io cs w)
  unfolding steps
  steps-IsStale [] j w v = v
  steps-IsStale (c ∷ cs) j w v = steps-IsStale cs j (step io c w) (step-IsStale c j w v)

  cancel_info_stales :
      (l id i : ℕ) (w : World B S U) → i < w.next_info → IsStale i (cancel_info io l id i w)
  unfolding cancel_info
  cancel_info_stales l id i w b = ground (arith, update_self w.infos i)

  start_timer_stales :
      (l i : ℕ) (ev : StartTimer) (w : World B S U)
      → i < w.next_info
      → find_timer ev.timer_id (w.loops l).list_timers ≡ some i
      → (w.objects ev.timer).alive ≡ true
      → IsStale i (start_timer io l ev w)
  unfolding start_timer
  start_timer_stales l i ev w b e live =
      rw (live, e, start_timer)
        (insert_info-IsStale l i ev (cancel_info io l ev.timer_id i w)
          (cancel_info_stales l ev.timer_id i w b))

  stop_timer_stales :
      (l id i : ℕ) (w : World B S U)
      → i < w.next_info
      → find_timer id (w.loops l).list_timers ≡ some i
      → IsStale i (stop_timer io l id w)
  unfolding stop_timer
  stop_timer_stales l id i w b e = rw (e, stop_timer) (cancel_info_stales l id i _ (kept i w b))
    where
      kept :
          (i : ℕ) (w : World B S U)
          → i < w.next_info
          → i
            < (if (w.objects (w.infos i).timer).alive
                then set_timer
                    (w.infos i).timer
                    (record (w.timers (w.infos i).timer) { active = false })
                    w
                else w).next_info
      kept i w b = ground arith

  destroy_stales :
      (i : ℕ) (w : World B S U) → i < w.next_info → IsStale i (destroy io (w.infos i).timer w)
  unfolding destroy post_event
  destroy_stales i w b =
      stop_timer-IsStale _ _ i _
        (b, inr (ap (λ (o : Object). o.alive) (update_self w.objects (w.infos i).timer _)))

  module _ (run : B → World B S U → World B S U × Result) where
    stale_silent :
        (self j : ℕ) (aborted : Bool) (w : World B S U)
        → IsStale j w
        → handle io run self (timeout_handler j aborted) w ≡ (w, completed ok)
    unfolding handle handle_timeout
    stale_silent self j aborted w v = elim (Bool-cases aborted) [
      | inl a ↦ rw (a, handle, handle_timeout) refl
      | inr a ↦ elim (Bool-cases (w.infos j).canceled) [
        | inl c ↦ rw (a, c, handle, handle_timeout) refl
        | inr c ↦ rw (a, c, dead c v.1, handle, handle_timeout) refl
      ]
    ]
      where
        dead :
            (w.infos j).canceled ≡ false
            → (((w.infos j).canceled ≡ true) ⊎ ((w.objects (w.infos j).timer).alive ≡ false))
            → (w.objects (w.infos j).timer).alive ≡ false
        dead c d = ground arith

    -- After a timer with the TimerInfo `i` was stopped, started anew, or destroyed, and after
    -- whatever calls of the event loops follow, the handler of `i` does nothing, whether asio runs
    -- it as expired or as aborted.
    pub stale_timeout :
        (cs : List (Call B)) (l i self : ℕ) (ev : StartTimer) (aborted : Bool) (w : World B S U)
        → i < w.next_info
        → find_timer ev.timer_id (w.loops l).list_timers ≡ some i
        → (w.objects ev.timer).alive ≡ true
        → let restarted = steps io cs (start_timer io l ev w) in
          let stopped = steps io cs (stop_timer io l ev.timer_id w) in
          let destroyed = steps io cs (destroy io (w.infos i).timer w) in
          (handle io run self (timeout_handler i aborted) restarted ≡ (restarted, completed ok))
          × (handle io run self (timeout_handler i aborted) stopped ≡ (stopped, completed ok))
          × (handle io run self (timeout_handler i aborted) destroyed ≡ (destroyed, completed ok))
    stale_timeout cs l i self ev aborted w b e live = (
      stale_silent self i aborted _ (steps-IsStale cs i _ (start_timer_stales l i ev w b e live)),
      stale_silent self i aborted _
          (steps-IsStale cs i _ (stop_timer_stales l ev.timer_id i w b e)),
      stale_silent self i aborted _ (steps-IsStale cs i _ (destroy_stales i w b)),
    )
