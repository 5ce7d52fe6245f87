-- ===== src/Timer/Session/Start.antt =====
-- Timer::Start (ks/KsTimer.cpp) on an idle loop.
use ks_core.Base.{
  ℕ, ◌≡◌, refl, ap, ◌∙◌, true, false, none, List, [], ◌∷◌, ◌++◌, update, update_self, ==_refl,
  arith,
}
use ks_core.Event.{StartTimer}
use ks_core.Host.{Result}
use ks_core.Asio.{IoService, Queue, Waits}
use ks_core.World.{Handler, timeout_handler, EventLoop, TimerInfo, Timer, World, set_timer}
use ks_core.EventLoop.{ensure_active}
use ks_core.EventLoop.Post.{find_timer, insert_info, start_timer, post_event}
use ks_core.EventLoop.Posting.{IsTame}
use ks_core.Timer.{start}
use ks_core.Timer.Timeout.{IsPlain}
use ks_core.Timer.Repeating.{signal_of}
use ks_core.Timer.Session.Kept.{IsIdle}
use ks_core.Timer.Session.Ticking.{IsTicking}

module _ {B S U : Type 0} (io : IoService (Handler B) S) (q : Queue io) (ws : Waits io q)
    (run : B → World B S U → World B S U × Result) (note : B → U → U) (tame : IsTame note run)
    (log : U → List B) (logs : (b : B) (u : U) → log (note b u) ≡ log u ++ b ∷ [])
    (self k t : ℕ) where
  insert_info-IsTicking :
      (ev : StartTimer) (w : World B S U)
      → IsIdle io q ws run note tame self k w.next_info w
      → ev.repeating ≡ true
      → ev.timer ≡ t
      → ev.timer_id ≡ (w.objects t).id
      → (w.objects t).event_loop ≡ k
      → (w.objects t).alive ≡ true
      → IsPlain io run note tame q log logs (w.timers t).signal_timeout
      → IsTicking io q ws run note tame log logs self k w.next_info t (insert_info io k ev w)
  unfolding insert_info ensure_active
  insert_info-IsTicking ev w v again mine named home there plain =
      let i = w.next_info in
      let x = w.loops k in
      let s = io.new_timer i ev.interval_ms x.service in
      let loop : EventLoop S = record x {
        list_timers = (ev.timer_id, i) ∷ x.list_timers;
        service = io.async_wait i (timeout_handler i) s;
      } in
      let info : TimerInfo = record {
        id = ev.timer_id;
        timer = ev.timer;
        interval_ms = ev.interval_ms;
        repeat = ev.repeating;
        canceled = false;
        loop = k;
      } in
      let at = update_self w.loops k loop in
      let at' = update_self w.infos i info in
      let timer : Timer B = record (w.timers ev.timer) { active = true } in
      let timers = update w.timers ev.timer timer in
      let at'' = update_self w.timers ev.timer timer in
      record {
        idle' = record {
          queue =
              ap (λ (y : EventLoop S). q.queued y.service) at
              ∙ ws.async_wait_queued i (timeout_handler i) s
              ∙ ws.new_timer_queued i ev.interval_ms x.service
              ∙ v.queue;
          open' =
              ap (λ (y : EventLoop S). q.stopped y.service) at
              ∙ ws.async_wait_stopped i (timeout_handler i) s
              ∙ ws.new_timer_stopped i ev.interval_ms x.service
              ∙ v.open';
          active = ap (ensure_active self) at ∙ v.active;
        };
        waits =
            ap (λ (y : EventLoop S). ws.waiter y.service i) at
            ∙ ws.async_wait_waits i (timeout_handler i) s;
        here = ap (λ (y : TimerInfo). y.loop) at';
        mine = ap (λ (y : TimerInfo). y.timer) at' ∙ mine;
        home = home;
        named = ap (λ (y : TimerInfo). y.id) at' ∙ named;
        live = ap (λ (y : TimerInfo). y.canceled) at';
        again = ap (λ (y : TimerInfo). y.repeat) at' ∙ again;
        there =
            ap (λ (y : TimerInfo). (w.objects y.timer).alive) at'
            ∙ ap (λ o. (w.objects o).alive) mine
            ∙ there;
        found = rw (at', at) (rw (==_refl ev.timer_id) refl);
        active =
            ap (λ (y : TimerInfo). (timers y.timer).active) at'
            ∙ ap (λ (y : Timer B). y.active) at'';
        plain =
            rw
              (ap (λ (y : TimerInfo). (timers y.timer).signal_timeout) at'
                ∙ ap (λ (y : Timer B). y.signal_timeout) at''
                ∙ ap (λ o. (w.timers o).signal_timeout) mine)
              plain;
      }

  -- The event that Timer::Start posts, and the world then.
  abbrev pub set_up : ℕ → World B S U → World B S U
  set_up ms w = set_timer t (record (w.timers t) { interval_ms = ms; repeating = true }) w

  abbrev pub event_of : World B S U → StartTimer
  event_of x = record {
    timer_id = (x.objects t).id;
    timer = t;
    interval_ms = (x.timers t).interval_ms;
    repeating = (x.timers t).repeating;
  }

  pub start_inserts :
      (ms : ℕ) (w : World B S U)
      → (w.objects t).event_loop ≡ k
      → (w.objects t).alive ≡ true
      → find_timer (w.objects t).id (w.loops k).list_timers ≡ none
      → start io t ms true w ≡ insert_info io k (event_of (set_up ms w)) (set_up ms w)
  unfolding start post_event start_timer
  start_inserts ms w home there fresh = rw (home, there, fresh) refl

  pub start-IsTicking :
      (ms : ℕ) (w : World B S U)
      → IsIdle io q ws run note tame self k w.next_info w
      → (w.objects t).event_loop ≡ k
      → (w.objects t).alive ≡ true
      → find_timer (w.objects t).id (w.loops k).list_timers ≡ none
      → IsPlain io run note tame q log logs (w.timers t).signal_timeout
      → IsTicking io q ws run note tame log logs self k w.next_info t (start io t ms true w)
  start-IsTicking ms w v home there fresh plain =
      let at =
        update_self w.timers t (record (w.timers t) { interval_ms = ms; repeating = true }) in
      rw (start_inserts ms w home there fresh) (
        insert_info-IsTicking (event_of (set_up ms w)) (set_up ms w)
          (record { queue = v.queue; open' = v.open'; active = v.active })
          (ap (λ (y : Timer B). y.repeating) at) refl refl home there (rw at plain))

  -- The signal, the objects and the user's state are as they were.
  abbrev pub Same : World B S U → World B S U → Type 0
  Same w v =
      (signal_of w.next_info v ≡ (w.timers t).signal_timeout)
      × (v.objects ≡ w.objects)
      × (v.user ≡ w.user)

  pub insert_info-Same :
      (ms : ℕ) (w : World B S U) → Same w (insert_info io k (event_of (set_up ms w)) (set_up ms w))
  unfolding insert_info
  insert_info-Same ms w = (ground (arith, ==_refl t, ==_refl w.next_info), refl, refl)
