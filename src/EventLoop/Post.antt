-- ===== src/EventLoop/Post.antt =====
-- ks/KsEventLoop.cpp: posting to an event loop, and the timers of a loop. Timer events are handled
-- at once, on the thread that posts them; all else goes into asio's queue.
use ks_core.Base.{
  ℕ, suc, true, false, not, Option, none, some, List, [], ◌∷◌, ◌==◌, if◌then◌else◌, update,
}
use ks_core.Event.{
  Event, StartTimer, null_event, slot_event, blocking_slot_event, start_timer_event,
  stop_timer_event,
}
use ks_core.Host.{Host, Result, ok}
use ks_core.Asio.{IoService}
use ks_core.World.{
  Handler, event_handler, task_handler, stop_handler, timeout_handler, TimerInfo, World, set_loop,
  set_timer, set_info,
}
use ks_core.EventLoop.{get_thread_id, get_state}
use ks_core.Task.{invoke}

-- std::map<Id,shared_ptr<TimerInfo>>: find, erase, and emplace of an id that is not there.
abbrev pub find_timer : ℕ → List (ℕ × ℕ) → Option ℕ
find_timer id [] = none
find_timer id ((j, i) ∷ m) = let rest = find_timer id m in if j == id then some i else rest

abbrev pub erase_timer : ℕ → List (ℕ × ℕ) → List (ℕ × ℕ)
erase_timer id [] = []
erase_timer id ((j, i) ∷ m) = let rest = erase_timer id m in if j == id then rest else (j, i) ∷ rest

module _ {B S U : Type 0} (io : IoService (Handler B) S) where
  abbrev pub set_service : ℕ → S → World B S U → World B S U
  set_service l s w = set_loop l (record (w.loops l) { service = s }) w

  -- Both timer operations do this with the TimerInfo `i` that the id has: its asio timer is
  -- cancelled, it is marked, and its entry is erased.
  unfoldable pub cancel_info : ℕ → ℕ → ℕ → World B S U → World B S U
  cancel_info l id i w =
      let v = w.loops l in
      set_info i (record (w.infos i) { canceled = true })
        (set_loop l
          (record v { service = io.cancel i v.service; list_timers = erase_timer id v.list_timers })
          w)

  -- A new TimerInfo under the id, its asio timer started with a handler.
  unfoldable pub insert_info : ℕ → StartTimer → World B S U → World B S U
  insert_info l ev w =
      let v = w.loops l in
      let i = w.next_info in
      let info : TimerInfo = record {
        id = ev.timer_id;
        timer = ev.timer;
        interval_ms = ev.interval_ms;
        repeat = ev.repeating;
        canceled = false;
        loop = l;
      } in
      record (set_timer ev.timer (record (w.timers ev.timer) { active = true })
        (set_info i info (
          set_loop l
            (record v {
              list_timers = (ev.timer_id, i) ∷ v.list_timers;
              service =
                  io.async_wait i (timeout_handler i) (io.new_timer i ev.interval_ms v.service);
            })
            w))) { next_info = suc i }

  unfoldable pub start_timer : ℕ → StartTimer → World B S U → World B S U
  start_timer l ev w =
      if not (w.objects ev.timer).alive
      then w
      else insert_info l ev (elim (find_timer ev.timer_id (w.loops l).list_timers) [
        | none ↦ w
        | some i ↦ cancel_info l ev.timer_id i w
      ])

  unfoldable pub stop_timer : ℕ → ℕ → World B S U → World B S U
  stop_timer l id w = elim (find_timer id (w.loops l).list_timers) [
    | none ↦ w
    | some i ↦
        let t = (w.infos i).timer in
        cancel_info l id i (
          if (w.objects t).alive then set_timer t (record (w.timers t) { active = false }) w else w)
  ]

  unfoldable pub post : ℕ → Handler B → World B S U → World B S U
  post l x w = set_service l (io.post x (w.loops l).service) w

  unfoldable pub post_event : ℕ → Event B → World B S U → World B S U
  unfolding post
  post_event l (start_timer_event ev) w = start_timer l ev w
  post_event l (stop_timer_event id) w = stop_timer l id w
  post_event l null_event w = post l (event_handler null_event) w
  post_event l (slot_event c) w = post l (event_handler (slot_event c)) w
  post_event l (blocking_slot_event c f) w = post l (event_handler (blocking_slot_event c f)) w

  unfoldable pub post_callback : ℕ → B → World B S U → World B S U
  unfolding post
  post_callback l b w = post l (event_handler (slot_event (record { guard = none; body = b }))) w

  unfoldable pub post_stop_event : ℕ → World B S U → World B S U
  unfolding post
  post_stop_event l w = post l (stop_handler l) w

  -- What `Signal` sees of the world.
  abbrev pub host : (B → World B S U → World B S U × Result) → Host B (World B S U)
  host run = record {
    alive = λ w o. (w.objects o).alive;
    event_loop = λ w o. (w.objects o).event_loop;
    get_state = λ w l. get_state l w;
    post_event = post_event;
    new_flag = λ w. (
      record w { flags = update w.flags w.next_flag false; next_flag = suc w.next_flag },
      w.next_flag,
    );
    invoked = λ w f. w.flags f;
    run = run;
  }

  -- PostTask: on the loop's own thread the task is invoked at once.
  unfoldable pub post_task :
      (B → World B S U → World B S U × Result) → ℕ → ℕ → ℕ → World B S U → World B S U × Result
  unfolding post invoke
  post_task run self l t w =
      if self == get_thread_id l w then invoke run t w else (post l (task_handler t) w, ok)
