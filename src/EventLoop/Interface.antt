-- ===== src/EventLoop/Interface.antt =====
-- The event loops are a host for signals: what `Signal` supposes of them holds, where asio keeps a
-- queue and user code changes only what belongs to the user.
use ks_core.Base.{
  ℕ, ◌≡◌, refl, ap, ◌∙◌, false, Option-cases, inl, inr, List, [], ◌∷◌, ◌++◌, ◌==◌, ==_iff,
  if◌then◌else◌, Bool-cases,
}
use ks_core.Event.{
  Event, StartTimer, null_event, slot_event, blocking_slot_event, start_timer_event,
  stop_timer_event, is_timer,
}
use ks_core.Host.{Result, Quiet}
use ks_core.Asio.{IoService, Queue}
use ks_core.World.{
  Handler, event_handler, task_handler, stop_handler, timeout_handler, Object, World,
}
use ks_core.EventLoop.Post.{
  host, post, post_event, start_timer, stop_timer, cancel_info, insert_info, find_timer,
}
use ks_core.EventLoop.Posting.{IsTame}

-- The events among the handlers of a queue.
abbrev pub events : {B : Type 0} → List (Handler B) → List (Event B)
events [] = []
events (event_handler e ∷ xs) = e ∷ events xs
events (task_handler t ∷ xs) = events xs
events (stop_handler l ∷ xs) = events xs
events (timeout_handler i a ∷ xs) = events xs

pub events-append :
    {B : Type 0} (xs ys : List (Handler B)) → events (xs ++ ys) ≡ events xs ++ events ys
events-append [] ys = refl
events-append (event_handler e ∷ xs) ys = ap (◌∷◌ e) (events-append xs ys)
events-append (task_handler t ∷ xs) ys = events-append xs ys
events-append (stop_handler l ∷ xs) ys = events-append xs ys
events-append (timeout_handler i a ∷ xs) ys = events-append xs ys

module _ {B S U : Type 0} (io : IoService (Handler B) S) where
  -- What a timer event leaves alone.
  abbrev pub Keeps : World B S U → World B S U → Type 0
  Keeps w w' = (w'.objects ≡ w.objects) × (w'.user ≡ w.user)

  start_timer-Keeps : (l : ℕ) (ev : StartTimer) (w : World B S U) → Keeps w (start_timer io l ev w)
  unfolding start_timer insert_info cancel_info
  start_timer-Keeps l ev w = elim (Bool-cases (w.objects ev.timer).alive) [
    | inr gone ↦ rw (gone, start_timer) (refl, refl)
    | inl live ↦ elim (Option-cases (find_timer ev.timer_id (w.loops l).list_timers)) [
      | inl e ↦ rw (live, e, start_timer) (refl, refl)
      | inr (i, e) ↦ rw (live, e, start_timer) (refl, refl)
    ]
  ]

  stop_timer-Keeps : (l id : ℕ) (w : World B S U) → Keeps w (stop_timer io l id w)
  unfolding stop_timer cancel_info
  stop_timer-Keeps l id w = elim (Option-cases (find_timer id (w.loops l).list_timers)) [
    | inl e ↦ rw (e, stop_timer) (refl, refl)
    | inr (i, e) ↦
        rw (e, stop_timer)
          (elim (Bool-cases (w.objects (w.infos i).timer).alive) [
            | inl live ↦ rw live (refl, refl)
            | inr gone ↦ rw gone (refl, refl)
          ])
  ]

  pub post_event-Keeps : (l : ℕ) (e : Event B) (w : World B S U) → Keeps w (post_event io l e w)
  unfolding post_event
  post_event-Keeps l (start_timer_event ev) w = start_timer-Keeps l ev w
  post_event-Keeps l (stop_timer_event id) w = stop_timer-Keeps l id w
  post_event-Keeps l null_event w = (refl, refl)
  post_event-Keeps l (slot_event c) w = (refl, refl)
  post_event-Keeps l (blocking_slot_event c f) w = (refl, refl)

  module _ (q : Queue io) (run : B → World B S U → World B S U × Result) (note : B → U → U)
      (tame : IsTame note run) (log : U → List B)
      (logs : (b : B) (u : U) → log (note b u) ≡ log u ++ b ∷ []) where
    abbrev pub pending : World B S U → ℕ → List (Event B)
    pending w k = events (q.queued (w.loops k).service)

    post_pending_lem :
        (l k : ℕ) (x : Event B) (w : World B S U)
        → pending (post io l (event_handler x) w) k
          ≡ (if l == k then pending w k ++ x ∷ [] else pending w k)
    unfolding post
    post_pending_lem l k x w = elim (Bool-cases (l == k)) [
      | inl e ↦ rw e (
          rw (← (==_iff l k).0 e) (
            ap events (q.post_queued (event_handler x) (w.loops l).service)
            ∙ events-append (q.queued (w.loops l).service) (event_handler x ∷ [])))
      | inr e ↦ rw e refl
    ]

    pub post_event_pending :
        (l k : ℕ) (e : Event B) (w : World B S U)
        → is_timer e ≡ false
        → pending (post_event io l e w) k ≡ (if l == k then pending w k ++ e ∷ [] else pending w k)
    unfolding post_event
    post_event_pending l k (start_timer_event ev) w h = cc
    post_event_pending l k (stop_timer_event id) w h = cc
    post_event_pending l k null_event w h = post_pending_lem l k null_event w
    post_event_pending l k (slot_event c) w h = post_pending_lem l k (slot_event c) w
    post_event_pending l k (blocking_slot_event c f) w h =
        post_pending_lem l k (blocking_slot_event c f) w

    abbrev pub host-Quiet : Quiet (host io run)
    host-Quiet = record {
      pending = pending;
      log = λ w. log w.user;
      post_alive = λ l e w. ap (λ (o : ℕ → Object). λ i. (o i).alive) (post_event-Keeps l e w).0;
      post_loop =
          λ l e w. ap (λ (o : ℕ → Object). λ i. (o i).event_loop) (post_event-Keeps l e w).0;
      post_log = λ l e w. ap log (post_event-Keeps l e w).1;
      post_pending = post_event_pending;
      run_ok = λ b w. ap (λ r. r.1) (tame b w);
      run_alive = λ b w. ap (λ r. λ i. (r.0.objects i).alive) (tame b w);
      run_loop = λ b w. ap (λ r. λ i. (r.0.objects i).event_loop) (tame b w);
      run_log = λ b w. ap (λ r. log r.0.user) (tame b w) ∙ logs b w.user;
      run_pending = λ b w k. ap (λ r. pending r.0 k) (tame b w);
    }
