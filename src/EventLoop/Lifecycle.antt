-- ===== src/EventLoop/Lifecycle.antt =====
-- The life of an event loop: what holds of `m_started`, `m_asio_work` and `m_thread_id` after any
-- calls by any threads, and what a second `Start` does.
use ks_core.Base.{
  ℕ, ◌≡◌, ◌≢◌, refl, true, false, List, [], ◌∷◌, arith, All, Bool-cases, ==_refl, inl, inr,
  Option-cases,
}
use ks_core.Event.{
  StartTimer, Event, null_event, slot_event, blocking_slot_event, start_timer_event,
  stop_timer_event,
}
use ks_core.Host.{ok}
use ks_core.Asio.{IoService}
use ks_core.World.{Handler, null_thread, EventLoop, World}
use ks_core.EventLoop.{ensure_active, enter_run, leave_run, new_event_loop, start, stop}
use ks_core.EventLoop.Post.{
  cancel_info, insert_info, start_timer, stop_timer, post_event, post_callback, post_stop_event,
  find_timer,
}

-- A loop has work and a thread exactly while it is started.
pub record IsWellFormed {S : Type 0} (v : EventLoop S) : Type 0 where
  pub works : v.work ≡ v.started
  pub bound : v.started ≡ true → v.thread_id ≢ null_thread
  pub free : v.started ≡ false → v.thread_id ≡ null_thread

-- A call of a loop's method by a thread, or the return of asio's `run` on it. What handlers do, which
-- Run and ProcessEvents run, is not among them.
pub data Call (B : Type 0) : Type 0 where
  starts : ℕ → ℕ → Call B
  stops : ℕ → Call B
  enters_run : ℕ → ℕ → Call B
  leaves_run : ℕ → Call B
  posts : ℕ → Event B → Call B
  posts_callback : ℕ → B → Call B
  posts_stop_event : ℕ → Call B

-- No thread has the id that stands for no thread.
abbrev pub HasThread : {B : Type 0} → Call B → Type 0
HasThread (starts self l) = self ≢ null_thread
HasThread _ = Unit {0}

module _ {S : Type 0} where
  -- A change of one loop that keeps its state.
  abbrev pub SameState : EventLoop S → EventLoop S → Type 0
  SameState v v' = (v'.work ≡ v.work) × (v'.started ≡ v.started) × (v'.thread_id ≡ v.thread_id)

  IsWellFormed-same : (v v' : EventLoop S) → SameState v v' → IsWellFormed v → IsWellFormed v'
  IsWellFormed-same v v' e f = ground arith

  SameState-trans : (u v w : EventLoop S) → SameState u v → SameState v w → SameState u w
  SameState-trans u v w e f = ground arith

module _ {B S U : Type 0} (io : IoService (Handler B) S) where
  unfoldable pub step : Call B → World B S U → World B S U
  step (starts self l) w = start io self l w
  step (stops l) w = stop io l w
  step (enters_run self l) w = (enter_run self l w).0
  step (leaves_run l) w = leave_run l w
  step (posts l e) w = post_event io l e w
  step (posts_callback l b) w = post_callback io l b w
  step (posts_stop_event l) w = post_stop_event io l w

  unfoldable pub steps : List (Call B) → World B S U → World B S U
  steps [] w = w
  steps (c ∷ cs) w = steps cs (step c w)

  cancel_info_same :
      (l id i k : ℕ) (w : World B S U) → SameState (w.loops k) ((cancel_info io l id i w).loops k)
  unfolding cancel_info
  cancel_info_same l id i k w = ground arith

  insert_info_same :
      (l k : ℕ) (ev : StartTimer) (w : World B S U)
      → SameState (w.loops k) ((insert_info io l ev w).loops k)
  unfolding insert_info
  insert_info_same l k ev w = ground arith

  pub start_timer_same :
      (l k : ℕ) (ev : StartTimer) (w : World B S U)
      → SameState (w.loops k) ((start_timer io l ev w).loops k)
  unfolding start_timer
  start_timer_same l k ev w = elim (Bool-cases (w.objects ev.timer).alive) [
    | inr gone ↦ rw (gone, start_timer) (refl, refl, refl)
    | inl live ↦ elim (Option-cases (find_timer ev.timer_id (w.loops l).list_timers)) [
      | inl e ↦ rw (live, e, start_timer) (insert_info_same l k ev w)
      | inr (i, e) ↦
          rw (live, e, start_timer)
            (SameState-trans (w.loops k) ((cancel_info io l ev.timer_id i w).loops k)
              ((insert_info io l ev (cancel_info io l ev.timer_id i w)).loops k)
              (cancel_info_same l ev.timer_id i k w)
              (insert_info_same l k ev (cancel_info io l ev.timer_id i w)))
    ]
  ]

  pub stop_timer_same :
      (l id k : ℕ) (w : World B S U) → SameState (w.loops k) ((stop_timer io l id w).loops k)
  unfolding stop_timer
  stop_timer_same l id k w = elim (Option-cases (find_timer id (w.loops l).list_timers)) [
    | inl e ↦ rw (e, stop_timer) (refl, refl, refl)
    | inr (i, e) ↦
        rw (e, stop_timer)
          (elim (Bool-cases (w.objects (w.infos i).timer).alive) [
            | inl live ↦ rw live (cancel_info_same l id i k _)
            | inr gone ↦ rw gone (cancel_info_same l id i k w)
          ])
  ]

  step-IsWellFormed :
      (c : Call B) (w : World B S U) (k : ℕ)
      → HasThread c
      → IsWellFormed (w.loops k)
      → IsWellFormed ((step c w).loops k)
  unfolding step start stop enter_run leave_run post_callback post_stop_event post_event
  step-IsWellFormed (starts self l) w k t f = ground arith
  step-IsWellFormed (stops l) w k t f = ground arith
  step-IsWellFormed (enters_run self l) w k t f = ground arith
  step-IsWellFormed (leaves_run l) w k t f = ground arith
  step-IsWellFormed (posts l (start_timer_event ev)) w k t f =
      IsWellFormed-same _ _ (start_timer_same l k ev w) f
  step-IsWellFormed (posts l (stop_timer_event id)) w k t f =
      IsWellFormed-same _ _ (stop_timer_same l id k w) f
  step-IsWellFormed (posts l null_event) w k t f = ground arith
  step-IsWellFormed (posts l (slot_event c)) w k t f = ground arith
  step-IsWellFormed (posts l (blocking_slot_event c x)) w k t f = ground arith
  step-IsWellFormed (posts_callback l b) w k t f = ground arith
  step-IsWellFormed (posts_stop_event l) w k t f = ground arith

  -- After any calls of any threads on any event loops, a loop that was well formed is: it has work
  -- and the id of a thread while it is started, and neither otherwise.
  pub steps-IsWellFormed :
      (cs : List (Call B)) (w : World B S U) (k : ℕ)
      → All HasThread cs
      → IsWellFormed (w.loops k)
      → IsWellFormed ((steps cs w).loops k)
  unfolding steps
  steps-IsWellFormed [] w k t f = f
  steps-IsWellFormed (c ∷ cs) w k t f =
      steps-IsWellFormed cs (step c w) k t.1 (step-IsWellFormed c w k t.0 f)

pub new_event_loop-IsWellFormed :
    {B S : Type 0} (io : IoService (Handler B) S) (id : ℕ) → IsWellFormed (new_event_loop io id)
unfolding new_event_loop
new_event_loop-IsWellFormed io id = ground arith

module _ {B S U : Type 0} (io : IoService (Handler B) S) where
  start-started :
      (self l : ℕ) (w : World B S U)
      → IsWellFormed (w.loops l)
      → ((start io self l w).loops l).started ≡ true
  unfolding start
  start-started self l w f = ground arith

  start_of_started :
      (other l : ℕ) (w : World B S U) → (w.loops l).started ≡ true → start io other l w ≡ w
  unfolding start
  start_of_started other l w e = rw (e, start)

  start-stop_ok :
      (other l : ℕ) (w : World B S U)
      → ensure_active other ((start io other l (stop io l w)).loops l) ≡ ok
  unfolding start stop ensure_active
  start-stop_ok other l w = rw (==_refl l) (rw (==_refl l) (ground arith))

  -- A started loop stays with its thread: a second `Start`, by whichever thread, changes nothing.
  -- Once it is stopped, any thread can start it, and is then the one that may run it.
  pub start_again :
      (self other l : ℕ) (w : World B S U)
      → IsWellFormed (w.loops l)
      → (start io other l (start io self l w) ≡ start io self l w)
        × (ensure_active other ((start io other l (stop io l w)).loops l) ≡ ok)
  start_again self other l w f = (
    start_of_started other l (start io self l w) (start-started self l w f),
    start-stop_ok other l w,
  )
