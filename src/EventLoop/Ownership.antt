-- ===== src/EventLoop/Ownership.antt =====
-- The thread that may run an event loop: what Run and ProcessEvents (ks/KsEventLoop.cpp) do on any
-- thread, after any calls of any threads.
use ks_core.Base.{
  ℕ, ◌≡◌, refl, ap, ◌∙◌, arith, Bool, true, false, Option, none, some, List, [], ◌∷◌, ◌==◌,
  if◌then◌else◌, Bool-cases, inl, inr,
}
use ks_core.Event.{null_event, slot_event, blocking_slot_event, start_timer_event, stop_timer_event}
use ks_core.Host.{Error, Result, ok, threw, event_loop_inactive, called_from_wrong_thread}
use ks_core.Asio.{IoService}
use ks_core.World.{Handler, null_thread, EventLoop, World, set_loop}
use ks_core.EventLoop.{new_event_loop, ensure_active, start, stop, enter_run, leave_run}
use ks_core.EventLoop.Post.{start_timer, stop_timer, post_event, post_callback, post_stop_event}
use ks_core.EventLoop.Handlers.{failed, Polled, poll, process_events, run_end}
use ks_core.EventLoop.Handlers
use ks_core.EventLoop.Lifecycle.{
  Call, starts, stops, enters_run, leaves_run, posts, posts_callback, posts_stop_event, step, steps,
  SameState, start_timer_same, stop_timer_same,
}

-- The owner of loop `l` behind a call: the first thread that starts a loop without an owner, until
-- anybody stops the loop.
abbrev owner_behind : {B : Type 0} → ℕ → Call B → Option ℕ → Option ℕ
owner_behind l (starts self k) none = if k == l then some self else none
owner_behind l (starts self k) (some p) = some p
owner_behind l (stops k) o = if k == l then none else o
owner_behind l (enters_run self k) o = o
owner_behind l (leaves_run k) o = o
owner_behind l (posts k e) o = o
owner_behind l (posts_callback k b) o = o
owner_behind l (posts_stop_event k) o = o

abbrev owner : {B : Type 0} → ℕ → List (Call B) → Option ℕ → Option ℕ
owner l [] o = o
owner l (c ∷ cs) o = owner l cs (owner_behind l c o)

abbrev is_owned : Option ℕ → Bool
is_owned none = false
is_owned (some p) = true

abbrev thread_of : Option ℕ → ℕ
thread_of none = null_thread
thread_of (some p) = p

abbrev admits : ℕ → Option ℕ → Result
admits self none = threw event_loop_inactive
admits self (some p) = if p == self then ok else threw called_from_wrong_thread

module _ {S : Type 0} where
  abbrev IsOwned : Option ℕ → EventLoop S → Type 0
  IsOwned o v = (v.started ≡ is_owned o) × (v.work ≡ is_owned o) × (v.thread_id ≡ thread_of o)

  IsOwned-same : (o : Option ℕ) (v v' : EventLoop S) → SameState v v' → IsOwned o v → IsOwned o v'
  IsOwned-same o v v' e (s, w, t) = (e.1 ∙ s, e.0 ∙ w, e.2 ∙ t)

  ensure_active-IsOwned :
      (self : ℕ) (o : Option ℕ) (v : EventLoop S)
      → IsOwned o v
      → ensure_active self v ≡ admits self o
  unfolding ensure_active
  ensure_active-IsOwned self none v f = ground arith
  ensure_active-IsOwned self (some p) v f = ground arith

module _ {B S U : Type 0} (io : IoService (Handler B) S) where
  start-IsOwned :
      (self k l : ℕ) (o : Option ℕ) (w : World B S U)
      → IsOwned o (w.loops l)
      → IsOwned (owner_behind {B = B} l (starts self k) o) ((start io self k w).loops l)
  unfolding start
  start-IsOwned self k l none w f = ground arith
  start-IsOwned self k l (some p) w f = ground arith

  step-IsOwned :
      (c : Call B) (l : ℕ) (o : Option ℕ) (w : World B S U)
      → IsOwned o (w.loops l)
      → IsOwned (owner_behind l c o) ((step io c w).loops l)
  unfolding step stop enter_run leave_run post_callback post_stop_event post_event
  step-IsOwned (starts self k) l o w f = start-IsOwned self k l o w f
  step-IsOwned (stops k) l o w f = ground arith
  step-IsOwned (enters_run self k) l o w f = ground arith
  step-IsOwned (leaves_run k) l o w f = ground arith
  step-IsOwned (posts k (start_timer_event ev)) l o w f =
      IsOwned-same o (w.loops l) ((start_timer io k ev w).loops l) (start_timer_same io k l ev w) f
  step-IsOwned (posts k (stop_timer_event id)) l o w f =
      IsOwned-same o (w.loops l) ((stop_timer io k id w).loops l) (stop_timer_same io k id l w) f
  step-IsOwned (posts k null_event) l o w f = ground arith
  step-IsOwned (posts k (slot_event c)) l o w f = ground arith
  step-IsOwned (posts k (blocking_slot_event c x)) l o w f = ground arith
  step-IsOwned (posts_callback k b) l o w f = ground arith
  step-IsOwned (posts_stop_event k) l o w f = ground arith

  steps-IsOwned :
      (cs : List (Call B)) (l : ℕ) (o : Option ℕ) (w : World B S U)
      → IsOwned o (w.loops l)
      → IsOwned (owner l cs o) ((steps io cs w).loops l)
  unfolding steps
  steps-IsOwned [] l o w f = f
  steps-IsOwned (c ∷ cs) l o w f =
      steps-IsOwned cs l (owner_behind l c o) (step io c w) (step-IsOwned c l o w f)

  module _ (run : B → World B S U → World B S U × Result) (fuel self l : ℕ) where
    -- What ProcessEvents is to do in `v`, by the owner of the loop.
    abbrev processed : Option ℕ → World B S U → World B S U × Polled B
    processed none v = (v, failed event_loop_inactive)
    processed (some p) v =
        if p == self then poll io run fuel self l v else (v, failed called_from_wrong_thread)

    -- And what Run is to do: with `m_running` set, and reset when asio's `run` is over.
    abbrev ran : Option ℕ → World B S U → World B S U × Option (Polled B)
    ran none v = (v, some (failed event_loop_inactive))
    ran (some p) v =
        if p == self
        then run_end io run l
            (poll io run fuel self l (set_loop l (record (v.loops l) { running = true }) v))
        else (v, some (failed called_from_wrong_thread))

    process_events-processed :
        (o : Option ℕ) (v : World B S U)
        → ensure_active self (v.loops l) ≡ admits self o
        → process_events io run fuel self l v ≡ processed o v
    unfolding process_events
    process_events-processed none v e = rw (e, process_events) refl
    process_events-processed (some p) v e = elim (Bool-cases (p == self)) [
      | inl same ↦ let e' = rw same at e in rw (same, e', process_events) refl
      | inr other ↦ let e' = rw other at e in rw (other, e', process_events) refl
    ]

    run-entered :
        (v w : World B S U)
        → enter_run self l v ≡ (w, ok)
        → Handlers.run io run fuel self l v ≡ run_end io run l (poll io run fuel self l w)
    unfolding Handlers.run
    run-entered v w e =
        rw (ap (λ r. r.1) e, Handlers.run)
          (ap (λ r. run_end io run l (poll io run fuel self l r.0)) e)

    run-refused :
        (v : World B S U) (x : Error)
        → enter_run self l v ≡ (v, threw x)
        → Handlers.run io run fuel self l v ≡ (v, some (failed x))
    unfolding Handlers.run
    run-refused v x e = rw (ap (λ r. r.1) e, Handlers.run) (ap (λ r. (r.0, some (failed x))) e)

    enters :
        (v : World B S U)
        → ensure_active self (v.loops l) ≡ ok
        → enter_run self l v ≡ (set_loop l (record (v.loops l) { running = true }) v, ok)
    unfolding enter_run
    enters v e = rw (e, enter_run) refl

    refuses :
        (v : World B S U) (x : Error)
        → ensure_active self (v.loops l) ≡ threw x
        → enter_run self l v ≡ (v, threw x)
    unfolding enter_run
    refuses v x e = rw (e, enter_run) refl

    run-ran :
        (o : Option ℕ) (v : World B S U)
        → ensure_active self (v.loops l) ≡ admits self o
        → Handlers.run io run fuel self l v ≡ ran o v
    run-ran none v e = run-refused v event_loop_inactive (refuses v event_loop_inactive e)
    run-ran (some p) v e = elim (Bool-cases (p == self)) [
      | inl same ↦ rw same (run-entered v _ (enters v (rw same at e)))
      | inr other ↦ rw other (
          run-refused v called_from_wrong_thread
            (refuses v called_from_wrong_thread (rw other at e)))
    ]

    -- A new event loop, and then any calls of Start, Stop, PostEvent, PostCallback and PostStopEvent
    -- and any entries into Run and returns from it, by any threads on any loops: by then the loop is
    -- owned by the thread that was the first to start it since it was new or last stopped. Run and
    -- ProcessEvents run its handlers on that thread only; on any other thread they throw
    -- EventLoopCalledFromWrongThread, and on every thread EventLoopInactive if the loop has no
    -- owner, and change nothing.
    pub runs_on_owner :
        (id : ℕ) (cs : List (Call B)) (w : World B S U)
        → w.loops l ≡ new_event_loop io id
        → let v = steps io cs w in
          (process_events io run fuel self l v ≡ processed (owner l cs none) v)
          × (Handlers.run io run fuel self l v ≡ ran (owner l cs none) v)
    unfolding new_event_loop
    runs_on_owner id cs w new =
        let v = steps io cs w in
        let o = owner l cs none in
        let owned = steps-IsOwned cs l none w (rw new (refl, refl, refl)) in
        let e = ensure_active-IsOwned self o (v.loops l) owned in
        (process_events-processed o v e, run-ran o v e)
