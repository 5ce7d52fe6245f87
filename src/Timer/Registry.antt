-- ===== src/Timer/Registry.antt =====
-- `m_list_timers` (ks/KsEventLoop.cpp): the TimerInfo of a timer that has not been cancelled is
-- the one that its loop finds under the timer's id.
use ks_core.Base.{
  ℕ, ◌<◌, ◌≡◌, false, none, some, List, [], ◌∷◌, arith, ◌==◌, if◌then◌else◌, Bool-cases,
  Option-cases, inl, inr, ◌⊎◌, ==_refl,
}
use ks_core.Event.{
  StartTimer, null_event, slot_event, blocking_slot_event, start_timer_event, stop_timer_event,
}
use ks_core.Asio.{IoService}
use ks_core.World.{Handler, Timer, World, set_timer}
use ks_core.EventLoop.{start, stop, enter_run, leave_run}
use ks_core.EventLoop.Post.{
  find_timer, erase_timer, cancel_info, insert_info, start_timer, stop_timer, post_event,
  post_callback, post_stop_event,
}
use ks_core.EventLoop.Lifecycle.{
  Call, starts, stops, enters_run, leaves_run, posts, posts_callback, posts_stop_event, step, steps,
}

find-erase :
    (id k : ℕ) (m : List (ℕ × ℕ))
    → find_timer k (erase_timer id m) ≡ (if id == k then none else find_timer k m)
find-erase id k [] = ground arith
find-erase id k ((j, i) ∷ m) = ground (arith, find-erase id k m)

-- What the registry needs of a world: every TimerInfo that is not cancelled is found under its id
-- in its loop, and what is found is a TimerInfo of that id and loop.
pub record IsRegistered {B S U : Type 0} (w : World B S U) : Type 0 where
  pub live :
      (i : ℕ)
      → i < w.next_info
      → (w.infos i).canceled ≡ false
      → find_timer (w.infos i).id (w.loops (w.infos i).loop).list_timers ≡ some i
  pub found :
      (l id i : ℕ)
      → find_timer id (w.loops l).list_timers ≡ some i
      → (i < w.next_info) × ((w.infos i).id ≡ id) × ((w.infos i).loop ≡ l)

module _ {B S U : Type 0} (io : IoService (Handler B) S) where
  cancel_info-IsRegistered :
      (l id i : ℕ) (w : World B S U)
      → find_timer id (w.loops l).list_timers ≡ some i
      → IsRegistered w
      → IsRegistered (cancel_info io l id i w)
  unfolding cancel_info
  cancel_info-IsRegistered l id i w e v = record {
    live = λ j b c.
        ground
          (arith, v.live j, v.found l id i e, find-erase id (w.infos j).id (w.loops l).list_timers);
    found = λ k x j f. ground (arith, v.found k x j, find-erase id x (w.loops l).list_timers);
  }

  insert_info-IsRegistered :
      (l : ℕ) (ev : StartTimer) (w : World B S U)
      → find_timer ev.timer_id (w.loops l).list_timers ≡ none
      → IsRegistered w
      → IsRegistered (insert_info io l ev w)
  unfolding insert_info
  insert_info-IsRegistered l ev w e v = record {
    live = λ j b c. ground (arith, v.live j);
    found = λ k x j f. ground (arith, v.found k x j);
  }

  -- A change that leaves the infos and every loop's map alone.
  SameTimers : World B S U → World B S U → Type 0
  SameTimers w w' =
      (w'.infos ≡ w.infos)
      × (w'.next_info ≡ w.next_info)
      × ((l : ℕ) → (w'.loops l).list_timers ≡ (w.loops l).list_timers)

  IsRegistered-same : (w w' : World B S U) → SameTimers w w' → IsRegistered w → IsRegistered w'
  unfolding SameTimers
  IsRegistered-same w w' (a, b, c) v = record {
    live = λ i. rw (a, b) (rw (c _) (v.live i));
    found = λ l id i. rw (a, b) (rw (c l) (v.found l id i));
  }

  cancel_info-absent :
      (l id i : ℕ) (w : World B S U)
      → find_timer id ((cancel_info io l id i w).loops l).list_timers ≡ none
  unfolding cancel_info
  cancel_info-absent l id i w =
      ground (arith, find-erase id id (w.loops l).list_timers, ==_refl l, ==_refl id)

  start_timer-IsRegistered :
      (l : ℕ) (ev : StartTimer) (w : World B S U)
      → IsRegistered w
      → IsRegistered (start_timer io l ev w)
  unfolding start_timer
  start_timer-IsRegistered l ev w v = elim (Bool-cases (w.objects ev.timer).alive) [
    | inr gone ↦ rw (gone, start_timer) v
    | inl live ↦ elim (Option-cases (find_timer ev.timer_id (w.loops l).list_timers)) [
      | inl e ↦ rw (live, e, start_timer) (insert_info-IsRegistered l ev w e v)
      | inr (i, e) ↦
          rw (live, e, start_timer)
            (insert_info-IsRegistered l ev (cancel_info io l ev.timer_id i w)
              (cancel_info-absent l ev.timer_id i w)
              (cancel_info-IsRegistered l ev.timer_id i w e v))
    ]
  ]

  set_timer-IsRegistered :
      (t : ℕ) (x : Timer B) (w : World B S U) → IsRegistered w → IsRegistered (set_timer t x w)
  set_timer-IsRegistered t x w v = record { live = v.live; found = v.found }

  stop_timer-IsRegistered :
      (l id : ℕ) (w : World B S U) → IsRegistered w → IsRegistered (stop_timer io l id w)
  unfolding stop_timer
  stop_timer-IsRegistered l id w v = elim (Option-cases (find_timer id (w.loops l).list_timers)) [
    | inl e ↦ rw (e, stop_timer) v
    | inr (i, e) ↦
        rw (e, stop_timer)
          (elim (Bool-cases (w.objects (w.infos i).timer).alive) [
            | inl live ↦ rw live (
                cancel_info-IsRegistered l id i _ e
                  (set_timer-IsRegistered (w.infos i).timer _ w v))
            | inr gone ↦ rw gone (cancel_info-IsRegistered l id i w e v)
          ])
  ]

  -- The calls that change no timer.
  step_same :
      (c : Call B) (w : World B S U)
      → SameTimers w (step io c w) ⊎ (IsRegistered w → IsRegistered (step io c w))
  unfolding SameTimers step start stop enter_run leave_run post_callback post_stop_event post_event
  step_same (starts self l) w = inl (ground arith, ground arith, λ k. ground arith)
  step_same (stops l) w = inl (ground arith, ground arith, λ k. ground arith)
  step_same (enters_run self l) w = inl (ground arith, ground arith, λ k. ground arith)
  step_same (leaves_run l) w = inl (ground arith, ground arith, λ k. ground arith)
  step_same (posts l (start_timer_event ev)) w = inr (start_timer-IsRegistered l ev w)
  step_same (posts l (stop_timer_event id)) w = inr (stop_timer-IsRegistered l id w)
  step_same (posts l null_event) w = inl (ground arith, ground arith, λ k. ground arith)
  step_same (posts l (slot_event c)) w = inl (ground arith, ground arith, λ k. ground arith)
  step_same (posts l (blocking_slot_event c x)) w =
      inl (ground arith, ground arith, λ k. ground arith)
  step_same (posts_callback l b) w = inl (ground arith, ground arith, λ k. ground arith)
  step_same (posts_stop_event l) w = inl (ground arith, ground arith, λ k. ground arith)

  steps-IsRegistered :
      (cs : List (Call B)) (w : World B S U) → IsRegistered w → IsRegistered (steps io cs w)
  unfolding steps
  steps-IsRegistered [] w v = v
  steps-IsRegistered (c ∷ cs) w v = steps-IsRegistered cs (step io c w) (elim (step_same c w) [
    | inl same ↦ IsRegistered-same w (step io c w) same v
    | inr keeps ↦ keeps v
  ])

  -- However often timers are started and stopped, on whichever threads: of the TimerInfos that an
  -- event loop has made for one timer id, at most one is not cancelled.
  pub one_live_info :
      (cs : List (Call B)) (w : World B S U) (i j : ℕ)
      → IsRegistered w
      → let v = steps io cs w in
        i < v.next_info
        → j < v.next_info
        → (v.infos i).canceled ≡ false
        → (v.infos j).canceled ≡ false
        → (v.infos i).id ≡ (v.infos j).id
        → (v.infos i).loop ≡ (v.infos j).loop
        → i ≡ j
  one_live_info cs w i j v bi bj ci cj same there =
      let r = steps-IsRegistered cs w v in ground (arith, r.live i bi ci, r.live j bj cj)
