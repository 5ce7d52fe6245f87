-- ===== src/EventLoop/Tests.antt =====
-- A loop that thread 5 starts, and what is posted to it.
use ks_core.Base.{zero, suc, ◌≤◌, true, ℕ, ◌≡◌, refl, none, some, List, [], ◌∷◌, arith, ◌⊎◌}
use ks_core.Event.{Callback, slot_event, stop_timer_event}
use ks_core.Host.{ok, Result, threw, called_from_wrong_thread, user_error}
use ks_core.World.{Handler, event_handler}
use ks_core.EventLoop.{
  ensure_active, new_event_loop, enter_run, start, stop, get_started, get_running,
}
use ks_core.EventLoop.Failing.{run_throws}
use ks_core.EventLoop.Handlers
use ks_core.EventLoop.Handlers.{idle, failed, process_events, handle_event}
use ks_core.EventLoop.Post.{post_event}
use ks_core.EventLoop.Casts.{handle_by_type, post_by_type, casts_hold}
use ks_core.EventLoop.Lifecycle.{
  IsWellFormed, Call, starts, stops, enters_run, steps, steps-IsWellFormed,
}
use ks_core.EventLoop.Ownership.{runs_on_owner}
use ks_core.EventLoop.Spawning.{weight, process_events-drained}
use ks_core.EventLoop.Posting.{post_all}
use ks_core.EventLoop.Launch.{
  Launch, in_run, finished, waits, launched, spawn, Reach, here, next, begins, enters, wakes,
  launch_enters_run, launch_can_hang, wait_until_running,
}
use ks_core.Fixture
use ks_core.Fixture.{TestWorld, ListService, list_io, list_queue, fresh, note, started_with}

fresh-IsWellFormed : (l : ℕ) → IsWellFormed (fresh.loops l)
fresh-IsWellFormed l = record { works = refl; bound = λ e. cc; free = λ e. refl }

abbrev history : List (Call ℕ)
history = starts 5 1 ∷ enters_run 5 1 ∷ stops 1 ∷ starts 6 1 ∷ []

steps-IsWellFormed_example : IsWellFormed ((steps list_io history fresh).loops 1)
steps-IsWellFormed_example =
    steps-IsWellFormed list_io history fresh 1 (omega arith) (fresh-IsWellFormed 1)

-- Thread 6 is the owner of loop 1 behind these calls, and thread 5 may not run it any more.
runs_on_owner_example :
    let v = steps list_io history fresh in
    (process_events list_io Fixture.run 2 5 1 v ≡ (v, failed called_from_wrong_thread))
    × (Handlers.run list_io Fixture.run 2 5 1 v ≡ (v, some (failed called_from_wrong_thread)))
runs_on_owner_example =
    runs_on_owner list_io Fixture.run 2 5 1 1 history fresh (unfold new_event_loop in refl)

abbrev late : List (Handler ℕ)
late = event_handler (slot_event (record { guard = none; body = 4 })) ∷ []

abbrev spawned_fresh : Launch ℕ ListService (List ℕ)
spawned_fresh = spawn list_io 5 1 fresh

launch_can_hang_example :
    (s : Launch ℕ ListService (List ℕ)) × Reach list_io 5 1 spawned_fresh s
    × ((t : Launch ℕ ListService (List ℕ)) → Reach list_io 5 1 s t → t.caller ≡ waits)
launch_can_hang_example = launch_can_hang list_io 5 1 fresh (fresh-IsWellFormed 1) refl

abbrev entered : Launch ℕ ListService (List ℕ)
entered = record {
  world = (enter_run 5 1 (start list_io 5 1 fresh)).0;
  worker = in_run;
  caller = launched;
}

entered-Reach : Reach list_io 5 1 spawned_fresh entered
unfolding enter_run start wait_until_running
entered-Reach =
    next (next (next here (begins refl refl)) (enters refl refl refl)) (wakes refl refl refl)

launch_enters_run_example : (entered.worker ≡ in_run) ⊎ (entered.worker ≡ finished)
launch_enters_run_example = launch_enters_run list_io 5 1 fresh refl entered-Reach refl

-- User code that always throws.
abbrev raising : ℕ → TestWorld → TestWorld × Result
raising b w = (w, threw (user_error 3))

run_throws_example :
    (v : TestWorld) × (Handlers.run list_io raising 1 5 1
        (started_with (event_handler (slot_event (record { guard = none; body = 7 })) ∷ late))
      ≡ (v, some (failed (user_error 3))))
    × ((v.loops 1).service.ready ≡ late)
    × (get_started 1 v ≡ true)
    × (get_running 1 v ≡ true)
    × (get_running 1 (stop list_io 1 v) ≡ true)
unfolding get_started
run_throws_example =
    run_throws list_io list_queue raising 7 (user_error 3) (λ u. u) (λ w. refl) 0 5 1 late _
      (unfold ensure_active in refl) refl refl

-- A call of number n + 1 posts number n: the calls come in the order of the queue.
abbrev follow : ℕ → List (Callback ℕ)
follow zero = []
follow (suc n) = record { guard = none; body = n } ∷ []

abbrev run_spawning : ℕ → TestWorld → TestWorld × Result
run_spawning b w = (post_all list_io 1 (follow b) (record w { user = note b w.user }), ok)

falls : (b : ℕ) → weight (λ n. n) (follow b) ≤ b
falls zero = omega arith
falls (suc n) = omega arith

abbrev two_and_one : List (Handler ℕ)
two_and_one =
    event_handler (slot_event (record { guard = none; body = 2 }))
    ∷ event_handler (slot_event (record { guard = none; body = 1 }))
    ∷ []

process_events-drained_example :
    (w : TestWorld) × (process_events list_io run_spawning 6 5 1 (started_with two_and_one)
      ≡ (w, idle))
    × (some (2 ∷ 1 ∷ 1 ∷ 0 ∷ 0 ∷ []) ≡ some w.user)
    × ((w.loops 1).service.ready ≡ [])
process_events-drained_example =
    process_events-drained list_io list_queue 5 1 run_spawning note follow (λ b w. refl)
      fresh.objects (λ n. n) falls 6
      (record { guard = none; body = 2 } ∷ record { guard = none; body = 1 } ∷ [])
      (started_with two_and_one) refl (unfold ensure_active in refl) refl refl (omega arith)

-- An event of a timer, which PostEvent handles at once, and EventHandler would ignore.
casts_hold_example :
    (handle_by_type list_io (λ b w. (w, ok)) (stop_timer_event 11) fresh
      ≡ some (handle_event list_io (λ b w. (w, ok)) (stop_timer_event 11) fresh))
    × (post_by_type list_io 1 (stop_timer_event 11) fresh
        ≡ some (post_event list_io 1 (stop_timer_event 11) fresh))
casts_hold_example = casts_hold list_io (λ b w. (w, ok)) 1 (stop_timer_event 11) fresh
