-- ===== src/Task/Tests.antt =====
-- Task 7, whose function writes 7 down, and loop 1 on thread 5.
use ks_core.Base.{ℕ, ◌≡◌, refl, none, some, List, [], ◌∷◌, ◌==◌, if◌then◌else◌}
use ks_core.Host.{Result, ok, threw, user_error}
use ks_core.World.{task_handler}
use ks_core.EventLoop.{get_thread_id, start, ensure_active}
use ks_core.EventLoop.Post.{post_task}
use ks_core.EventLoop.Handlers.{idle, failed, completed, handle, poll, process_events}
use ks_core.EventLoop.Lifecycle.{starts, stops, step}
use ks_core.Task.{WaitStatus, new_task, wait, wait_for}
use ks_core.Task.Waiting.{process_events-post_task}
use ks_core.Task.Failing.{
  Move, calls, posts_task, processes_events, runs, move, moves, failing_task_never_ready,
}
use ks_core.Fixture.{TestWorld, list_io, list_queue, fresh, note, run, started_with}

wait_fresh : wait (fresh.tasks 7) ≡ none
unfolding wait
wait_fresh = refl

process_events-post_task_example :
    (v w : TestWorld) × (post_task list_io run 6 1 7 (started_with []) ≡ (v, ok))
    × (v.tasks ≡ fresh.tasks)
    × (process_events list_io run 2 5 1 v ≡ (w, idle))
    × (w.user ≡ 7 ∷ [])
    × ((w.loops 1).service.ready ≡ [])
    × (wait (w.tasks 7) ≡ some WaitStatus.finished)
process_events-post_task_example =
    process_events-post_task run note (λ b w. refl) list_io list_queue 7 0 5 6 1 (started_with [])
      (unfold get_thread_id in refl) (unfold ensure_active in refl) refl refl refl

-- User code that throws in the place of function 7.
abbrev throwing : ℕ → TestWorld → TestWorld × Result
throwing b w = (record w { user = note b w.user }, if b == 7 then threw (user_error 3) else ok)

-- Thread 5 starts loop 1 and thread 6 posts task 7 to it; thread 5 runs it, and thread 6 posts it
-- again.
abbrev served : List (Move ℕ)
served = calls (starts 5 1) ∷ posts_task 6 1 7 ∷ processes_events 2 5 1 ∷ posts_task 6 1 7 ∷ []

abbrev behind : TestWorld
behind = moves list_io throwing served fresh

process_events_fails : (process_events list_io throwing 2 5 1 behind).1 ≡ failed (user_error 3)
unfolding process_events moves move post_task get_thread_id step start poll handle
process_events_fails = refl

failing_task_never_ready_example :
    ((handle list_io throwing 5 (task_handler 7) behind).1 ≡ completed (threw (user_error 3)))
    × (wait (behind.tasks 7) ≡ none)
    × (wait_for
          (behind.tasks 7)
          ((moves list_io throwing (runs 2 5 1 ∷ calls (stops 1) ∷ []) behind).tasks 7)
        ≡ WaitStatus.timeout)
failing_task_never_ready_example =
    failing_task_never_ready list_io throwing 7 5 7 (user_error 3) served
      (runs 2 5 1 ∷ calls (stops 1) ∷ []) fresh (λ c u p. p) (λ u. refl) (unfold new_task in refl)
