-- ===== src/EventLoop/Removal/Tests.antt =====
-- Thread 5 runs loop 1, in whose queue one slot waits, when RemoveFromThread posts a stop event;
-- another slot is posted behind it.
use ks_core.Base.{ℕ, ◌≤◌, ◌≡◌, ◌⊎◌, refl, true, false, none, some, [], ◌∷◌}
use ks_core.Event.{Callback, slot_event}
use ks_core.World.{event_handler, stop_handler}
use ks_core.EventLoop.Post.{post_event, post_stop_event, set_service}
use ks_core.EventLoop.Handlers.{handle}
use ks_core.EventLoop.Launch.{in_run}
use ks_core.EventLoop.Mailbox.{Mailbox, slot_call}
use ks_core.EventLoop.Refinement.Stands.{Refines}
use ks_core.EventLoop.Removal.{
  Removal, Step, Reach, here, next, takes, posts, joining, removed, is_move, moves,
  remove_from_thread,
}
use ks_core.EventLoop.Removal.Returns.{remove_from_thread_returns}
use ks_core.Fixture.{TestWorld, ListService, list_io, list_queue, note, run, started_with}
use ks_core.Base.{List}

abbrev plain : ℕ → Callback ℕ
plain b = record { guard = none; body = b }

abbrev busy : TestWorld
busy = started_with (event_handler (slot_event (plain 7)) ∷ [])

abbrev one : Mailbox ℕ (List ℕ)
one = record { owner = some 5; items = slot_call (plain 7) ∷ []; user = [] }

busy-Refines : Refines list_io list_queue 1 busy.objects one busy
busy-Refines = (
  record { queue = refl; open' = λ e. refl; started = refl; work = refl; thread = refl },
  refl,
  refl,
)

abbrev begun : Removal ℕ ListService (List ℕ)
begun = record {
  world = remove_from_thread list_io run 5 1 true busy;
  worker = in_run;
  caller = joining;
}

abbrev later : Removal ℕ ListService (List ℕ)
later = record begun { world = post_event list_io 1 (slot_event (plain 8)) begun.world }

abbrev ran : Removal ℕ ListService (List ℕ)
ran = record later {
  world =
      (handle list_io run 5 (event_handler (slot_event (plain 7))) (
        set_service list_io 1
          (record {
            ready = stop_handler 1 ∷ event_handler (slot_event (plain 8)) ∷ [];
            halted = false;
          })
          later.world)).0;
}

steps : Reach list_io run 5 1 begun ran
unfolding remove_from_thread post_stop_event post_event handle
steps =
    next (next (here refl) (posts (plain 8) refl))
      (takes (event_handler (slot_event (plain 7))) _ refl refl refl refl)

remove_from_thread_returns_example :
    (moves list_io run 5 1 steps ≤ 4)
    × ((ran.caller ≡ removed)
        ⊎ ((u : Removal ℕ ListService (List ℕ)) × (st : Step list_io run 5 1 ran u) × (is_move
                list_io run 5 1 st
              ≡ 1)))
remove_from_thread_returns_example =
    remove_from_thread_returns list_io list_queue run note (λ b w. refl) 5 1 busy.objects true 5 one
      busy busy-Refines refl steps
