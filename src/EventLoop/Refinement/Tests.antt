-- ===== src/EventLoop/Refinement/Tests.antt =====
-- Calls of three threads to loop 1; object 2 is dead.
use ks_core.Base.{◌≡◌, ◌≢◌, refl, All, List, [], ◌∷◌, none, some}
use ks_core.Host.{event_loop_inactive, called_from_wrong_thread}
use ks_core.EventLoop.Handlers.{idle, failed, out_of_fuel}
use ks_core.EventLoop.Mailbox.{
  Mailbox, Request, to_start, to_stop, to_post, to_post_callback, to_post_stop, to_process,
  slot_call,
}
use ks_core.EventLoop.Refinement.Stands.{Refines}
use ks_core.EventLoop.Refinement.{performs, performs-replies, performs_return}
use ks_core.Fixture.{list_io, list_queue, note, run, fresh}
use ks_core.Base.{ℕ}

abbrev requests : List (Request ℕ)
requests =
    to_process 5
    ∷ to_start 5
    ∷ to_post (record { guard = some 3; body = 7 })
    ∷ to_post (record { guard = some 2; body = 8 })
    ∷ to_process 9
    ∷ to_post_stop
    ∷ to_post_callback 9
    ∷ to_process 5
    ∷ to_start 9
    ∷ to_process 9
    ∷ to_stop
    ∷ to_post_callback 10
    ∷ []

abbrev empty : Mailbox ℕ (List ℕ)
empty = record { owner = none; items = []; user = [] }

fresh-Refines : Refines list_io list_queue 1 fresh.objects empty fresh
fresh-Refines = (
  record { queue = refl; open' = λ e. cc; started = refl; work = refl; thread = refl },
  refl,
  refl,
)

performs-replies_example :
    ((performs list_io list_queue run note (λ b w. refl) 1 fresh.objects requests fresh).1
      ≡ failed event_loop_inactive
        ∷ idle
        ∷ idle
        ∷ idle
        ∷ failed called_from_wrong_thread
        ∷ idle
        ∷ idle
        ∷ idle
        ∷ idle
        ∷ idle
        ∷ idle
        ∷ idle
        ∷ [])
    × Refines list_io list_queue 1 fresh.objects
        (record {
          owner = none;
          items = slot_call (record { guard = none; body = 10 }) ∷ [];
          user = 7 ∷ 9 ∷ [];
        })
        (performs list_io list_queue run note (λ b w. refl) 1 fresh.objects requests fresh).0
performs-replies_example =
    performs-replies list_io list_queue run note (λ b w. refl) 1 fresh.objects requests empty fresh
      fresh-Refines

performs_return_example :
    All
      (λ p. p ≢ out_of_fuel)
      (performs list_io list_queue run note (λ b w. refl) 1 fresh.objects requests fresh).1
performs_return_example =
    performs_return list_io list_queue run note (λ b w. refl) 1 fresh.objects requests empty fresh
      fresh-Refines
