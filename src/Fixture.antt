-- ===== src/Fixture.antt =====
-- Concrete values for the tests: an asio service that is a list of handlers, user code that writes
-- its number down, and a world with two objects on two loops.
use ks_core.Base.{
  ℕ, ◌+◌, ◌≡◌, refl, Bool, true, false, Option, none, some, List, [], ◌∷◌, ◌++◌, ◌==◌,
  if◌then◌else◌, update,
}
use ks_core.Host.{Result, ok}
use ks_core.Asio.{IoService, Queue}
use ks_core.World.{Handler, World}

-- The handlers that are ready, and whether the service is stopped. Timers never expire here.
pub record ListService : Type 0 where
  pub ready : List (Handler ℕ)
  pub halted : Bool

abbrev pub next_of : Bool → List (Handler ℕ) → Option (Handler ℕ × ListService)
next_of true xs = none
next_of false [] = none
next_of false (x ∷ xs) = some (x, record { ready = xs; halted = false })

abbrev pub list_io : IoService (Handler ℕ) ListService
list_io = record {
  new_service = record { ready = []; halted = false };
  post = λ x s. record s { ready = s.ready ++ x ∷ [] };
  add_work = λ s. s;
  drop_work = λ s. s;
  reset = λ s. record s { halted = false };
  stop = λ s. record s { halted = true };
  next = λ s. next_of s.halted s.ready;
  new_timer = λ i ms s. s;
  expires_from_now = λ i ms s. s;
  async_wait = λ i f s. s;
  cancel = λ i s. s;
}

pub next_stopped : (b : Bool) (xs : List (Handler ℕ)) → b ≡ true → next_of b xs ≡ none
next_stopped true xs e = refl
next_stopped false xs e = cc

pub next_empty : (b : Bool) (xs : List (Handler ℕ)) → xs ≡ [] → next_of b xs ≡ none
next_empty true xs e = refl
next_empty false [] e = refl
next_empty false (x ∷ xs) e = cc

pub next_ready :
    (b : Bool) (ys : List (Handler ℕ)) (x : Handler ℕ) (xs : List (Handler ℕ))
    → b ≡ false
    → ys ≡ x ∷ xs
    → (t : ListService) × (next_of b ys ≡ some (x, t)) × (t.ready ≡ xs) × (t.halted ≡ false)
next_ready b ys x xs e f = rw (e, f) (record { ready = xs; halted = false }, refl, refl, refl)

abbrev pub list_queue : Queue list_io
list_queue = record {
  queued = λ s. s.ready;
  stopped = λ s. s.halted;
  post_queued = λ x s. refl;
  post_stopped = λ x s. refl;
  work_queued = λ s. refl;
  work_stopped = λ s. refl;
  drop_queued = λ s. refl;
  reset_queued = λ s. refl;
  reset_stopped = λ s. refl;
  stop_queued = λ s. refl;
  stop_stopped = λ s. refl;
  next_stopped = λ s. next_stopped s.halted s.ready;
  next_empty = λ s. next_empty s.halted s.ready;
  next_ready = λ s x xs. next_ready s.halted s.ready x xs;
}

abbrev pub TestWorld : Type 0
TestWorld = World ℕ ListService (List ℕ)

-- The user's state is the list of the calls, oldest first.
abbrev pub note : ℕ → List ℕ → List ℕ
note b u = u ++ b ∷ []

abbrev pub run : ℕ → TestWorld → TestWorld × Result
run b w = (record w { user = note b w.user }, ok)

-- Objects 1 and 3 live on loops 1 and 3, and so on; object 2 is dead.
abbrev pub fresh : TestWorld
fresh = record {
  loops = λ l. record {
    id = l;
    thread_id = 0;
    started = false;
    running = false;
    list_timers = [];
    service = record { ready = []; halted = false };
    work = false;
  };
  objects = λ o. record { id = o + 10; event_loop = o; alive = if o == 2 then false else true };
  timers = λ t. record {
    interval_ms = 0;
    repeating = false;
    active = false;
    signal_timeout = record { managed = []; unmanaged = [] };
  };
  infos =
      λ i. record { id = 0; timer = 0; interval_ms = 0; repeat = false; canceled = true; loop = 0 };
  next_info = 0;
  tasks = λ t. record { task = t; ready = false; complete = false };
  flags = λ f. false;
  next_flag = 0;
  user = [];
}

-- Loop 1 as thread 5 has started it, with what its queue holds.
abbrev pub started_with : List (Handler ℕ) → TestWorld
started_with xs = record fresh {
  loops = update fresh.loops 1 (record (fresh.loops 1) {
    started = true;
    thread_id = 5;
    work = true;
    service = record { ready = xs; halted = false };
  });
}
