-- ===== src/Asio.antt =====
-- The calls that ks/KsEventLoop.cpp makes of asio, a library that is not modelled: an
-- `io_service` of state `S` is handed handlers of type `H`, and runs the ones that are ready, one
-- after the other. `Queue` is what the asio documentation says of the calls that the code relies
-- on.
use ks_core.Base.{ℕ, Bool, true, false, Option, none, some, ◌≡◌, List, [], ◌∷◌, ◌++◌}

pub record IoService (H S : Type 0) : Type 0 where
  pub new_service : S
  pub post : H → S → S
  -- io_service::work, made and destroyed
  pub add_work : S → S
  pub drop_work : S → S
  pub reset : S → S
  pub stop : S → S
  -- what `run` and `poll` take next: a handler that is ready, unless the service is stopped
  pub next : S → Option (H × S)
  -- steady_timer(service, interval), for the timer of this number
  pub new_timer : ℕ → ℕ → S → S
  pub expires_from_now : ℕ → ℕ → S → S
  -- async_wait: the handler gets `true` if the wait was aborted
  pub async_wait : ℕ → (Bool → H) → S → S
  pub cancel : ℕ → S → S

-- `queued` are the handlers that are ready, in the order in which they will run.
pub record Queue {H S : Type 0} (io : IoService H S) : Type 0 where
  pub queued : S → List H
  pub stopped : S → Bool
  pub post_queued : (x : H) (s : S) → queued (io.post x s) ≡ queued s ++ x ∷ []
  pub post_stopped : (x : H) (s : S) → stopped (io.post x s) ≡ stopped s
  pub work_queued : (s : S) → queued (io.add_work s) ≡ queued s
  pub work_stopped : (s : S) → stopped (io.add_work s) ≡ stopped s
  pub drop_queued : (s : S) → queued (io.drop_work s) ≡ queued s
  pub reset_queued : (s : S) → queued (io.reset s) ≡ queued s
  pub reset_stopped : (s : S) → stopped (io.reset s) ≡ false
  pub stop_queued : (s : S) → queued (io.stop s) ≡ queued s
  pub stop_stopped : (s : S) → stopped (io.stop s) ≡ true
  pub next_stopped : (s : S) → stopped s ≡ true → io.next s ≡ none
  pub next_empty : (s : S) → queued s ≡ [] → io.next s ≡ none
  pub next_ready :
      (s : S) (x : H) (xs : List H)
      → stopped s ≡ false
      → queued s ≡ x ∷ xs
      → (t : S) × (io.next s ≡ some (x, t)) × (queued t ≡ xs) × (stopped t ≡ false)

-- What the documentation says of the timers of a service: `waiter` is the handler that waits for a
-- timer to expire, and `expire` lets the time pass until the timer of this number has expired.
pub record Waits {H S : Type 0} (io : IoService H S) (q : Queue io) : Type 0 where
  pub waiter : S → ℕ → Option (Bool → H)
  pub expire : ℕ → S → S
  pub new_timer_queued : (i ms : ℕ) (s : S) → q.queued (io.new_timer i ms s) ≡ q.queued s
  pub new_timer_stopped : (i ms : ℕ) (s : S) → q.stopped (io.new_timer i ms s) ≡ q.stopped s
  -- with no wait on the timer that it would abort
  pub expires_queued :
      (i ms : ℕ) (s : S) → waiter s i ≡ none → q.queued (io.expires_from_now i ms s) ≡ q.queued s
  pub expires_stopped : (i ms : ℕ) (s : S) → q.stopped (io.expires_from_now i ms s) ≡ q.stopped s
  pub async_wait_waits : (i : ℕ) (f : Bool → H) (s : S) → waiter (io.async_wait i f s) i ≡ some f
  pub async_wait_queued :
      (i : ℕ) (f : Bool → H) (s : S) → q.queued (io.async_wait i f s) ≡ q.queued s
  pub async_wait_stopped :
      (i : ℕ) (f : Bool → H) (s : S) → q.stopped (io.async_wait i f s) ≡ q.stopped s
  pub expire_queued :
      (i : ℕ) (f : Bool → H) (s : S)
      → waiter s i ≡ some f
      → q.queued (expire i s) ≡ q.queued s ++ f false ∷ []
  pub expire_waits : (i : ℕ) (s : S) → waiter (expire i s) i ≡ none
  pub expire_stopped : (i : ℕ) (s : S) → q.stopped (expire i s) ≡ q.stopped s
  pub cancel_queued :
      (i : ℕ) (f : Bool → H) (s : S)
      → waiter s i ≡ some f
      → q.queued (io.cancel i s) ≡ q.queued s ++ f true ∷ []
  pub cancel_stopped : (i : ℕ) (s : S) → q.stopped (io.cancel i s) ≡ q.stopped s
  pub post_waits : (x : H) (i : ℕ) (s : S) → waiter (io.post x s) i ≡ waiter s i
  pub next_waits : (x : H) (i : ℕ) (s t : S) → io.next s ≡ some (x, t) → waiter t i ≡ waiter s i
