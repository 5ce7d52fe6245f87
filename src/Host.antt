-- ===== src/Host.antt =====
-- What `Signal` (ks/KsSignal.hpp) uses of the rest of the program: weak pointers to objects, an
-- object's event loop, the loop's `GetState` and `PostEvent`, the flag of a blocking call, and user
-- code. `EventLoop.World` implements it. `W` is the state of the rest of the program.
pub mod Growth
use ks_core.Base.{
  ℕ, Bool, false, none, some, if◌then◌else◌, ◌==◌, ◌≡◌, refl, ◌⊎◌, inl, inr, List, [], ◌∷◌, ◌++◌,
}
use ks_core.Event.{Event, Callback, is_timer}

-- What is thrown: the two exceptions of ks/KsEventLoop.hpp, std::future_error by a promise that is
-- set twice, and whatever user code throws.
pub data Error : Type 0 where
  event_loop_inactive called_from_wrong_thread promise_already_satisfied : Error
  user_error : ℕ → Error

pub data Result : Type 0 where
  ok : Result
  threw : Error → Result

-- To split on a result and keep the equation.
pub Result-cases : (r : Result) → (r ≡ ok) ⊎ ((e : Error) × (r ≡ threw e))
Result-cases ok = inl refl
Result-cases (threw e) = inr (e, refl)

-- EventLoop::GetState
pub record LoopState : Type 0 where
  pub thread_id : ℕ
  pub started : Bool
  pub running : Bool

pub record Host (B W : Type 0) : Type 0 where
  -- whether weak_ptr::lock gives an object
  pub alive : W → ℕ → Bool
  -- Object::GetEventLoop
  pub event_loop : W → ℕ → ℕ
  pub get_state : W → ℕ → LoopState
  pub post_event : ℕ → Event B → W → W
  -- a new local `bool invoked = false`, and the flags' values
  pub new_flag : W → W × ℕ
  pub invoked : W → ℕ → Bool
  -- user code with its arguments, until it returns or throws
  pub run : B → W → W × Result

module _ {B W : Type 0} (h : Host B W) where
  -- A call of a bound `std::function`: the wrapper lambda calls the slot if the object that it
  -- holds weakly is there, and does nothing if not.
  unfoldable pub call : Callback B → W → W × Result
  call c w = elim c.guard [
    | none ↦ h.run c.body w
    | some o ↦ if h.alive w o then h.run c.body w else (w, ok)
  ]

-- A view of a host, for user code that does not reach back into it: `pending` are the events that
-- wait in a loop's queue, oldest first, and `log` the calls of user code, oldest first. `PostEvent`
-- appends to one queue; user code returns, and leaves objects, loops and queues alone.
pub record Quiet {B W : Type 0} (h : Host B W) : Type 0 where
  pub pending : W → ℕ → List (Event B)
  pub log : W → List B
  pub post_alive : (l : ℕ) (e : Event B) (w : W) → h.alive (h.post_event l e w) ≡ h.alive w
  pub post_loop : (l : ℕ) (e : Event B) (w : W) → h.event_loop (h.post_event l e w) ≡ h.event_loop w
  pub post_log : (l : ℕ) (e : Event B) (w : W) → log (h.post_event l e w) ≡ log w
  pub post_pending :
      (l k : ℕ) (e : Event B) (w : W)
      → is_timer e ≡ false
      → pending (h.post_event l e w) k ≡ (if l == k then pending w k ++ e ∷ [] else pending w k)
  pub run_ok : (b : B) (w : W) → (h.run b w).1 ≡ ok
  pub run_alive : (b : B) (w : W) → h.alive (h.run b w).0 ≡ h.alive w
  pub run_loop : (b : B) (w : W) → h.event_loop (h.run b w).0 ≡ h.event_loop w
  pub run_log : (b : B) (w : W) → log (h.run b w).0 ≡ log w ++ b ∷ []
  pub run_pending : (b : B) (w : W) (k : ℕ) → pending (h.run b w).0 k ≡ pending w k
