-- ===== src/Signal/Plan.antt =====
-- Signal::Emit (ks/KsSignal.hpp) against a reference in two parts: a plan, made of the connections
-- and of who is alive at the start, and what is then done. User code may throw.
mod Managed
mod Whole
mod Tests
use ks_core.Base.{
  ℕ, ◌+◌, ◌≡◌, refl, Bool, true, Option, none, some, List, [], ◌∷◌, ◌++◌, keep_if, if◌then◌else◌,
}
use ks_core.Event.{Callback, slot_event}
use ks_core.Host.{Host, Error, Result, ok, threw}
use ks_core.Signal.{
  direct, queued, blocking, ConnectionType, Function, ManagedConnection, UnmanagedConnection,
  Signal,
}
use ks_core.Signal.Emit.{bind, Walk, at_end, fails, Progress, returned, thrown}

-- User code that leaves objects and loops alone, and for which it is the call that decides whether it
-- throws.
pub record Steady {B W : Type 0} (h : Host B W) : Type 0 where
  pub outcome : B → Result
  pub run_outcome : (b : B) (w : W) → (h.run b w).1 ≡ outcome b
  pub run_alive : (b : B) (w : W) → h.alive (h.run b w).0 ≡ h.alive w
  pub run_loop : (b : B) (w : W) → h.event_loop (h.run b w).0 ≡ h.event_loop w
  pub post_alive :
      (l : ℕ) (c : Callback B) (w : W) → h.alive (h.post_event l (slot_event c) w) ≡ h.alive w
  pub post_loop :
      (l : ℕ) (c : Callback B) (w : W)
      → h.event_loop (h.post_event l (slot_event c) w) ≡ h.event_loop w

-- What Emit does to the rest of the program: it calls user code, or posts to a loop.
pub data Effect (B : Type 0) : Type 0 where
  called : B → Effect B
  posted : ℕ → Callback B → Effect B

-- What is done, in order, and the exception that ends it, if one does.
abbrev pub Plan : Type 0 → Type 0
Plan B = List (Effect B) × Option Error

module _ {A B : Type 0} (outcome : B → Result) (alive : ℕ → Bool) (loop : ℕ → ℕ) (args : A) where
  abbrev pub before : List (Effect B) × Result → Plan B → Plan B
  before p rest = elim p.1 [ ok ↦ (p.0 ++ rest.0, rest.1) | threw e ↦ (p.0, some e) ]

  pub before_ok :
      (p : List (Effect B) × Result) (rest : Plan B)
      → p.1 ≡ ok
      → before p rest ≡ (p.0 ++ rest.0, rest.1)
  before_ok (xs, r) rest e = rw e refl

  pub before_threw :
      (x : Error) (p : List (Effect B) × Result) (rest : Plan B)
      → p.1 ≡ threw x
      → before p rest ≡ (p.0, some x)
  before_threw x (xs, r) rest e = rw e refl

  abbrev pub lives : Option ℕ → Bool
  lives none = true
  lives (some o) = alive o

  abbrev pub invocation : Function A B → List (Effect B) × Result
  invocation fn =
      if lives fn.guard then (called (fn.slot args) ∷ [], outcome (fn.slot args)) else ([], ok)

  abbrev pub turn : ConnectionType → ManagedConnection A B → List (Effect B) × Result
  turn direct c = invocation c.fn
  turn queued c = (posted (loop c.context) (bind c.fn args) ∷ [], ok)
  turn blocking c = ([], ok)

  abbrev pub plan_managed : List (ManagedConnection A B) → Plan B
  plan_managed [] = ([], none)
  plan_managed (c ∷ cs) =
      let rest = plan_managed cs in if alive c.context then before (turn c.type c) rest else rest

  abbrev pub plan_unmanaged : Plan B → List (UnmanagedConnection A B) → Plan B
  plan_unmanaged rest [] = rest
  plan_unmanaged rest (c ∷ cs) = let p = plan_unmanaged rest cs in before (invocation c.fn) p

  -- The unmanaged connections, and then the managed ones.
  abbrev pub plan : Signal A B → Plan B
  plan s = plan_unmanaged (plan_managed s.managed) s.unmanaged

module _ {B W : Type 0} (h : Host B W) where
  abbrev pub effect : Effect B → W → W
  effect (called b) w = (h.run b w).0
  effect (posted l c) w = h.post_event l (slot_event c) w

  abbrev pub effects : List (Effect B) → W → W
  effects [] w = w
  effects (x ∷ xs) w = effects xs (effect x w)

module _ {A B : Type 0} where
  -- What is left of the signal, or what is thrown.
  abbrev pub ending : (ℕ → Bool) → Signal A B → Option Error → Progress A B
  ending alive s none = returned (record s { managed = keep_if (λ c. alive c.context) s.managed })
  ending alive s (some e) = thrown e

  -- How the walk over the managed connections ends.
  abbrev pub walk_of : ℕ → Option Error → Walk A B
  walk_of n none = at_end n
  walk_of n (some e) = fails e
