-- ===== src/EventLoop/Handshake/Turns.antt =====
-- What is called, and in which order, in an `Emit` (ks/KsSignal.hpp) whose blocking slots are run
-- by another thread.
use ks_core.Base.{ℕ, Bool, List, [], ◌∷◌, ◌++◌, if◌then◌else◌}
use ks_core.Event.{Callback}
use ks_core.Signal.{direct, queued, blocking, ConnectionType, ManagedConnection}
use ks_core.Signal.Emit.{bind}

module _ {A B : Type 0} (alive : ℕ → Bool) (args : A) where
  -- What a connection's turn has called when Emit goes on to the next, and what is then queued, if
  -- the calls `pend` were queued before: a blocking slot comes behind all that was queued.
  abbrev pub turn :
      ConnectionType → Callback B → List (Callback B) → List (Callback B) × List (Callback B)
  turn direct x pend = (x ∷ [], pend)
  turn queued x pend = ([], pend ++ x ∷ [])
  turn blocking x pend = (pend ++ x ∷ [], [])

  -- What is called before Emit returns, in order, and what is still queued then.
  abbrev pub called : List (Callback B) → List (ManagedConnection A B) → List (Callback B)
  called pend [] = []
  called pend (c ∷ cs) =
      let t = turn c.type (bind c.fn args) pend in
      let rest = called t.1 cs in
      let skip = called pend cs in if alive c.context then t.0 ++ rest else skip

  abbrev pub kept : List (Callback B) → List (ManagedConnection A B) → List (Callback B)
  kept pend [] = pend
  kept pend (c ∷ cs) =
      let t = turn c.type (bind c.fn args) pend in
      let rest = kept t.1 cs in let skip = kept pend cs in if alive c.context then rest else skip
