-- ===== src/EventLoop/Mailbox.antt =====
-- What an event loop (ks/KsEventLoop.hpp) promises to those that call it, apart from asio, mutexes
-- and flags: it is a queue that one thread owns.
use ks_core.Base.{ℕ, Option, none, some, List, [], ◌∷◌, ◌++◌, ◌==◌, if◌then◌else◌}
use ks_core.Event.{Callback}
use ks_core.Host.{event_loop_inactive, called_from_wrong_thread}
use ks_core.World.{Object}
use ks_core.EventLoop.Handlers.{Polled, idle, failed}
use ks_core.EventLoop.Posting.{noted}

-- A slot's call or a stop event, which waits to be taken.
pub data Item (B : Type 0) : Type 0 where
  slot_call : Callback B → Item B
  halt : Item B

pub record Mailbox (B U : Type 0) : Type 0 where
  pub owner : Option ℕ
  pub items : List (Item B)
  pub user : U

-- A call of the loop's interface, by thread where that matters.
pub data Request (B : Type 0) : Type 0 where
  to_start : ℕ → Request B
  to_stop : Request B
  to_post : Callback B → Request B
  to_post_callback : B → Request B
  to_post_stop : Request B
  to_process : ℕ → Request B

abbrev pub take_over : ℕ → Option ℕ → Option ℕ
take_over self none = some self
take_over self (some t) = some t

module _ {B U : Type 0} (note : B → U → U) (objects : ℕ → Object) where
  -- Take the items in order, up to one that stops the loop.
  abbrev pub drain : List (Item B) → Mailbox B U → Mailbox B U
  drain [] m = record m { items = [] }
  drain (slot_call c ∷ xs) m =
      drain xs (record m { items = xs; user = noted note objects (c ∷ []) m.user })
  drain (halt ∷ xs) m = record m { owner = none; items = xs }

  abbrev pub process : ℕ → Option ℕ → Mailbox B U → Mailbox B U × Polled B
  process self none m = (m, failed event_loop_inactive)
  process self (some t) m =
      if t == self then (drain m.items m, idle) else (m, failed called_from_wrong_thread)

  -- The reply to a request that is no ProcessEvents is always `idle`.
  abbrev pub reply : Request B → Mailbox B U → Mailbox B U × Polled B
  reply (to_start self) m = (record m { owner = take_over self m.owner }, idle)
  reply to_stop m = (record m { owner = none }, idle)
  reply (to_post c) m = (record m { items = m.items ++ slot_call c ∷ [] }, idle)
  reply (to_post_callback b) m =
      (record m { items = m.items ++ slot_call (record { guard = none; body = b }) ∷ [] }, idle)
  reply to_post_stop m = (record m { items = m.items ++ halt ∷ [] }, idle)
  reply (to_process self) m = process self m.owner m

  abbrev pub replies : List (Request B) → Mailbox B U → Mailbox B U × List (Polled B)
  replies [] m = (m, [])
  replies (r ∷ rs) m = let (m1, p) = reply r m in let (m2, ps) = replies rs m1 in (m2, p ∷ ps)
