-- ===== src/Event.antt =====
-- ks/KsEvent.hpp: the events that an event loop is handed. `B` stands for a `std::function<void()>`
-- with its arguments bound, whatever it is; ids, and pointers to objects and to flags, are numbers.
use ks_core.Base.{ℕ, Bool, true, false, Option}

-- Event::Type
pub data EventType : Type 0 where
  null slot blocking_slot start_timer stop_timer : EventType

-- A `weak_ptr` that a wrapper lambda captures, if it does, and the call that it guards.
pub record Callback (B : Type 0) : Type 0 where
  pub guard : Option ℕ
  pub body : B

-- StartTimerEvent's fields; `timer` is the `weak_ptr<Timer>`.
pub record StartTimer : Type 0 where
  pub timer_id : ℕ
  pub timer : ℕ
  pub interval_ms : ℕ
  pub repeating : Bool

-- `Event` and its subclasses. A blocking event points to the flag of the thread that waits.
pub data Event (B : Type 0) : Type 0 where
  null_event : Event B
  slot_event : Callback B → Event B
  blocking_slot_event : Callback B → ℕ → Event B
  start_timer_event : StartTimer → Event B
  stop_timer_event : ℕ → Event B

-- Event::GetType: the type that each constructor hands to the base class.
unfoldable pub get_type : {B : Type 0} → Event B → EventType
get_type null_event = EventType.null
get_type (slot_event c) = EventType.slot
get_type (blocking_slot_event c f) = EventType.blocking_slot
get_type (start_timer_event s) = EventType.start_timer
get_type (stop_timer_event i) = EventType.stop_timer

-- The events that `PostEvent` handles at once instead of queueing them.
abbrev pub is_timer : {B : Type 0} → Event B → Bool
is_timer (start_timer_event s) = true
is_timer (stop_timer_event i) = true
is_timer _ = false
