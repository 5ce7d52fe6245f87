-- ===== src/EventLoop/Casts.antt =====
-- The casts of ks/KsEventLoop.cpp: EventHandler and PostEvent ask an event for its type and then
-- static_cast it to the class that the type stands for. A static_cast of an object of another class
-- is undefined behaviour: `none` here.
use ks_core.Base.{ℕ, ◌≡◌, refl, Bool, Option, none, some, if◌then◌else◌, ◌==◌, ◌>>=◌}
use ks_core.Event.{
  EventType, Callback, StartTimer, Event, null_event, slot_event, blocking_slot_event,
  start_timer_event, stop_timer_event, get_type,
}
use ks_core.Host.{Result, ok, call}
use ks_core.Asio.{IoService}
use ks_core.World.{Handler, event_handler, World}
use ks_core.EventLoop.Post.{host, post, post_event, start_timer, stop_timer}
use ks_core.EventLoop.Handlers.{Handled, completed, invoke_blocking, handle_event}

-- Event::Type is a `u8`.
abbrev pub type_int : EventType → ℕ
type_int EventType.null = 0
type_int EventType.slot = 1
type_int EventType.blocking_slot = 2
type_int EventType.start_timer = 3
type_int EventType.stop_timer = 4

abbrev pub is_type : EventType → EventType → Bool
is_type a b = type_int a == type_int b

module _ {B : Type 0} where
  -- static_cast<SlotEvent*>, and so on: what the class has.
  abbrev pub cast_slot : Event B → Option (Callback B)
  cast_slot (slot_event c) = some c
  cast_slot _ = none

  abbrev pub cast_blocking_slot : Event B → Option (Callback B × ℕ)
  cast_blocking_slot (blocking_slot_event c f) = some (c, f)
  cast_blocking_slot _ = none

  abbrev pub cast_start_timer : Event B → Option StartTimer
  cast_start_timer (start_timer_event ev) = some ev
  cast_start_timer _ = none

  abbrev pub cast_stop_timer : Event B → Option ℕ
  cast_stop_timer (stop_timer_event id) = some id
  cast_stop_timer _ = none

module _ {B S U : Type 0} (io : IoService (Handler B) S) where
  -- EventHandler::operator()
  unfoldable pub handle_by_type :
      (B → World B S U → World B S U × Result)
      → Event B
      → World B S U
      → Option (World B S U × Handled B)
  unfolding invoke_blocking call
  handle_by_type run e w =
      if is_type (get_type e) EventType.slot
      then (do c ← cast_slot e; let r = call (host io run) c w; some (r.0, completed r.1))
      else if is_type (get_type e) EventType.blocking_slot
      then (do
        ev ← cast_blocking_slot e
        some (invoke_blocking io run ev.1 (call (host io run) ev.0 w)))
      else some (w, completed ok)

  -- PostEvent
  unfoldable pub post_by_type : ℕ → Event B → World B S U → Option (World B S U)
  unfolding post
  post_by_type l e w =
      if is_type (get_type e) EventType.start_timer
      then (do ev ← cast_start_timer e; some (start_timer io l ev w))
      else if is_type (get_type e) EventType.stop_timer
      then (do id ← cast_stop_timer e; some (stop_timer io l id w))
      else some (post io l (event_handler e) w)

  -- Whatever event they get: EventHandler and PostEvent cast it to no class but its own, and then
  -- EventHandler calls the slot of SlotEvents and of BlockingSlotEvents, and does nothing with the
  -- others, and PostEvent starts or stops a timer for timer events and queues the others.
  pub casts_hold :
      (run : B → World B S U → World B S U × Result) (l : ℕ) (e : Event B) (w : World B S U)
      → (handle_by_type run e w ≡ some (handle_event io run e w))
        × (post_by_type l e w ≡ some (post_event io l e w))
  unfolding handle_by_type post_by_type get_type handle_event post_event
  casts_hold run l null_event w = (refl, refl)
  casts_hold run l (slot_event c) w = (refl, refl)
  casts_hold run l (blocking_slot_event c f) w = (refl, refl)
  casts_hold run l (start_timer_event ev) w = (refl, refl)
  casts_hold run l (stop_timer_event id) w = (refl, refl)
