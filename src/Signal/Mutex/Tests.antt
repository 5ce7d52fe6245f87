-- ===== src/Signal/Mutex/Tests.antt =====
-- Thread 1 connects a slot and emits; the slot disconnects itself; thread 2 asks for the count.
use ks_core.Base.{ℕ, ◌≤◌, ◌≡◌, ◌⊎◌, refl, none, some, [], ◌∷◌, true, length}
use ks_core.Signal.{direct, function, connect_function, new_signal}
use ks_core.Signal.Mutex.{
  default_mutex, Method, connects, disconnects, counts, emits, asks, in_slot, walks, leaves, State,
  Run, here, next, start, calls, slot_calls, locks, runs, begins, enters, unlocks, connections, to,
  body, holds,
}
use ks_core.Signal.Mutex.Iteration.{emitting, emit_lists_fixed}
use ks_core.Signal.Mutex.Bounds.{emit_in_bounds}
use ks_core.Signal.Mutex.Reentry.{slot_locks_out}

abbrev first : State ℕ ℕ
first = start default_mutex

abbrev connecting : Method ℕ ℕ
connecting = connects (function (λ n. n) none direct)

abbrev connected : State ℕ ℕ
connected =
    to 1 []
      (record (to 1 (leaves ∷ []) (
        body connecting (
          to 1 (holds connecting ∷ [])
            (record (to 1 (asks connecting ∷ []) first) { owner = some 1 })))) { owner = none })

connects_first : Run first connected
connects_first =
    next
      (next
        (next (next (here refl) (calls 1 connecting refl refl))
          (locks 1 connecting [] refl refl refl))
        (runs 1 connecting [] refl refl refl))
      (unlocks 1 [] refl refl)

abbrev in_the_slot : State ℕ ℕ
in_the_slot = to 1 (in_slot 1 ∷ []) (
    to 1 (walks 0 ∷ []) (
      to 1 (holds (emits 7) ∷ [])
        (record (to 1 (asks (emits 7) ∷ []) connected) { owner = some 1 })))

emits_then : Run first in_the_slot
unfolding connect_function new_signal
emits_then =
    next
      (next
        (next (next connects_first (calls 1 (emits 7) refl refl))
          (locks 1 (emits 7) [] refl refl refl))
        (begins 1 7 [] refl refl))
      (enters 1 0 [] none refl refl (λ e. cc) refl)

abbrev disconnecting : State ℕ ℕ
disconnecting = to 1 (asks (disconnects 1) ∷ in_slot 1 ∷ []) in_the_slot

emit_lists_fixed_example :
    ((disconnecting.signal ≡ in_the_slot.signal) × (emitting (disconnecting.stack 1) ≡ true))
    ⊎ (disconnecting.stack 1 ≡ leaves ∷ [])
emit_lists_fixed_example =
    emit_lists_fixed 1 in_the_slot disconnecting emits_then refl
      (slot_calls 1 1 (disconnects 1) [] refl refl)

emit_in_bounds_example : 1 ≤ length (connections in_the_slot.signal)
emit_in_bounds_example = emit_in_bounds emits_then 1

slot_locks_out_example :
    let after : State ℕ ℕ = to 2 (asks counts ∷ []) disconnecting in
    (after.stack 1 ≡ asks (disconnects 1) ∷ in_slot 1 ∷ [])
    × (after.signal ≡ disconnecting.signal)
    × (after.owner ≡ some 1)
slot_locks_out_example =
    slot_locks_out 1 1 (disconnects 1) []
      (next emits_then (slot_calls 1 1 (disconnects 1) [] refl refl)) refl
      (next (here refl) (calls 2 counts refl refl))
