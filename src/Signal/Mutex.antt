-- ===== src/Signal/Mutex.antt =====
-- Signal (ks/KsSignal.hpp) with its connection mutex, for any number of threads that call its
-- methods: each method's lock_guard takes the mutex, the body runs, and the guard lets go of it.
-- Emit calls slots in between, and a slot is user code, which may call the same signal.
mod Exclusion
mod Iteration
mod Bounds
mod Reentry
mod Tests
use ks_core.Base.{
  ℕ, suc, Bool, true, false, Option, none, some, List, [], ◌∷◌, ◌++◌, map, length, get_elem?,
  keep_if, update, ◌≡◌, ◌≢◌,
}
use ks_core.Ids.{first_id}
use ks_core.Signal.{ConnectionType, queued, Signal, ConnectCall, connect, disconnect, new_signal}

-- DefaultSignalMutex, with its std::mutex, and DummySignalMutex.
pub data SignalMutex : Type 0 where
  default_mutex dummy_mutex : SignalMutex

-- lock() comes back: a std::mutex that nobody holds, not even the thread itself; the dummy always.
abbrev pub can_lock : SignalMutex → Option ℕ → Bool
can_lock default_mutex none = true
can_lock default_mutex (some j) = false
can_lock dummy_mutex o = true

-- Who holds the mutex once thread `i` has locked it, and once it has unlocked it.
abbrev pub lock : SignalMutex → ℕ → Option ℕ
lock default_mutex i = some i
lock dummy_mutex i = none

abbrev pub unlock : SignalMutex → Option ℕ
unlock _ = none

pub data Method (A B : Type 0) : Type 0 where
  connects : ConnectCall A B ℕ → Method A B
  disconnects : ℕ → Method A B
  checks : ℕ → Method A B
  counts : Method A B
  emits : A → Method A B

-- A call of a method on a thread's stack: at the guard's lock; in a body, with the mutex; in
-- Emit's loops before the connection of this index; in the slot of the connection before it; and
-- at the guard's unlock.
pub data Frame (A B : Type 0) : Type 0 where
  asks : Method A B → Frame A B
  holds : Method A B → Frame A B
  walks : ℕ → Frame A B
  in_slot : ℕ → Frame A B
  leaves : Frame A B

-- `stack` is a thread's calls, the innermost first.
pub record State (A B : Type 0) : Type 0 where
  pub mutex : SignalMutex
  pub owner : Option ℕ
  pub signal : Signal A B
  pub counter : ℕ
  pub stack : ℕ → List (Frame A B)

module _ {A B : Type 0} where
  -- The connections in the order of Emit's two loops: `none` is an unmanaged one.
  abbrev pub connections : Signal A B → List (Option ConnectionType)
  connections s = map (λ c. none) s.unmanaged ++ map (λ c. some c.type) s.managed

  abbrev pub to : ℕ → List (Frame A B) → State A B → State A B
  to i fs s = record s { stack = update s.stack i fs }

  -- The body of a method but Emit.
  abbrev pub body : Method A B → State A B → State A B
  body (connects c) s =
      let r = connect c s.counter s.signal in record s { signal = r.signal; counter = r.counter }
  body (disconnects id) s = record s { signal = (disconnect id s.signal).0 }
  body (checks id) s = s
  body counts s = s
  body (emits args) s = s

  abbrev pub is_emit : Method A B → Bool
  is_emit (emits args) = true
  is_emit _ = false

  -- One step of thread `i`, which has the calls `fs` below the one that makes the step.
  pub data Step (s : State A B) : State A B → Type 0 where
    -- user code of the thread calls a method
    calls :
        (i : ℕ) (m : Method A B) {t : State A B}
        → s.stack i ≡ []
        → t ≡ to i (asks m ∷ []) s
        → Step s t
    -- a slot that Emit has called calls a method
    slot_calls :
        (i n : ℕ) (m : Method A B) (fs : List (Frame A B)) {t : State A B}
        → s.stack i ≡ in_slot n ∷ fs
        → t ≡ to i (asks m ∷ in_slot n ∷ fs) s
        → Step s t
    locks :
        (i : ℕ) (m : Method A B) (fs : List (Frame A B)) {t : State A B}
        → s.stack i ≡ asks m ∷ fs
        → can_lock s.mutex s.owner ≡ true
        → t ≡ to i (holds m ∷ fs) (record s { owner = lock s.mutex i })
        → Step s t
    runs :
        (i : ℕ) (m : Method A B) (fs : List (Frame A B)) {t : State A B}
        → s.stack i ≡ holds m ∷ fs
        → is_emit m ≡ false
        → t ≡ to i (leaves ∷ fs) (body m s)
        → Step s t
    begins :
        (i : ℕ) (args : A) (fs : List (Frame A B)) {t : State A B}
        → s.stack i ≡ holds (emits args) ∷ fs
        → t ≡ to i (walks 0 ∷ fs) s
        → Step s t
    -- a slot that is called, or that Emit waits for
    enters :
        (i n : ℕ) (fs : List (Frame A B)) (c : Option ConnectionType) {t : State A B}
        → s.stack i ≡ walks n ∷ fs
        → get_elem? (connections s.signal) n ≡ some c
        → c ≢ some queued
        → t ≡ to i (in_slot (suc n) ∷ fs) s
        → Step s t
    -- a dead context, or a queued slot
    passes :
        (i n : ℕ) (fs : List (Frame A B)) (c : ConnectionType) {t : State A B}
        → s.stack i ≡ walks n ∷ fs
        → get_elem? (connections s.signal) n ≡ some (some c)
        → t ≡ to i (walks (suc n) ∷ fs) s
        → Step s t
    returns :
        (i n : ℕ) (fs : List (Frame A B)) {t : State A B}
        → s.stack i ≡ in_slot n ∷ fs
        → t ≡ to i (walks n ∷ fs) s
        → Step s t
    -- the slot throws, or Emit itself in its place
    throws :
        (i n : ℕ) (fs : List (Frame A B)) {t : State A B}
        → s.stack i ≡ in_slot n ∷ fs
        → t ≡ to i (leaves ∷ fs) s
        → Step s t
    -- behind the loops: if an expired connection was met, those that are alive now stay (else all,
    -- which `alive` may say as well)
    expires :
        (i n : ℕ) (fs : List (Frame A B)) (alive : ℕ → Bool) {t : State A B}
        → s.stack i ≡ walks n ∷ fs
        → n ≡ length (connections s.signal)
        → t
          ≡ to i (leaves ∷ fs) (record s {
            signal = record (s.signal) {
              managed = keep_if (λ c. alive c.context) s.signal.managed;
            };
          })
        → Step s t
    unlocks :
        (i : ℕ) (fs : List (Frame A B)) {t : State A B}
        → s.stack i ≡ leaves ∷ fs
        → t ≡ to i fs (record s { owner = unlock s.mutex })
        → Step s t

  abbrev pub start : SignalMutex → State A B
  start mutex = record {
    mutex = mutex;
    owner = none;
    signal = new_signal;
    counter = first_id;
    stack = λ i. [];
  }

  -- What can be reached from a state.
  pub data Run (s : State A B) : State A B → Type 0 where
    here : {t : State A B} → t ≡ s → Run s t
    next : {t u : State A B} → Run s t → Step t u → Run s u
