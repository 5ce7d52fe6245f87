-- ===== src/Signal.antt =====
-- ks/KsSignal.hpp: a signal's two vectors of connections, and the operations on them but `Emit`,
-- which is in `Signal.Emit`. Every method holds the connection mutex from its first line to its
-- last, so a method is one step. `A` are the arguments that the signal carries; `B` is user code
-- with its arguments bound. An object is the number that its `weak_ptr`s point to.
pub mod Occurrences
pub mod Connections
pub mod Emit
pub mod Invariant
pub mod Expiry
pub mod Delivery
pub mod Waiting
pub mod Blocking
pub mod Mutex
pub mod Plan
pub mod Registry
pub mod Tests
use ks_core.Base.{
  ℕ, ◌+◌, ◌%◌, ◌^◌, Bool, true, false, Option, none, some, List, [], ◌∷◌, ◌++◌, length, ◌==◌, ◌≡◌,
  refl, ◌⊎◌, inl, inr, find_index?, erase_index,
}
use ks_core.Ids.{gen_id}

pub data ConnectionType : Type 0 where
  direct queued blocking : ConnectionType

pub ConnectionType-cases : (t : ConnectionType) → (t ≡ direct) ⊎ (t ≡ queued) ⊎ (t ≡ blocking)
ConnectionType-cases direct = inl refl
ConnectionType-cases queued = inr (inl refl)
ConnectionType-cases blocking = inr (inr refl)

-- A `std::function<void(Args&...)>`: the weak pointer that the wrapper lambda checks, if it has
-- one, and the slot, which turns arguments into a call.
pub record Function (A B : Type 0) : Type 0 where
  pub guard : Option ℕ
  pub slot : A → B

pub record ManagedConnection (A B : Type 0) : Type 0 where
  pub id : ℕ
  pub type : ConnectionType
  pub context : ℕ
  pub fn : Function A B

pub record UnmanagedConnection (A B : Type 0) : Type 0 where
  pub id : ℕ
  pub fn : Function A B

pub record Signal (A B : Type 0) : Type 0 where
  pub managed : List (ManagedConnection A B)
  pub unmanaged : List (UnmanagedConnection A B)

-- The result of a method that takes an id from `g_cid_counter`.
pub record Connected (A B : Type 0) : Type 0 where
  pub signal : Signal A B
  pub counter : ℕ
  pub id : ℕ

module _ {A B : Type 0} where
  unfoldable pub new_signal : Signal A B
  new_signal = record { managed = []; unmanaged = [] }

  -- Connect(fn, context, type). A null context makes an unmanaged connection.
  unfoldable pub connect_function :
      (A → B) → Option ℕ → ConnectionType → ℕ → Signal A B → Connected A B
  unfolding gen_id
  connect_function fn none type counter s =
      let (id, counter') = gen_id counter in
      record {
        signal = record s {
          unmanaged =
              s.unmanaged ++ record { id = id; fn = record { guard = none; slot = fn } } ∷ [];
        };
        counter = counter';
        id = id;
      }
  connect_function fn (some ctx) type counter s =
      let (id, counter') = gen_id counter in
      record {
        signal = record s {
          managed =
              s.managed
              ++ record {
                id = id;
                type = type;
                context = ctx;
                fn = record { guard = some ctx; slot = fn };
              }
                ∷ [];
        };
        counter = counter';
        id = id;
      }

  -- Connect(object, memfn, context, type): `memfn` is called on the raw pointer `object`.
  unfoldable pub connect_member :
      {T : Type 0} → T → (T → A → B) → Option ℕ → ConnectionType → ℕ → Signal A B → Connected A B
  unfolding gen_id
  connect_member object memfn none type counter s =
      let (id, counter') = gen_id counter in
      record {
        signal = record s {
          unmanaged =
              s.unmanaged
              ++ record { id = id; fn = record { guard = none; slot = memfn object } } ∷ [];
        };
        counter = counter';
        id = id;
      }
  connect_member object memfn (some ctx) type counter s =
      let (id, counter') = gen_id counter in
      record {
        signal = record s {
          managed =
              s.managed
              ++ record {
                id = id;
                type = type;
                context = ctx;
                fn = record { guard = some ctx; slot = memfn object };
              }
                ∷ [];
        };
        counter = counter';
        id = id;
      }

  -- Connect(receiver, slot, type): the receiver is its own context.
  unfoldable pub connect_receiver :
      ℕ → (ℕ → A → B) → ConnectionType → ℕ → Signal A B → Connected A B
  unfolding gen_id
  connect_receiver receiver slot type counter s =
      let (id, counter') = gen_id counter in
      record {
        signal = record s {
          managed =
              s.managed
              ++ record {
                id = id;
                type = type;
                context = receiver;
                fn = record { guard = some receiver; slot = slot receiver };
              }
                ∷ [];
        };
        counter = counter';
        id = id;
      }

  -- `none` is the end iterator.
  unfoldable pub find_managed_connection : ℕ → Signal A B → Option ℕ
  find_managed_connection cid s = find_index? (λ c. c.id == cid) s.managed

  unfoldable pub find_unmanaged_connection : ℕ → Signal A B → Option ℕ
  find_unmanaged_connection cid s = find_index? (λ c. c.id == cid) s.unmanaged

  unfoldable pub disconnect : ℕ → Signal A B → Signal A B × Bool
  disconnect cid s = elim (find_managed_connection cid s) [
    | some i ↦ (record s { managed = erase_index s.managed i }, true)
    | none ↦ elim (find_unmanaged_connection cid s) [
      | some i ↦ (record s { unmanaged = erase_index s.unmanaged i }, true)
      | none ↦ (s, false)
    ]
  ]

  unfoldable pub connection_valid : ℕ → Signal A B → Bool
  connection_valid cid s = elim (find_managed_connection cid s) [
    | none ↦ elim (find_unmanaged_connection cid s) [ none ↦ false | some i ↦ true ]
    | some i ↦ true
  ]

  -- The result is a 32-bit `uint`.
  unfoldable pub get_connection_count : Signal A B → ℕ
  get_connection_count s = (length s.managed + length s.unmanaged) % 2 ^ 32

-- A call of one of the three overloads of `Connect`.
pub data ConnectCall (A B T : Type 0) : Type 0 where
  function : (A → B) → Option ℕ → ConnectionType → ConnectCall A B T
  member : T → (T → A → B) → Option ℕ → ConnectionType → ConnectCall A B T
  receiver : ℕ → (ℕ → A → B) → ConnectionType → ConnectCall A B T

module _ {A B T : Type 0} where
  abbrev pub connect : ConnectCall A B T → ℕ → Signal A B → Connected A B
  connect (function fn ctx type) counter s = connect_function fn ctx type counter s
  connect (member object memfn ctx type) counter s = connect_member object memfn ctx type counter s
  connect (receiver r slot type) counter s = connect_receiver r slot type counter s
