-- ===== src/MakeObject.antt =====
-- MakeObject (ks/KsObject.hpp) and the constructor of Object (ks/KsObject.cpp): how an object of a
-- class that is derived from Object comes to be.
pub mod Order
mod Tests
use ks_core.Base.{ℕ, Bool, true, false, Option, none, some, List, [], ◌∷◌, ◌++◌, ◌>>=◌}
use ks_core.Ids.{gen_id}
use ks_core.World.{Object}

-- The member function Init of a class: none of its own, one that takes the shared_ptr by value, or
-- one that takes it by reference to const.
pub data InitMember : Type 0 where
  inherited by_value by_reference : InitMember

-- What a class says of itself; `base_type` is whether it declares the typedef, as its immediate
-- base, and does not inherit it.
pub record Class : Type 0 where
  pub name : ℕ
  pub init : InitMember
  pub base_type : Bool

-- User code that an object's creation runs: a class's constructor, and its Init. 0 is Object.
pub data Step : Type 0 where
  constructs inits : ℕ → Step

-- has_init_signature
abbrev pub has_init_signature : InitMember → Bool
has_init_signature inherited = false
has_init_signature by_value = false
has_init_signature by_reference = true

-- A class is its own declaration and those of its bases, the most derived first, down to Object,
-- which is `[]`. init_base is init_object of the typedef that the class at the head has or
-- inherits; Object names itself there. `none` is a static_assert that fails.
unfoldable mutual
  pub init_object : List Class → Option (List Step)
  init_object [] = some (inits 0 ∷ [])
  init_object (c ∷ bases) = elim (has_init_signature c.init) [
    | false ↦ none
    | true ↦ elim c.base_type [
      | true ↦ (init_object bases >>= λ xs. some (xs ++ inits c.name ∷ []))
      | false ↦ (init_base bases >>= λ xs. some (xs ++ inits c.name ∷ []))
    ]
  ]

  pub init_base : List Class → Option (List Step)
  init_base [] = some (inits 0 ∷ [])
  init_base (c ∷ bases) = elim c.base_type [ true ↦ init_object bases | false ↦ init_base bases ]

-- Constructors run from Object on.
unfoldable pub construct : List Class → List Step
construct [] = constructs 0 ∷ []
construct (c ∷ bases) = construct bases ++ constructs c.name ∷ []

-- Object::Object: the object, and the counter of ids behind it.
unfoldable pub new_object : ℕ → ℕ → Object × ℕ
unfolding gen_id
new_object event_loop counter =
    let (id, counter') = gen_id counter in
    (record { id = id; event_loop = event_loop; alive = true }, counter')

unfoldable pub make_object : List Class → ℕ → ℕ → Option ((Object × ℕ) × List Step)
unfolding init_object construct new_object
make_object cs event_loop counter =
    init_object cs >>= λ xs. some (new_object event_loop counter, construct cs ++ xs)
