-- ===== src/MakeObject/Tests.antt =====
-- Object <- Animal (1) <- Leopard (2), as in the comments of ks/KsObject.hpp.
use ks_core.Base.{◌≡◌, refl, true, false, none, some, [], ◌∷◌}
use ks_core.MakeObject.{
  Class, by_value, by_reference, constructs, inits, init_object, new_object, make_object,
}
use ks_core.MakeObject.Order.{make_object_order}

abbrev animal : Class
animal = record { name = 1; init = by_reference; base_type = true }

abbrev leopard : Class
leopard = record { name = 2; init = by_reference; base_type = true }

-- The Init of the comment's example takes its shared_ptr by value.
abbrev documented : Class
documented = record { name = 2; init = by_value; base_type = true }

abbrev forgetful : Class
forgetful = record { name = 2; init = by_reference; base_type = false }

documented_refused : make_object (documented ∷ animal ∷ []) 5 3 ≡ none
unfolding make_object init_object
documented_refused = refl

make_object_order_example :
    make_object (leopard ∷ animal ∷ []) 5 3
    ≡ some (
      new_object 5 3,
      constructs 0 ∷ constructs 1 ∷ constructs 2 ∷ inits 0 ∷ inits 1 ∷ inits 2 ∷ [],
    )
make_object_order_example = make_object_order (leopard ∷ animal ∷ []) 5 3 refl
