-- ===== src/MakeObject/Order.antt =====
-- In which order constructors and Init run, and for which classes MakeObject compiles.
use mathlib.Core.List.{map-append}
use ks_core.Base.{
  ℕ, ◌≡◌, refl, sym, ap, ◌∙◌, Bool, true, false, Option, none, some, List, [], ◌∷◌, ◌++◌,
  if◌then◌else◌, ◌>>=◌, Bool-cases, inl, inr, map,
}
use ks_core.World.{Object}
use ks_core.MakeObject.{
  Class, Step, constructs, inits, has_init_signature, init_object, init_base, construct, new_object,
  make_object,
}

-- A class's names from Object on.
abbrev pub from_root : List Class → List ℕ
from_root [] = 0 ∷ []
from_root (c ∷ bases) = from_root bases ++ c.name ∷ []

abbrev pub all_declare : List Class → Bool
all_declare [] = true
all_declare (c ∷ bases) = if c.base_type then all_declare bases else false

abbrev pub all_signed : List Class → Bool
all_signed [] = true
all_signed (c ∷ bases) = if has_init_signature c.init then all_signed bases else false

construct-from_root : (cs : List Class) → construct cs ≡ map constructs (from_root cs)
unfolding construct
construct-from_root [] = refl
construct-from_root (c ∷ bases) =
    ap (λ xs. xs ++ constructs c.name ∷ []) (construct-from_root bases)
    ∙ sym (map-append constructs (from_root bases) (c.name ∷ []))

init_object_all :
    (cs : List Class)
    → all_declare cs ≡ true
    → init_object cs ≡ (if all_signed cs then some (map inits (from_root cs)) else none)
unfolding init_object
init_object_all [] d = refl
init_object_all (c ∷ bases) d = elim (Bool-cases c.base_type) [
  | inr e ↦ cc
  | inl e ↦ elim (Bool-cases (has_init_signature c.init)) [
    | inr f ↦ rw (f, init_object) refl
    | inl f ↦
        rw (f, e, init_object) (rw (init_object_all bases (later e d)) (ends (all_signed bases)))
  ]
]
  where
    later :
        c.base_type ≡ true
        → (if c.base_type then all_declare bases else false) ≡ true
        → all_declare bases ≡ true
    later e d = sym (ap (λ b. if b then all_declare bases else false) e) ∙ d

    ends :
        (b : Bool)
        → ((if b then some (map inits (from_root bases)) else none) >>= λ xs.
            some (xs ++ inits c.name ∷ []))
          ≡ (if b then some (map inits (from_root bases ++ c.name ∷ [])) else none)
    ends true = ap some (sym (map-append inits (from_root bases) (c.name ∷ [])))
    ends false = refl

-- MakeObject of a class of which it and its bases all declare base_type compiles exactly if each of
-- them declares Init with its shared_ptr by reference to const. It then runs all constructors and
-- after them all Inits, once each, both from Object on to the class, and the object has the id
-- that is next and the given event loop.
pub make_object_order :
    (cs : List Class) (event_loop counter : ℕ)
    → all_declare cs ≡ true
    → make_object cs event_loop counter ≡ (
        if all_signed cs
        then some (
          new_object event_loop counter,
          map constructs (from_root cs) ++ map inits (from_root cs),
        )
        else none)
unfolding make_object
make_object_order cs event_loop counter d =
    rw (init_object_all cs d, construct-from_root cs) (ends (all_signed cs))
  where
    Made : Type 0
    Made = (Object × ℕ) × List Step

    made : List Step → Option Made
    made xs = some (new_object event_loop counter, map constructs (from_root cs) ++ xs)

    ends :
        (b : Bool)
        → ((if b then some (map inits (from_root cs)) else none) >>= made)
          ≡ (if b then made (map inits (from_root cs)) else none)
    ends true = refl
    ends false = refl

init_forgotten :
    (c b : Class) (bases : List Class)
    → c.base_type ≡ false
    → b.base_type ≡ true
    → has_init_signature c.init ≡ true
    → all_declare bases ≡ true
    → all_signed bases ≡ true
    → init_object (c ∷ b ∷ bases) ≡ some (map inits (from_root bases ++ c.name ∷ []))
unfolding init_object
init_forgotten c b bases e f g d h =
    rw (g, e, init_object)
      (rw (f, init_base)
        (rw (init_object_all bases d, h)
          (ap some (sym (map-append inits (from_root bases) (c.name ∷ []))))))

-- A class whose base forgets nothing but that does not declare base_type itself: if MakeObject of
-- it compiles, the Init of its immediate base is not run, and nor is it checked.
pub forgotten_base_type :
    (c b : Class) (bases : List Class) (event_loop counter : ℕ)
    → c.base_type ≡ false
    → b.base_type ≡ true
    → has_init_signature c.init ≡ true
    → all_declare bases ≡ true
    → all_signed bases ≡ true
    → make_object (c ∷ b ∷ bases) event_loop counter
      ≡ some (
        new_object event_loop counter,
        map constructs (from_root (c ∷ b ∷ bases)) ++ map inits (from_root bases ++ c.name ∷ []),
      )
unfolding make_object
forgotten_base_type c b bases event_loop counter e f g d h =
    rw (init_forgotten c b bases e f g d h, construct-from_root (c ∷ b ∷ bases)) refl
