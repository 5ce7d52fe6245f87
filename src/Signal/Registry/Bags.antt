-- ===== src/Signal/Registry/Bags.antt =====
-- Bags of ids: lists up to their order, as a quotient.
use mathlib.Core.Quot
use mathlib.Core.Quot.{Quot, Quot-set}
use ks_core.Base.{
  ℕ, ◌+◌, ◌-◌, ◌≤◌, ◌≡◌, refl, ap, Bool, ltb, List, [], ◌∷◌, length, arith, if◌then◌else◌, ◌==◌,
  ==_refl, count_key,
}

abbrev pub count : ℕ → List ℕ → ℕ
count j xs = count_key (λ x. x) j xs

-- The list without the first entry of this id.
abbrev pub erase_first : ℕ → List ℕ → List ℕ
erase_first j [] = []
erase_first j (x ∷ xs) = let rest = erase_first j xs in if x == j then xs else x ∷ rest

abbrev pub SameItems : List ℕ → List ℕ → Type 0
SameItems xs ys = (j : ℕ) → count j xs ≡ count j ys

pub count-erase_first :
    (a j : ℕ) (xs : List ℕ) → count j (erase_first a xs) ≡ count j xs - (if a == j then 1 else 0)
count-erase_first a j [] = omega arith
count-erase_first a j (x ∷ xs) = ground (arith, count-erase_first a j xs)

length-erase_first :
    (a : ℕ) (xs : List ℕ) → 1 ≤ count a xs → length (erase_first a xs) + 1 ≡ length xs
length-erase_first a [] h = absurd (omega arith)
length-erase_first a (x ∷ xs) h = ground (arith, length-erase_first a xs)

pub length-SameItems : (xs ys : List ℕ) → SameItems xs ys → length xs ≡ length ys
length-SameItems [] [] h = refl
length-SameItems [] (y ∷ ys) h = absurd (ground (arith, h y, ==_refl y))
length-SameItems (x ∷ xs) ys h = ground (
  arith,
  h x,
  ==_refl x,
  length-erase_first x ys,
  length-SameItems xs (erase_first x ys) (λ j. ground (arith, h j, count-erase_first x j ys)),
)

abbrev pub Bag : Type 0
Bag = Quot SameItems

unfoldable pub put : ℕ → Bag → Bag
put j =
    Quot.lift Quot-set (λ xs. Quot.mk (j ∷ xs)) (λ xs ys h. Quot.sound (λ k. omega (arith, h k)))

pub SameItems-erase_first :
    (a : ℕ) (xs ys : List ℕ) → SameItems xs ys → SameItems (erase_first a xs) (erase_first a ys)
SameItems-erase_first a xs ys h j =
    ground (arith, h j, count-erase_first a j xs, count-erase_first a j ys)

unfoldable pub remove : ℕ → Bag → Bag
remove j =
    Quot.lift Quot-set (λ xs. Quot.mk (erase_first j xs))
      (λ xs ys h. Quot.sound (SameItems-erase_first j xs ys h))

unfoldable pub has : ℕ → Bag → Bool
has j = Quot.lift (hlevel) (λ xs. ltb 0 (count j xs)) (λ xs ys h. ap (ltb 0) (h j))

unfoldable pub size : Bag → ℕ
size = Quot.lift (hlevel) length length-SameItems
