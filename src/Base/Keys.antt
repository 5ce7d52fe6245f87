-- ===== src/Base/Keys.antt =====
-- Entries with a numeric key: how often a key occurs, and what std::find_if and erase do to that.
use Prim.Native.Nat.{ℕ, zero, suc, ◌+◌, ◌≤◌}
use mathlib.Core.Path.{◌≡◌, refl, ap}
use mathlib.Core.Bool.{Bool}
use mathlib.Core.List.{List, [], ◌∷◌, ◌++◌}
use mathlib.Core.Option.{none, some}
use native.Mathlib.Omega.{arith}
use ks_core.Base.Tests.{if◌then◌else◌, ◌==◌}
use ks_core.Base.Lists.{length, find_index?, erase_index, keep_if}

module _ {ℓ} {C : Type ℓ} (key : C → ℕ) where
  abbrev pub count_key : ℕ → List C → ℕ
  count_key j [] = 0
  count_key j (x ∷ xs) = (if key x == j then 1 else 0) + count_key j xs

  pub count_key-append :
      (j : ℕ) (xs ys : List C) → count_key j (xs ++ ys) ≡ count_key j xs + count_key j ys
  count_key-append j [] ys = omega arith
  count_key-append j (x ∷ xs) ys = omega (arith, count_key-append j xs ys)

  pub count_key-find_none :
      (cid : ℕ) (xs : List C) → find_index? (λ c. key c == cid) xs ≡ none → count_key cid xs ≡ 0
  count_key-find_none cid [] e = refl
  count_key-find_none cid (x ∷ xs) e = ground (arith, count_key-find_none cid xs)

  pub count_key-find_some :
      (cid : ℕ) (xs : List C) (i : ℕ)
      → find_index? (λ c. key c == cid) xs ≡ some i
      → (1 ≤ count_key cid xs) × (length (erase_index xs i) + 1 ≡ length xs)
  count_key-find_some cid [] i e = cc
  count_key-find_some cid (x ∷ xs) zero e = ground arith
  count_key-find_some cid (x ∷ xs) (suc i) e = ground (arith, count_key-find_some cid xs i)

  -- Erasing the entry that was found takes one occurrence of its key away, and no other.
  pub count_key-erase :
      (cid j : ℕ) (xs : List C) (i : ℕ)
      → find_index? (λ c. key c == cid) xs ≡ some i
      → count_key j (erase_index xs i) + (if cid == j then 1 else 0) ≡ count_key j xs
  count_key-erase cid j [] i e = cc
  count_key-erase cid j (x ∷ xs) zero e = ground arith
  count_key-erase cid j (x ∷ xs) (suc i) e = ground (arith, count_key-erase cid j xs i)

  -- A new last entry is found behind entries with other keys, and erased again.
  pub find_index-append :
      (xs : List C) (x : C)
      → count_key (key x) xs ≡ 0
      → find_index? (λ c. key c == key x) (xs ++ x ∷ []) ≡ some (length xs)
  find_index-append [] x e = ground arith
  find_index-append (y ∷ xs) x e = ground (arith, find_index-append xs x)

  pub find_index_absent :
      (cid : ℕ) (xs : List C) → count_key cid xs ≡ 0 → find_index? (λ c. key c == cid) xs ≡ none
  find_index_absent cid [] e = refl
  find_index_absent cid (y ∷ xs) e = ground (arith, find_index_absent cid xs)

  pub count_key-keep_if-le :
      (p : C → Bool) (j : ℕ) (xs : List C) → count_key j (keep_if p xs) ≤ count_key j xs
  count_key-keep_if-le p j [] = omega arith
  count_key-keep_if-le p j (x ∷ xs) = ground (arith, count_key-keep_if-le p j xs)

pub erase_index_last {ℓ} :
    {C : Type ℓ} (xs : List C) (x : C) → erase_index (xs ++ x ∷ []) (length xs) ≡ xs
erase_index_last [] x = refl
erase_index_last (y ∷ xs) x = ap (◌∷◌ y) (erase_index_last xs x)
