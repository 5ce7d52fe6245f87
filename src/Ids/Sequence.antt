-- ===== src/Ids/Sequence.antt =====
-- What a sequence of calls of `genId` hands out.
use ks_core.Base.{ℕ, zero, suc, ◌%◌, ◌<◌, ◌≡◌, ◌≢◌, refl, List, [], ◌∷◌, arith, All}
use ks_core.Ids.{id_mod, first_id, gen_id}

-- `n` calls, one after the other: the ids, newest first, and the counter after them.
unfoldable pub gen_ids : ℕ → List ℕ × ℕ
unfolding gen_id
gen_ids zero = ([], first_id)
gen_ids (suc n) =
    let (ids, counter) = gen_ids n in let (id, counter') = gen_id counter in (id ∷ ids, counter')

-- n, ..., 2, 1 as 64-bit numbers.
abbrev pub countdown : ℕ → List ℕ
countdown zero = []
countdown (suc n) = (suc n % id_mod) ∷ countdown n

pub gen_ids_lem : (n : ℕ) → gen_ids n ≡ (countdown n, suc n % id_mod)
unfolding gen_ids
gen_ids_lem zero = refl
gen_ids_lem (suc n) = ground (arith, gen_ids_lem n)

-- All entries differ, and none is 0.
abbrev pub AreFresh : List ℕ → Type 0
AreFresh [] = Unit {0}
AreFresh (i ∷ is) = (i ≢ 0) × All (λ j. i ≢ j) is × AreFresh is

countdown-ne : (n i : ℕ) → n < i → i < id_mod → All (λ j. i ≢ j) (countdown n)
countdown-ne zero i h k = tt
countdown-ne (suc n) i h k = (omega arith, countdown-ne n i (omega arith) k)

pub countdown-AreFresh : (n : ℕ) → n < id_mod → AreFresh (countdown n)
countdown-AreFresh zero h = tt
countdown-AreFresh (suc n) h = (
  omega arith,
  countdown-ne n (suc n % id_mod) (omega arith) (omega arith),
  countdown-AreFresh n (omega arith),
)
