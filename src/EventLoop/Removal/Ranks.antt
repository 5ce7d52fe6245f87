-- ===== src/EventLoop/Removal/Ranks.antt =====
-- How far RemoveFromThread (ks/KsEventLoop.cpp) is from its end: each step of the loop's thread
-- brings it nearer, and what others post stays behind the stop event.
use ks_core.Base.{
  ℕ, suc, ◌+◌, ◌≤◌, ◌≡◌, ◌⊎◌, inl, inr, refl, ap, Bool, true, false, Option, none, some, List, [],
  ◌∷◌, ◌++◌, arith, length,
}
use ks_core.EventLoop.Launch.{Worker, spawned, begun, in_run, finished, terminated}
use ks_core.EventLoop.Mailbox.{Item, slot_call, halt}
use ks_core.EventLoop.Removal.{Remover, outside, joining, removed}

module _ {B : Type 0} where
  abbrev pub has_halt : List (Item B) → Bool
  has_halt [] = false
  has_halt (slot_call c ∷ xs) = has_halt xs
  has_halt (halt ∷ xs) = true

  -- The handlers before the first stop event.
  abbrev pub until : List (Item B) → ℕ
  until [] = 0
  until (slot_call c ∷ xs) = suc (until xs)
  until (halt ∷ xs) = 0

  has_halt-append :
      (xs ys : List (Item B))
      → has_halt xs ≡ true
      → (has_halt (xs ++ ys) ≡ true) × (until (xs ++ ys) ≡ until xs)
  has_halt-append [] ys e = cc
  has_halt-append (slot_call c ∷ xs) ys e = let (h, u) = has_halt-append xs ys e in (h, ap suc u)
  has_halt-append (halt ∷ xs) ys e = (refl, refl)

  -- The steps that the thread and the caller have still to make.
  abbrev pub rank : Remover → Worker → Option ℕ → List (Item B) → ℕ
  rank joining in_run none xs = 2
  rank joining in_run (some t) xs = until xs + 3
  rank joining finished o xs = 1
  rank _ _ o xs = 0

  -- RemoveFromThread is under way, and nothing has gone wrong.
  abbrev pub fine : Remover → Worker → Option ℕ → List (Item B) → Bool
  fine joining in_run none xs = true
  fine joining in_run (some t) xs = has_halt xs
  fine joining finished o xs = true
  fine removed finished o xs = true
  fine _ _ o xs = false

  pub fine_running :
      (c : Remover) (o : Option ℕ) (xs : List (Item B))
      → fine c in_run o xs ≡ true
      → (c ≡ joining) × ((o ≡ none) ⊎ ((t : ℕ) × (o ≡ some t) × (has_halt xs ≡ true)))
  fine_running joining none xs e = (refl, inl refl)
  fine_running joining (some t) xs e = (refl, inr (t, refl, e))
  fine_running outside o xs e = cc
  fine_running removed o xs e = cc

  -- More items, or no owner any more.
  pub fine-append :
      (c : Remover) (k : Worker) (o : Option ℕ) (xs ys : List (Item B))
      → fine c k o xs ≡ true
      → (fine c k o (xs ++ ys) ≡ true) × (rank c k o (xs ++ ys) ≡ rank c k o xs)
  fine-append c k o xs ys e = ground (arith, has_halt-append xs ys, e)

  pub fine_stopped :
      (c : Remover) (k : Worker) (o : Option ℕ) (xs : List (Item B))
      → fine c k o xs ≡ true
      → (fine c k none xs ≡ true) × (rank c k none xs ≤ rank c k o xs)
  fine_stopped c k o xs e = ground (arith, e)

  pub fine_cases :
      (c : Remover) (k : Worker) (o : Option ℕ) (xs : List (Item B))
      → fine c k o xs ≡ true
      → (c ≡ removed) ⊎ ((c ≡ joining) × (k ≡ finished)) ⊎ (k ≡ in_run)
  fine_cases removed k o xs e = inl refl
  fine_cases joining finished o xs e = inr (inl (refl, refl))
  fine_cases joining in_run o xs e = inr (inr refl)
  fine_cases joining spawned o xs e = cc
  fine_cases joining begun o xs e = cc
  fine_cases joining terminated o xs e = cc
  fine_cases outside k o xs e = ground (arith, e)

  pub has_halt_first :
      (xs : List (Item B))
      → has_halt xs ≡ true
      → (y : Item B) × (ys : List (Item B)) × (xs ≡ y ∷ ys)
  has_halt_first [] e = cc
  has_halt_first (y ∷ ys) e = (y, ys, refl)

  pub until-append :
      (xs : List (Item B))
      → (has_halt (xs ++ halt ∷ []) ≡ true) × (until (xs ++ halt ∷ []) ≤ length xs)
  until-append [] = (refl, omega arith)
  until-append (slot_call c ∷ xs) = let (h, u) = until-append xs in (h, omega (arith, u))
  until-append (halt ∷ xs) = (refl, omega arith)
