-- ===== src/Log/Console/Whole.antt =====
-- What std::cout has, when threads log to one SinkToStdOut (ks/KsLog.hpp).
use mathlib.Core.List.{append-nil, append_assoc}
use ks_core.Base.{
  ℕ, ◌≡◌, ◌≢◌, refl, sym, ap, ◌∙◌, none, some, List, [], ◌∷◌, ◌++◌, Text, update, arith, ◌⊎◌, inl,
  inr, Option-cases,
}
use ks_core.Log.Console.{
  with_endl, Pc, idle, writing, State, start, Step, lock, put, unlock, Reach, here, next, output,
  IsPart,
}

Pc-cases :
    (p : Pc)
    → (p ≡ idle) ⊎ ((sink : ℕ) × (line : Text) × (more : Text) × (p ≡ writing sink line more))
Pc-cases idle = inl refl
Pc-cases (writing sink line more) = inr (sink, line, more, refl)

writing_line :
    {sink a : ℕ} {line more b c : Text} → writing sink line more ≡ writing a b c → line ≡ b
writing_line p = cc p

writing_more :
    {sink a : ℕ} {line more b c : Text} → writing sink line more ≡ writing a b c → more ≡ c
writing_more p = cc p

update-cases :
    (f : ℕ → Pc) (i j : ℕ) (x y : Pc)
    → update f i x j ≡ y
    → ((i ≡ j) × (x ≡ y)) ⊎ ((i ≢ j) × (f j ≡ y))
update-cases f i j x y p = ground arith

module _ (IsUsed : ℕ → Type 0) (k : ℕ) (only : (sink : ℕ) → IsUsed sink → sink ≡ k) where
  record Inv (s : State) : Type 0 where
    here : (i sink : ℕ) (line more : Text) → s.pc i ≡ writing sink line more → sink ≡ k
    alone : (i sink : ℕ) (line more : Text) → s.pc i ≡ writing sink line more → s.mutex k ≡ some i
    held : (i : ℕ) → s.mutex k ≡ some i → s.pc i ≢ idle
    whole : s.mutex k ≡ none → s.cout ≡ output s.printed
    inside : (i sink : ℕ) (line more : Text) → s.pc i ≡ writing sink line more → IsPart s line more

  start-Inv : Inv start
  start-Inv = record {
    here = λ i sink line more e. cc e;
    alone = λ i sink line more e. cc e;
    held = λ i e. cc e;
    whole = λ e. refl;
    inside = λ i sink line more e. cc e;
  }

  lock-IsPart :
      (s : State) (sink a : ℕ) (line b c : Text)
      → s.cout ≡ output s.printed
      → writing sink line (with_endl line) ≡ writing a b c
      → IsPart s b c
  lock-IsPart s sink a line b c e p = (
    [],
    e ∙ sym (append-nil (output s.printed)),
    sym (writing_more p) ∙ ap with_endl (writing_line p),
  )

  put_part :
      (cout : Text) (printed : List Text) (line : Text) (c : ℕ) (more : Text)
      → ((part : Text) × (cout ≡ output printed ++ part) × (part ++ c ∷ more ≡ with_endl line))
      → (part : Text) × (cout ++ c ∷ [] ≡ output printed ++ part) × (part ++ more ≡ with_endl line)
  put_part cout printed line c more (part, e, f) = (
    part ++ c ∷ [],
    ap (λ t. t ++ c ∷ []) e ∙ append_assoc (output printed) part (c ∷ []),
    append_assoc part (c ∷ []) more ∙ f,
  )

  unlock_whole :
      (cout : Text) (printed : List Text) (line : Text)
      → ((part : Text) × (cout ≡ output printed ++ part) × (part ++ [] ≡ with_endl line))
      → cout ≡ output (line ∷ printed)
  unlock_whole cout printed line (part, e, f) =
      e ∙ ap (λ t. output printed ++ t) (sym (append-nil part) ∙ f)

  Step-Inv : {s t : State} → Step IsUsed s t → Inv s → Inv t
  Step-Inv {s} (lock i sink line used e free q) v = rw q (record {
    here = λ j a b c p. ground (arith, v.here j a b c, only sink used);
    alone = λ j a b c p. ground (arith, v.alone j a b c, only sink used);
    held = λ j p. ground (arith, only sink used);
    whole = λ p. ground (arith, only sink used);
    inside = λ j a b c p. elim (update-cases s.pc i j _ _ p) [
      | inl (_, r) ↦ lock-IsPart s sink a line b c (v.whole (rw (← only sink used) free)) r
      | inr (_, r) ↦ absurd (ground (arith, v.alone j a b c r, only sink used))
    ];
  })
  Step-Inv {s} (put i sink line c more e q) v = rw q (record {
    here = λ j a b d p. ground (arith, v.here j a b d, v.here i sink line (c ∷ more) e);
    alone = λ j a b d p. ground (arith, v.alone j a b d, v.alone i sink line (c ∷ more) e);
    held = λ j p. ground (arith, v.held j p);
    whole = λ p. ground (arith, v.alone i sink line (c ∷ more) e);
    inside = λ j a b d p. elim (update-cases s.pc i j _ _ p) [
      | inl (_, r) ↦
          rw (← writing_line r, ← writing_more r)
            (put_part s.cout s.printed line c more (v.inside i sink line (c ∷ more) e))
      | inr (ne, r) ↦
          absurd (ground (arith, v.alone j a b d r, v.alone i sink line (c ∷ more) e, ne))
    ];
  })
  Step-Inv {s} (unlock i sink line e q) v = rw q (record {
    here = λ j a b c p. ground (arith, v.here j a b c);
    alone = λ j a b c p.
        ground (arith, v.alone j a b c, v.alone i sink line [] e, v.here i sink line [] e);
    held = λ j p. ground (arith, v.here i sink line [] e);
    whole = λ p. unlock_whole s.cout s.printed line (v.inside i sink line [] e);
    inside = λ j a b c p. elim (update-cases s.pc i j _ _ p) [
      | inl (_, r) ↦ cc r
      | inr (ne, r) ↦ absurd (ground (arith, v.alone j a b c r, v.alone i sink line [] e, ne))
    ];
  })

  Reach-Inv : {s : State} → Reach IsUsed s → Inv s
  Reach-Inv here = start-Inv
  Reach-Inv (next r st) = Step-Inv st (Reach-Inv r)

  -- Any number of threads log to one SinkToStdOut, at any time and in any order of their steps.
  -- When none of them is in `log`, the output is the lines of the calls that have returned, whole, in
  -- the order of their return. While one of them is in `log`, no other one writes, and the output is
  -- those lines and what that thread has written of its own line.
  pub output_lines :
      {s : State}
      → Reach IsUsed s
      → (((i : ℕ) → s.pc i ≡ idle) → s.cout ≡ output s.printed)
        × ((i sink : ℕ) (line more : Text)
            → s.pc i ≡ writing sink line more
            → IsPart s line more × ((j : ℕ) → s.pc j ≢ idle → j ≡ i))
  output_lines {s} r =
      let v = Reach-Inv r in
      (
        λ quiet. elim (Option-cases (s.mutex k)) [
          | inl e ↦ v.whole e
          | inr (i, e) ↦ absurd (v.held i e (quiet i))
        ],
        λ i sink line more e. (
          v.inside i sink line more e,
          λ j busy. elim (Pc-cases (s.pc j)) [
            | inl f ↦ absurd (busy f)
            | inr (a, b, c, f) ↦ ground (arith, v.alone i sink line more e, v.alone j a b c f)
          ],
        ),
      )
