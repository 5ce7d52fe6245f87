-- ===== src/Signal/Mutex/Exclusion.antt =====
-- What the default mutex of a signal (ks/KsSignal.hpp) keeps apart, and whom it keeps out.
use ks_core.Base.{
  ℕ, suc, Bool, true, false, not, ◌&&◌, ==_iff, Option, none, some, List, [], ◌∷◌, update, ◌==◌,
  ==_refl, ◌≡◌, inl, inr, refl, sym, ap, ◌∙◌, arith, if◌then◌else◌, Bool-cases,
}
use ks_core.Signal.Mutex.{
  default_mutex, can_lock, Method, Frame, asks, holds, connects, disconnects, checks, counts, emits,
  walks, in_slot, leaves, State, body, Step, calls, slot_calls, locks, runs, begins, enters, passes,
  returns, throws, expires, unlocks, Run, here, next, start,
}

abbrev pub owns : Option ℕ → ℕ → Bool
owns none i = false
owns (some j) i = j == i

pub owns-some : (o : Option ℕ) (i : ℕ) → owns o i ≡ true → o ≡ some i
owns-some none i e = absurd (cc e)
owns-some (some j) i e = ap (λ n. some n) ((==_iff j i).0 e)

pub locked_none : (o : Option ℕ) → can_lock default_mutex o ≡ true → o ≡ none
locked_none none e = refl
locked_none (some j) e = absurd (cc e)

module _ {A B : Type 0} where
  abbrev pub has_mutex : Frame A B → Bool
  has_mutex (asks m) = false
  has_mutex _ = true

  abbrev pub is_slot : Frame A B → Bool
  is_slot (in_slot n) = true
  is_slot _ = false

  -- The stacks that a thread can have, by whether it owns the mutex: a call with the mutex is the
  -- only one, but for one that the slot of an Emit has made, which still asks for it.
  abbrev pub fits : Bool → List (Frame A B) → Bool
  fits own [] = not own
  fits own (f ∷ []) = if has_mutex f then own else not own
  fits own (f ∷ g ∷ []) = not (has_mutex f) && is_slot g && own
  fits own (f ∷ g ∷ h ∷ fs) = false

  pub record Inv (s : State A B) : Type 0 where
    pub default : s.mutex ≡ default_mutex
    pub each : (i : ℕ) → fits (owns s.owner i) (s.stack i) ≡ true

  asks_free : (m : Method A B) (fs : List (Frame A B)) → fits false (asks m ∷ fs) ≡ true → fs ≡ []
  asks_free m [] e = refl
  asks_free m (g ∷ []) e = ground (arith, e)
  asks_free m (g ∷ h ∷ fs) e = ground (arith, e)

  with_mutex :
      (own : Bool) (f : Frame A B) (fs : List (Frame A B))
      → has_mutex f ≡ true
      → fits own (f ∷ fs) ≡ true
      → (own ≡ true) × (fs ≡ [])
  with_mutex own f [] h e = (rw h at e, refl)
  with_mutex own f (g ∷ []) h e = absurd (cc (rw h at e))
  with_mutex own f (g ∷ k ∷ fs) h e = absurd (cc e)

  -- Thread `i` has another stack and perhaps another hold of the mutex; nothing else changes.
  moved :
      (i : ℕ) (fs : List (Frame A B)) (o : Option ℕ) (s t : State A B)
      → Inv s
      → t.mutex ≡ s.mutex
      → t.owner ≡ o
      → t.stack ≡ update s.stack i fs
      → ((j : ℕ) → (i == j) ≡ false → owns o j ≡ owns s.owner j)
      → fits (owns o i) fs ≡ true
      → Inv t
  moved i fs o s t v m e k same good = record {
    default = m ∙ v.default;
    each = λ j. rw (e, k) (at j);
  }
    where
      at : (j : ℕ) → fits (owns o j) (update s.stack i fs j) ≡ true
      at j = elim (Bool-cases (i == j)) [
        | inl eq ↦ rw (eq, ← ((==_iff i j).0 eq)) good
        | inr ne ↦ rw (ne, same j ne) (v.each j)
      ]

  -- The thread that has a call with the mutex: it owns it, and has no other call.
  pub mine :
      (i : ℕ) (f : Frame A B) (fs : List (Frame A B)) (s : State A B)
      → Inv s
      → s.stack i ≡ f ∷ fs
      → has_mutex f ≡ true
      → (s.owner ≡ some i) × (fs ≡ [])
  mine i f fs s v e h =
      let (own, none') = with_mutex _ f fs h (rw e at (v.each i)) in
      (owns-some s.owner i own, none')

  -- The thread stays with one call that has the mutex.
  stays :
      (i : ℕ) (f g : Frame A B) (fs : List (Frame A B)) (s t : State A B)
      → Inv s
      → s.stack i ≡ f ∷ fs
      → has_mutex f ≡ true
      → has_mutex g ≡ true
      → t.mutex ≡ s.mutex
      → t.owner ≡ s.owner
      → t.stack ≡ update s.stack i (g ∷ fs)
      → Inv t
  stays i f g fs s t v e h h' m o k =
      let (own, alone) = mine i f fs s v e h in
      moved i (g ∷ fs) s.owner s t v m o k (λ j ne. refl) (rw (alone, own, h') (==_refl i))

  pub body_keeps :
      (m : Method A B) (s : State A B)
      → ((body m s).mutex ≡ s.mutex) × ((body m s).owner ≡ s.owner) × ((body m s).stack ≡ s.stack)
  body_keeps (connects c) s = (refl, refl, refl)
  body_keeps (disconnects id) s = (refl, refl, refl)
  body_keeps (checks id) s = (refl, refl, refl)
  body_keeps counts s = (refl, refl, refl)
  body_keeps (emits args) s = (refl, refl, refl)

  pub Step-Inv : {s t : State A B} → Step s t → Inv s → Inv t
  Step-Inv {s} {t} (calls i m e k) v =
      moved i (asks m ∷ []) s.owner s t v (ap (λ x. x.mutex) k) (ap (λ x. x.owner) k)
        (ap (λ x. x.stack) k) (λ j ne. refl) (rw e at (v.each i))
  Step-Inv {s} {t} (slot_calls i n m fs e k) v =
      let (own, alone) = mine i (in_slot n) fs s v e refl in
      moved i (asks m ∷ in_slot n ∷ fs) s.owner s t v (ap (λ x. x.mutex) k) (ap (λ x. x.owner) k)
        (ap (λ x. x.stack) k) (λ j ne. refl) (rw (alone, own) (==_refl i))
  Step-Inv {s} {t} (locks i m fs e free k) v =
      let nobody = locked_none s.owner (rw v.default at free) in
      let alone = asks_free m fs (rw (nobody, e) at (v.each i)) in
      moved i (holds m ∷ fs) (some i) s t v (ap (λ x. x.mutex) k)
        (rw v.default at (ap (λ x. x.owner) k)) (ap (λ x. x.stack) k) (λ j ne. rw nobody ne)
        (rw alone (==_refl i))
  Step-Inv {s} {t} (runs i m fs e plain k) v =
      stays i (holds m) leaves fs s t v e refl refl (ap (λ x. x.mutex) k ∙ (body_keeps m s).0)
        (ap (λ x. x.owner) k ∙ (body_keeps m s).1)
        (ap (λ x. x.stack) k ∙ ap (λ st. update st i (leaves ∷ fs)) (body_keeps m s).2)
  Step-Inv {s} {t} (begins i args fs e k) v =
      stays i (holds (emits args)) (walks 0) fs s t v e refl refl (ap (λ x. x.mutex) k)
        (ap (λ x. x.owner) k) (ap (λ x. x.stack) k)
  Step-Inv {s} {t} (enters i n fs c e at ne k) v =
      stays i (walks n) (in_slot (suc n)) fs s t v e refl refl (ap (λ x. x.mutex) k)
        (ap (λ x. x.owner) k) (ap (λ x. x.stack) k)
  Step-Inv {s} {t} (passes i n fs c e at k) v =
      stays i (walks n) (walks (suc n)) fs s t v e refl refl (ap (λ x. x.mutex) k)
        (ap (λ x. x.owner) k) (ap (λ x. x.stack) k)
  Step-Inv {s} {t} (returns i n fs e k) v =
      stays i (in_slot n) (walks n) fs s t v e refl refl (ap (λ x. x.mutex) k) (ap (λ x. x.owner) k)
        (ap (λ x. x.stack) k)
  Step-Inv {s} {t} (throws i n fs e k) v =
      stays i (in_slot n) leaves fs s t v e refl refl (ap (λ x. x.mutex) k) (ap (λ x. x.owner) k)
        (ap (λ x. x.stack) k)
  Step-Inv {s} {t} (expires i n fs alive e end k) v =
      stays i (walks n) leaves fs s t v e refl refl (ap (λ x. x.mutex) k) (ap (λ x. x.owner) k)
        (ap (λ x. x.stack) k)
  Step-Inv {s} {t} (unlocks i fs e k) v =
      let (own, alone) = mine i leaves fs s v e refl in
      moved i fs none s t v (ap (λ x. x.mutex) k) (ap (λ x. x.owner) k) (ap (λ x. x.stack) k)
        (λ j ne. rw own (sym ne)) (rw alone refl)

  start-Inv : Inv (start default_mutex)
  start-Inv = record { default = refl; each = λ i. refl }

  pub Run-Inv : {s t : State A B} → Inv s → Run s t → Inv t
  Run-Inv v (here e) = rw e v
  Run-Inv v (next r st) = Step-Inv st (Run-Inv v r)

  pub reached-Inv : {s : State A B} → Run (start default_mutex) s → Inv s
  reached-Inv r = Run-Inv start-Inv r
