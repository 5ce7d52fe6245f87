-- ===== src/Ids/Threads.antt =====
-- `genId` step by step, for any number of threads that call it at any time: the guard takes the
-- mutex, the counter is read, it is incremented, and the guard releases the mutex.
use ks_core.Base.{
  ℕ, suc, ◌+◌, ◌%◌, ◌<◌, ◌≡◌, ◌≢◌, refl, List, [], ◌∷◌, Option, none, some, arith, length, update,
  sym, ◌∙◌,
}
use ks_core.Ids.{id_mod, first_id}
use ks_core.Ids.Sequence.{gen_ids, gen_ids_lem, countdown, AreFresh, countdown-AreFresh}

-- Where a thread is in `genId`; `loaded` and `bumped` carry the local `id`.
pub data Pc : Type 0 where
  idle locked : Pc
  loaded bumped : ℕ → Pc

-- `issued` are the ids returned so far, newest first.
pub record State : Type 0 where
  pub counter : ℕ
  pub owner : Option ℕ
  pub pc : ℕ → Pc
  pub issued : List ℕ

abbrev pub start : State
start = record { counter = first_id; owner = none; pc = λ _. idle; issued = [] }

-- One step of thread `i`.
pub data Step (s : State) : State → Type 0 where
  lock :
      (i : ℕ) {t : State}
      → s.pc i ≡ idle
      → s.owner ≡ none
      → t ≡ record s { owner = some i; pc = update s.pc i locked }
      → Step s t
  load :
      (i : ℕ) {t : State}
      → s.pc i ≡ locked
      → t ≡ record s { pc = update s.pc i (loaded s.counter) }
      → Step s t
  bump :
      (i v : ℕ) {t : State}
      → s.pc i ≡ loaded v
      → t ≡ record s { counter = (s.counter + 1) % id_mod; pc = update s.pc i (bumped v) }
      → Step s t
  unlock :
      (i v : ℕ) {t : State}
      → s.pc i ≡ bumped v
      → t ≡ record s { owner = none; pc = update s.pc i idle; issued = v ∷ s.issued }
      → Step s t

pub data Reach : State → Type 0 where
  here : Reach start
  next : {s t : State} → Reach s → Step s t → Reach t

-- What the local `id` of the thread in `genId` is, and how far the counter is ahead.
abbrev Carries : ℕ → ℕ → Pc → Type 0
Carries n counter idle = counter ≡ suc n % id_mod
Carries n counter locked = counter ≡ suc n % id_mod
Carries n counter (loaded v) = (counter ≡ suc n % id_mod) × (v ≡ suc n % id_mod)
Carries n counter (bumped v) = (counter ≡ suc (suc n) % id_mod) × (v ≡ suc n % id_mod)

record Inv (s : State) : Type 0 where
  alone : (i : ℕ) → s.pc i ≢ idle → s.owner ≡ some i
  ready : s.owner ≡ none → s.counter ≡ suc (length s.issued) % id_mod
  inside : (i : ℕ) → s.owner ≡ some i → Carries (length s.issued) s.counter (s.pc i)
  exact : s.issued ≡ countdown (length s.issued)

start-Inv : Inv start
start-Inv = record {
  alone = λ i h. absurd (h refl);
  ready = λ e. refl;
  inside = λ i e. cc;
  exact = refl;
}

-- The thread that is inside `genId` holds the mutex, and what it carries is known.
carries :
    {s : State} (i : ℕ) {p : Pc}
    → Inv s
    → s.pc i ≡ p
    → p ≢ idle
    → Carries (length s.issued) s.counter p
carries {s} i v e h = rw e at (v.inside i (v.alone i (λ q. h (sym e ∙ q))))

own : {s : State} (i : ℕ) {p : Pc} → Inv s → s.pc i ≡ p → p ≢ idle → s.owner ≡ some i
own i v e h = v.alone i (λ q. h (sym e ∙ q))

Step-Inv : {s t : State} → Step s t → Inv s → Inv t
Step-Inv {s} (lock i p o e) v = rw e (record {
  alone = λ j h. ground (arith, v.alone j);
  ready = λ q. cc;
  inside = λ j q. ground (arith, v.ready);
  exact = v.exact;
})
Step-Inv {s} (load i p e) v = rw e (record {
  alone = λ j h. ground (arith, v.alone j, v.alone i);
  ready = λ q. ground (arith, own i v p);
  inside = λ j q. ground (arith, own i v p, carries i v p);
  exact = v.exact;
})
Step-Inv {s} (bump i x p e) v = rw e (record {
  alone = λ j h. ground (arith, v.alone j, v.alone i);
  ready = λ q. ground (arith, own i v p);
  inside = λ j q. ground (arith, own i v p, carries i v p);
  exact = v.exact;
})
Step-Inv {s} (unlock i x p e) v = rw e (record {
  alone = λ j h. ground (arith, v.alone j, v.alone i);
  ready = λ q. ground (arith, carries i v p);
  inside = λ j q. cc;
  exact = ground (arith, carries i v p, v.exact);
})

Reach-Inv : {s : State} → Reach s → Inv s
Reach-Inv here = start-Inv
Reach-Inv (next r st) = Step-Inv st (Reach-Inv r)

-- Any number of threads, in any interleaving: the ids that have been returned, in the order of
-- their return, are those that as many calls of `gen_id` in sequence hand out, and no two threads
-- are inside `genId` at once.
pub interleavings-gen_ids :
    {s : State}
    → Reach s
    → (s.issued ≡ (gen_ids (length s.issued)).0)
      × ((i j : ℕ) → s.pc i ≢ idle → s.pc j ≢ idle → i ≡ j)
interleavings-gen_ids {s} r =
    let v = Reach-Inv r in
    (
      ground (arith, v.exact, gen_ids_lem (length s.issued)),
      λ i j p q. ground (arith, v.alone i p, v.alone j q),
    )

-- Until 2 ^ 64 - 1 ids have been returned, those of all threads differ, and none of them is 0.
pub issued-AreFresh : {s : State} → Reach s → length s.issued < id_mod → AreFresh s.issued
issued-AreFresh {s} r h = rw (Reach-Inv r).exact (countdown-AreFresh (length s.issued) h)
