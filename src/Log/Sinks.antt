-- ===== src/Log/Sinks.antt =====
-- The sinks and the filter of a logger, under any calls.
use ks_core.Base.{
  ℕ, ◌≤◌, ◌≡◌, ◌≢◌, refl, sym, ap, ◌∙◌, true, false, Option, none, some, List, [], ◌∷◌, ◌++◌, ◌==◌,
  Text, ◌>>=◌, arith, inl, inr, Option-cases, any, count_key, count_key-append, count_key-erase,
  find_index-append, find_index?, erase_index, erase_index_last,
}
use ks_core.Format.{FormatBlock}
use ks_core.Log.{
  Level, Logger, add_sink, remove_sink, set_level, unset_level, add_format_block, custom,
  log_statement,
}
use ks_core.Log.Lines.{CanLock, unlock-lock}

-- How often a sink stands in the list.
abbrev pub times : ℕ → List ℕ → ℕ
times = count_key (λ sink. sink)

abbrev pub HasUniqueSinks : Logger → Type 0
HasUniqueSinks lg = (sink : ℕ) → times sink lg.list_sinks ≤ 1

any-times : (x : ℕ) (xs : List ℕ) → any (λ sink. sink == x) xs ≡ false → times x xs ≡ 0
any-times x [] e = refl
any-times x (y ∷ xs) e = ground (arith, any-times x xs)

times-any : (x : ℕ) (xs : List ℕ) → times x xs ≡ 0 → any (λ sink. sink == x) xs ≡ false
times-any x [] e = refl
times-any x (y ∷ xs) e = ground (arith, times-any x xs)

times-any_present : (x : ℕ) (xs : List ℕ) → 1 ≤ times x xs → any (λ sink. sink == x) xs ≡ true
times-any_present x [] e = absurd (omega arith)
times-any_present x (y ∷ xs) e = ground (arith, times-any_present x xs)

-- A call by the first thread, up to the end of its statement for one that logs.
pub data Call : Type 0 where
  adds_sink removes_sink : ℕ → ℕ → Call
  sets_level unsets_level : ℕ → Level → Call
  adds_format_block : ℕ → FormatBlock → Level → Call
  logs : ℕ → Level → List Text → ℕ → Call

unfoldable pub step : Call → Logger → Option Logger
unfolding add_sink remove_sink set_level unset_level add_format_block log_statement
step (adds_sink self sink) lg = do r ← add_sink self sink lg; some r.0
step (removes_sink self sink) lg = do r ← remove_sink self sink lg; some r.0
step (sets_level self level) lg = set_level self level lg
step (unsets_level self level) lg = unset_level self level lg
step (adds_format_block self fb level) lg = add_format_block self fb level lg
step (logs self level msgs now) lg = do r ← log_statement level msgs self now lg; some r.0

unfoldable pub steps : List Call → Logger → Option Logger
unfolding step
steps [] lg = some lg
steps (c ∷ cs) lg = do lg' ← step c lg; steps cs lg'

appended : (xs : List ℕ) (x y : ℕ) → times y xs ≤ 1 → times x xs ≡ 0 → times y (xs ++ x ∷ []) ≤ 1
appended xs x y h e = ground (arith, count_key-append (λ sink. sink) y xs (x ∷ []))

erased :
    (xs : List ℕ) (x y i : ℕ)
    → find_index? (λ it. it == x) xs ≡ some i
    → times y xs ≤ 1
    → times y (erase_index xs i) ≤ 1
erased xs x y i e h = omega (arith, count_key-erase (λ sink. sink) x y xs i e)

step-HasUniqueSinks :
    (c : Call) (lg lg' : Logger) → HasUniqueSinks lg → step c lg ≡ some lg' → HasUniqueSinks lg'
unfolding step add_sink remove_sink set_level unset_level add_format_block log_statement custom
step-HasUniqueSinks (adds_sink self sink) lg lg' h e y =
    ground (arith, h y, any-times sink lg.list_sinks, appended lg.list_sinks sink y)
step-HasUniqueSinks (removes_sink self sink) lg lg' h e y =
    elim (Option-cases (find_index? (λ it. it == sink) lg.list_sinks)) [
      | inl n ↦ ground (arith, h y)
      | inr (i, f) ↦ ground (arith, h y, erased lg.list_sinks sink y i f (h y))
    ]
step-HasUniqueSinks (sets_level self level) lg lg' h e y = ground (arith, h y)
step-HasUniqueSinks (unsets_level self level) lg lg' h e y = ground (arith, h y)
step-HasUniqueSinks (adds_format_block self fb level) lg lg' h e y = ground (arith, h y)
step-HasUniqueSinks (logs self level msgs now) lg lg' h e y = ground (arith, h y)

none-some : (lg : Logger) → none ≢ some lg
none-some lg p = cc p

-- No call adds a sink to a logger that it has, whichever threads call, so each sink gets a line at
-- most once: a logger without a sink that it has twice never comes to have one.
pub steps-HasUniqueSinks :
    (cs : List Call) (lg lg' : Logger)
    → HasUniqueSinks lg
    → steps cs lg ≡ some lg'
    → HasUniqueSinks lg'
unfolding steps
steps-HasUniqueSinks [] lg lg' h e = λ y. ground (arith, h y)
steps-HasUniqueSinks (c ∷ cs) lg lg' h e = elim (Option-cases (step c lg)) [
  | inl n ↦ absurd (none-some lg' (sym (ap (λ o. o >>= steps cs) n) ∙ e))
  | inr (v, t) ↦
      steps-HasUniqueSinks cs v lg' (step-HasUniqueSinks c lg v h t)
        (sym (ap (λ o. o >>= steps cs) t) ∙ e)
]

-- AddSink of a sink that the logger does not have, on a thread that gets the mutex, answers true and
-- puts it behind the others; a second AddSink of it answers false and changes nothing; RemoveSink
-- answers true and gives the logger back as it was.
pub remove_sink-add_sink :
    (self sink : ℕ) (lg : Logger)
    → CanLock self lg
    → times sink lg.list_sinks ≡ 0
    → (lg' : Logger) × (add_sink self sink lg ≡ some (lg', true))
      × (lg'.list_sinks ≡ lg.list_sinks ++ sink ∷ [])
      × (add_sink self sink lg' ≡ some (lg', false))
      × (remove_sink self sink lg' ≡ some (lg, true))
unfolding add_sink remove_sink
remove_sink-add_sink self sink lg (m, e) absent = (
  record lg { list_sinks = lg.list_sinks ++ sink ∷ [] },
  rw (e, times-any sink lg.list_sinks absent) (rw (unlock-lock self lg.mutex m e) refl),
  refl,
  rw (e, times-any_present sink (lg.list_sinks ++ sink ∷ []) there)
      (rw (unlock-lock self lg.mutex m e) refl),
  rw e (
      rw (find_index-append (λ s. s) lg.list_sinks sink absent)
        (rw (erase_index_last lg.list_sinks sink, unlock-lock self lg.mutex m e) refl)),
)
  where
    there : 1 ≤ times sink (lg.list_sinks ++ sink ∷ [])
    there = ground (arith, count_key-append (λ s. s) sink lg.list_sinks (sink ∷ []))
