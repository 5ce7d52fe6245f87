-- ===== src/Log/Levels.antt =====
-- SetLevel and UnsetLevel (ks/KsLog.cpp), seen by what is logged afterwards.
use ks_core.Base.{
  ℕ, ◌≡◌, ◌≢◌, refl, sym, ap, ◌∙◌, fun_ext, true, false, Option, none, some, List, [], ◌==◌, update,
  update_self, update_ne, map, Text, ◌>>=◌, arith, if◌then◌else◌,
}
use ks_core.Log.{
  Mutex, lock, Level, trace, debug, info, warn, error, fatal, level_int, Logger, Line, set_level,
  unset_level, new_line, log_at, custom, append_all, destroy_line, log_statement,
}
use ks_core.Log.Lines.{CanLock, unlock-lock, log_off}

abbrev level_of : ℕ → Level
level_of n =
    if n == 0
    then trace
    else if n == 1
    then debug
    else if n == 2
    then info
    else if n == 3
    then warn
    else if n == 4
    then error
    else fatal

level_of_int : (j : Level) → level_of (level_int j) ≡ j
level_of_int trace = refl
level_of_int debug = refl
level_of_int info = refl
level_of_int warn = refl
level_of_int error = refl
level_of_int fatal = refl

-- Different levels have different bits.
level_int-ne : (j k : Level) → j ≢ k → level_int j ≢ level_int k
level_int-ne j k ne e = ne (sym (level_of_int j) ∙ ap level_of e ∙ level_of_int k)

abbrev calls : List ℕ → Line → List (ℕ × Text)
calls sinks l = if l.line_valid then map (λ sink. (sink, l.line)) sinks else []

abbrev outcome : Logger → List Text → Line → Option (Logger × List (ℕ × Text))
outcome lg msgs l = some (lg, calls lg.list_sinks (append_all l msgs))

log_statement_form :
    (j : Level) (msgs : List Text) (self now : ℕ) (lg : Logger) (m : Mutex)
    → lock self lg.mutex ≡ some m
    → log_statement j msgs self now lg
      ≡ (new_line now (lg.list_fb (level_int j)) (lg.filter (level_int j)) >>= outcome lg msgs)
unfolding log_statement custom log_at destroy_line
log_statement_form j msgs self now lg m e =
    rw e (ends (new_line now (lg.list_fb (level_int j)) (lg.filter (level_int j))))
  where
    paired : Line → Option (Logger × Line)
    paired l = some (record lg { mutex = m }, l)

    ended : Logger × Line → Option (Logger × List (ℕ × Text))
    ended (g, l) = some (destroy_line (append_all l msgs) g)

    ends : (o : Option Line) → ((o >>= paired) >>= ended) ≡ (o >>= outcome lg msgs)
    ends none = refl
    ends (some l) = rw (unlock-lock self lg.mutex m e) refl

same_outcome :
    (o : Option Line) (msgs : List Text) (lg lg' : Logger) (out : List (ℕ × Text))
    → lg.list_sinks ≡ lg'.list_sinks
    → (o >>= outcome lg msgs) ≡ some (lg, out)
    → (o >>= outcome lg' msgs) ≡ some (lg', out)
same_outcome none msgs lg lg' out same e = cc
same_outcome (some l) msgs lg lg' out same e = cc

-- A level that is set is unset, on a thread that gets the mutex: nothing is logged at it any more,
-- a statement at another level that would have come through still calls the same sinks with the
-- same texts, and SetLevel gives the logger back as it was.
pub unset_level_lem :
    (level j : Level) (self now : ℕ) (msgs : List Text) (lg : Logger) (out : List (ℕ × Text))
    → CanLock self lg
    → lg.filter (level_int level) ≡ true
    → level ≢ j
    → log_statement j msgs self now lg ≡ some (lg, out)
    → (lg' : Logger) × (unset_level self level lg ≡ some lg')
      × (log_statement level msgs self now lg' ≡ some (lg', []))
      × (log_statement j msgs self now lg' ≡ some (lg', out))
      × (set_level self level lg' ≡ some lg)
unfolding unset_level set_level
unset_level_lem level j self now msgs lg out (m, e) on ne before = (
  lg',
  rw (e, unlock-lock self lg.mutex m e) refl,
  log_off level msgs self now lg' m e (update_self lg.filter i false),
  log_statement_form j msgs self now lg' m e
      ∙ ap (λ b. new_line now (lg.list_fb (level_int j)) b >>= outcome lg' msgs)
          (update_ne lg.filter i (level_int j) false (level_int-ne level j ne))
      ∙ same_outcome (new_line now (lg.list_fb (level_int j)) (lg.filter (level_int j))) msgs lg lg'
          out refl (sym (log_statement_form j msgs self now lg m e) ∙ before),
  rw (e, unlock-lock self lg.mutex m e)
      (ap (λ f. some (record lg { filter = f })) (fun_ext restored)),
)
  where
    i : ℕ
    i = level_int level

    lg' : Logger
    lg' = record lg { filter = update lg.filter (level_int level) false }

    restored :
        (k : ℕ)
        → update (update lg.filter (level_int level) false) (level_int level) true k ≡ lg.filter k
    restored k = ground (arith, on)
