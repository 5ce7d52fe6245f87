-- ===== src/Log/Lines.antt =====
-- What a statement that logs a line does: for whom the mutex is locked meanwhile, and which sinks
-- get which text.
use ks_core.Base.{
  ℕ, ◌≡◌, ◌≢◌, refl, sym, ap, ◌∙◌, true, false, none, some, List, [], ◌∷◌, ◌++◌, map, Text, arith,
  inl, inr, Bool-cases, Option-cases, if◌then◌else◌,
}
use mathlib.Core.List.{append-nil, append_assoc}
use ks_core.Format.{FormatBlock}
use ks_core.Log.{
  Mutex, free, held, dummy, lock, unlock, Level, level_int, Logger, Line, add_sink, remove_sink,
  set_level, unset_level, add_format_block, prefix, new_line, log_at, custom, append, append_all,
  destroy_line, log_statement,
}

pub unlock-lock : (self : ℕ) (m m' : Mutex) → lock self m ≡ some m' → unlock m' ≡ m
unfolding lock unlock
unlock-lock self free m' e = ground arith
unlock-lock self (held owner more) m' e = ground arith
unlock-lock self dummy m' e = ground arith

lock_other :
    (self other : ℕ) (m m' : Mutex)
    → self ≢ other
    → m ≢ dummy
    → lock self m ≡ some m'
    → lock other m' ≡ none
unfolding lock
lock_other self other free m' ne real e = ground arith
lock_other self other (held owner more) m' ne real e = ground arith
lock_other self other dummy m' ne real e = absurd (real refl)

abbrev pub concat : List Text → Text
concat [] = []
concat (x ∷ xs) = x ++ concat xs

abbrev valid_line : Text → Line
valid_line s = record { line_valid = true; line = s }

abbrev invalid_line : Line
invalid_line = record { line_valid = false; line = [] }

append_all_valid :
    (s : Text) (msgs : List Text) → append_all (valid_line s) msgs ≡ valid_line (s ++ concat msgs)
unfolding append_all append
append_all_valid s [] = ap valid_line (sym (append-nil s))
append_all_valid s (msg ∷ msgs) =
    append_all_valid (s ++ msg) msgs ∙ ap valid_line (append_assoc s msg (concat msgs))

append_all_invalid : (msgs : List Text) → append_all invalid_line msgs ≡ invalid_line
unfolding append_all append
append_all_invalid [] = refl
append_all_invalid (msg ∷ msgs) = append_all_invalid msgs

-- The thread `self` has not to wait for the logger's mutex.
abbrev pub CanLock : ℕ → Logger → Type 0
CanLock self lg = (m : Mutex) × (lock self lg.mutex ≡ some m)

log_on :
    (level : Level) (msgs : List Text) (self now : ℕ) (lg : Logger) (s : Text) (m : Mutex)
    → lock self lg.mutex ≡ some m
    → lg.filter (level_int level) ≡ true
    → prefix now (lg.list_fb (level_int level)) ≡ some s
    → log_statement level msgs self now lg
      ≡ some (lg, map (λ sink. (sink, s ++ concat msgs)) lg.list_sinks)
unfolding log_statement custom log_at new_line destroy_line
log_on level msgs self now lg s m e on p =
    rw (e, on, p) (rw (append_all_valid s msgs, unlock-lock self lg.mutex m e) refl)

pub log_off :
    (level : Level) (msgs : List Text) (self now : ℕ) (lg : Logger) (m : Mutex)
    → lock self lg.mutex ≡ some m
    → lg.filter (level_int level) ≡ false
    → log_statement level msgs self now lg ≡ some (lg, [])
unfolding log_statement custom log_at new_line destroy_line
log_off level msgs self now lg m e off =
    rw (e, off) (rw (append_all_invalid msgs, unlock-lock self lg.mutex m e) refl)

-- A statement that logs at a level, on a thread that gets the mutex, where the format blocks of the
-- level give a prefix: if the level's filter is set, each sink is called once, in the order of the
-- list, with the prefix and the messages; if not, no sink is called. The logger is left as it was,
-- its mutex included.
pub log_statement_lem :
    (level : Level) (msgs : List Text) (self now : ℕ) (lg : Logger) (s : Text)
    → CanLock self lg
    → prefix now (lg.list_fb (level_int level)) ≡ some s
    → log_statement level msgs self now lg
      ≡ some (
        lg,
        if lg.filter (level_int level)
            then map (λ sink. (sink, s ++ concat msgs)) lg.list_sinks
            else [],
      )
log_statement_lem level msgs self now lg s (m, e) p =
    elim (Bool-cases (lg.filter (level_int level))) [
      | inl on ↦ rw on (log_on level msgs self now lg s m e on p)
      | inr off ↦ rw off (log_off level msgs self now lg m e off)
    ]

custom_locks :
    (level : Level) (self now : ℕ) (lg lg' : Logger) (l : Line)
    → custom level self now lg ≡ some (lg', l)
    → lock self lg.mutex ≡ some lg'.mutex
unfolding custom log_at
custom_locks level self now lg lg' l e = ground arith

lock_never_fails_twice : (self : ℕ) (m m' : Mutex) → lock self m ≡ some m' → lock self m' ≡ none → ⊥
unfolding lock
lock_never_fails_twice self free m' e f = ground arith
lock_never_fails_twice self (held owner more) m' e f = ground arith
lock_never_fails_twice self dummy m' e f = ground arith

lock_again :
    (self : ℕ) (m m' : Mutex) → lock self m ≡ some m' → (n : Mutex) × (lock self m' ≡ some n)
lock_again self m m' e = elim (Option-cases (lock self m')) [
  | inl f ↦ absurd (lock_never_fails_twice self m m' e f)
  | inr some_n ↦ some_n
]

-- While the line of a statement is alive, a logger that was made thread safe lets no other thread
-- add or remove a sink, set or unset a level, add a format block, or log; the thread that logs
-- may itself still do so.
pub custom_excludes :
    (level : Level) (self now other : ℕ) (lg lg' : Logger) (l : Line)
    → lg.mutex ≢ dummy
    → self ≢ other
    → custom level self now lg ≡ some (lg', l)
    → ((sink : ℕ) → (add_sink other sink lg' ≡ none) × (remove_sink other sink lg' ≡ none))
      × ((j : Level) → (set_level other j lg' ≡ none) × (unset_level other j lg' ≡ none))
      × ((j : Level) (fb : FormatBlock) → add_format_block other fb j lg' ≡ none)
      × ((j : Level) (msgs : List Text) (t : ℕ) → log_statement j msgs other t lg' ≡ none)
      × CanLock self lg'
unfolding add_sink remove_sink set_level unset_level add_format_block log_statement custom log_at
custom_excludes level self now other lg lg' l real ne e =
    let mine = custom_locks level self now lg lg' l e in
    let out = lock_other self other lg.mutex lg'.mutex ne real mine in
    (
      λ sink. (rw out refl, rw out refl),
      λ j. (rw out refl, rw out refl),
      λ j fb. rw out refl,
      λ j msgs t. rw out refl,
      lock_again self lg.mutex lg'.mutex mine,
    )
