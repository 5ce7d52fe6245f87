-- ===== src/Exception/Message.antt =====
-- What the `what` of an exception tells, and what of it is in the log.
use mathlib.Core.List.{append-nil}
use ks_core.Base.{
  ℕ, ◌≡◌, refl, Option, none, some, [], ◌∷◌, ◌++◌, get_elem?, Text, codes, map, if◌then◌else◌, ◌==◌,
}
use ks_core.Log.{Level, trace, debug, info, warn, error, fatal, level_int, Logger, prefix}
use ks_core.Log.Lines.{CanLock, log_statement_lem}
use ks_core.Exception.{Exception, lkup_err_lvl, new_exception, what}

-- A reader of `what`: the level by its first letter, and the text behind the seventh.
abbrev level_by_letter : ℕ → Level
level_by_letter c =
    if c == b'T'
    then trace
    else if c == b'D'
    then debug
    else if c == b'I'
    then info
    else if c == b'W'
    then warn
    else if c == b'E'
    then error
    else fatal

abbrev pub read_what : Text → Option (Level × Text)
read_what (a ∷ b ∷ c ∷ d ∷ e ∷ f ∷ g ∷ msg) = some (level_by_letter a, msg)
read_what _ = none

-- The name of a level as an exception shows it.
abbrev name_of : Level → Text
name_of trace = codes "TRACE: "
name_of debug = codes "DEBUG: "
name_of info = codes "INFO:  "
name_of warn = codes "WARN:  "
name_of error = codes "ERROR: "
name_of fatal = codes "FATAL: "

lookup_name : (l : Level) → get_elem? lkup_err_lvl (level_int l) ≡ some (name_of l)
lookup_name trace = refl
lookup_name debug = refl
lookup_name info = refl
lookup_name warn = refl
lookup_name error = refl
lookup_name fatal = refl

read_what-name : (l : Level) (msg : Text) → read_what (name_of l ++ msg) ≡ some (l, msg)
read_what-name trace msg = refl
read_what-name debug msg = refl
read_what-name info msg = refl
read_what-name warn msg = refl
read_what-name error msg = refl
read_what-name fatal msg = refl

-- An exception that is made on a thread that gets the logger's mutex, where the format blocks of its
-- level give a prefix: it is made, `what` tells its level and its message, and each sink gets one
-- line, of that prefix and the message, if the level's filter is set, and none otherwise. The
-- logger is left as it was.
pub read_what-new_exception :
    (err_lvl : Level) (msg : Text) (self now : ℕ) (lg : Logger) (s : Text)
    → CanLock self lg
    → prefix now (lg.list_fb (level_int err_lvl)) ≡ some s
    → (e : Exception) × (new_exception err_lvl msg self now lg
        ≡ some (
          e,
          lg,
          if lg.filter (level_int err_lvl)
              then map (λ sink. (sink, s ++ msg)) lg.list_sinks
              else [],
        ))
      × (read_what (what e) ≡ some (err_lvl, msg))
unfolding new_exception what
read_what-new_exception err_lvl msg self now lg s can p = (
  record { msg = name_of err_lvl ++ msg },
  rw (log_statement_lem err_lvl (msg ∷ []) self now lg s can p, lookup_name err_lvl, append-nil msg)
      refl,
  read_what-name err_lvl msg,
)
