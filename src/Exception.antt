-- ===== src/Exception.antt =====
-- ks::Exception (ks/KsException.hpp, KsException.cpp), whose constructor also logs.
pub mod Message
mod Tests
use ks_core.Base.{◌>>=◌, none, ℕ, Option, some, List, [], ◌∷◌, ◌++◌, get_elem?, Text, codes}
use ks_core.Log.{Level, level_int, Logger, log_statement}

-- m_lkup_err_lvl
abbrev pub lkup_err_lvl : List Text
lkup_err_lvl =
    codes "TRACE: "
    ∷ codes "DEBUG: "
    ∷ codes "INFO:  "
    ∷ codes "WARN:  "
    ∷ codes "ERROR: "
    ∷ codes "FATAL: "
    ∷ []

pub record Exception : Type 0 where
  pub msg : Text

-- Exception(err_lvl, msg), on thread `self` at the time `now`, with the global logger: the
-- exception, the logger, and the calls of its sinks.
unfoldable pub new_exception :
    Level → Text → ℕ → ℕ → Logger → Option (Exception × Logger × List (ℕ × Text))
new_exception err_lvl msg self now lg = do
  logged ← log_statement err_lvl (msg ∷ []) self now lg
  lvl ← get_elem? lkup_err_lvl (level_int err_lvl)
  some (record { msg = lvl ++ msg }, logged.0, logged.1)

unfoldable pub what : Exception → Text
what e = e.msg
