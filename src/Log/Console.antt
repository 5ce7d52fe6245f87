-- ===== src/Log/Console.antt =====
-- SinkToStdOut::log (ks/KsLog.hpp) step by step, for any number of threads and sinks: the sink's
-- mutex is locked, the characters of the line and of std::endl go to std::cout, which all sinks
-- share, and the mutex is unlocked.
pub mod Whole
mod Tests
use ks_core.Base.{ℕ, ◌≡◌, Option, none, some, List, [], ◌∷◌, ◌++◌, Text, update}

-- What std::cout gets of a line.
abbrev pub with_endl : Text → Text
with_endl line = line ++ b'\n' ∷ []

-- Where a thread is in `log`: the sink, the line, and what is still to be written.
pub data Pc : Type 0 where
  idle : Pc
  writing : ℕ → Text → Text → Pc

-- `mutex` has the owner of each sink's m_mutex. `printed` are the lines of the calls that have
-- returned, newest first.
pub record State : Type 0 where
  pub mutex : ℕ → Option ℕ
  pub cout : Text
  pub pc : ℕ → Pc
  pub printed : List Text

abbrev pub start : State
start = record { mutex = λ _. none; cout = []; pc = λ _. idle; printed = [] }

module _ (IsUsed : ℕ → Type 0) where
  -- One step of thread `i`, which logs only to sinks that are used.
  pub data Step (s : State) : State → Type 0 where
    lock :
        (i sink : ℕ) (line : Text) {t : State}
        → IsUsed sink
        → s.pc i ≡ idle
        → s.mutex sink ≡ none
        → t ≡ record s {
          mutex = update s.mutex sink (some i);
          pc = update s.pc i (writing sink line (with_endl line));
        }
        → Step s t
    put :
        (i sink : ℕ) (line : Text) (c : ℕ) (more : Text) {t : State}
        → s.pc i ≡ writing sink line (c ∷ more)
        → t ≡ record s { cout = s.cout ++ c ∷ []; pc = update s.pc i (writing sink line more) }
        → Step s t
    unlock :
        (i sink : ℕ) (line : Text) {t : State}
        → s.pc i ≡ writing sink line []
        → t ≡ record s {
          mutex = update s.mutex sink none;
          pc = update s.pc i idle;
          printed = line ∷ s.printed;
        }
        → Step s t

  pub data Reach : State → Type 0 where
    here : Reach start
    next : {s t : State} → Reach s → Step s t → Reach t

-- The output of these lines, one after the other, newest first.
abbrev pub output : List Text → Text
output [] = []
output (line ∷ older) = output older ++ with_endl line

-- The lines of the calls that have returned, and the beginning of one line.
abbrev pub IsPart : State → Text → Text → Type 0
IsPart s line more =
    (part : Text) × (s.cout ≡ output s.printed ++ part) × (part ++ more ≡ with_endl line)
