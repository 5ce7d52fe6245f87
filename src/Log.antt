-- ===== src/Log.antt =====
-- Log::Logger (ks/KsLog.hpp, KsLog.cpp), as thread `self` calls it. A thread that takes the mutex
-- while another one holds it waits: that call has the result `none`, as has one in which a format
-- block reads behind the end of an array.
pub mod Sinks
pub mod Lines
pub mod Levels
pub mod Default
pub mod Console
mod Tests
use ks_core.Base.{
  ℕ, zero, suc, Bool, true, false, Option, none, some, List, [], ◌∷◌, ◌++◌, ◌==◌, if◌then◌else◌,
  update, any, find_index?, erase_index, map, Text, ◌>>=◌,
}
use ks_core.Format.{FormatBlock, get}

-- Logger::Mutex: a std::recursive_mutex in MutexSTL, which its owner may have locked more times than
-- once, or MutexDummy.
pub data Mutex : Type 0 where
  free : Mutex
  held : ℕ → ℕ → Mutex
  dummy : Mutex

unfoldable pub lock : ℕ → Mutex → Option Mutex
lock self free = some (held self 0)
lock self (held owner more) = if owner == self then some (held owner (suc more)) else none
lock self dummy = some dummy

unfoldable pub unlock : Mutex → Mutex
unlock free = free
unlock (held owner zero) = free
unlock (held owner (suc more)) = held owner more
unlock dummy = dummy

-- Logger::Level
pub data Level : Type 0 where
  trace debug info warn error fatal : Level

abbrev pub level_int : Level → ℕ
level_int trace = 0
level_int debug = 1
level_int info = 2
level_int warn = 3
level_int error = 4
level_int fatal = 5

-- Sinks are known by their addresses; `filter` and `list_fb` are taken at a level's number.
pub record Logger : Type 0 where
  pub mutex : Mutex
  pub list_sinks : List ℕ
  pub filter : ℕ → Bool
  pub list_fb : ℕ → List FormatBlock

-- Logger::Line. Its pointers lead to the logger that made it.
pub record Line : Type 0 where
  pub line_valid : Bool
  pub line : Text

unfoldable pub new_logger : Logger
new_logger = record { mutex = free; list_sinks = []; filter = λ i. true; list_fb = λ i. [] }

-- Logger(thread_safe, sink, list_fbs)
unfoldable pub new_logger_with : Bool → ℕ → (ℕ → List FormatBlock) → Logger
new_logger_with thread_safe sink list_fbs = record {
  mutex = if thread_safe then free else dummy;
  list_sinks = sink ∷ [];
  filter = λ i. true;
  list_fb = list_fbs;
}

abbrev pub lock_logger : ℕ → Logger → Option Logger
lock_logger self lg = do m ← lock self lg.mutex; some (record lg { mutex = m })

abbrev pub unlock_logger : Logger → Logger
unlock_logger lg = record lg { mutex = unlock lg.mutex }

unfoldable pub add_sink : ℕ → ℕ → Logger → Option (Logger × Bool)
add_sink self new_sink lg = do
  lg' ← lock_logger self lg
  if any (λ sink. sink == new_sink) lg'.list_sinks
      then some (unlock_logger lg', false)
      else some (unlock_logger (record lg' { list_sinks = lg'.list_sinks ++ new_sink ∷ [] }), true)

-- The end of RemoveSink, with the place where the loop found the sink, if it did.
abbrev pub erase_sink : Option ℕ → Logger → Logger × Bool
erase_sink none lg = (unlock_logger lg, false)
erase_sink (some it) lg =
    (unlock_logger (record lg { list_sinks = erase_index lg.list_sinks it }), true)

unfoldable pub remove_sink : ℕ → ℕ → Logger → Option (Logger × Bool)
remove_sink self sink lg = do
  lg' ← lock_logger self lg
  some (erase_sink (find_index? (λ it. it == sink) lg'.list_sinks) lg')

unfoldable pub set_level : ℕ → Level → Logger → Option Logger
set_level self level lg = do
  lg' ← lock_logger self lg
  some (unlock_logger (record lg' { filter = update lg'.filter (level_int level) true }))

unfoldable pub unset_level : ℕ → Level → Logger → Option Logger
unset_level self level lg = do
  lg' ← lock_logger self lg
  some (unlock_logger (record lg' { filter = update lg'.filter (level_int level) false }))

unfoldable pub add_format_block : ℕ → FormatBlock → Level → Logger → Option Logger
add_format_block self fb level lg = do
  lg' ← lock_logger self lg
  let i = level_int level
  some (unlock_logger (record lg' { list_fb = update lg'.list_fb i (lg'.list_fb i ++ fb ∷ []) }))

-- What the format blocks give at the time `now`, one after the other.
unfoldable pub prefix : ℕ → List FormatBlock → Option Text
prefix now [] = some []
prefix now (fb ∷ fbs) = do s ← get now fb; t ← prefix now fbs; some (s ++ t)

-- Line::Line
unfoldable pub new_line : ℕ → List FormatBlock → Bool → Option Line
unfolding prefix
new_line now list_fb line_valid =
    if line_valid
    then (prefix now list_fb >>= λ s. some (record { line_valid = true; line = s }))
    else some (record { line_valid = false; line = [] })

-- What the seven methods do that log at a level. The mutex stays locked as long as the line is
-- there.
unfoldable pub log_at : ℕ → ℕ → ℕ → Logger → Option (Logger × Line)
unfolding new_line
log_at i self now lg = do
  lg' ← lock_logger self lg
  line ← new_line now (lg'.list_fb i) (lg'.filter i)
  some (lg', line)

unfoldable pub custom : Level → ℕ → ℕ → Logger → Option (Logger × Line)
unfolding log_at
custom level self now lg = log_at (level_int level) self now lg

-- Line::operator<<, of a text or of what ToString makes of another value.
unfoldable pub append : Line → Text → Line
append l msg = if l.line_valid then record l { line = l.line ++ msg } else l

unfoldable pub append_all : Line → List Text → Line
unfolding append
append_all l [] = l
append_all l (msg ∷ msgs) = append_all (append l msg) msgs

-- Line::~Line: the calls of Sink::log that it makes, each with its sink, and then the logger.
unfoldable pub destroy_line : Line → Logger → Logger × List (ℕ × Text)
destroy_line l lg =
    (unlock_logger lg, if l.line_valid then map (λ sink. (sink, l.line)) lg.list_sinks else [])

-- The methods that are named for a level: Trace, Debug, Info, Warn, Error and Fatal.

unfoldable pub trace_line : ℕ → ℕ → Logger → Option (Logger × Line)
unfolding log_at
trace_line self now lg = log_at (level_int trace) self now lg

unfoldable pub debug_line : ℕ → ℕ → Logger → Option (Logger × Line)
unfolding log_at
debug_line self now lg = log_at (level_int debug) self now lg

unfoldable pub info_line : ℕ → ℕ → Logger → Option (Logger × Line)
unfolding log_at
info_line self now lg = log_at (level_int info) self now lg

unfoldable pub warn_line : ℕ → ℕ → Logger → Option (Logger × Line)
unfolding log_at
warn_line self now lg = log_at (level_int warn) self now lg

unfoldable pub error_line : ℕ → ℕ → Logger → Option (Logger × Line)
unfolding log_at
error_line self now lg = log_at (level_int error) self now lg

unfoldable pub fatal_line : ℕ → ℕ → Logger → Option (Logger × Line)
unfolding log_at
fatal_line self now lg = log_at (level_int fatal) self now lg

-- A whole statement `log.Custom(level) << msg << msg ...;`: its line dies at the end.
unfoldable pub log_statement :
    Level → List Text → ℕ → ℕ → Logger → Option (Logger × List (ℕ × Text))
unfolding custom append_all destroy_line
log_statement level msgs self now lg = do
  started ← custom level self now lg
  some (destroy_line (append_all started.1 msgs) started.0)
