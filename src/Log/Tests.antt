-- ===== src/Log/Tests.antt =====
-- A logger with the sinks 1 and 2, on threads 5 and 6.
use ks_core.Base.{ℕ, ◌+◌, ◌*◌, ◌≡◌, refl, true, none, some, List, [], ◌∷◌, codes, Text, arith}
use ks_core.Format.{
  FormatBlock, custom_str, get, run_time, write_counts, hour, minute, second, millisecond,
}
use ks_core.Log.{
  free, held, lock, unlock, info, warn, Level, Logger, Line, add_sink, remove_sink, set_level,
  unset_level, add_format_block, prefix, log_at, custom, new_line, new_logger_with, append,
  append_all, destroy_line, log_statement,
}
use ks_core.Log.Sinks.{
  HasUniqueSinks, Call, adds_sink, removes_sink, step, steps, steps-HasUniqueSinks,
}
use ks_core.Log.Lines.{CanLock, custom_excludes}
use ks_core.Log.Default.{default_logger, read_line, read_line-log_statement}

abbrev logger : Logger
logger = record {
  mutex = free;
  list_sinks = 1 ∷ 2 ∷ [];
  filter = λ i. true;
  list_fb = λ i. custom_str (codes "KS: ") ∷ [];
}

logger-CanLock : CanLock 5 logger
unfolding lock
logger-CanLock = (held 5 0, refl)

prefix_info : prefix 0 (logger.list_fb 2) ≡ some (codes "KS: ")
unfolding prefix get
prefix_info = refl

-- The logger while thread 5 has a line, and the line.
abbrev busy : Logger
busy = record logger { mutex = held 5 0 }

abbrev begun : Line
begun = record { line_valid = true; line = codes "KS: " }

begun_first : custom info 5 0 logger ≡ some (busy, begun)
unfolding custom log_at new_line lock prefix get
begun_first = refl

custom_excludes_example :
    ((sink : ℕ) → (add_sink 6 sink busy ≡ none) × (remove_sink 6 sink busy ≡ none))
    × ((j : Level) → (set_level 6 j busy ≡ none) × (unset_level 6 j busy ≡ none))
    × ((j : Level) (fb : FormatBlock) → add_format_block 6 fb j busy ≡ none)
    × ((j : Level) (msgs : List Text) (t : ℕ) → log_statement j msgs 6 t busy ≡ none)
    × CanLock 5 busy
custom_excludes_example =
    custom_excludes info 5 0 6 logger busy begun (λ p. cc p) (omega arith) begun_first

logger-HasUniqueSinks : HasUniqueSinks logger
logger-HasUniqueSinks y = ground arith

abbrev sink_calls : List Call
sink_calls = adds_sink 6 3 ∷ adds_sink 5 3 ∷ removes_sink 5 1 ∷ []

abbrev sinks_left : Logger
sinks_left = record logger { list_sinks = 2 ∷ 3 ∷ [] }

sink_calls_run : steps sink_calls logger ≡ some sinks_left
unfolding steps step add_sink remove_sink lock unlock
sink_calls_run = refl

steps-HasUniqueSinks_example : HasUniqueSinks sinks_left
steps-HasUniqueSinks_example =
    steps-HasUniqueSinks sink_calls logger sinks_left logger-HasUniqueSinks sink_calls_run

-- LOG that was made at the time 0 with the sink 7, when 12:34:05.067 have gone by.
abbrev some_time : ℕ
some_time = 12 * hour + 34 * minute + 5 * second + 67 * millisecond

default_line :
    log_statement warn (codes "a" ∷ codes "b" ∷ []) 5 some_time (default_logger 7 (λ i. 0))
    ≡ some (default_logger 7 (λ i. 0), (7, codes "12:34:05.067: WARN:  KS: ab") ∷ [])
unfolding log_statement custom log_at new_line prefix get run_time write_counts default_logger
    new_logger_with append_all append destroy_line lock unlock
default_line = refl

read_line-log_statement_example :
    (s : Text) × (log_statement warn
        (codes "a" ∷ codes "b" ∷ [])
        5
        some_time
        (default_logger 7 (λ i. 0))
      ≡ some (default_logger 7 (λ i. 0), (7, s) ∷ []))
    × (read_line s ≡ some (45245067, warn, codes "ab"))
read_line-log_statement_example =
    read_line-log_statement 7 (λ i. 0) warn (codes "a" ∷ codes "b" ∷ []) 5 some_time (omega arith)
      (omega arith)
