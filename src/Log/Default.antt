-- ===== src/Log/Default.antt =====
-- The logger `ks::LOG` that the library itself logs with (the end of ks/KsLog.cpp, without
-- KS_ENV_ANDROID), and what its lines say.
use mathlib.Core.List.{append-nil}
use ks_core.Base.{
  ℕ, ◌-◌, ◌*◌, ◌/◌, ◌≤◌, ◌<◌, ◌≡◌, refl, sym, ap, ◌∙◌, true, Option, some, none, List, [], ◌∷◌,
  ◌++◌, Text, codes, get_elem?, ◌>>=◌, ◌==◌, if◌then◌else◌, arith,
}
use ks_core.Format.{
  FormatBlock, run_time_ms, custom_str, forward, elapsed, hour, millisecond, run_time, get,
}
use ks_core.Format.Clock.{read, run_time_in, read-run_time}
use ks_core.Log.{
  Level, trace, debug, info, warn, error, fatal, level_int, Logger, held, lock, prefix,
  new_logger_with, log_statement,
}
use ks_core.Log.Lines.{concat, log_statement_lem}

-- The string of the level's FBCustomStr.
abbrev pub label : Level → Text
label trace = codes ": TRACE: KS: "
label debug = codes ": DEBUG: KS: "
label info = codes ": INFO:  KS: "
label warn = codes ": WARN:  KS: "
label error = codes ": ERROR: KS: "
label fatal = codes ": FATAL: KS: "

-- The two blocks of a level, where the FBRunTimeMs was made at `start`.
abbrev pub default_blocks : ℕ → Level → List FormatBlock
default_blocks start level = run_time_ms start ∷ custom_str (label level) ∷ []

-- The initializer of LOG: `start i` is when it makes the i-th FBRunTimeMs.
abbrev pub list_fbs : (ℕ → ℕ) → List (List FormatBlock)
list_fbs start =
    default_blocks (start 0) trace
    ∷ default_blocks (start 1) debug
    ∷ default_blocks (start 2) info
    ∷ default_blocks (start 3) warn
    ∷ default_blocks (start 4) error
    ∷ default_blocks (start 5) fatal
    ∷ []

-- As the logger keeps it, taken at a level's number.
abbrev blocks_of : Option (List FormatBlock) → List FormatBlock
blocks_of none = []
blocks_of (some blocks) = blocks

abbrev pub default_list_fbs : (ℕ → ℕ) → ℕ → List FormatBlock
default_list_fbs start i = blocks_of (get_elem? (list_fbs start) i)

-- LOG, with the SinkToStdOut at `std_out`.
unfoldable pub default_logger : ℕ → (ℕ → ℕ) → Logger
unfolding new_logger_with
default_logger std_out start = new_logger_with true std_out (default_list_fbs start)

-- A reader of a line: the time in front, the level by its first letter, and the message.
abbrev level_of_letter : ℕ → Option Level
level_of_letter c =
    if c == b'T'
    then some trace
    else if c == b'D'
    then some debug
    else if c == b'I'
    then some info
    else if c == b'W'
    then some warn
    else if c == b'E'
    then some error
    else if c == b'F'
    then some fatal
    else none

abbrev message_of : Text → Option (Level × Text)
message_of (p ∷ q ∷ l ∷ a1 ∷ a2 ∷ a3 ∷ a4 ∷ a5 ∷ a6 ∷ a7 ∷ a8 ∷ a9 ∷ a10 ∷ msg) = do
  level ← level_of_letter l
  some (level, msg)
message_of _ = none

abbrev said_at : Option (Level × Text) → Option ℕ → Option (ℕ × Level × Text)
said_at said time = do ms ← time; r ← said; some (ms, r.0, r.1)

abbrev pub read_line : Text → Option (ℕ × Level × Text)
read_line (h1 ∷ h2 ∷ c ∷ m1 ∷ m2 ∷ d ∷ s1 ∷ s2 ∷ p ∷ f1 ∷ f2 ∷ f3 ∷ more) =
    said_at (message_of more) (read (h1 ∷ h2 ∷ c ∷ m1 ∷ m2 ∷ d ∷ s1 ∷ s2 ∷ p ∷ f1 ∷ f2 ∷ f3 ∷ []))
read_line _ = none

message_of-label :
    (level : Level) (msg : Text) → message_of (label level ++ msg) ≡ some (level, msg)
message_of-label trace msg = refl
message_of-label debug msg = refl
message_of-label info msg = refl
message_of-label warn msg = refl
message_of-label error msg = refl
message_of-label fatal msg = refl

default_list_fbs_at :
    (start : ℕ → ℕ) (level : Level)
    → default_list_fbs start (level_int level) ≡ default_blocks (start (level_int level)) level
default_list_fbs_at start trace = refl
default_list_fbs_at start debug = refl
default_list_fbs_at start info = refl
default_list_fbs_at start warn = refl
default_list_fbs_at start error = refl
default_list_fbs_at start fatal = refl

elapsed_forward : (start now : ℕ) → start ≤ now → elapsed start now ≡ forward (now - start)
elapsed_forward start now h = ground arith

-- A line begins with the time, in twelve characters that can be read back.
run_time-read_line :
    (e : ℕ)
    → e < 100 * hour
    → (t : Text) × (run_time (forward e) ≡ some t)
      × ((level : Level) (msg : Text)
          → read_line (t ++ label level ++ msg) ≡ some (e / millisecond, level, msg))
run_time-read_line e early =
    let r = run_time_in e (omega arith) in
    (
      _,
      r,
      λ level msg.
          ap (said_at (message_of (label level ++ msg)))
            (ap (λ (x : Option Text). x >>= read) (sym r) ∙ read-run_time e early)
          ∙ ap (λ x. said_at x (some (e / millisecond))) (message_of-label level msg),
    )

default_prefix :
    (start : ℕ → ℕ) (level : Level) (now : ℕ) (t : Text)
    → start (level_int level) ≤ now
    → run_time (forward (now - start (level_int level))) ≡ some t
    → prefix now (default_list_fbs start (level_int level)) ≡ some (t ++ label level)
unfolding prefix get
default_prefix start level now t h e =
    rw (default_list_fbs_at start level, elapsed_forward (start (level_int level)) now h, e)
      (rw (append-nil (label level)) refl)

-- A statement that logs with LOG while no other thread does, within 100 hours from when the library
-- was loaded: it writes one line to the standard output, from which the milliseconds since then, the
-- level and the whole message can be read back, and LOG is left as it was.
pub read_line-log_statement :
    (std_out : ℕ) (start : ℕ → ℕ) (level : Level) (msgs : List Text) (self now : ℕ)
    → start (level_int level) ≤ now
    → now - start (level_int level) < 100 * hour
    → let log = default_logger std_out start in
      (s : Text) × (log_statement level msgs self now log ≡ some (log, (std_out, s) ∷ []))
      × (read_line s ≡ some ((now - start (level_int level)) / millisecond, level, concat msgs))
unfolding default_logger new_logger_with lock
read_line-log_statement std_out start level msgs self now later early =
    let (t, e, readable) = run_time-read_line (now - start (level_int level)) early in
    (
      (t ++ label level) ++ concat msgs,
      log_statement_lem level msgs self now (default_logger std_out start) (t ++ label level)
          (held self 0, refl) (default_prefix start level now t later e),
      readable level (concat msgs),
    )
