-- ===== src/Format.antt =====
-- The format blocks of ks/KsLog.hpp and KsLog.cpp: what stands in front of a line of the log.
-- Times are in nanoseconds, the ticks of system_clock.
pub mod Clock
pub mod Backward
pub mod Duration
mod Tests
use ks_core.Base.{
  ◌>>=◌, ℕ, ◌-◌, ◌/◌, ◌%◌, ◌^◌, Option, some, [], ◌∷◌, ltb, if◌then◌else◌, get_elem?, Text, codes,
}

-- `now - m_start`: the clock has gone forward, or has been set back behind the start.
pub data Elapsed : Type 0 where
  forward backward : ℕ → Elapsed

abbrev pub elapsed : ℕ → ℕ → Elapsed
elapsed start now = if ltb now start then backward (start - now) else forward (now - start)

abbrev pub hour : ℕ
hour = 3600000000000

abbrev pub minute : ℕ
minute = 60000000000

abbrev pub second : ℕ
second = 1000000000

abbrev pub millisecond : ℕ
millisecond = 1000000

-- duration_cast<unit>: how many units there are, rounded towards 0, as an unsigned number of `2 ^ w`
-- values; and what `elapsed -= unit` leaves.
abbrev pub count : ℕ → ℕ → Elapsed → ℕ
count w unit (forward e) = e / unit % 2 ^ w
count w unit (backward e) = (2 ^ w - e / unit % 2 ^ w) % 2 ^ w

abbrev pub rest : ℕ → Elapsed → Elapsed
rest unit (forward e) = forward (e % unit)
rest unit (backward e) = backward (e % unit)

-- m_list_num_chars[i], which does not look at the array's length: `none` is a read behind its end.
abbrev pub num_char : ℕ → Option ℕ
num_char i = get_elem? (codes "0123456789") i

-- The end of FBRunTimeMs::Get, which writes the counts into m_time_str. It changes all characters
-- there but the colons and the dot.
unfoldable pub write_counts : ℕ → ℕ → ℕ → ℕ → Option Text
write_counts hours mins secs ms = do
  h1 ← num_char (hours / 10)
  h2 ← num_char (hours % 10)
  m1 ← num_char (mins / 10)
  m2 ← num_char (mins % 10)
  s1 ← num_char (secs / 10)
  s2 ← num_char (secs % 10)
  f1 ← num_char (ms / 100)
  f2 ← num_char (ms % 100 / 10)
  f3 ← num_char (ms % 100 % 10)
  some (h1 ∷ h2 ∷ b':' ∷ m1 ∷ m2 ∷ b':' ∷ s1 ∷ s2 ∷ b'.' ∷ f1 ∷ f2 ∷ f3 ∷ [])

-- hours_count, mins_count and secs_count are uint_fast8_t, of 8 bits, and ms_count is uint_fast16_t,
-- which has 64 in glibc.
abbrev pub hours_count : Elapsed → ℕ
hours_count e = count 8 hour e

abbrev pub mins_count : Elapsed → ℕ
mins_count e = count 8 minute (rest hour e)

abbrev pub secs_count : Elapsed → ℕ
secs_count e = count 8 second (rest minute (rest hour e))

abbrev pub ms_count : Elapsed → ℕ
ms_count e = count 64 millisecond (rest second (rest minute (rest hour e)))

-- FBRunTimeMs::Get
unfoldable pub run_time : Elapsed → Option Text
unfolding write_counts
run_time e = write_counts (hours_count e) (mins_count e) (secs_count e) (ms_count e)

-- FBRunTimeMs with its m_start, FBCustomStr with its m_s, and any other class, with what its `Get`
-- gives at a time.
pub data FormatBlock : Type 0 where
  run_time_ms : ℕ → FormatBlock
  custom_str : Text → FormatBlock
  other_block : (ℕ → Text) → FormatBlock

-- FormatBlock::Get at the time `now`.
unfoldable pub get : ℕ → FormatBlock → Option Text
unfolding run_time
get now (run_time_ms start) = run_time (elapsed start now)
get now (custom_str s) = some s
get now (other_block f) = some (f now)
