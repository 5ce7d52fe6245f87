-- ===== src/Format/Duration.antt =====
-- CalcDuration (ks/KsGlobal.hpp): the time between two time points, in units of so many ticks of the
-- clock.
use native.Mathlib.Nat.{mul-div-le, lt-mul-div-succ}
use ks_core.Base.{ℕ, ◌+◌, ◌-◌, ◌*◌, ◌/◌, ◌≤◌, ◌<◌, ◌≡◌, arith}
use ks_core.Format.{Elapsed, forward, backward, elapsed}

-- duration_cast<T>, which rounds towards 0.
abbrev pub duration_cast : ℕ → Elapsed → Elapsed
duration_cast unit (forward e) = forward (e / unit)
duration_cast unit (backward e) = backward (e / unit)

unfoldable pub calc_duration : ℕ → ℕ → ℕ → Elapsed
calc_duration unit before after = duration_cast unit (elapsed before after)

-- Between two different time points there is a number of whole units, so that one more would be too
-- many; it is CalcDuration from the first to the second, and with the other sign from the second to
-- the first.
pub calc_duration_lem :
    (unit before after : ℕ)
    → 0 < unit
    → before < after
    → (d : ℕ) × (unit * d ≤ after - before)
      × (after - before < unit * (d + 1))
      × (calc_duration unit before after ≡ forward d)
      × (calc_duration unit after before ≡ backward d)
unfolding calc_duration
calc_duration_lem unit before after real h = (
  (after - before) / unit,
  mul-div-le (after - before) unit,
  lt-mul-div-succ (after - before) real,
  ground arith,
  ground arith,
)
