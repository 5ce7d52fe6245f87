-- ===== src/Format/Tests.antt =====
-- Times around the first 100 and 256 hours.
use ks_core.Base.{ℕ, ◌+◌, ◌*◌, ◌≤◌, ◌/◌, ◌%◌, ◌≡◌, refl, ◌↔◌, some, none, codes, arith}
use ks_core.Format.{forward, backward, hour, minute, second, millisecond, run_time}
use ks_core.Format.Backward.{run_time_set_back}
use ks_core.Format.Clock.{run_time_out_of_bounds}

abbrev some_time : ℕ
some_time = 12 * hour + 34 * minute + 5 * second + 67 * millisecond

shown_time : run_time (forward some_time) ≡ some (codes "12:34:05.067")
unfolding run_time
shown_time = refl

shown_time_late : run_time (forward (256 * hour + some_time)) ≡ some (codes "12:34:05.067")
unfolding run_time
shown_time_late = refl

run_time_out_of_bounds_example :
    (run_time (forward (100 * hour)) ≡ none) ↔ (100 ≤ 100 * hour / hour % 256)
run_time_out_of_bounds_example = run_time_out_of_bounds (100 * hour)

run_time_set_back_example : run_time (backward second) ≡ none
run_time_set_back_example = run_time_set_back second (omega arith) (omega arith)
