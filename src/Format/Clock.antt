-- ===== src/Format/Clock.antt =====
-- What FBRunTimeMs (ks/KsLog.cpp) shows: which times it shows truly, and for which it reads behind
-- the end of `m_list_num_chars`.
use ks_core.Base.{
  ◌⊎◌, inl, inr, ◌≢◌, ℕ, zero, suc, length, ◌+◌, ◌-◌, ◌*◌, ◌/◌, ◌%◌, ◌≤◌, ◌<◌, ◌≡◌, refl, sym, ap,
  ◌∙◌, ◌↔◌, Option, none, some, List, [], ◌∷◌, Text, codes, get_elem?, arith, ◌>>=◌,
}
use ks_core.Format.{
  forward, hour, minute, second, millisecond, num_char, write_counts, mins_count, secs_count,
  ms_count, run_time,
}

-- n, n + 1, n + 2 ...
abbrev consecutive : ℕ → ℕ → List ℕ
consecutive n zero = []
consecutive n (suc k) = n ∷ consecutive (n + 1) k

get_elem-consecutive : (n k i : ℕ) → i < k → get_elem? (consecutive n k) i ≡ some (n + i)
get_elem-consecutive n zero i h = absurd (omega arith)
get_elem-consecutive n (suc k) zero h = ap some (omega arith)
get_elem-consecutive n (suc k) (suc i) h =
    get_elem-consecutive (n + 1) k i (omega arith) ∙ ap some (omega arith)

num_char_in : (i : ℕ) → i < 10 → num_char i ≡ some (48 + i)
num_char_in i h = get_elem-consecutive 48 10 i h

get_elem_out : (xs : List ℕ) (i : ℕ) → length xs ≤ i → get_elem? xs i ≡ none
get_elem_out [] i h = refl
get_elem_out (x ∷ xs) zero h = absurd (omega arith)
get_elem_out (x ∷ xs) (suc i) h = get_elem_out xs i (omega arith)

pub num_char_out : (i : ℕ) → 10 ≤ i → num_char i ≡ none
num_char_out i h = get_elem_out (codes "0123456789") i h

-- The text with these numbers of hours, minutes, seconds and milliseconds.
abbrev pub shown : ℕ → ℕ → ℕ → ℕ → Text
shown h m s f =
    (48 + h / 10)
    ∷ (48 + h % 10)
    ∷ b':'
    ∷ (48 + m / 10)
    ∷ (48 + m % 10)
    ∷ b':'
    ∷ (48 + s / 10)
    ∷ (48 + s % 10)
    ∷ b'.'
    ∷ (48 + f / 100)
    ∷ (48 + f % 100 / 10)
    ∷ (48 + f % 100 % 10)
    ∷ []

write_counts_in :
    (h m s f : ℕ)
    → h < 100
    → m < 100
    → s < 100
    → f < 1000
    → write_counts h m s f ≡ some (shown h m s f)
unfolding write_counts
write_counts_in h m s f a b c d =
    rw
      (
        num_char_in (h / 10) (omega arith),
        num_char_in (h % 10) (omega arith),
        num_char_in (m / 10) (omega arith),
        num_char_in (m % 10) (omega arith),
        num_char_in (s / 10) (omega arith),
        num_char_in (s % 10) (omega arith),
        num_char_in (f / 100) (omega arith),
        num_char_in (f % 100 / 10) (omega arith),
        num_char_in (f % 100 % 10) (omega arith),
      )
      refl

pub write_counts_out : (h m s f : ℕ) → 100 ≤ h → write_counts h m s f ≡ none
unfolding write_counts
write_counts_out h m s f a = rw (num_char_out (h / 10) (omega arith)) refl

abbrev digit : ℕ → ℕ
digit c = c - 48

-- A reader: the milliseconds that a text hh:mm:ss.fff says.
abbrev pub read : Text → Option ℕ
read (h1 ∷ h2 ∷ c ∷ m1 ∷ m2 ∷ d ∷ s1 ∷ s2 ∷ p ∷ f1 ∷ f2 ∷ f3 ∷ []) = some (
    (((digit h1 * 10 + digit h2) * 60 + digit m1 * 10 + digit m2) * 60 + digit s1 * 10 + digit s2)
      * 1000
    + digit f1 * 100
    + digit f2 * 10
    + digit f3)
read _ = none

digit_lem : (x : ℕ) → digit (48 + x) ≡ x
digit_lem x = omega arith

read-shown : (h m s f : ℕ) → read (shown h m s f) ≡ some (((h * 60 + m) * 60 + s) * 1000 + f)
read-shown h m s f =
    rw
      (
        digit_lem (h / 10),
        digit_lem (h % 10),
        digit_lem (m / 10),
        digit_lem (m % 10),
        digit_lem (s / 10),
        digit_lem (s % 10),
        digit_lem (f / 100),
        digit_lem (f % 100 / 10),
        digit_lem (f % 100 % 10),
      )
      (ap some (omega arith))

pub run_time_in :
    (e : ℕ)
    → e / hour % 256 < 100
    → run_time (forward e)
      ≡ some (
          shown
            (e / hour % 256)
            (e % hour / minute)
            (e % hour % minute / second)
            (e % hour % minute % second / millisecond))
unfolding run_time
run_time_in e small =
    rw (e1, e2, e3) (write_counts_in _ _ _ _ small (omega arith) (omega arith) (omega arith))
  where
    e1 : e % hour / minute % 256 ≡ e % hour / minute
    e1 = omega arith

    e2 : e % hour % minute / second % 256 ≡ e % hour % minute / second
    e2 = omega arith

    e3 :
        e % hour % minute % second / millisecond % 18446744073709551616
        ≡ e % hour % minute % second / millisecond
    e3 = omega arith

-- The text that FBRunTimeMs gives says the milliseconds since its construction, if that is less
-- than 100 hours ago.
pub read-run_time :
    (e : ℕ) → e < 100 * hour → (run_time (forward e) >>= read) ≡ some (e / millisecond)
read-run_time e early =
    rw
      (
        run_time_in e (omega arith),
        read-shown (e / hour % 256) (e % hour / minute) (e % hour % minute / second)
            (e % hour % minute % second / millisecond),
      )
      (ap some (omega arith))

-- With a clock that went forward since its construction, FBRunTimeMs reads behind the end of its
-- array of digits exactly if the hours since then, taken modulo 256, have three digits.
pub run_time_out_of_bounds : (e : ℕ) → (run_time (forward e) ≡ none) ↔ (100 ≤ e / hour % 256)
unfolding run_time
run_time_out_of_bounds e = (
  to,
  λ late.
      write_counts_out _ (mins_count (forward e)) (secs_count (forward e)) (ms_count (forward e))
        late,
)
  where
    le-or-lt : (a b : ℕ) → (a ≤ b) ⊎ (b < a)
    le-or-lt a b = ground arith

    some-none : (x : Text) → some x ≢ none
    some-none x p = cc p

    to : run_time (forward e) ≡ none → 100 ≤ e / hour % 256
    to gone = elim (le-or-lt 100 (e / hour % 256)) [
      | inl late ↦ late
      | inr early ↦ absurd (some-none _ (sym (run_time_in e early) ∙ gone))
    ]

-- From 256 hours on the hours start at 00 again.
pub run_time_wraps : (e : ℕ) → run_time (forward (e + 256 * hour)) ≡ run_time (forward e)
unfolding run_time
run_time_wraps e = rw (same_hours, same_rest) refl
  where
    same_hours : (e + 256 * hour) / hour % 256 ≡ e / hour % 256
    same_hours = omega arith

    same_rest : (e + 256 * hour) % hour ≡ e % hour
    same_rest = omega arith
