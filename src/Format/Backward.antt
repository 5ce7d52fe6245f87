-- ===== src/Format/Backward.antt =====
-- FBRunTimeMs (ks/KsLog.cpp) on a clock that was set back behind the block's construction.
use ks_core.Base.{
  ◌⊎◌, inl, inr, ℕ, ◌-◌, ◌*◌, ◌/◌, ◌%◌, ◌≤◌, ◌<◌, ◌≡◌, refl, Option, none, some, arith, ◌>>=◌,
}
use ks_core.Format.{
  backward, hour, minute, second, millisecond, num_char, write_counts, hours_count, mins_count,
  secs_count, ms_count, run_time,
}
use ks_core.Format.Clock.{num_char_out, write_counts_out}

bind_none :
    {A B : Type 0} (o : Option A) (f : A → Option B) → ((a : A) → f a ≡ none) → (o >>= f) ≡ none
bind_none none f h = refl
bind_none (some a) f h = h a

write_counts_mins_out : (h m s f : ℕ) → 100 ≤ m → write_counts h m s f ≡ none
unfolding write_counts
write_counts_mins_out h m s f a =
    bind_none (num_char (h / 10)) _
      λ x. bind_none (num_char (h % 10)) _ λ y. rw (num_char_out (m / 10) (omega arith)) refl

write_counts_secs_out : (h m s f : ℕ) → 100 ≤ s → write_counts h m s f ≡ none
unfolding write_counts
write_counts_secs_out h m s f a = bind_none (num_char (h / 10)) _ λ x.
    bind_none (num_char (h % 10)) _ λ y.
      bind_none (num_char (m / 10)) _
        λ z. bind_none (num_char (m % 10)) _ λ t. rw (num_char_out (s / 10) (omega arith)) refl

write_counts_ms_out : (h m s f : ℕ) → 1000 ≤ f → write_counts h m s f ≡ none
unfolding write_counts
write_counts_ms_out h m s f a = bind_none (num_char (h / 10)) _ λ x.
    bind_none (num_char (h % 10)) _ λ y. bind_none (num_char (m / 10)) _ λ z.
      bind_none (num_char (m % 10)) _ λ t.
        bind_none (num_char (s / 10)) _
          λ u. bind_none (num_char (s % 10)) _ λ v. rw (num_char_out (f / 100) (omega arith)) refl

-- A clock that was set back behind the construction by a millisecond or more, but less than 156
-- hours, makes FBRunTimeMs read behind the end of its array.
pub run_time_set_back : (e : ℕ) → millisecond ≤ e → e < 156 * hour → run_time (backward e) ≡ none
unfolding run_time
run_time_set_back e far near = elim (positive (e / hour)) [
  | inl h ↦
      write_counts_out (hours_count (backward e)) (mins_count (backward e))
        (secs_count (backward e)) (ms_count (backward e)) (wrapped (e / hour) h (omega arith))
  | inr h ↦ elim (positive (e % hour / minute)) [
    | inl m ↦
        write_counts_mins_out (hours_count (backward e)) (mins_count (backward e))
          (secs_count (backward e)) (ms_count (backward e))
          (wrapped (e % hour / minute) m (omega arith))
    | inr m ↦ elim (positive (e % hour % minute / second)) [
      | inl s ↦
          write_counts_secs_out (hours_count (backward e)) (mins_count (backward e))
            (secs_count (backward e)) (ms_count (backward e))
            (wrapped (e % hour % minute / second) s (omega arith))
      | inr s ↦
          write_counts_ms_out (hours_count (backward e)) (mins_count (backward e))
            (secs_count (backward e)) (ms_count (backward e))
            (wrapped_far (e % hour % minute % second / millisecond) (omega arith) (omega arith))
    ]
  ]
]
  where
    positive : (n : ℕ) → (1 ≤ n) ⊎ (n ≡ 0)
    positive n = ground arith

    wrapped : (n : ℕ) → 1 ≤ n → n < 157 → 100 ≤ (256 - n % 256) % 256
    wrapped n a b = omega arith

    wrapped_far :
        (n : ℕ)
        → 1 ≤ n
        → n < 1000
        → 1000 ≤ (18446744073709551616 - n % 18446744073709551616) % 18446744073709551616
    wrapped_far n a b = omega arith
