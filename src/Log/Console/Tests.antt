-- ===== src/Log/Console/Tests.antt =====
-- Threads 5 and 6 log the lines "a" and "b": to one sink, 1, and to the sinks 1 and 2.
use ks_core.Base.{ℕ, ◌≡◌, ◌≢◌, refl, [], ◌∷◌, ◌⊎◌, inl, inr, codes, Text}
use ks_core.Log.Console.{idle, writing, State, lock, put, unlock, Reach, here, next, IsPart}
use ks_core.Log.Console.Whole.{output_lines}

abbrev IsFirst : ℕ → Type 0
IsFirst sink = sink ≡ 1

abbrev a : Text
a = codes "a"

abbrev b : Text
b = codes "b"

-- Thread 5 has logged "a", and thread 6 has begun.
abbrev halfway :
    (s : State) × Reach IsFirst s
    × (s.cout ≡ codes "a\nb")
    × (s.printed ≡ a ∷ [])
    × (s.pc 6 ≡ writing 1 b (codes "\n"))
halfway = (
  _,
  next
      (next
        (next
          (next
            (next (next here (lock 5 1 a refl refl refl refl))
              (put 5 1 a b'a' (codes "\n") refl refl))
            (put 5 1 a b'\n' [] refl refl))
          (unlock 5 1 a refl refl))
        (lock 6 1 b refl refl refl refl))
      (put 6 1 b b'b' (codes "\n") refl refl),
  refl,
  refl,
  refl,
)

output_lines_example : IsPart halfway.0 b (codes "\n") × ((j : ℕ) → halfway.0.pc j ≢ idle → j ≡ 6)
output_lines_example =
    (output_lines IsFirst 1 (λ sink e. e) halfway.1).1 6 1 b (codes "\n") halfway.4

abbrev IsEither : ℕ → Type 0
IsEither sink = (sink ≡ 1) ⊎ (sink ≡ 2)

-- Two sinks lock two mutexes: both threads may write at once, and the lines are mixed.
abbrev mixed : (s : State) × Reach IsEither s × (s.cout ≡ codes "ab\n\n") × (s.printed ≡ b ∷ a ∷ [])
mixed = (
  _,
  next
      (next
        (next
          (next
            (next
              (next
                (next (next here (lock 5 1 a (inl refl) refl refl refl))
                  (lock 6 2 b (inr refl) refl refl refl))
                (put 5 1 a b'a' (codes "\n") refl refl))
              (put 6 2 b b'b' (codes "\n") refl refl))
            (put 5 1 a b'\n' [] refl refl))
          (put 6 2 b b'\n' [] refl refl))
        (unlock 5 1 a refl refl))
      (unlock 6 2 b refl refl),
  refl,
  refl,
)
