-- ===== src/MiscUtils/Numerals.antt =====
-- Numbers that ConvNumberToString, ToString and ToStringFormat (ks/KsMiscUtils.hpp, KsGlobal.hpp)
-- write, and ConvStringToNumber reads.
use native.Mathlib.Nat.{zero-add, suc-add, pow-suc}
use mathlib.Core.List.{append_assoc}
use ks_core.Base.{
  ℕ, zero, suc, ◌+◌, ◌-◌, ◌*◌, ◌/◌, ◌%◌, ◌^◌, ◌<◌, ◌≤◌, ◌≡◌, refl, ap, ◌∙◌, arith, true, false, ltb,
  some, [], ◌∷◌, ◌++◌, All, length, Bool-cases, inl, inr, Text, ◌==◌, ==_iff,
}
use ks_core.MiscUtils.{
  digits, written, conv_number_to_string, to_string, padding, to_string_format, is_digit, is_space,
  skip_spaces, read_digits, starts_number, read_unsigned, read_number, stored,
  conv_string_to_number,
}

digit : (n : ℕ) → is_digit (b'0' + n % 10) ≡ true
digit n = ground arith

read_digit :
    (acc n : ℕ) (rest : Text)
    → read_digits acc ((b'0' + n % 10) ∷ rest) ≡ read_digits (acc * 10 + n % 10) rest
unfolding read_digits
read_digit acc n rest = rw (digit n) (ap (λ d. read_digits (acc * 10 + d) rest) (omega arith))

read-digits :
    (fuel n : ℕ) (rest : Text)
    → n < 10 ^ fuel
    → read_digits 0 (digits fuel n ++ rest) ≡ read_digits n rest
unfolding digits
read-digits zero n rest e = ap (λ a. read_digits a rest) (omega arith)
read-digits (suc fuel) n rest e = elim (Bool-cases (ltb n 10)) [
  | inl small ↦ rw small (read_digit 0 n rest ∙ ap (λ a. read_digits a rest) (ground arith))
  | inr big ↦
      rw (big, append_assoc (digits fuel (n / 10)) ((b'0' + n % 10) ∷ []) rest)
        (read-digits fuel (n / 10) ((b'0' + n % 10) ∷ rest) (omega (arith, pow-suc 10 fuel))
          ∙ read_digit (n / 10) n rest
          ∙ ap (λ a. read_digits a rest) (omega arith))
]

first_digit : (fuel n : ℕ) (rest : Text) → starts_number (digits (suc fuel) n ++ rest) ≡ true
unfolding digits
first_digit zero n rest = elim (Bool-cases (ltb n 10)) [
  | inl small ↦ rw small (digit n)
  | inr big ↦ rw big (digit n)
]
first_digit (suc fuel) n rest = elim (Bool-cases (ltb n 10)) [
  | inl small ↦ rw small (digit n)
  | inr big ↦
      rw (big, append_assoc (digits (suc fuel) (n / 10)) ((b'0' + n % 10) ∷ []) rest)
        (first_digit fuel (n / 10) ((b'0' + n % 10) ∷ rest))
]

read_stops : (n : ℕ) (rest : Text) → starts_number rest ≡ false → read_digits n rest ≡ n
unfolding read_digits
read_stops n [] e = refl
read_stops n (c ∷ cs) e = rw e refl

-- A text that starts with a digit has neither a sign nor white space in front.
read_number-digit :
    (w : ℕ) (s : Text)
    → (w == 8) ≡ false
    → starts_number s ≡ true
    → read_number w s ≡ stored (read_unsigned w s)
unfolding read_number
read_number-digit w [] wide e = cc
read_number-digit w (c ∷ cs) wide e = rw wide (ground (arith, e))

skip_spaces-digit : (s : Text) → starts_number s ≡ true → skip_spaces s ≡ s
unfolding skip_spaces
skip_spaces-digit [] e = refl
skip_spaces-digit (c ∷ cs) e = ground (arith, e)

skip_spaces-append :
    (xs s : Text) → All (λ c. is_space c ≡ true) xs → skip_spaces (xs ++ s) ≡ skip_spaces s
unfolding skip_spaces
skip_spaces-append [] s e = refl
skip_spaces-append (c ∷ xs) s (e, es) = rw e (skip_spaces-append xs s es)

read_unsigned-digits :
    (w fuel n : ℕ) (rest : Text)
    → n < 10 ^ suc fuel
    → n < 2 ^ w
    → starts_number rest ≡ false
    → read_unsigned w (digits (suc fuel) n ++ rest) ≡ (n, true)
unfolding read_unsigned
read_unsigned-digits w fuel n rest small fits stops =
    rw (first_digit fuel n rest, read-digits (suc fuel) n rest small ∙ read_stops n rest stops)
      (ground (arith, fits))

reads :
    (w fuel n : ℕ) (spaces rest : Text)
    → (w == 8) ≡ false
    → n < 10 ^ suc fuel
    → n < 2 ^ w
    → All (λ c. is_space c ≡ true) spaces
    → starts_number rest ≡ false
    → conv_string_to_number w (spaces ++ (digits (suc fuel) n ++ rest)) true ≡ (some n, some true)
unfolding conv_string_to_number
reads w fuel n spaces rest wide small fits blank stops =
    let s = digits (suc fuel) n ++ rest in
    let starts = first_digit fuel n rest in
    let clean : skip_spaces (spaces ++ s) ≡ s =
      skip_spaces-append spaces s blank ∙ skip_spaces-digit s starts in
    rw
      (
        clean,
        read_number-digit w s wide starts,
        read_unsigned-digits w fuel n rest small fits stops,
      )
      refl

-- An unsigned char that is no white space.
reads_char :
    (n : ℕ) (spaces rest : Text)
    → All (λ c. is_space c ≡ true) spaces
    → is_space n ≡ false
    → conv_string_to_number 8 (spaces ++ n ∷ rest) true ≡ (some n, some true)
unfolding conv_string_to_number read_number
reads_char n spaces rest blank shown =
    let first : skip_spaces (n ∷ rest) ≡ n ∷ rest = unfold skip_spaces in rw shown refl in
    rw (skip_spaces-append spaces (n ∷ rest) blank ∙ first) refl

pow-le : (k w : ℕ) → 2 ^ w ≤ 2 ^ (k + w)
pow-le zero w = rw zero-add (omega arith)
pow-le (suc k) w = rw (suc-add, pow-suc 2 (k + w)) (omega (arith, pow-le k w))

below : (w n : ℕ) → w ≤ 64 → n < 2 ^ w → n < 10 ^ 20
below w n few fits =
    let all : 64 - w + w ≡ 64 = omega arith in omega (arith, rw all at (pow-le (64 - w) w))

padding-blank : (n : ℕ) → All (λ c. is_space c ≡ true) (padding n b' ')
unfolding padding
padding-blank zero = tt
padding-blank (suc n) = (refl, padding-blank n)

-- What `<<` writes is read, behind blanks and before `rest`.
reads_written :
    (w n : ℕ) (spaces rest : Text)
    → w ≤ 64
    → n < 2 ^ w
    → (w ≡ 8 → is_space n ≡ false)
    → All (λ c. is_space c ≡ true) spaces
    → starts_number rest ≡ false
    → conv_string_to_number w (spaces ++ (written w n ++ rest)) true ≡ (some n, some true)
reads_written w n spaces rest few fits shown blank stops = elim (Bool-cases (w == 8)) [
  | inl char ↦
      rw (char, (==_iff w 8).0 char) (reads_char n spaces rest blank (shown ((==_iff w 8).0 char)))
  | inr wide ↦ rw wide (reads w 19 n spaces rest wide (below w n few fits) fits blank stops)
]

-- An unsigned number of at most 64 bits that ConvNumberToString writes, behind any white space, or
-- that ToStringFormat writes with blanks in front, is what ConvStringToNumber of its type reads, if
-- the text does not go on with a digit; and `ok` says so. One of 8 bits, which is written and read
-- as a character, is to be no white space.
pub conv_string_to_number-conv_number_to_string :
    (w n precision width : ℕ) (spaces rest : Text)
    → w ≤ 64
    → n < 2 ^ w
    → (w ≡ 8 → is_space n ≡ false)
    → All (λ c. is_space c ≡ true) spaces
    → starts_number rest ≡ false
    → (conv_string_to_number w (spaces ++ (conv_number_to_string w n ++ rest)) true
        ≡ (some n, some true))
      × (conv_string_to_number w (to_string_format w n precision width b' ' ++ rest) true
          ≡ (some n, some true))
unfolding conv_number_to_string to_string_format to_string
conv_string_to_number-conv_number_to_string w n precision width spaces rest few fits shown blank
      stops =
    (
      reads_written w n spaces rest few fits shown blank stops,
      rw (append_assoc (padding (width - length (written w n)) b' ') (written w n) rest) (
          reads_written w n (padding (width - length (written w n)) b' ') rest few fits shown
            (padding-blank _) stops),
    )
