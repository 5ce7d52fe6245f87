-- ===== src/MiscUtils.antt =====
-- ks/KsMiscUtils.hpp, and ToString and ToStringFormat of ks/KsGlobal.hpp, for unsigned numbers (of
-- at most 64 bits) in the classic locale. What a string stream writes and reads is written out; the
-- file system is a parameter. Signed integers are their bits in two's
-- complement, and products wrap, as they do on the machines that ks is built for; standard C++ leaves
-- a signed product that does not fit undefined.
pub mod Power
pub mod Numerals
mod Tests
use ks_core.Base.{
  true, false, not, ◌&&◌, ◌||◌, [], ◌∷◌, ◌++◌, length, ℕ, zero, suc, ◌+◌, ◌-◌, ◌*◌, ◌/◌, ◌%◌, ◌^◌,
  Bool, Option, none, some, ltb, ◌==◌, if◌then◌else◌, Text, codes, ◌>>=◌,
}

-- An int as an s64.
abbrev pub sign_extend : ℕ → ℕ
sign_extend n = if ltb n (2 ^ 31) then n else n + (2 ^ 64 - 2 ^ 32)

-- The while loop, with the s64 `base`, the u64 `exp` and the int `result`.
unfoldable pub ipow_loop : ℕ → ℕ → ℕ → ℕ → Option ℕ
ipow_loop zero base exp result = none
ipow_loop (suc fuel) base exp result =
    let result' = if exp % 2 == 1 then sign_extend result * base % 2 ^ 64 % 2 ^ 32 else result in
    let rest = ipow_loop fuel (base * base % 2 ^ 64) (exp / 2) result' in
    if exp == 0 then some result else rest

unfoldable pub ipow : ℕ → ℕ → Option ℕ
unfolding ipow_loop
ipow base exp = ipow_loop 65 base exp 1 >>= λ result. some (sign_extend result)

-- ConvBoolToString
unfoldable pub conv_bool_to_string : Bool → Bool → Text
conv_bool_to_string val single_letter =
    if single_letter
    then if val then codes "T" else codes "F"
    else if val
    then codes "TRUE"
    else codes "FALSE"

-- Decimal digits, at most `fuel` of them. A number of 64 bits has at most 20.
unfoldable pub digits : ℕ → ℕ → Text
digits zero n = []
digits (suc fuel) n =
    let rest = digits fuel (n / 10) in (if ltb n 10 then [] else rest) ++ (b'0' + n % 10) ∷ []

-- What `<<` writes of an unsigned number of `w` bits. One of 8 bits is an unsigned char, which is
-- written as the character that it is.
abbrev pub written : ℕ → ℕ → Text
written w n = if w == 8 then n ∷ [] else digits 20 n

-- ConvNumberToString
unfoldable pub conv_number_to_string : ℕ → ℕ → Text
unfolding digits
conv_number_to_string w num = written w num

-- ToString
unfoldable pub to_string : ℕ → ℕ → Text
unfolding digits
to_string w val = written w val

-- What setw and setfill put in front.
unfoldable pub padding : ℕ → ℕ → Text
padding zero fill = []
padding (suc n) fill = fill ∷ padding n fill

-- ToStringFormat; std::fixed and std::setprecision do nothing to an integer or a character.
unfoldable pub to_string_format : ℕ → ℕ → ℕ → ℕ → ℕ → Text
unfolding padding
to_string_format w val precision width fill =
    let s = to_string w val in padding (width - length s) fill ++ s

abbrev pub is_digit : ℕ → Bool
is_digit c = not (ltb c b'0') && ltb c (b'9' + 1)

-- The white space of the classic locale.
abbrev pub is_space : ℕ → Bool
is_space c = c == 32 || (not (ltb c 9) && ltb c 14)

unfoldable pub skip_spaces : Text → Text
skip_spaces [] = []
skip_spaces (c ∷ cs) = let rest = skip_spaces cs in if is_space c then rest else c ∷ cs

unfoldable pub read_digits : ℕ → Text → ℕ
read_digits acc [] = acc
read_digits acc (c ∷ cs) =
    let rest = read_digits (acc * 10 + (c - b'0')) cs in if is_digit c then rest else acc

abbrev pub starts_number : Text → Bool
starts_number [] = false
starts_number (c ∷ cs) = is_digit c

-- A number of `w` bits behind its sign, and whether there is one that fits: else `>>` stores 0, or
-- the greatest number.
unfoldable pub read_unsigned : ℕ → Text → ℕ × Bool
read_unsigned w s =
    let v = read_digits 0 s in
    if starts_number s then if ltb v (2 ^ w) then (v, true) else (2 ^ w - 1, false) else (0, false)

abbrev pub negated : ℕ → ℕ × Bool → ℕ × Bool
negated w (v, true) = ((2 ^ w - v) % 2 ^ w, true)
negated w (v, false) = (v, false)

abbrev pub stored : ℕ × Bool → Option ℕ × Bool
stored (v, ok) = (some v, ok)

-- `ss >> num`: where there is nothing but white space, `num` is not written (`none`). For 8 bits, an
-- unsigned char, it is the next character.
unfoldable pub read_number : ℕ → Text → Option ℕ × Bool
read_number w [] = (none, false)
read_number w (c ∷ cs) =
    if w == 8
    then (some c, true)
    else if c == b'-'
    then stored (negated w (read_unsigned w cs))
    else if c == b'+'
    then stored (read_unsigned w cs)
    else stored (read_unsigned w (c ∷ cs))

-- ConvStringToNumber, and what it writes to `ok`, if that is not NULL (with streams that convert to
-- bool).
unfoldable pub conv_string_to_number : ℕ → Text → Bool → Option ℕ × Option Bool
unfolding skip_spaces read_number
conv_string_to_number w str wants_ok =
    let (num, conv_ok) = read_number w (skip_spaces str) in
    (num, if wants_ok then some conv_ok else none)

-- Hexadecimal digits, at most `fuel` of them. A pointer has at most 16.
unfoldable pub hex_digits : ℕ → ℕ → Text
hex_digits zero n = []
hex_digits (suc fuel) n =
    let rest = hex_digits fuel (n / 16) in
    let d = n % 16 in
    (if ltb n 16 then [] else rest) ++ (if ltb d 10 then b'0' + d else b'a' + (d - 10)) ∷ []

-- ConvPointerToString, as libstdc++ writes a pointer; std::showbase puts nothing before 0.
unfoldable pub conv_pointer_to_string : ℕ → Text
unfolding hex_digits
conv_pointer_to_string ptr = if ptr == 0 then codes "0" else codes "0x" ++ hex_digits 16 ptr

-- ReadFileIntoString, with the files that can be opened, and what `str` is then.
unfoldable pub read_file_into_string : (Text → Option Text) → Text → Text → Bool × Text
read_file_into_string files file_path str = elim (files file_path) [
  | none ↦ (false, str)
  | some contents ↦ (true, contents)
]
