-- ===== src/MiscUtils/Tests.antt =====
-- Powers of 3 and 2, and numbers in texts.
use ks_core.Base.{none, true, false, [], ◌∷◌, codes, ◌-◌, ◌^◌, ◌≡◌, refl, some, arith}
use ks_core.MiscUtils.{
  ipow, ipow_loop, conv_string_to_number, conv_number_to_string, to_string_format, to_string,
  digits, padding, read_unsigned, read_digits, conv_pointer_to_string,
}
use ks_core.MiscUtils.Numerals.{conv_string_to_number-conv_number_to_string}
use ks_core.MiscUtils.Power.{ipow_lem}

-- (-3) ^ 3 is -27.
negative_base : ipow (2 ^ 64 - 3) 3 ≡ some (2 ^ 64 - 27)
unfolding ipow ipow_loop
negative_base = refl

-- 2 ^ 31 comes out as -2 ^ 31.
ipow_lem_example : ipow 2 31 ≡ some (2 ^ 64 - 2 ^ 31)
ipow_lem_example = ipow_lem 2 31 (omega arith)

conv_string_to_number-conv_number_to_string_example :
    (conv_string_to_number 32 (32 ∷ 9 ∷ codes "4071px") true ≡ (some 4071, some true))
    × (conv_string_to_number 32 (codes "   4071px") true ≡ (some 4071, some true))
unfolding conv_number_to_string to_string_format to_string digits padding
conv_string_to_number-conv_number_to_string_example =
    conv_string_to_number-conv_number_to_string 32 4071 2 7 (32 ∷ 9 ∷ []) (codes "px") (omega arith)
      (omega arith) (λ e. refl) (refl, (refl, tt)) refl

-- Of 8 bits, 7 is written as the character of this number, and "7" is read as 55.
write_char : conv_number_to_string 8 7 ≡ 7 ∷ []
unfolding conv_number_to_string
write_char = refl

read_char : conv_string_to_number 8 (codes " 7px") true ≡ (some 55, some true)
unfolding conv_string_to_number
read_char = refl

-- Of a blank text the result is the uninitialised `num`; what does not fit is cut to the greatest
-- number; and a number with a minus is read modulo 2 ^ 32.
read_blank : conv_string_to_number 32 (codes "  ") true ≡ (none, some false)
unfolding conv_string_to_number
read_blank = refl

read_large : conv_string_to_number 32 (codes "4294967296") true ≡ (some 4294967295, some false)
unfolding conv_string_to_number read_unsigned read_digits
read_large = refl

read_negative : conv_string_to_number 32 (codes "-1") false ≡ (some 4294967295, none)
unfolding conv_string_to_number read_unsigned read_digits
read_negative = refl

pointer : conv_pointer_to_string 48879 ≡ codes "0xbeef"
unfolding conv_pointer_to_string
pointer = refl
