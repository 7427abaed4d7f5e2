-- ===== src/Kern/Tests/Numbers.antt =====
-- A number printed and read, and the theorem there.
use sistemas_operativos_fiub.Common.{◌≡◌, refl, true, false, some, [], ◌∷◌}
use sistemas_operativos_fiub.Kern.Text.{
  printnum, print_digits, pad, digit_char, strtol, read_digits, read_prefix, read_sign, skip_blanks,
  digit_value,
}

-- "0x1f" is 31.
reads_hex : strtol (48 ∷ 120 ∷ 49 ∷ 102 ∷ []) 0 ≡ some (false, 31, [])
unfolding strtol read_digits read_prefix read_sign skip_blanks digit_value
reads_hex = refl

-- "  -42;" in base 10
reads_negative : strtol (32 ∷ 32 ∷ 45 ∷ 52 ∷ 50 ∷ 59 ∷ []) 10 ≡ some (true, 42, 59 ∷ [])
unfolding strtol read_digits read_prefix read_sign skip_blanks digit_value
reads_negative = refl

prints_padded : printnum 42 10 5 48 ≡ 48 ∷ 48 ∷ 48 ∷ 52 ∷ 50 ∷ []
unfolding printnum print_digits pad digit_char
prints_padded = refl
