-- ===== src/Kern/Tests/Formats.antt =====
-- Small formats, and the theorems there.
use sistemas_operativos_fiub.Common.{
  ℕ, ◌≡◌, ◌<◌, ◌≤◌, ◌⊎◌, none, length, ◌-◌, ◌^◌, ◌==◌, refl, false, some, List, [], ◌∷◌, arith, ltb,
  update, if◌then◌else◌,
}
use Prim.Native.Nat.{min}
use sistemas_operativos_fiub.Kern.Text.{strtol, printnum, print_digits, pad, digit_char}
use sistemas_operativos_fiub.Kern.Text.Escape.{
  word, text, process_precision, end_number, read_flag, read_byte, scan,
}
use sistemas_operativos_fiub.Kern.Text.Format.{
  getuint, signed, getint, error_string, error_text, string_bytes, cut, put_string, string_argument,
  put_unsigned, put_signed, put_error, convert, put_escape, vprintfmt_loop, vprintfmt,
}
use sistemas_operativos_fiub.Kern.Text.Output.{vsnprintf, vcprintf}
use sistemas_operativos_fiub.Kern.Text.Bytes.{nth}
use sistemas_operativos_fiub.Kern.Text.Format.Laws.{strtol-vprintfmt}
use sistemas_operativos_fiub.Kern.Text.Output.Buffer.{vsnprintf_lem, vcprintf_lem}
use sistemas_operativos_fiub.Kern.Text.Output.Flush.{flatten, AllShort}
use sistemas_operativos_fiub.Kern.Text.Strings.{
  memmove, rep_movs_down, movs, memset, rep_stosl, store_word, four_times,
}
use sistemas_operativos_fiub.Kern.Text.Strings.Move.{moved, memmove_lem}

-- "%5d|%05x"
formats_numbers :
    vprintfmt (b'%' ∷ b'5' ∷ b'd' ∷ b'|' ∷ b'%' ∷ b'0' ∷ b'5' ∷ b'x' ∷ []) (word 42 ∷ word 255 ∷ [])
    ≡ some (b' ' ∷ b' ' ∷ b' ' ∷ b'4' ∷ b'2' ∷ b'|' ∷ b'0' ∷ b'0' ∷ b'0' ∷ b'f' ∷ b'f' ∷ [])
unfolding vprintfmt vprintfmt_loop put_escape scan read_byte read_flag end_number process_precision
    convert put_signed put_unsigned getint getuint signed printnum print_digits pad digit_char
formats_numbers = refl

-- "%-5d": the padding of a number stands in front and is made of '-'.
pads_with_minus :
    vprintfmt (b'%' ∷ b'-' ∷ b'5' ∷ b'd' ∷ []) (word 7 ∷ [])
    ≡ some (b'-' ∷ b'-' ∷ b'-' ∷ b'-' ∷ b'7' ∷ [])
unfolding vprintfmt vprintfmt_loop put_escape scan read_byte read_flag end_number process_precision
    convert put_signed getint getuint signed printnum print_digits pad digit_char
pads_with_minus = refl

-- "%-4.2s." and "%q"
formats_strings :
    vprintfmt
      (b'%' ∷ b'-' ∷ b'4' ∷ b'.' ∷ b'2' ∷ b's' ∷ b'.' ∷ b'%' ∷ b'q' ∷ [])
      (text (some (b'a' ∷ b'b' ∷ b'c' ∷ [])) ∷ [])
    ≡ some (b'a' ∷ b'b' ∷ b' ' ∷ b' ' ∷ b'.' ∷ b'%' ∷ b'q' ∷ [])
unfolding vprintfmt vprintfmt_loop put_escape scan read_byte read_flag end_number process_precision
    convert string_argument put_string string_bytes cut
formats_strings = refl

-- "%e"
formats_error :
    vprintfmt (b'%' ∷ b'e' ∷ []) (word (2 ^ 32 - 9) ∷ [])
    ≡ some (b'e' ∷ b'r' ∷ b'r' ∷ b'o' ∷ b'r' ∷ b' ' ∷ b'9' ∷ [])
unfolding vprintfmt vprintfmt_loop put_escape scan read_byte read_flag convert put_error getint
    getuint signed error_text error_string printnum print_digits pad digit_char
formats_error = refl

strtol-vprintfmt_example :
    (out : List ℕ) × (vprintfmt (b'%' ∷ b'd' ∷ []) (word (2 ^ 32 - 42) ∷ []) ≡ some out)
    × (strtol out 10 ≡ some ((signed 32 (2 ^ 32 - 42)).0, (signed 32 (2 ^ 32 - 42)).1, []))
strtol-vprintfmt_example = strtol-vprintfmt (2 ^ 32 - 42) (omega arith) (omega arith)

-- "hello" in a buffer of 4 bytes.
abbrev hello : List ℕ
hello = b'h' ∷ b'e' ∷ b'l' ∷ b'l' ∷ b'o' ∷ []

hello-out : vprintfmt hello [] ≡ some hello
unfolding vprintfmt vprintfmt_loop
hello-out = refl

vsnprintf_lem_example :
    ((length hello < 2 ^ 31)
      × (after : ℕ → ℕ) × (vsnprintf false (λ j. 255) 4 hello []
          ≡ some (some (length hello), after))
      × ((j : ℕ)
          → after j ≡ (
              if ltb j (min (length hello) (4 - 1))
              then nth hello j
              else if j == min (length hello) (4 - 1)
              then 0
              else 255)))
    ⊎ ((2 ^ 31 ≤ length hello) × (vsnprintf false (λ j. 255) 4 hello [] ≡ none))
vsnprintf_lem_example =
    vsnprintf_lem (λ j. 255) 4 hello [] hello (omega arith) (omega arith) hello-out

vcprintf_lem_example :
    ((length hello < 2 ^ 31)
      × (calls : List (List ℕ)) × (vcprintf hello [] ≡ some (length hello, calls))
      × AllShort calls
      × (flatten calls ≡ hello))
    ⊎ ((2 ^ 31 ≤ length hello) × (vcprintf hello [] ≡ none))
vcprintf_lem_example = vcprintf_lem hello [] hello hello-out

-- 8 bytes moved up by 4, so that the ranges overlap.
memmove_lem_example : memmove 4 0 8 (λ j. j) 9 ≡ moved 4 0 8 (λ j. j) 9
memmove_lem_example = memmove_lem 4 0 8 (λ j. j) 9

moves_up : memmove 4 0 8 (λ j. j) 9 ≡ 5
unfolding memmove rep_movs_down movs
moves_up = refl

moves_word : memset 8 0x3ab 4 (λ j. j) 10 ≡ 0xab
unfolding memset rep_stosl store_word four_times update
moves_word = refl
