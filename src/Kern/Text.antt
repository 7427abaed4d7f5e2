-- ===== src/Kern/Text.antt =====
-- 3-sched/lib/printfmt.c and lib/string.c: numbers as text, for the kernel and for programs. A string
-- is its list of bytes before the NUL.
pub mod Bytes
pub mod Escape
pub mod Format
pub mod Output
pub mod Strings
pub mod RoundTrip
use sistemas_operativos_fiub.Common.{
  ℕ, zero, suc, ◌+◌, ◌-◌, ◌*◌, ◌/◌, ◌%◌, ◌^◌, Bool, true, false, ◌&&◌, ◌||◌, Option, none, some,
  List, [], ◌∷◌, ◌++◌, ◌==◌, ltb, leb, if◌then◌else◌,
}

-- `"0123456789abcdef"[d]`
unfoldable pub digit_char : ℕ → ℕ
digit_char d = if ltb d 10 then 48 + d else 87 + d

-- `while (--width > 0) putch(padc, putdat)`
unfoldable pub pad : ℕ → ℕ → List ℕ
pad zero padc = []
pad (suc zero) padc = []
pad (suc (suc n)) padc = padc ∷ pad (suc n) padc

-- What `printnum` puts out, for a base that is not 0; a width below 0 is 0 here. Each call divides
-- the number, so that it is fuel for itself.
unfoldable pub print_digits : ℕ → ℕ → ℕ → ℕ → ℕ → List ℕ
print_digits zero num base width padc = pad width padc ++ (digit_char (num % base) ∷ [])
print_digits (suc fuel) num base width padc =
    let rest = print_digits fuel (num / base) base (width - 1) padc in
    (if leb base num then rest else pad width padc) ++ (digit_char (num % base) ∷ [])

unfoldable pub printnum : ℕ → ℕ → ℕ → ℕ → List ℕ
printnum num base width padc = print_digits num num base width padc

unfoldable pub skip_blanks : List ℕ → List ℕ
skip_blanks [] = []
skip_blanks (c ∷ s) = let rest = skip_blanks s in if c == 32 || c == 9 then rest else c ∷ s

-- The sign, and what comes after it.
unfoldable pub read_sign : List ℕ → Bool × List ℕ
read_sign [] = (false, [])
read_sign (c ∷ s) = if c == 43 then (false, s) else if c == 45 then (true, s) else (false, c ∷ s)

abbrev pub starts_with_zero : List ℕ → Bool
starts_with_zero [] = false
starts_with_zero (c ∷ s) = c == 48

abbrev pub starts_with_0x : List ℕ → Bool
starts_with_0x [] = false
starts_with_0x (c ∷ []) = false
starts_with_0x (c ∷ d ∷ s) = c == 48 && d == 120

abbrev pub tail_of : List ℕ → List ℕ
tail_of [] = []
tail_of (c ∷ s) = s

-- The base, and what comes after its prefix.
unfoldable pub read_prefix : ℕ → List ℕ → ℕ × List ℕ
read_prefix base s =
    if (base == 0 || base == 16) && starts_with_0x s
    then (16, tail_of (tail_of s))
    else if base == 0 && starts_with_zero s
    then (8, tail_of s)
    else if base == 0
    then (10, s)
    else (base, s)

unfoldable pub digit_value : ℕ → Option ℕ
digit_value c =
    if leb 48 c && leb c 57
    then some (c - 48)
    else if leb 97 c && leb c 122
    then some (c - 97 + 10)
    else if leb 65 c && leb c 90
    then some (c - 65 + 10)
    else none

-- The digits after a number `val`: the number and the rest; or the sum overflows a long, which C
-- leaves undefined.
unfoldable pub read_digits : ℕ → ℕ → List ℕ → Option (ℕ × List ℕ)
read_digits base val [] = some (val, [])
read_digits base val (c ∷ s) = elim (digit_value c) [
  | none ↦ some (val, c ∷ s)
  | some dig ↦
      let rest = read_digits base (val * base + dig) s in
      if leb base dig
      then some (val, c ∷ s)
      else if leb (2 ^ 31) (val * base + dig)
      then none
      else rest
]

-- `strtol`: whether the number is negative, its size, and what `endptr` points to.
unfoldable pub strtol : List ℕ → ℕ → Option (Bool × ℕ × List ℕ)
strtol s base =
    let (neg, s1) = read_sign (skip_blanks s) in
    let (base', s2) = read_prefix base s1 in
    elim (read_digits base' 0 s2) [ none ↦ none | some (val, end) ↦ some (neg, val, end) ]
