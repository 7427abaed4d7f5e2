-- ===== src/Kern/Text/RoundTrip.antt =====
-- 3-sched/lib/printfmt.c and lib/string.c: a number that is printed is read back.
use sistemas_operativos_fiub.Common.{
  ℕ, zero, suc, ◌+◌, ◌*◌, ◌/◌, ◌%◌, ◌^◌, ◌≡◌, refl, sym, ap, ◌∙◌, ◌<◌, ◌≤◌, ◌⊎◌, true, false, none,
  some, List, [], ◌∷◌, ◌++◌, arith,
}
use native.Mathlib.Decide.{dec_lt}
use native.Mathlib.Nat.{div-lt_self, div-le_self, mod-eq_of_lt, mod-lt, div-add-mod'}
use sistemas_operativos_fiub.Kern.Chain.{All}
use sistemas_operativos_fiub.Kern.Text.{
  digit_char, pad, print_digits, printnum, skip_blanks, read_sign, read_prefix, digit_value,
  read_digits, strtol,
}

digit_value-digit_char : (d : ℕ) → d < 16 → digit_value (digit_char d) ≡ some d
unfolding digit_value digit_char
digit_value-digit_char d h = ground arith

-- One digit is read.
read_one :
    (base val d : ℕ) (s : List ℕ)
    → base < 17
    → d < base
    → val * base + d < 2 ^ 31
    → read_digits base val (digit_char d ∷ s) ≡ read_digits base (val * base + d) s
unfolding read_digits
read_one base val d s h l small =
    rw (read_digits, digit_value-digit_char d (omega arith)) (ground arith)

append_one : (xs s : List ℕ) (c : ℕ) → (xs ++ (c ∷ [])) ++ s ≡ xs ++ (c ∷ s)
append_one [] s c = refl
append_one (x ∷ xs) s c = ap (λ (l : List ℕ). x ∷ l) (append_one xs s c)

print_large :
    (fuel num base : ℕ)
    → base ≤ num
    → print_digits (suc fuel) num base 0 32
      ≡ print_digits fuel (num / base) base 0 32 ++ (digit_char (num % base) ∷ [])
unfolding print_digits
print_large fuel num base h = ground arith

print_small :
    (fuel num base : ℕ) → num < base → print_digits fuel num base 0 32 ≡ digit_char num ∷ []
unfolding print_digits pad
print_small zero num base h = rw (mod-eq_of_lt {n = num} {m = base} h) refl
print_small (suc fuel) num base h = rw (mod-eq_of_lt {n = num} {m = base} h) (ground arith)

quotient_smaller : (fuel num base : ℕ) → 1 < base → base ≤ num → num ≤ suc fuel → num / base ≤ fuel
quotient_smaller fuel num base two l enough =
    let less : num / base < num = div-lt_self {n = num} {k = base} (omega arith) two in
    omega (arith, less)

digit_small : (num base : ℕ) → 1 < base → num % base < base
digit_small num base two = mod-lt num {m = base} (omega arith)

read_first :
    (base d : ℕ) (s : List ℕ)
    → base < 17
    → d < base
    → read_digits base 0 (digit_char d ∷ s) ≡ read_digits base d s
read_first base d s h l =
    let e : 0 * base + d ≡ d = omega arith in
    read_one base 0 d s h l (omega arith) ∙ ap (λ (v : ℕ). read_digits base v s) e

append_nil : (xs : List ℕ) → xs ++ [] ≡ xs
append_nil [] = refl
append_nil (x ∷ xs) = ap (λ (l : List ℕ). x ∷ l) (append_nil xs)

-- Chars of a printed number are digits.
IsDigit : ℕ → Type 0
IsDigit c = ((47 < c) × (c < 58)) ⊎ ((96 < c) × (c < 103))

digit_char-IsDigit : (d : ℕ) → d < 16 → IsDigit (digit_char d)
unfolding digit_char IsDigit
digit_char-IsDigit d h = ground arith

All-append : (P : ℕ → Type 0) (xs : List ℕ) (c : ℕ) → All P xs → P c → All P (xs ++ (c ∷ []))
All-append P [] c a p = (p, tt)
All-append P (x ∷ xs) c (q, a) p = (q, All-append P xs c a p)

print_digits-IsDigit :
    (fuel num base : ℕ)
    → 1 < base
    → base < 17
    → num ≤ fuel
    → All IsDigit (print_digits fuel num base 0 32)
print_digits-IsDigit zero num base two h enough =
    rw (print_small zero num base (omega arith)) (digit_char-IsDigit num (omega arith), tt)
print_digits-IsDigit (suc fuel) num base two h enough = elim (dec_lt num base) [
  | yes l ↦ rw (print_small (suc fuel) num base l) (digit_char-IsDigit num (omega arith), tt)
  | no large ↦ rw (print_large fuel num base (omega arith)) (
      All-append IsDigit (print_digits fuel (num / base) base 0 32) (digit_char (num % base))
        (print_digits-IsDigit fuel (num / base) base two h
          (quotient_smaller fuel num base two (omega arith) enough))
        (digit_char-IsDigit (num % base) (let l = digit_small num base two in omega (arith, l))))
]

read-print :
    (fuel num base : ℕ) (s : List ℕ)
    → 1 < base
    → base < 17
    → num ≤ fuel
    → num < 2 ^ 31
    → read_digits base 0 (print_digits fuel num base 0 32 ++ s) ≡ read_digits base num s
read-print zero num base s two h enough small =
    rw (print_small zero num base (omega arith)) (read_first base num s h (omega arith))
read-print (suc fuel) num base s two h enough small = elim (dec_lt num base) [
  | yes l ↦ rw (print_small (suc fuel) num base l) (read_first base num s h l)
  | no large ↦
      rw
        (
          print_large fuel num base (omega arith),
          append_one (print_digits fuel (num / base) base 0 32) s (digit_char (num % base)),
        )
        (read-print fuel (num / base) base (digit_char (num % base) ∷ s) two h
            (quotient_smaller fuel num base two (omega arith) enough)
            (let q = div-le_self num base in omega (arith, q))
          ∙ (read_one base (num / base) (num % base) s h (digit_small num base two)
                (let e = div-add-mod' num base in rw e small)
              ∙ ap (λ (v : ℕ). read_digits base v s) (div-add-mod' num base)))
]

-- What is read of a string of digits: no blank, no sign and no prefix.
read_start :
    (xs : List ℕ) (base : ℕ)
    → 1 < base
    → All IsDigit xs
    → strtol xs base
      ≡ elim (read_digits base 0 xs) [ none ↦ none | some (val, end) ↦ some (false, val, end) ]
unfolding strtol skip_blanks read_sign read_prefix IsDigit
read_start [] base two a = ground arith
read_start (c ∷ []) base two (d, a) = ground (arith, d)
read_start (c ∷ e ∷ s) base two (d, (d2, a)) = ground (arith, d, d2)

-- A number below 2 ^ 31 that `printnum` puts out in a base from 2 to 16, without padding, is the
-- number that `strtol` reads in this base, up to the end of the text.
pub strtol-printnum :
    (num base : ℕ)
    → 1 < base
    → base < 17
    → num < 2 ^ 31
    → strtol (printnum num base 0 32) base ≡ some (false, num, [])
unfolding printnum read_digits
strtol-printnum num base two h small =
    read_start (print_digits num num base 0 32) base two
      (print_digits-IsDigit num num base two h (omega arith))
    ∙ rw
        (
          sym (append_nil (print_digits num num base 0 32)),
          read-print num num base [] two h (omega arith) small,
          read_digits,
        )
        refl

read_minus :
    (xs : List ℕ)
    → All IsDigit xs
    → strtol (45 ∷ xs) 10
      ≡ elim (read_digits 10 0 xs) [ none ↦ none | some (val, end) ↦ some (true, val, end) ]
unfolding strtol skip_blanks read_sign read_prefix IsDigit
read_minus [] a = ground arith
read_minus (c ∷ []) (d, a) = ground (arith, d)
read_minus (c ∷ e ∷ s) (d, (d2, a)) = ground (arith, d, d2)

-- With a minus in front the number is read as a negative one.
pub strtol-minus :
    (num : ℕ) → num < 2 ^ 31 → strtol (45 ∷ printnum num 10 0 32) 10 ≡ some (true, num, [])
unfolding printnum read_digits
strtol-minus num small =
    read_minus (print_digits num num 10 0 32)
      (print_digits-IsDigit num num 10 (omega arith) (omega arith) (omega arith))
    ∙ rw
        (
          sym (append_nil (print_digits num num 10 0 32)),
          read-print num num 10 [] (omega arith) (omega arith) (omega arith) small,
          read_digits,
        )
        refl
