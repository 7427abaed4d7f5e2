-- ===== src/Kern/Text/Escape.antt =====
-- 3-sched/lib/printfmt.c: the reading of a %-escape, up to the byte of its conversion.
use sistemas_operativos_fiub.Common.{
  ℕ, ◌+◌, ◌-◌, ◌*◌, ◌^◌, Bool, true, false, ◌&&◌, Option, none, some, List, [], ◌∷◌, ◌==◌, ltb, leb,
  if◌then◌else◌,
}

-- An argument: a word, also for a pointer, a long long, or a string, which may be NULL.
pub data Arg : Type 0 where
  word : ℕ → Arg
  double_word : ℕ → Arg
  text : Option (List ℕ) → Arg

-- The variables of a %-escape; `none` for a width or a precision below 0, and the number that the
-- loop on digits has read.
pub record Escape : Type 0 where
  pub padc : ℕ
  pub width : Option ℕ
  pub precision : Option ℕ
  pub lflag : ℕ
  pub altflag : Bool
  pub number : Option ℕ

abbrev pub new_escape : Escape
new_escape = record {
  padc = b' ';
  width = none;
  precision = none;
  lflag = 0;
  altflag = false;
  number = none;
}

-- `process_precision`, for the precision that was read.
unfoldable pub process_precision : Option ℕ → Escape → Escape
process_precision n e = elim e.width [
  | none ↦ record e { width = n; precision = none; number = none }
  | some w ↦ record e { precision = n; number = none }
]

-- The precision is set where a number ends.
unfoldable pub end_number : Escape → Escape
end_number e = elim e.number [ none ↦ e | some n ↦ process_precision (some n) e ]

-- An int of 32 digits as a precision.
unfoldable pub from_int : ℕ → Option ℕ
from_int w = if ltb w (2 ^ 31) then some w else none

-- What a byte of an escape leads to: the next byte, the conversion that it names, or an argument
-- that is not there or of another type.
pub data Step : Type 0 where
  reswitch : Escape → List Arg → Step
  converts : Escape → Step
  bad_argument : Step

unfoldable pub star : Escape → List Arg → Step
star e [] = bad_argument
star e (word w ∷ args) = reswitch (process_precision (from_int w) e) args
star e (double_word w ∷ args) = bad_argument
star e (text s ∷ args) = bad_argument

-- A byte that is not a digit of a number.
unfoldable pub read_flag : Escape → ℕ → List Arg → Step
read_flag e c args =
    if c == b'-'
    then reswitch (record e { padc = b'-' }) args
    else if c == b'0'
    then reswitch (record e { padc = b'0' }) args
    else if ltb b'0' c && leb c b'9'
    then reswitch (record e { number = some (c - b'0') }) args
    else if c == b'*'
    then star e args
    else if c == b'.'
    then reswitch (elim e.width [ none ↦ record e { width = some 0 } | some w ↦ e ]) args
    else if c == b'#'
    then reswitch (record e { altflag = true }) args
    else if c == b'l'
    then reswitch (record e { lflag = e.lflag + 1 }) args
    else converts e

-- A digit goes on a number that is read; a number of 31 digits or more is undefined.
unfoldable pub read_byte : Escape → ℕ → List Arg → Step
read_byte e c args = elim e.number [
  | none ↦ read_flag e c args
  | some n ↦
      if leb b'0' c && leb c b'9'
      then (if ltb (n * 10 + c - b'0') (2 ^ 31)
          then reswitch (record e { number = some (n * 10 + c - b'0') }) args
          else bad_argument)
      else read_flag (end_number e) c args
]

-- The escape as a whole: its variables, the byte of its conversion, 0 at the end of the format, the
-- format behind it and the arguments that are left.
pub record Scanned : Type 0 where
  pub spec : Escape
  pub conversion : ℕ
  pub behind : List ℕ
  pub args : List Arg

unfoldable pub scan : List ℕ → Escape → List Arg → Option Scanned
scan [] e args = some (record { spec = end_number e; conversion = 0; behind = []; args = args })
scan (c ∷ fmt) e args = elim (read_byte e c args) [
  | bad_argument ↦ none
  | converts e' ↦ some (record { spec = e'; conversion = c; behind = fmt; args = args })
  | reswitch e' args' ↦ scan fmt e' args'
]
