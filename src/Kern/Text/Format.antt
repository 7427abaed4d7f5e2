-- ===== src/Kern/Text/Format.antt =====
-- 3-sched/lib/printfmt.c: formatted output. What is put out is a list of bytes, the low bytes of what
-- `putch` is called with.
pub mod Laws
use sistemas_operativos_fiub.Common.{
  ℕ, zero, suc, ◌+◌, ◌-◌, ◌*◌, ◌%◌, ◌^◌, Bool, true, false, ◌&&◌, ◌||◌, not, Option, none, some,
  List, [], ◌∷◌, ◌++◌, ◌==◌, ltb, leb, if◌then◌else◌, update, length, replicate, take,
}
use sistemas_operativos_fiub.Kern.Text.{printnum}
use sistemas_operativos_fiub.Kern.Text.Escape.{
  Arg, Escape, new_escape, process_precision, end_number, from_int, Step, star, read_flag,
  read_byte, Scanned, scan, word, double_word, text, reswitch, converts, bad_argument,
}

abbrev width_of : Option ℕ → ℕ
width_of none = 0
width_of (some w) = w

-- `getuint` and `getint`: whether the number is below 0, its size, and the other arguments.
unfoldable pub getuint : ℕ → List Arg → Option (ℕ × List Arg)
getuint lflag [] = none
getuint lflag (word w ∷ args) = if ltb lflag 2 then some (w, args) else none
getuint lflag (double_word w ∷ args) = if ltb lflag 2 then none else some (w, args)
getuint lflag (text s ∷ args) = none

-- The digits of a signed number, 32 or 64.
unfoldable pub signed : ℕ → ℕ → Bool × ℕ
signed bits w = if ltb w (2 ^ (bits - 1)) then (false, w) else (true, 2 ^ bits - w)

unfoldable pub getint : ℕ → List Arg → Option (Bool × ℕ × List Arg)
getint lflag args = elim (getuint lflag args) [
  | none ↦ none
  | some (w, args') ↦
      let (neg, num) = signed (if ltb lflag 2 then 32 else 64) w in some (neg, num, args')
]

-- `error_string`
unfoldable pub error_string : ℕ → Option (List ℕ)
error_string zero = none
error_string (suc zero) = some (
    b'u' ∷ b'n' ∷ b's' ∷ b'p' ∷ b'e' ∷ b'c' ∷ b'i' ∷ b'f' ∷ b'i' ∷ b'e' ∷ b'd' ∷ b' ' ∷ b'e' ∷ b'r'
    ∷ b'r' ∷ b'o' ∷ b'r' ∷ [])
error_string (suc (suc zero)) = some (
    b'b' ∷ b'a' ∷ b'd' ∷ b' ' ∷ b'e' ∷ b'n' ∷ b'v' ∷ b'i' ∷ b'r' ∷ b'o' ∷ b'n' ∷ b'm' ∷ b'e' ∷ b'n'
    ∷ b't' ∷ [])
error_string (suc (suc (suc zero))) = some (
    b'i' ∷ b'n' ∷ b'v' ∷ b'a' ∷ b'l' ∷ b'i' ∷ b'd' ∷ b' ' ∷ b'p' ∷ b'a' ∷ b'r' ∷ b'a' ∷ b'm' ∷ b'e'
    ∷ b't' ∷ b'e' ∷ b'r' ∷ [])
error_string (suc (suc (suc (suc zero)))) =
    some (
      b'o' ∷ b'u' ∷ b't' ∷ b' ' ∷ b'o' ∷ b'f' ∷ b' ' ∷ b'm' ∷ b'e' ∷ b'm' ∷ b'o' ∷ b'r' ∷ b'y' ∷ [])
error_string (suc (suc (suc (suc (suc zero))))) = some (
    b'o' ∷ b'u' ∷ b't' ∷ b' ' ∷ b'o' ∷ b'f' ∷ b' ' ∷ b'e' ∷ b'n' ∷ b'v' ∷ b'i' ∷ b'r' ∷ b'o' ∷ b'n'
    ∷ b'm' ∷ b'e' ∷ b'n' ∷ b't' ∷ b's' ∷ [])
error_string (suc (suc (suc (suc (suc (suc zero)))))) = some (
    b's' ∷ b'e' ∷ b'g' ∷ b'm' ∷ b'e' ∷ b'n' ∷ b't' ∷ b'a' ∷ b't' ∷ b'i' ∷ b'o' ∷ b'n' ∷ b' ' ∷ b'f'
    ∷ b'a' ∷ b'u' ∷ b'l' ∷ b't' ∷ [])
error_string (suc (suc (suc (suc (suc (suc (suc zero))))))) = some (
    b'e' ∷ b'n' ∷ b'v' ∷ b' ' ∷ b'i' ∷ b's' ∷ b' ' ∷ b'n' ∷ b'o' ∷ b't' ∷ b' ' ∷ b'r' ∷ b'e' ∷ b'c'
    ∷ b'v' ∷ b'i' ∷ b'n' ∷ b'g' ∷ [])
error_string (suc (suc (suc (suc (suc (suc (suc (suc zero)))))))) = some (
    b'u' ∷ b'n' ∷ b'e' ∷ b'x' ∷ b'p' ∷ b'e' ∷ b'c' ∷ b't' ∷ b'e' ∷ b'd' ∷ b' ' ∷ b'e' ∷ b'n' ∷ b'd'
    ∷ b' ' ∷ b'o' ∷ b'f' ∷ b' ' ∷ b'f' ∷ b'i' ∷ b'l' ∷ b'e' ∷ [])
error_string (suc (suc (suc (suc (suc (suc (suc (suc (suc n))))))))) = none

-- The text of an error, which is a nested `printfmt`.
unfoldable pub error_text : ℕ → List ℕ
error_text err = elim (error_string err) [
  | none ↦ (b'e' ∷ b'r' ∷ b'r' ∷ b'o' ∷ b'r' ∷ b' ' ∷ []) ++ printnum err 10 0 b' '
  | some s ↦ s
]

-- The loop on the bytes of the string.
unfoldable pub string_bytes : Bool → List ℕ → List ℕ
string_bytes altflag [] = []
string_bytes altflag (c ∷ s) =
    (if altflag && (ltb c b' ' || ltb b'~' c) then b'?' else c) ∷ string_bytes altflag s

-- The string up to the precision.
unfoldable pub cut : Option ℕ → List ℕ → List ℕ
cut none s = s
cut (some n) s = take n s

-- The case 's': padding in front unless it goes behind.
unfoldable pub put_string : Escape → List ℕ → List ℕ
put_string e s =
    let bytes = string_bytes e.altflag (cut e.precision s) in
    let padding = width_of e.width - length bytes in
    if e.padc == b'-' then bytes ++ replicate padding b' ' else replicate padding e.padc ++ bytes

abbrev null_text : List ℕ
null_text = (b'(' ∷ b'n' ∷ b'u' ∷ b'l' ∷ b'l' ∷ b')' ∷ [])

unfoldable pub string_argument : Escape → List Arg → Option (List ℕ × List Arg)
string_argument e [] = none
string_argument e (word w ∷ args) = none
string_argument e (double_word w ∷ args) = none
string_argument e (text none ∷ args) = some (put_string e null_text, args)
string_argument e (text (some s) ∷ args) = some (put_string e s, args)

-- An unsigned number, behind its prefix.
unfoldable pub put_unsigned : Escape → ℕ → ℕ → List ℕ → List Arg → Option (List ℕ × List Arg)
put_unsigned e lflag base prefix args = elim (getuint lflag args) [
  | none ↦ none
  | some (num, args') ↦ some (prefix ++ printnum num base (width_of e.width) e.padc, args')
]

unfoldable pub put_signed : Escape → List Arg → Option (List ℕ × List Arg)
put_signed e args = elim (getint e.lflag args) [
  | none ↦ none
  | some (neg, num, args') ↦
      let digits = printnum num 10 (width_of e.width) e.padc in
      some ((if neg then b'-' ∷ digits else digits), args')
]

-- The least int has no negative.
unfoldable pub put_error : List Arg → Option (List ℕ × List Arg)
put_error args = elim (getint 0 args) [
  | none ↦ none
  | some (neg, num, args') ↦ if ltb num (2 ^ 31) then some (error_text num, args') else none
]

unfoldable pub put_char : List Arg → Option (List ℕ × List Arg)
put_char args = elim (getuint 0 args) [
  | none ↦ none
  | some (w, args') ↦ some (w % 2 ^ 8 ∷ [], args')
]

-- What a conversion puts out and the arguments behind it, and whether the byte names one. Where it
-- does not, `%` is put out and the format goes on right behind the `%` of the escape.
pub data Conversion : Type 0 where
  put : Option (List ℕ × List Arg) → Conversion
  unrecognized : Conversion

unfoldable pub convert : Escape → ℕ → List Arg → Conversion
convert e c args =
    if c == b'c'
    then put (put_char args)
    else if c == b'e'
    then put (put_error args)
    else if c == b's'
    then put (string_argument e args)
    else if c == b'd'
    then put (put_signed e args)
    else if c == b'u'
    then put (put_unsigned e e.lflag 10 [] args)
    else if c == b'o'
    then put (put_unsigned e e.lflag 8 [] args)
    else if c == b'p'
    then put (put_unsigned e 0 16 (b'0' ∷ b'x' ∷ []) args)
    else if c == b'x'
    then put (put_unsigned e e.lflag 16 [] args)
    else if c == b'%'
    then put (some (b'%' ∷ [], args))
    else unrecognized

-- An escape, for the format behind its `%`: what it puts out, the format that is left and the
-- arguments.
unfoldable pub put_escape : List ℕ → List Arg → Option (List ℕ × List ℕ × List Arg)
put_escape fmt args = elim (scan fmt new_escape args) [
  | none ↦ none
  | some x ↦ elim (convert x.spec x.conversion x.args) [
    | unrecognized ↦ some (b'%' ∷ [], fmt, x.args)
    | put none ↦ none
    | put (some (out, args')) ↦ some (out, x.behind, args')
  ]
]

abbrev pub append_to : List ℕ → Option (List ℕ) → Option (List ℕ)
append_to xs none = none
append_to xs (some ys) = some (xs ++ ys)

-- What is put out, or `none` where C leaves it undefined; the length of the format is fuel enough.
unfoldable pub vprintfmt_loop : ℕ → List ℕ → List Arg → Option (List ℕ)
vprintfmt_loop n [] args = some []
vprintfmt_loop zero (c ∷ fmt) args = none
vprintfmt_loop (suc n) (c ∷ fmt) args =
    if c == b'%'
    then elim (put_escape fmt args) [
      | none ↦ none
      | some (out, behind, args') ↦ append_to out (vprintfmt_loop n behind args')
    ]
    else append_to (c ∷ []) (vprintfmt_loop n fmt args)

unfoldable pub vprintfmt : List ℕ → List Arg → Option (List ℕ)
vprintfmt fmt args = vprintfmt_loop (length fmt) fmt args
