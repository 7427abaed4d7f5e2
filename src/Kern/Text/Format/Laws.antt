-- ===== src/Kern/Text/Format/Laws.antt =====
-- 3-sched/lib/printfmt.c: formats come to their end, and what they put out.
use sistemas_operativos_fiub.Common.{
  LacksByte, ℕ, zero, suc, ◌-◌, ◌^◌, ◌≡◌, ◌≢◌, refl, sym, ap, ◌∙◌, ◌<◌, ◌≤◌, Option, none, some,
  List, [], ◌∷◌, ◌++◌, arith, ltb, if◌then◌else◌, length, none-ne-some, some-injective,
  Option-cases, ◌⊎◌, inl, inr, ==-ne,
}
use mathlib.Core.List.{append-nil}
use native.Mathlib.Decide.{ℕ_discrete, dec_lt}
use sistemas_operativos_fiub.Kern.Text.{printnum, strtol}
use sistemas_operativos_fiub.Kern.Text.RoundTrip.{strtol-printnum, strtol-minus}
use sistemas_operativos_fiub.Kern.Text.Escape.{
  Arg, word, Escape, new_escape, Step, reswitch, converts, bad_argument, read_byte, read_flag,
  Scanned, scan,
}
use sistemas_operativos_fiub.Kern.Text.Format.{
  append_to, convert, put_escape, vprintfmt_loop, vprintfmt, signed, getuint, getint, put_signed,
}

Step-cases :
    (s : Step)
    → (s ≡ bad_argument)
      ⊎ (((e : Escape) × (s ≡ converts e))
          ⊎ ((e : Escape) × (args : List Arg) × (s ≡ reswitch e args)))
Step-cases (reswitch e args) = inr (inr (e, args, refl))
Step-cases (converts e) = inr (inl (e, refl))
Step-cases bad_argument = inl refl

scan-bad :
    (fmt : List ℕ) (c : ℕ) (e : Escape) (args : List Arg)
    → read_byte e c args ≡ bad_argument
    → scan (c ∷ fmt) e args ≡ none
unfolding scan
scan-bad fmt c e args q = rw (scan, q) refl

scan-converts :
    (fmt : List ℕ) (c : ℕ) (e e' : Escape) (args : List Arg)
    → read_byte e c args ≡ converts e'
    → scan (c ∷ fmt) e args ≡ some (record { spec = e'; conversion = c; behind = fmt; args = args })
unfolding scan
scan-converts fmt c e e' args q = rw (scan, q) refl

scan-reswitch :
    (fmt : List ℕ) (c : ℕ) (e e' : Escape) (args args' : List Arg)
    → read_byte e c args ≡ reswitch e' args'
    → scan (c ∷ fmt) e args ≡ scan fmt e' args'
unfolding scan
scan-reswitch fmt c e e' args args' q = rw (scan, q) refl

scan_behind :
    (fmt : List ℕ) (e : Escape) (args : List Arg) (x : Scanned)
    → scan fmt e args ≡ some x
    → length x.behind ≤ length fmt
unfolding scan
scan_behind [] e args x h =
    let q = ap (λ (y : Scanned). length y.behind) (some-injective h) in omega (arith, q)
scan_behind (c ∷ fmt) e args x h = elim (Step-cases (read_byte e c args)) [
  | inl q ↦ absurd (none-ne-some x (sym h ∙ scan-bad fmt c e args q))
  | inr (inl (e', q)) ↦
      let same =
        ap (λ (y : Scanned). length y.behind)
          (some-injective (sym (scan-converts fmt c e e' args q) ∙ h)) in
      omega (arith, same)
  | inr (inr (e', args', q)) ↦
      let rest = scan_behind fmt e' args' x (sym (scan-reswitch fmt c e e' args args' q) ∙ h) in
      omega (arith, rest)
]

elim_conversion :
    (fmt : List ℕ) (args : List Arg) (out behind : List ℕ) (args' : List Arg) (x : Scanned)
    → scan fmt new_escape args ≡ some x
    → put_escape fmt args ≡ some (out, behind, args')
    → length x.behind ≤ length fmt
    → length behind ≤ length fmt
unfolding put_escape
elim_conversion fmt args out behind args' x q h b = ground (arith, q, h, b)

put_escape-bad :
    (fmt : List ℕ) (args : List Arg) → scan fmt new_escape args ≡ none → put_escape fmt args ≡ none
unfolding put_escape
put_escape-bad fmt args q = rw (put_escape, q) refl

put_escape_behind :
    (fmt : List ℕ) (args : List Arg) (out behind : List ℕ) (args' : List Arg)
    → put_escape fmt args ≡ some (out, behind, args')
    → length behind ≤ length fmt
unfolding put_escape
put_escape_behind fmt args out behind args' h = elim (Option-cases (scan fmt new_escape args)) [
  | inl q ↦ absurd (none-ne-some (out, behind, args') (sym h ∙ put_escape-bad fmt args q))
  | inr (x, q) ↦
      let b = scan_behind fmt new_escape args x q in
      elim_conversion fmt args out behind args' x q h b
]

loop-literal :
    (n c : ℕ) (fmt : List ℕ) (args : List Arg)
    → c ≢ b'%'
    → vprintfmt_loop (suc n) (c ∷ fmt) args ≡ append_to (c ∷ []) (vprintfmt_loop n fmt args)
unfolding vprintfmt_loop
loop-literal n c fmt args ne = rw (vprintfmt_loop, ==-ne c b'%' ne) refl

loop-bad :
    (n : ℕ) (fmt : List ℕ) (args : List Arg)
    → put_escape fmt args ≡ none
    → vprintfmt_loop (suc n) (b'%' ∷ fmt) args ≡ none
unfolding vprintfmt_loop
loop-bad n fmt args e = rw (vprintfmt_loop, e) refl

loop-escape :
    (n : ℕ) (fmt : List ℕ) (args : List Arg) (out behind : List ℕ) (args' : List Arg)
    → put_escape fmt args ≡ some (out, behind, args')
    → vprintfmt_loop (suc n) (b'%' ∷ fmt) args ≡ append_to out (vprintfmt_loop n behind args')
unfolding vprintfmt_loop
loop-escape n fmt args out behind args' e = rw (vprintfmt_loop, e) refl

two_fuels :
    (n m : ℕ) (fmt : List ℕ) (args : List Arg)
    → length fmt ≤ n
    → length fmt ≤ m
    → vprintfmt_loop n fmt args ≡ vprintfmt_loop m fmt args
unfolding vprintfmt_loop
two_fuels n m [] args h k = refl
two_fuels zero m (c ∷ fmt) args h k = absurd (omega arith)
two_fuels (suc n) zero (c ∷ fmt) args h k = absurd (omega arith)
two_fuels (suc n) (suc m) (c ∷ fmt) args h k = elim (ℕ_discrete c b'%') [
  | yes e ↦ rw e (elim (Option-cases (put_escape fmt args)) [
    | inl q ↦ loop-bad n fmt args q ∙ sym (loop-bad m fmt args q)
    | inr ((out, behind, args'), q) ↦
        let b = put_escape_behind fmt args out behind args' q in
        loop-escape n fmt args out behind args' q
        ∙ ap (append_to out) (two_fuels n m behind args' (omega (arith, b)) (omega (arith, b)))
        ∙ sym (loop-escape m fmt args out behind args' q)
  ])
  | no ne ↦
      loop-literal n c fmt args ne
      ∙ ap (append_to (c ∷ [])) (two_fuels n m fmt args (omega arith) (omega arith))
      ∙ sym (loop-literal m c fmt args ne)
]

append_to_nil : (r : Option (List ℕ)) → r ≡ append_to [] r
append_to_nil none = refl
append_to_nil (some xs) = refl

append_to_cons :
    (c : ℕ) (t : List ℕ) (r : Option (List ℕ))
    → append_to (c ∷ []) (append_to t r) ≡ append_to (c ∷ t) r
append_to_cons c t none = refl
append_to_cons c t (some xs) = refl

-- The text in front of the first '%' is put out as it is.
pub vprintfmt-literal :
    (t fmt : List ℕ) (args : List Arg)
    → LacksByte b'%' t
    → vprintfmt (t ++ fmt) args ≡ append_to t (vprintfmt fmt args)
unfolding vprintfmt
vprintfmt-literal [] fmt args l = append_to_nil (vprintfmt fmt args)
vprintfmt-literal (c ∷ t) fmt args (ne, l) =
    loop-literal (length (t ++ fmt)) c (t ++ fmt) args ne
    ∙ ap (append_to (c ∷ [])) (vprintfmt-literal t fmt args l)
    ∙ append_to_cons c t (vprintfmt fmt args)

-- The signed number of 32 digits in a word, without padding.
abbrev pub decimal : ℕ → List ℕ
decimal w = if ltb w (2 ^ 31) then printnum w 10 0 b' ' else b'-' ∷ printnum (2 ^ 32 - w) 10 0 b' '

escape-decimal :
    (w : ℕ) (fmt : List ℕ) (args : List Arg)
    → put_escape (b'd' ∷ fmt) (word w ∷ args) ≡ some (decimal w, fmt, args)
unfolding put_escape scan read_byte read_flag convert put_signed getint getuint signed
escape-decimal w fmt args = ground arith

pub vprintfmt-decimal :
    (w : ℕ) (fmt : List ℕ) (args : List Arg)
    → vprintfmt (b'%' ∷ b'd' ∷ fmt) (word w ∷ args) ≡ append_to (decimal w) (vprintfmt fmt args)
unfolding vprintfmt
vprintfmt-decimal w fmt args =
    loop-escape (suc (length fmt)) (b'd' ∷ fmt) (word w ∷ args) (decimal w) fmt args
      (escape-decimal w fmt args)
    ∙ ap (append_to (decimal w))
        (two_fuels (suc (length fmt)) (length fmt) fmt args (omega arith) (omega arith))

strtol-decimal :
    (w : ℕ)
    → w < 2 ^ 32
    → w ≢ 2 ^ 31
    → strtol (decimal w) 10 ≡ some ((signed 32 w).0, (signed 32 w).1, [])
unfolding signed
strtol-decimal w h ne = elim (dec_lt w (2 ^ 31)) [
  | yes l ↦ let p = strtol-printnum w 10 (omega arith) (omega arith) l in ground (arith, p)
  | no n ↦ let p = strtol-minus (2 ^ 32 - w) (omega (arith, ne)) in ground (arith, p)
]

-- What "%d" puts out for an int above the least one is what `strtol` reads back, sign and size, up to
-- the end of the text.
pub strtol-vprintfmt :
    (w : ℕ)
    → w < 2 ^ 32
    → w ≢ 2 ^ 31
    → (text : List ℕ) × (vprintfmt (b'%' ∷ b'd' ∷ []) (word w ∷ []) ≡ some text)
      × (strtol text 10 ≡ some ((signed 32 w).0, (signed 32 w).1, []))
unfolding signed vprintfmt vprintfmt_loop
strtol-vprintfmt w h ne =
    (decimal w, vprintfmt-decimal w [] [] ∙ ap some (append-nil (decimal w)), strtol-decimal w h ne)
