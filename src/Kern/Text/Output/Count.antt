-- ===== src/Kern/Text/Output/Count.antt =====
-- 3-sched/lib/printfmt.c and lib/printf.c: the int that counts the bytes of an output.
use sistemas_operativos_fiub.Common.{
  ℕ, ◌+◌, ◌^◌, ◌≡◌, refl, ap, ◌∙◌, ◌<◌, ◌≤◌, Option, none, some, List, [], ◌∷◌, arith, length,
  inc_int,
}
use native.Mathlib.Decide.{dec_lt}
use sistemas_operativos_fiub.Kern.Text.Output.{
  count_up, SprintBuf, sprintputch, sprint_all, PrintBuf, putch, put_all,
}

-- The count after every byte of the output.
counted : List ℕ → Option ℕ → Option ℕ
counted [] c = c
counted (ch ∷ out) c = counted out (count_up c)

sprintputch-cnt : (ebuf ch : ℕ) (b : SprintBuf) → (sprintputch ebuf ch b).cnt ≡ count_up b.cnt
unfolding sprintputch
sprintputch-cnt ebuf ch b = ground arith

sprint_all-counted :
    (ebuf : ℕ) (out : List ℕ) (b : SprintBuf) → (sprint_all ebuf out b).cnt ≡ counted out b.cnt
unfolding sprint_all counted
sprint_all-counted ebuf [] b = refl
sprint_all-counted ebuf (ch ∷ out) b =
    sprint_all-counted ebuf out (sprintputch ebuf ch b)
    ∙ ap (counted out) (sprintputch-cnt ebuf ch b)

putch-cnt : (ch : ℕ) (b : PrintBuf) → (putch ch b).cnt ≡ count_up b.cnt
unfolding putch
putch-cnt ch b = ground arith

put_all-counted : (out : List ℕ) (b : PrintBuf) → (put_all out b).cnt ≡ counted out b.cnt
unfolding put_all counted
put_all-counted [] b = refl
put_all-counted (ch ∷ out) b = put_all-counted out (putch ch b) ∙ ap (counted out) (putch-cnt ch b)

count_up-some : (c : ℕ) → c + 1 < 2 ^ 31 → count_up (some c) ≡ some (c + 1)
unfolding count_up inc_int
count_up-some c h = ground (arith, h)

count_up-none : (c : ℕ) → 2 ^ 31 ≤ c + 1 → count_up (some c) ≡ none
unfolding count_up inc_int
count_up-none c h = ground (arith, h)

counted-none : (out : List ℕ) → counted out none ≡ none
unfolding counted count_up
counted-none [] = refl
counted-none (ch ∷ out) = counted-none out

counted-some :
    (out : List ℕ) (c : ℕ) → c + length out < 2 ^ 31 → counted out (some c) ≡ some (c + length out)
unfolding counted
counted-some [] c h = ap some (omega arith)
counted-some (ch ∷ out) c h =
    ap (counted out) (count_up-some c (omega arith))
    ∙ counted-some out (c + 1) (omega arith)
    ∙ ap some (omega arith)

counted-overflows :
    (out : List ℕ) (c : ℕ) → c < 2 ^ 31 → 2 ^ 31 ≤ c + length out → counted out (some c) ≡ none
unfolding counted
counted-overflows [] c small h = absurd (omega arith)
counted-overflows (ch ∷ out) c small h = elim (dec_lt (c + 1) (2 ^ 31)) [
  | yes below ↦
      ap (counted out) (count_up-some c below) ∙ counted-overflows out (c + 1) below (omega arith)
  | no reached ↦ ap (counted out) (count_up-none c (omega arith)) ∙ counted-none out
]

-- From 0, an output below 2 ^ 31 bytes is counted, and a longer one overflows the int.
pub sprint_all-cnt :
    (ebuf : ℕ) (out : List ℕ) (b : SprintBuf)
    → b.cnt ≡ some 0
    → length out < 2 ^ 31
    → (sprint_all ebuf out b).cnt ≡ some (length out)
sprint_all-cnt ebuf out b e h =
    sprint_all-counted ebuf out b
    ∙ ap (counted out) e
    ∙ counted-some out 0 (omega arith)
    ∙ ap some (omega arith)

pub sprint_all-overflows :
    (ebuf : ℕ) (out : List ℕ) (b : SprintBuf)
    → b.cnt ≡ some 0
    → 2 ^ 31 ≤ length out
    → (sprint_all ebuf out b).cnt ≡ none
sprint_all-overflows ebuf out b e h =
    sprint_all-counted ebuf out b
    ∙ ap (counted out) e
    ∙ counted-overflows out 0 (omega arith) (omega arith)

pub put_all-cnt :
    (out : List ℕ) (b : PrintBuf)
    → b.cnt ≡ some 0
    → length out < 2 ^ 31
    → (put_all out b).cnt ≡ some (length out)
put_all-cnt out b e h =
    put_all-counted out b
    ∙ ap (counted out) e
    ∙ counted-some out 0 (omega arith)
    ∙ ap some (omega arith)

pub put_all-overflows :
    (out : List ℕ) (b : PrintBuf)
    → b.cnt ≡ some 0
    → 2 ^ 31 ≤ length out
    → (put_all out b).cnt ≡ none
put_all-overflows out b e h =
    put_all-counted out b ∙ ap (counted out) e ∙ counted-overflows out 0 (omega arith) (omega arith)
