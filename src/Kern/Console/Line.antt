-- ===== src/Kern/Console/Line.antt =====
-- 3-sched/lib/readline.c: the line that is read.
use sistemas_operativos_fiub.Common.{
  ℕ, ◌+◌, ◌-◌, ◌≡◌, ◌≢◌, refl, sym, ap, ◌∙◌, ◌<◌, inl, inr, none, some, List, [], ◌∷◌, ◌++◌, arith,
  length, length-append, take, length-take, Option-cases, some-injective, none-ne-some,
}
use mathlib.Core.List.{append_assoc, append-nil}
use sistemas_operativos_fiub.Kern.Chain.{All}
use sistemas_operativos_fiub.Kern.Console.{edit, readline_loop, readline}

-- A round keeps the line shorter than the buffer.
edit_fits :
    (c : ℕ) (line echo line' echo' : List ℕ)
    → length line < 1024
    → edit c line echo ≡ some (line', echo')
    → length line' < 1024
unfolding edit
edit_fits c line echo line' echo' h e =
    ground (arith, e, length-append line (c ∷ []), length-take (length line - 1) line)

loop-ends :
    (c : ℕ) (line echo input : List ℕ)
    → edit c line echo ≡ none
    → readline_loop line echo (c ∷ input) ≡ some (line, echo ++ (b'\n' ∷ []), input)
unfolding readline_loop
loop-ends c line echo input e = rw (readline_loop, e) refl

loop-goes_on :
    (c : ℕ) (line echo input line' echo' : List ℕ)
    → edit c line echo ≡ some (line', echo')
    → readline_loop line echo (c ∷ input) ≡ readline_loop line' echo' input
unfolding readline_loop
loop-goes_on c line echo input line' echo' e = rw (readline_loop, e) refl

readline_loop_fits :
    (input line echo out echoed rest : List ℕ)
    → length line < 1024
    → readline_loop line echo input ≡ some (out, echoed, rest)
    → length out < 1024
unfolding readline_loop
readline_loop_fits [] line echo out echoed rest h e =
    absurd (none-ne-some (out, echoed, rest) (sym e))
readline_loop_fits (c ∷ input) line echo out echoed rest h e =
    elim (Option-cases (edit c line echo)) [
      | inl q ↦
          let same =
            ap (λ (x : List ℕ × List ℕ × List ℕ). length x.0)
              (some-injective (sym (loop-ends c line echo input q) ∙ e)) in
          omega (arith, same, h)
      | inr ((line', echo'), q) ↦
          readline_loop_fits input line' echo' out echoed rest
            (edit_fits c line echo line' echo' h q)
            (sym (loop-goes_on c line echo input line' echo' q) ∙ e)
    ]

-- Whatever is typed, the line that `readline` gives has room in its buffer with the NUL behind it.
pub readline_fits :
    (input out echoed rest : List ℕ) → readline input ≡ some (out, echoed, rest) → length out < 1024
unfolding readline
readline_fits input out echoed rest e =
    readline_loop_fits input [] [] out echoed rest (omega arith) e

-- A character that is put into the line and does not erase.
abbrev pub IsPrinted : ℕ → Type 0
IsPrinted c = (31 < c) × (c ≢ 0x7f)

edit-printed :
    (c : ℕ) (line echo : List ℕ)
    → IsPrinted c
    → length line < 1023
    → edit c line echo ≡ some (line ++ (c ∷ []), echo ++ (c ∷ []))
unfolding edit
edit-printed c line echo (p, n) h = ground (arith, p, n, h)

typed :
    (t line echo more : List ℕ)
    → All IsPrinted t
    → length line + length t < 1024
    → readline_loop line echo (t ++ more) ≡ readline_loop (line ++ t) (echo ++ t) more
typed [] line echo more a h = rw (append-nil line, append-nil echo) refl
typed (c ∷ t) line echo more (p, a) h =
    loop-goes_on c line echo (t ++ more) (line ++ (c ∷ [])) (echo ++ (c ∷ []))
      (edit-printed c line echo p (omega (arith, h)))
    ∙ typed t (line ++ (c ∷ [])) (echo ++ (c ∷ [])) more a
        (omega (arith, h, length-append line (c ∷ [])))
    ∙ rw (append_assoc line (c ∷ []) t, append_assoc echo (c ∷ []) t) refl

take-append_one :
    (line : List ℕ) (x : ℕ) → take (length (line ++ (x ∷ [])) - 1) (line ++ (x ∷ [])) ≡ line
take-append_one line x =
    let e : length (line ++ (x ∷ [])) - 1 ≡ length line =
      omega (arith, length-append line (x ∷ [])) in
    rw e (take_all line (x ∷ []))
  where
    take_all : (xs ys : List ℕ) → take (length xs) (xs ++ ys) ≡ xs
    take_all [] ys = refl
    take_all (x ∷ xs) ys = ap (λ (l : List ℕ). x ∷ l) (take_all xs ys)

edit-newline : (line echo : List ℕ) → edit b'\n' line echo ≡ none
unfolding edit
edit-newline line echo = ground arith

edit-erases :
    (line echo : List ℕ)
    → 0 < length line
    → edit 0x7f line echo ≡ some (take (length line - 1) line, echo ++ (8 ∷ []))
unfolding edit
edit-erases line echo h = ground (arith, h)

-- Printed characters, one more, the key that erases it, printed characters again and the end of the line:
-- the line is what was printed without the erased character, if it has room with it, and the
-- characters behind the end are left.
pub readline-erased :
    (t : List ℕ) (x : ℕ) (u rest : List ℕ)
    → All IsPrinted t
    → IsPrinted x
    → All IsPrinted u
    → length t < 1023
    → length t + length u < 1024
    → (echoed : List ℕ) × (readline (t ++ (x ∷ 0x7f ∷ (u ++ (b'\n' ∷ rest))))
        ≡ some (t ++ u, echoed, rest))
unfolding readline
readline-erased t x u rest a p b small room =
    let back : edit 0x7f (t ++ (x ∷ [])) (t ++ (x ∷ [])) ≡ some (t, (t ++ (x ∷ [])) ++ (8 ∷ [])) =
      edit-erases (t ++ (x ∷ [])) (t ++ (x ∷ [])) (omega (arith, length-append t (x ∷ [])))
      ∙ ap (λ (l : List ℕ). some (l, (t ++ (x ∷ [])) ++ (8 ∷ []))) (take-append_one t x) in
    (
      _,
      typed t [] [] (x ∷ 0x7f ∷ (u ++ (b'\n' ∷ rest))) a (omega (arith, room))
          ∙ loop-goes_on x t t (0x7f ∷ (u ++ (b'\n' ∷ rest))) (t ++ (x ∷ [])) (t ++ (x ∷ []))
              (edit-printed x t t p small)
          ∙ loop-goes_on 0x7f (t ++ (x ∷ [])) (t ++ (x ∷ [])) (u ++ (b'\n' ∷ rest)) t
              ((t ++ (x ∷ [])) ++ (8 ∷ [])) back
          ∙ typed u t ((t ++ (x ∷ [])) ++ (8 ∷ [])) (b'\n' ∷ rest) b room
          ∙ loop-ends b'\n' (t ++ u) (((t ++ (x ∷ [])) ++ (8 ∷ [])) ++ u) rest
              (edit-newline (t ++ u) (((t ++ (x ∷ [])) ++ (8 ∷ [])) ++ u)),
    )
