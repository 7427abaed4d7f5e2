-- ===== src/Kern/Text/Output/Flush.antt =====
-- 3-sched/lib/printf.c: what the buffer of `vcprintf` holds and what has gone to the system.
use sistemas_operativos_fiub.Common.{
  ℕ, ◌≡◌, ◌≢◌, refl, sym, ap, ◌∙◌, ◌<◌, List, [], ◌∷◌, ◌++◌, arith, length, length-append,
}
use mathlib.Core.List.{append-nil}
use native.Mathlib.Decide.{ℕ_discrete}
use sistemas_operativos_fiub.Kern.Text.Output.{count_up, PrintBuf, putch, put_all}

-- The bytes of the calls, the last call first.
abbrev pub flatten : List (List ℕ) → List ℕ
flatten [] = []
flatten (c ∷ calls) = flatten calls ++ c

abbrev pub AllShort : List (List ℕ) → Type 0
AllShort [] = Unit {0}
AllShort (c ∷ calls) = (length c < 256) × AllShort calls

pub record IsFlushed (b : PrintBuf) (out : List ℕ) (r : PrintBuf) : Type 0 where
  pub waits : length r.waiting < 255
  pub short : AllShort r.calls
  pub printed : flatten r.calls ++ r.waiting ≡ (flatten b.calls ++ b.waiting) ++ out

regroup :
    (xs ys out : List ℕ) (ch : ℕ) → (xs ++ (ys ++ (ch ∷ []))) ++ out ≡ (xs ++ ys) ++ (ch ∷ out)
regroup [] [] out ch = refl
regroup [] (y ∷ ys) out ch = ap (λ (l : List ℕ). y ∷ l) (regroup [] ys out ch)
regroup (x ∷ xs) ys out ch = ap (λ (l : List ℕ). x ∷ l) (regroup xs ys out ch)

putch-full :
    (ch : ℕ) (b : PrintBuf)
    → length (b.waiting ++ (ch ∷ [])) ≡ 255
    → putch ch b
      ≡ record { waiting = []; cnt = count_up b.cnt; calls = (b.waiting ++ (ch ∷ [])) ∷ b.calls }
unfolding putch
putch-full ch b e = ground (arith, e)

putch-open :
    (ch : ℕ) (b : PrintBuf)
    → length (b.waiting ++ (ch ∷ [])) ≢ 255
    → putch ch b
      ≡ record { waiting = b.waiting ++ (ch ∷ []); cnt = count_up b.cnt; calls = b.calls }
unfolding putch
putch-open ch b ne = ground (arith, ne)

pub put_all-IsFlushed :
    (out : List ℕ) (b : PrintBuf)
    → length b.waiting < 255
    → AllShort b.calls
    → IsFlushed b out (put_all out b)
unfolding put_all
put_all-IsFlushed [] b h s = record {
  waits = h;
  short = s;
  printed = sym (append-nil (flatten b.calls ++ b.waiting));
}
put_all-IsFlushed (ch ∷ out) b h s = elim (ℕ_discrete (length (b.waiting ++ (ch ∷ []))) 255) [
  | yes e ↦
      let f =
        put_all-IsFlushed out
          (record {
            waiting = [];
            cnt = count_up b.cnt;
            calls = (b.waiting ++ (ch ∷ [])) ∷ b.calls;
          })
          (omega arith) (omega (arith, e), s) in
      rw (put_all, putch-full ch b e)
        (record {
          waits = f.waits;
          short = f.short;
          printed =
              f.printed
              ∙ ap (λ (l : List ℕ). l ++ out)
                  (append-nil (flatten b.calls ++ (b.waiting ++ (ch ∷ []))))
              ∙ regroup (flatten b.calls) b.waiting out ch;
        })
  | no ne ↦
      let f =
        put_all-IsFlushed out
          (record { waiting = b.waiting ++ (ch ∷ []); cnt = count_up b.cnt; calls = b.calls })
          (omega (arith, h, ne, length-append b.waiting (ch ∷ []))) s in
      rw (put_all, putch-open ch b ne)
        (record {
          waits = f.waits;
          short = f.short;
          printed = f.printed ∙ regroup (flatten b.calls) b.waiting out ch;
        })
]
