-- ===== src/Kern/Console/Screen.antt =====
-- 3-sched/kern/console.c: the cursor stays on the screen.
use sistemas_operativos_fiub.Common.{
  ℕ, ◌+◌, ◌%◌, ◌^◌, ◌≡◌, ◌∙◌, ◌<◌, ◌≤◌, arith, ◌==◌, update, Bool-cases, inl, inr,
}
use sistemas_operativos_fiub.Kern.Console.{
  crt_cols, crt_size, Crt, scroll, with_attribute, put_cell, put_blank, cga_putc,
}

-- The cursor is on the screen, and the memory behind the screen is as it was.
pub record OnScreen (before s : Crt) : Type 0 where
  pub inside : s.pos < crt_size
  pub behind : (j : ℕ) → crt_size ≤ j → s.cells j ≡ before.cells j

-- A round of `cga_putc` without the switch's '\t'.
put_cell-pos : (c : ℕ) (s : Crt) → s.pos < crt_size → (put_cell c s).pos < crt_size + crt_cols
unfolding put_cell
put_cell-pos c s h = ground arith

put_cell-behind :
    (c : ℕ) (s : Crt) (j : ℕ) → s.pos < crt_size → crt_size ≤ j → (put_cell c s).cells j ≡ s.cells j
unfolding put_cell update
put_cell-behind c s j h l = ground arith

scroll-pos : (s : Crt) → s.pos < crt_size + crt_cols → (scroll s).pos < crt_size
unfolding scroll
scroll-pos s h = ground arith

scroll-behind : (s : Crt) (j : ℕ) → crt_size ≤ j → (scroll s).cells j ≡ s.cells j
unfolding scroll
scroll-behind s j l = ground arith

scrolled : (before s : Crt) (c : ℕ) → OnScreen before s → OnScreen before (scroll (put_cell c s))
scrolled before s c o = record {
  inside = scroll-pos (put_cell c s) (put_cell-pos c s o.inside);
  behind =
      λ j l. scroll-behind (put_cell c s) j l ∙ put_cell-behind c s j o.inside l ∙ o.behind j l;
}

put_blank-OnScreen : (before s : Crt) → OnScreen before s → OnScreen before (put_blank s)
unfolding put_blank
put_blank-OnScreen before s o = scrolled before s (with_attribute b' ') o

put_tab-OnScreen :
    (before s : Crt)
    → OnScreen before s
    → OnScreen before (scroll (put_blank (put_blank (put_blank (put_blank (put_blank s))))))
put_tab-OnScreen before s o =
    let b = put_blank-OnScreen before in
    let t : Crt = put_blank (put_blank (put_blank (put_blank (put_blank s)))) in
    let q = b (put_blank (put_blank (put_blank (put_blank s)))) (
      b (put_blank (put_blank (put_blank s)))
        (b (put_blank (put_blank s)) (b (put_blank s) (b s o)))) in
    record {
      inside = scroll-pos t (omega (arith, q.inside));
      behind = λ j l. scroll-behind t j l ∙ q.behind j l;
    }

-- `cga_putc` of any character leaves the cursor on the screen, where it was there before, and writes
-- only to the screen.
pub cga_putc-OnScreen :
    (before s : Crt) (c : ℕ) → OnScreen before s → OnScreen before (cga_putc c s)
unfolding cga_putc
cga_putc-OnScreen before s c o = elim (Bool-cases (with_attribute c % 2 ^ 8 == b'\t')) [
  | inl q ↦ rw (cga_putc, q) (put_tab-OnScreen before s o)
  | inr q ↦ rw (cga_putc, q) (scrolled before s (with_attribute c) o)
]
