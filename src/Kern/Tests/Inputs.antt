-- ===== src/Kern/Tests/Inputs.antt =====
-- A small input buffer, screen and line, and the theorems there.
use sistemas_operativos_fiub.Common.{ℕ, ◌≡◌, refl, some, List, [], ◌∷◌, ◌++◌, arith, update}
use sistemas_operativos_fiub.Kern.Console.{
  Cons, cons_put, cons_intr, cons_take, cons_getc, Crt, scroll, with_attribute, put_cell, cga_putc,
  edit, readline_loop, readline,
}
use sistemas_operativos_fiub.Kern.Console.Ring.{Holds, Takes, kept, cons_getc-Takes}
use sistemas_operativos_fiub.Kern.Console.Screen.{OnScreen, cga_putc-OnScreen}
use sistemas_operativos_fiub.Kern.Console.Line.{readline-erased}

-- An empty buffer, at its last place.
abbrev ring : Cons
ring = record { buf = λ j. 0; rpos = 511; wpos = 511 }

ring-Holds : Holds ring []
ring-Holds = record {
  reads = omega arith;
  fits = omega arith;
  place = omega arith;
  bytes = λ i l. absurd (omega arith);
}

second_is_b : (cons_take (cons_getc (b'a' ∷ b'b' ∷ []) [] ring).1).0 ≡ b'b'
unfolding cons_getc cons_intr cons_put cons_take update
second_is_b = refl

cons_getc-Takes_example :
    Takes
      (cons_getc (b'a' ∷ b'b' ∷ []) (0 ∷ b'c' ∷ []) ring).0
      (cons_getc (b'a' ∷ b'b' ∷ []) (0 ∷ b'c' ∷ []) ring).1
      (([] ++ kept (b'a' ∷ b'b' ∷ [])) ++ kept (0 ∷ b'c' ∷ []))
cons_getc-Takes_example =
    cons_getc-Takes (b'a' ∷ b'b' ∷ []) (0 ∷ b'c' ∷ []) ring [] (omega arith, (omega arith, tt))
      (omega arith, (omega arith, tt)) ring-Holds (omega arith)

-- The cursor is at the last cell.
abbrev screen : Crt
screen = record { cells = λ j. 0; pos = 1999 }

cga_putc-OnScreen_example : OnScreen screen (cga_putc b'x' screen)
cga_putc-OnScreen_example =
    cga_putc-OnScreen screen screen b'x' (record { inside = omega arith; behind = λ j l. refl })

moves_to_last_row : (cga_putc b'x' screen).pos ≡ 1920
unfolding cga_putc scroll put_cell with_attribute
moves_to_last_row = refl

-- The erasing key at the start of a line is put into the line.
keeps_del :
    readline (0x7f ∷ b'a' ∷ b'\n' ∷ []) ≡ some (0x7f ∷ b'a' ∷ [], 0x7f ∷ b'a' ∷ b'\n' ∷ [], [])
unfolding readline readline_loop edit
keeps_del = refl

readline-erased_example :
    (echoed : List ℕ) × (readline ((b'l' ∷ []) ++ (b'd' ∷ 0x7f ∷ ((b's' ∷ []) ++ (b'\n' ∷ []))))
      ≡ some ((b'l' ∷ []) ++ (b's' ∷ []), echoed, []))
readline-erased_example =
    readline-erased (b'l' ∷ []) b'd' (b's' ∷ []) [] ((omega arith, omega arith), tt)
      (omega arith, omega arith) ((omega arith, omega arith), tt) (omega arith) (omega arith)
