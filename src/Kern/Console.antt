-- ===== src/Kern/Console.antt =====
-- 3-sched/kern/console.c and lib/readline.c: the buffer of input characters, the screen, and the
-- reading of a line. What a device gives is the list of what its procedure returns until -1. The
-- ports of the devices are left out.
pub mod Ring
pub mod Screen
pub mod Line
use sistemas_operativos_fiub.Common.{
  ℕ, zero, suc, ◌+◌, ◌-◌, ◌*◌, ◌%◌, ◌^◌, Bool, true, false, ◌&&◌, ◌||◌, not, Option, none, some,
  List, [], ◌∷◌, ◌++◌, ◌==◌, ltb, leb, if◌then◌else◌, update, length, take,
}

abbrev pub consbufsize : ℕ
consbufsize = 512

-- `cons`
pub record Cons : Type 0 where
  pub buf : ℕ → ℕ
  pub rpos : ℕ
  pub wpos : ℕ

abbrev pub wrapped : ℕ → ℕ
wrapped pos = if pos == consbufsize then 0 else pos

-- A round of the loop of `cons_intr`; the buffer holds bytes.
unfoldable pub cons_put : ℕ → Cons → Cons
cons_put c k =
    if c == 0
    then k
    else record k { buf = update k.buf k.wpos (c % 2 ^ 8); wpos = wrapped (k.wpos + 1) }

unfoldable pub cons_intr : List ℕ → Cons → Cons
cons_intr [] k = k
cons_intr (c ∷ proc) k = cons_intr proc (cons_put c k)

-- The next character from the buffer, or 0.
unfoldable pub cons_take : Cons → ℕ × Cons
cons_take k =
    if not (k.rpos == k.wpos)
    then (k.buf k.rpos, record k { rpos = wrapped (k.rpos + 1) })
    else (0, k)

-- What `cons_getc` returns, 0 if no character waits, for what the two devices have.
unfoldable pub cons_getc : List ℕ → List ℕ → Cons → ℕ × Cons
cons_getc serial kbd k = cons_take (cons_intr kbd (cons_intr serial k))

-- The byte of the key that erases.
abbrev pub backspace : ℕ
backspace = 8

abbrev pub crt_cols : ℕ
crt_cols = 80

abbrev pub crt_size : ℕ
crt_size = 25 * 80

-- `crt_buf` and `crt_pos`
pub record Crt : Type 0 where
  pub cells : ℕ → ℕ
  pub pos : ℕ

-- The rows move up by `memmove`, and the last one is made blank.
unfoldable pub scroll : Crt → Crt
scroll s =
    if leb crt_size s.pos
    then record {
      cells = λ j.
          if ltb j (crt_size - crt_cols)
          then s.cells (j + crt_cols)
          else if ltb j crt_size
          then 0x0720
          else s.cells j;
      pos = s.pos - crt_cols;
    }
    else s

-- The attribute black on white, where there is none.
unfoldable pub with_attribute : ℕ → ℕ
with_attribute c = if ltb c (2 ^ 8) then c + 0x0700 else c

-- The cases of the switch but for '\t'; `c` has its attribute.
unfoldable pub put_cell : ℕ → Crt → Crt
put_cell c s =
    if c % 2 ^ 8 == backspace
    then (if ltb 0 s.pos
        then record {
          cells = update s.cells (s.pos - 1) ((c - c % 2 ^ 8 + b' ') % 2 ^ 16);
          pos = s.pos - 1;
        }
        else s)
    else if c % 2 ^ 8 == b'\n'
    then record s { pos = s.pos + crt_cols - (s.pos + crt_cols) % crt_cols }
    else if c % 2 ^ 8 == b'\r'
    then record s { pos = s.pos - s.pos % crt_cols }
    else record { cells = update s.cells s.pos (c % 2 ^ 16); pos = s.pos + 1 }

unfoldable pub put_blank : Crt → Crt
put_blank s = scroll (put_cell (with_attribute b' ') s)

unfoldable pub cga_putc : ℕ → Crt → Crt
cga_putc c s =
    if with_attribute c % 2 ^ 8 == b'\t'
    then scroll (put_blank (put_blank (put_blank (put_blank (put_blank s)))))
    else scroll (put_cell (with_attribute c) s)

abbrev pub readline_buflen : ℕ
readline_buflen = 1024

-- A round of the loop of `readline`: the bytes of `buf` before `i`, and what was echoed; `none` where
-- the line ends.
unfoldable pub edit : ℕ → List ℕ → List ℕ → Option (List ℕ × List ℕ)
edit c line echo =
    if (c == backspace || c == 0x7f) && ltb 0 (length line)
    then some (take (length line - 1) line, echo ++ (backspace ∷ []))
    else if leb b' ' c && ltb (length line) (readline_buflen - 1)
    then some (line ++ (c ∷ []), echo ++ (c ∷ []))
    else if c == b'\n' || c == b'\r'
    then none
    else some (line, echo)

-- The characters come from `getchar`, which gives none below 0. The loop gives the line, the echo and
-- the characters behind the line, or `none` where it goes on to wait.
unfoldable pub readline_loop : List ℕ → List ℕ → List ℕ → Option (List ℕ × List ℕ × List ℕ)
readline_loop line echo [] = none
readline_loop line echo (c ∷ input) = elim (edit c line echo) [
  | none ↦ some (line, echo ++ (b'\n' ∷ []), input)
  | some (line', echo') ↦ readline_loop line' echo' input
]

unfoldable pub readline : List ℕ → Option (List ℕ × List ℕ × List ℕ)
readline input = readline_loop [] [] input
