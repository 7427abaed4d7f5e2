-- ===== src/Kern/Text/Output.antt =====
-- 3-sched/lib/printfmt.c and lib/printf.c: the buffers that formatted output goes to.
pub mod Count
pub mod Flush
pub mod Buffer
use sistemas_operativos_fiub.Common.{
  inc_int, ℕ, zero, suc, ◌+◌, ◌-◌, ◌*◌, ◌%◌, ◌^◌, Bool, true, false, ◌&&◌, ◌||◌, not, Option, none,
  some, List, [], ◌∷◌, ◌++◌, ◌==◌, ltb, leb, if◌then◌else◌, update, length, replicate, take,
}
use mathlib.Core.Option
use sistemas_operativos_fiub.Kern.Text.Escape.{Arg}
use sistemas_operativos_fiub.Kern.Text.Format.{vprintfmt}

-- `cnt++` for an int, where `none` stands for one that has overflowed.
unfoldable pub count_up : Option ℕ → Option ℕ
count_up none = none
count_up (some n) = inc_int n

-- `struct sprintbuf`: the number of bytes in the buffer, the buffer, and the count.
pub record SprintBuf : Type 0 where
  pub buf : ℕ
  pub bytes : ℕ → ℕ
  pub cnt : Option ℕ

-- For a buffer whose last byte is at `ebuf`.
unfoldable pub sprintputch : ℕ → ℕ → SprintBuf → SprintBuf
sprintputch ebuf ch b =
    if ltb b.buf ebuf
    then record { buf = b.buf + 1; bytes = update b.bytes b.buf ch; cnt = count_up b.cnt }
    else record b { cnt = count_up b.cnt }

unfoldable pub sprint_all : ℕ → List ℕ → SprintBuf → SprintBuf
sprint_all ebuf [] b = b
sprint_all ebuf (ch ∷ out) b = sprint_all ebuf out (sprintputch ebuf ch b)

-- What `vsnprintf` returns, `none` for -E_INVAL, and the buffer after it; `none` where C leaves it
-- undefined. `n` is an int, as its 32 bits.
unfoldable pub vsnprintf : Bool → (ℕ → ℕ) → ℕ → List ℕ → List Arg → Option (Option ℕ × (ℕ → ℕ))
vsnprintf is_null_buf bytes n fmt args =
    if is_null_buf || ltb n 1 || leb (2 ^ 31) n
    then some (none, bytes)
    else elim (vprintfmt fmt args) [
      | none ↦ none
      | some out ↦
          let b = sprint_all (n - 1) out (record { buf = 0; bytes = bytes; cnt = some 0 }) in
          Option.map (λ cnt. (some cnt, update b.bytes b.buf 0)) b.cnt
    ]

-- `struct printbuf` of lib/printf.c, and what was printed by calls of `sys_cputs`, the last first.
pub record PrintBuf : Type 0 where
  pub waiting : List ℕ
  pub cnt : Option ℕ
  pub calls : List (List ℕ)

-- The buffer has 256 bytes.
unfoldable pub putch : ℕ → PrintBuf → PrintBuf
putch ch b =
    let waiting = b.waiting ++ (ch ∷ []) in
    if length waiting == 256 - 1
    then record { waiting = []; cnt = count_up b.cnt; calls = waiting ∷ b.calls }
    else record { waiting = waiting; cnt = count_up b.cnt; calls = b.calls }

unfoldable pub put_all : List ℕ → PrintBuf → PrintBuf
put_all [] b = b
put_all (ch ∷ out) b = put_all out (putch ch b)

-- What `vcprintf` returns and its calls of `sys_cputs`.
unfoldable pub vcprintf : List ℕ → List Arg → Option (ℕ × List (List ℕ))
vcprintf fmt args = elim (vprintfmt fmt args) [
  | none ↦ none
  | some out ↦
      let b = put_all out (record { waiting = []; cnt = some 0; calls = [] }) in
      Option.map (λ cnt. (cnt, b.waiting ∷ b.calls)) b.cnt
]
