-- ===== src/Shell/Lines.antt =====
-- 2-shell/parsing.c: lines with pipes and background commands.
pub mod Pipes
use sistemas_operativos_fiub.Common.{
  ℕ, zero, suc, ◌-◌, Option, none, some, List, [], ◌∷◌, ◌==◌, if◌then◌else◌,
}
use sistemas_operativos_fiub.Shell.Parsing.{
  Environ, ExecCmd, Cmd, null_cmd, exec_cmd, back_cmd, pipe_cmd, block_contains, before_char,
  split_line, parse_exec,
}

-- `back_cmd_create` copies the text of the command that it holds.
unfoldable pub back_cmd_create : ExecCmd → Cmd
back_cmd_create c = back_cmd c.scmd c

unfoldable pub pipe_cmd_create : Cmd → Cmd → Cmd
pipe_cmd_create left null_cmd = left
pipe_cmd_create left (exec_cmd c) = pipe_cmd left (exec_cmd c)
pipe_cmd_create left (back_cmd s c) = pipe_cmd left (back_cmd s c)
pipe_cmd_create left (pipe_cmd l r) = pipe_cmd left (pipe_cmd l r)

abbrev exec_of : Option ExecCmd → Option Cmd
exec_of none = none
exec_of (some c) = some (exec_cmd c)

abbrev back_of : Option ExecCmd → Option Cmd
back_of none = none
back_of (some c) = some (back_cmd_create c)

unfoldable pub parse_back : Environ → List ℕ → Option Cmd
parse_back env buf_cmd = back_of (parse_exec env (before_char buf_cmd b'&'))

-- `buf[idx - 1]`, where `before` is the byte that stands before the string in memory.
unfoldable pub byte_before : ℕ → List ℕ → ℕ → ℕ
byte_before before buf zero = before
byte_before before [] (suc i) = 0
byte_before before (x ∷ buf) (suc i) = byte_before x buf i

-- NULL for an empty string; `none` where a command has too many arguments.
unfoldable pub parse_cmd : Environ → ℕ → List ℕ → Option Cmd
parse_cmd env before [] = some null_cmd
parse_cmd env before (x ∷ buf) = elim (block_contains (x ∷ buf) b'&') [
  | none ↦ exec_of (parse_exec env (x ∷ buf))
  | some idx ↦
      if byte_before before (x ∷ buf) idx == b'>'
      then exec_of (parse_exec env (x ∷ buf))
      else parse_back env (x ∷ buf)
]

unfoldable pub join_cmds : Option Cmd → Option Cmd → Option Cmd
join_cmds none r = none
join_cmds (some l) none = none
join_cmds (some l) (some r) = some (pipe_cmd_create l r)

-- The branch on the search for a pipe in the right part.
unfoldable pub pick_right : Option ℕ → Option Cmd → Option Cmd → Option Cmd
pick_right (some i) line cmd = line
pick_right none line cmd = cmd

-- Fuel for the commands of the line. What stands before the right part is the NUL that
-- `split_line` puts there or a space.
unfoldable pub parse_line : Environ → ℕ → ℕ → List ℕ → Option Cmd
parse_line env zero before buf = none
parse_line env (suc n) before buf =
    let (left, right) = split_line buf b'|' in
    let rest = parse_line env n 0 right in
    join_cmds (parse_cmd env before left)
      (pick_right (block_contains right b'|') rest (parse_cmd env 0 right))
