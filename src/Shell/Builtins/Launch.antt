-- ===== src/Shell/Builtins/Launch.antt =====
-- 2-shell/builtin.c and runcmd.c: which lines are builtin commands, and the processes of the others.
use sistemas_operativos_fiub.Common.{
  ℕ, suc, ◌≡◌, ◌↔◌, refl, ap, ◌∙◌, ◌≤◌, true, false, List, [], ◌∷◌, ◌++◌, arith, length,
  length-append, ◌==◌, if◌then◌else◌,
}
use sistemas_operativos_fiub.Shell.Parsing.{ExecCmd}
use sistemas_operativos_fiub.Shell.Lines.Pipes.{
  StartsPlain, IsSimple, AllSimple, join_pipes, pipeline, StartsPlain-join_pipes,
  parse_line-pipeline,
}
use sistemas_operativos_fiub.Shell.Exec.{Object, Fds, Vars, System, exec_tree}
use sistemas_operativos_fiub.Shell.Exec.Descriptors.{stdio}
use sistemas_operativos_fiub.Shell.Exec.Wiring.{
  Grants, IsPlain, AllPlain, wired, exec_tree-pipeline,
}
use sistemas_operativos_fiub.Shell.Builtins.{
  Session, starts, Terminal, contains_command, exit_shell, history, pwd, cd, launch, line_environ,
  run_parsed, run_pwd, run_cd, run_cmd,
}

contains_command_sound :
    (str command : List ℕ)
    → contains_command str command ≡ true
    → (rest : List ℕ) × (str ≡ command ++ rest)
unfolding contains_command
contains_command_sound str [] h = (str, refl)
contains_command_sound [] (d ∷ command) h = cc
contains_command_sound (c ∷ str) (d ∷ command) h =
    let (e, h') = both c d str command h in
    let (rest, p) = contains_command_sound str command h' in (rest, rw (e, p) refl)
  where
    both :
        (c d : ℕ) (str command : List ℕ)
        → (if c == d then contains_command str command else false) ≡ true
        → (c ≡ d) × (contains_command str command ≡ true)
    both c d str command h = ground arith

contains_command-append :
    (command rest : List ℕ) → contains_command (command ++ rest) command ≡ true
unfolding contains_command
contains_command-append [] rest = refl
contains_command-append (d ∷ command) rest = ground (arith, contains_command-append command rest)

-- `contains_command` says whether the string begins with the command.
pub contains_command_lem :
    (str command : List ℕ)
    → (contains_command str command ≡ true) ↔ ((rest : List ℕ) × (str ≡ command ++ rest))
contains_command_lem str command = (
  contains_command_sound str command,
  λ (rest, p). ap (λ x. contains_command x command) p ∙ contains_command-append command rest,
)

-- The line does not begin with a builtin command.
pub record IsExternal (line : List ℕ) : Type 0 where
  pub no_cd : contains_command line (b'c' ∷ b'd' ∷ []) ≡ false
  pub no_exit : contains_command line (b'e' ∷ b'x' ∷ b'i' ∷ b't' ∷ []) ≡ false
  pub no_pwd : contains_command line (b'p' ∷ b'w' ∷ b'd' ∷ []) ≡ false

run_cmd-external :
    (t : Terminal) (line : List ℕ) (s : Session)
    → StartsPlain line
    → IsExternal line
    → run_cmd t line s ≡ run_parsed t line s
unfolding run_cmd run_cd run_pwd history cd pwd exit_shell
run_cmd-external t [] s p x = absurd p
run_cmd-external t (c ∷ line) s p x =
    rw (run_cd, cd, x.no_cd, exit_shell, x.no_exit, run_pwd, pwd, x.no_pwd) refl

length-join_pipes :
    (t : List ℕ) (cs : List (List ℕ × ExecCmd)) → length cs ≤ length (join_pipes t cs)
length-join_pipes t [] = omega arith
length-join_pipes t ((t', c) ∷ cs) =
    omega (arith, length-append t (b'|' ∷ join_pipes t' cs), length-join_pipes t' cs)

launch-pipeline :
    (sys : System) (vars : Vars) (fds : Fds) (s : Session) (c : ExecCmd)
    (cs : List (List ℕ × ExecCmd))
    → launch sys true vars fds s (pipeline c cs)
      ≡ starts false (exec_tree sys [] vars fds (pipeline c cs)) s
unfolding launch
launch-pipeline sys vars fds s c [] = refl
launch-pipeline sys vars fds s c ((t, c') ∷ cs) = refl

-- A line of commands with a pipe between them, which does not begin with a builtin command, and where
-- each command is read by itself, without pipes and '&', and does not start with a space, redirect
-- or set a variable, becomes one process for each command, where the system grants what is asked
-- for and the shell has the descriptors 0, 1 and 2: each program has these descriptors and no
-- other, so no end of a pipe is left open; the first one reads what the shell reads, the last one
-- writes where the shell writes, and every other one writes to the pipe that the next one reads
-- from. The shell waits for them and goes on.
pub run_cmd-wired :
    (t : Terminal) (i o e : Object) (text : List ℕ) (c : ExecCmd) (cs : List (List ℕ × ExecCmd))
    (s : Session)
    → IsExternal (join_pipes text cs)
    → IsSimple (line_environ t) text c
    → AllSimple (line_environ t) cs
    → Grants t.system
    → t.can_fork ≡ true
    → t.fds ≡ stdio i o e
    → IsPlain c
    → AllPlain cs
    → run_cmd t (join_pipes text cs) s ≡ starts false (wired [] i o e t.host.vars c cs) s
unfolding run_parsed
run_cmd-wired t i o e text c cs s x simple simples g f open_fds p ps =
    run_cmd-external t (join_pipes text cs) s (StartsPlain-join_pipes text cs simple.starts) x
    ∙ rw
        (
          run_parsed,
          parse_line-pipeline (line_environ t) (suc (length (join_pipes text cs))) t.before text c
              cs simple simples (omega (arith, length-join_pipes text cs)),
          f,
          open_fds,
          launch-pipeline t.system t.host.vars (stdio i o e) s c cs,
          exec_tree-pipeline t.system [] i o e t.host.vars c cs g p ps,
        )
        refl
