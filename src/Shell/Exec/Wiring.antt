-- ===== src/Shell/Exec/Wiring.antt =====
-- 2-shell/exec.c: the processes of a line of commands with pipes between them.
use sistemas_operativos_fiub.Common.{ℕ, ◌≡◌, refl, ◌<◌, ◌∙◌, true, some, List, [], ◌∷◌, ap, update}
use sistemas_operativos_fiub.Shell.Parsing.{exec_type, ExecCmd, Cmd, exec_cmd, pipe_cmd}
use sistemas_operativos_fiub.Shell.Lines.Pipes.{pipeline}
use sistemas_operativos_fiub.Shell.Exec.{
  Side, left_side, right_side, Object, read_end, write_end, Fds, Vars, System, Run, executed, waits,
  set_environ_vars, exec_program, exec_struct, new_pipe, left_fds, right_fds, close, fork_both,
  exec_tree,
}
use sistemas_operativos_fiub.Shell.Exec.Descriptors.{
  stdio, new_pipe-stdio, left_fds-stdio, right_fds-stdio, parent_fds-stdio,
}

-- The system grants what is asked for: 5 descriptors, pipes, processes and programs.
pub record Grants (s : System) : Type 0 where
  pub enough : 4 < s.descriptors
  pub pipes : (place : List Side) → s.pipes place ≡ true
  pub forks : (place : List Side) → s.forks place ≡ true
  pub executes : (argv : List (List ℕ)) → s.executes argv ≡ true

-- A command without redirections and variables.
pub record IsPlain (c : ExecCmd) : Type 0 where
  pub runs : c.type ≡ exec_type
  pub no_variables : c.eargv ≡ []

abbrev pub AllPlain : List (List ℕ × ExecCmd) → Type 0
AllPlain [] = Unit {0}
AllPlain ((t, c) ∷ cs) = IsPlain c × AllPlain cs

-- The processes of a pipeline: each program has the descriptors 0, 1 and 2 and no other, and writes
-- to the pipe that the next one reads from.
abbrev pub wired :
    List Side → Object → Object → Object → Vars → ExecCmd → List (List ℕ × ExecCmd) → Run
wired place i o e vars c [] = executed c.argv vars (stdio i o e)
wired place i o e vars c ((t, c') ∷ cs) =
    waits (executed c.argv vars (stdio i (write_end place) e))
      (wired (right_side ∷ place) (read_end place) o e vars c' cs) (stdio i o e)

exec_struct-plain :
    (s : System) (vars : Vars) (fds : Fds) (c : ExecCmd)
    → Grants s
    → IsPlain c
    → exec_struct s vars fds c ≡ executed c.argv vars fds
unfolding exec_struct exec_program set_environ_vars
exec_struct-plain s vars fds c g p =
    rw (exec_struct, p.runs, exec_program, p.no_variables, g.executes c.argv) refl

fork_both-Grants :
    (s : System) (place : List Side) (l r : Run) (fds : Fds)
    → Grants s
    → fork_both s place l r fds ≡ waits l r fds
unfolding fork_both
fork_both-Grants s place l r fds g =
    rw (fork_both, g.forks (left_side ∷ place), g.forks (right_side ∷ place)) refl

exec_tree-pipe :
    (s : System) (place : List Side) (vars : Vars) (fds fds' : Fds) (l r : Cmd) (rd wr : ℕ)
    → Grants s
    → new_pipe s place fds ≡ some (rd, wr, fds')
    → exec_tree s place vars fds (pipe_cmd l r)
      ≡ waits
          (exec_tree s (left_side ∷ place) vars (left_fds rd wr fds') l)
          (exec_tree s (right_side ∷ place) vars (right_fds rd wr fds') r)
          (close wr (close rd fds'))
unfolding exec_tree
exec_tree-pipe s place vars fds fds' l r rd wr g e =
    rw (exec_tree, e)
      (fork_both-Grants s place (exec_tree s (left_side ∷ place) vars (left_fds rd wr fds') l)
        (exec_tree s (right_side ∷ place) vars (right_fds rd wr fds') r) (close wr (close rd fds'))
        g)

-- The first part of a pipe writes to it, the second part reads from it, and the shell's process has
-- neither end.
exec_tree-stdio :
    (s : System) (place : List Side) (i o e : Object) (vars : Vars) (l r : Cmd)
    → Grants s
    → exec_tree s place vars (stdio i o e) (pipe_cmd l r)
      ≡ waits
          (exec_tree s (left_side ∷ place) vars (stdio i (write_end place) e) l)
          (exec_tree s (right_side ∷ place) vars (stdio (read_end place) o e) r)
          (stdio i o e)
exec_tree-stdio s place i o e vars l r g =
    let fds : Fds =
      update (update (stdio i o e) 3 (some (read_end place))) 4 (some (write_end place)) in
    rw
      (
        exec_tree-pipe s place vars (stdio i o e) fds l r 3 4 g
            (new_pipe-stdio s place i o e g.enough (g.pipes place)),
        left_fds-stdio i o e (read_end place) (write_end place),
        right_fds-stdio i o e (read_end place) (write_end place),
        parent_fds-stdio i o e (read_end place) (write_end place),
      )
      refl

pub exec_tree-pipeline :
    (s : System) (place : List Side) (i o e : Object) (vars : Vars) (c : ExecCmd)
    (cs : List (List ℕ × ExecCmd))
    → Grants s
    → IsPlain c
    → AllPlain cs
    → exec_tree s place vars (stdio i o e) (pipeline c cs) ≡ wired place i o e vars c cs
unfolding exec_tree
exec_tree-pipeline s place i o e vars c [] g p ps = exec_struct-plain s vars (stdio i o e) c g p
exec_tree-pipeline s place i o e vars c ((t, c') ∷ cs) g p (p', ps) =
    exec_tree-stdio s place i o e vars (exec_cmd c) (pipeline c' cs) g
    ∙ ap (λ r. waits (exec_struct s vars (stdio i (write_end place) e) c) r (stdio i o e))
        (exec_tree-pipeline s (right_side ∷ place) (read_end place) o e vars c' cs g p' ps)
    ∙ ap (λ l. waits l (wired (right_side ∷ place) (read_end place) o e vars c' cs) (stdio i o e))
        (exec_struct-plain s vars (stdio i (write_end place) e) c g p)
