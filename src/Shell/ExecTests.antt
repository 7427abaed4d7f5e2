-- ===== src/Shell/ExecTests.antt =====
-- Small processes and lines, and the theorems there.
use sistemas_operativos_fiub.Common.{
  ℕ, ◌≡◌, ◌↔◌, refl, true, false, Option, none, some, List, [], ◌∷◌, ◌++◌, arith, if◌then◌else◌,
  str_eq,
}
use mathlib.Core.List
use sistemas_operativos_fiub.Shell.Parsing.{ExecCmd, redir_type, exec_cmd_create}
use sistemas_operativos_fiub.Shell.Parsing.Args.{PlainWords, parse_exec-join_words}
use sistemas_operativos_fiub.Shell.Lines.Pipes.{IsSimple, join_pipes}
use sistemas_operativos_fiub.Shell.Exec.{
  writing, inherited, opened, Object, System, Vars, exec_program, exec_struct,
}
use sistemas_operativos_fiub.Shell.Exec.Descriptors.{stdio}
use sistemas_operativos_fiub.Shell.Exec.Wiring.{wired}
use sistemas_operativos_fiub.Shell.Exec.Redirects.{exec_struct-redirected, exec_struct-err-Unopened}
use sistemas_operativos_fiub.Shell.Builtins.{
  Session, Libc, Terminal, starts, line_environ, contains_command, reverse, cd, run_cmd,
}
use sistemas_operativos_fiub.Shell.Builtins.Reverse.{reverse_lem}
use sistemas_operativos_fiub.Shell.Builtins.Directory.{cd_line, cd-parent}
use sistemas_operativos_fiub.Shell.Builtins.Launch.{contains_command_lem, run_cmd-wired}

abbrev in_0 : Object
in_0 = inherited 0

abbrev out_1 : Object
out_1 = inherited 1

abbrev err_2 : Object
err_2 = inherited 2

abbrev no_vars : Vars
no_vars name = none

-- A file "o" can be opened, and no other.
abbrev system : System
system = record {
  descriptors = 1024;
  opens = λ name access. str_eq name (b'o' ∷ []);
  pipes = λ place. true;
  forks = λ place. true;
  executes = λ argv. true;
}

abbrev word_l : List ℕ
word_l = b'l' ∷ []

abbrev command_l : ExecCmd
command_l = record (exec_cmd_create word_l) { argv = word_l ∷ [] }

abbrev home : List ℕ
home = b'/' ∷ b'h' ∷ b'/' ∷ b'u' ∷ []

abbrev session : Session
session = record { cwd = home; output = [] }

-- From "/h" to ".." is "/"; other paths are taken as they are, except the empty one.
abbrev go : List ℕ → List ℕ → Option (List ℕ)
go cwd [] = none
go cwd (c ∷ path) =
    if str_eq (c ∷ path) (b'.' ∷ b'.' ∷ []) then some (b'/' ∷ []) else some (c ∷ path)

abbrev host : Libc
host = record { chdir_from = go; vars = no_vars }

abbrev terminal : Terminal
terminal = record {
  host = host;
  status_text = b'0' ∷ [];
  system = system;
  fds = stdio in_0 out_1 err_2;
  can_fork = true;
  before = 0;
}

word_l-IsSimple : IsSimple (line_environ terminal) word_l command_l
unfolding exec_cmd_create
word_l-IsSimple = record {
  no_pipe = (omega arith, tt);
  no_back = (omega arith, tt);
  starts = omega arith;
  parses = parse_exec-join_words (line_environ terminal) (word_l ∷ []) plain (omega arith);
}
  where
    plain : PlainWords (word_l ∷ [])
    plain = (
      λ e. ground arith,
      ((omega arith, omega arith, omega arith, omega arith, omega arith), tt),
      tt,
    )

run_cmd-wired_example :
    run_cmd terminal (join_pipes word_l ((word_l, command_l) ∷ [])) session
    ≡ starts false (wired [] in_0 out_1 err_2 no_vars command_l ((word_l, command_l) ∷ [])) session
unfolding exec_cmd_create contains_command
run_cmd-wired_example =
    run_cmd-wired terminal in_0 out_1 err_2 word_l command_l ((word_l, command_l) ∷ []) session
      (record { no_cd = refl; no_exit = refl; no_pwd = refl }) word_l-IsSimple (word_l-IsSimple, tt)
      (record {
        enough = omega arith;
        pipes = λ place. refl;
        forks = λ place. refl;
        executes = λ argv. refl;
      })
      refl refl (record { runs = refl; no_variables = refl })
      (record { runs = refl; no_variables = refl }, tt)

-- l >o 2>&1
abbrev to_o : ExecCmd
to_o = record {
  type = redir_type;
  scmd = word_l;
  argv = word_l ∷ [];
  eargv = [];
  out_file = b'o' ∷ [];
  in_file = [];
  err_file = b'&' ∷ b'1' ∷ [];
}

exec_struct-redirected_example :
    exec_struct system no_vars (stdio in_0 out_1 err_2) to_o
    ≡ exec_program system no_vars
        (stdio in_0 (opened (b'o' ∷ []) writing) (opened (b'o' ∷ []) writing))
        to_o
unfolding str_eq
exec_struct-redirected_example =
    exec_struct-redirected system no_vars in_0 out_1 err_2 to_o (omega arith) refl refl tt
      (λ e. ground arith)

-- l >o 2>e
abbrev err_to_e : ExecCmd
err_to_e = record to_o { err_file = b'e' ∷ [] }

exec_struct-err-Unopened_example :
    exec_struct system no_vars (stdio in_0 out_1 err_2) err_to_e
    ≡ exec_program system no_vars (stdio in_0 (opened (b'o' ∷ []) writing) err_2) err_to_e
unfolding str_eq
exec_struct-err-Unopened_example =
    exec_struct-err-Unopened system no_vars in_0 out_1 err_2 err_to_e (omega arith) refl refl tt
      refl refl

contains_command_lem_example :
    (contains_command home (b'/' ∷ b'h' ∷ []) ≡ true)
    ↔ ((rest : List ℕ) × (home ≡ (b'/' ∷ b'h' ∷ []) ++ rest))
contains_command_lem_example = contains_command_lem home (b'/' ∷ b'h' ∷ [])

reverse_lem_example : reverse home ≡ List.reverse home
reverse_lem_example = reverse_lem home

cd-parent_example :
    cd host (cd_line (b'.' ∷ b'.' ∷ [])) session ≡ some (true, record session { cwd = b'/' ∷ [] })
unfolding str_eq
cd-parent_example =
    cd-parent host session (b'/' ∷ b'h' ∷ []) (b'u' ∷ []) (b'/' ∷ []) refl (omega arith)
      (omega arith, tt) (omega arith) refl refl
