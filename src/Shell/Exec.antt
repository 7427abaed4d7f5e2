-- ===== src/Shell/Exec.antt =====
-- 2-shell/exec.c: how a tree of commands becomes processes. A process has a table of descriptors,
-- which say what they are open on, and the variables of its environment.
pub mod Descriptors
pub mod Wiring
pub mod Redirects
use sistemas_operativos_fiub.Common.{
  ℕ, zero, suc, ◌+◌, Bool, true, false, ◌&&◌, not, Option, none, some, List, [], ◌∷◌, ◌==◌,
  if◌then◌else◌, update, first, str_eq, drop,
}
use sistemas_operativos_fiub.Shell.Parsing.{
  exec_type, redir_type, ExecCmd, Cmd, null_cmd, exec_cmd, back_cmd, pipe_cmd, before_char,
  block_contains,
}

-- A process by the way to it from the first one.
pub data Side : Type 0 where
  left_side right_side : Side

pub data Access : Type 0 where
  reading writing : Access

-- What a descriptor is open on: what the shell gave, a file (which is created or cut for writing),
-- or an end of the pipe that the process at a place made.
pub data Object : Type 0 where
  inherited : ℕ → Object
  opened : List ℕ → Access → Object
  read_end : List Side → Object
  write_end : List Side → Object

abbrev pub Fds : Type 0
Fds = ℕ → Option Object

abbrev pub Vars : Type 0
Vars = List ℕ → Option (List ℕ)

-- What the system grants: the number of descriptors of a process, whether `open`, `pipe` and `execvp`
-- succeed, and whether the process at a place can be made.
pub record System : Type 0 where
  pub descriptors : ℕ
  pub opens : List ℕ → Access → Bool
  pub pipes : List Side → Bool
  pub forks : List Side → Bool
  pub executes : List (List ℕ) → Bool

-- What becomes of a process: it is the program, with its arguments, variables and descriptors; it
-- ends with a status; it waits for two processes, with its own descriptors, and ends with 0; it
-- leaves one process behind and ends with 255; or it does what C leaves undefined.
pub data Run : Type 0 where
  executed : List (List ℕ) → Vars → Fds → Run
  exited : ℕ → Run
  waits : Run → Run → Fds → Run
  abandons : Run → Run
  undefined : Run

abbrev is_closed : Option Object → Bool
is_closed none = true
is_closed (some o) = false

-- The lowest descriptor that is not open, for `open` and `pipe`.
unfoldable pub lowest : System → Fds → Option ℕ
lowest s fds = first (λ n. is_closed (fds n)) s.descriptors 0

unfoldable pub new_fd : System → Fds → Object → Option (ℕ × Fds)
new_fd s fds o = elim (lowest s fds) [ none ↦ none | some n ↦ some (n, update fds n (some o)) ]

unfoldable pub dup2 : ℕ → ℕ → Fds → Fds
dup2 old new fds = elim (fds old) [ none ↦ fds | some o ↦ update fds new (some o) ]

unfoldable pub close : ℕ → Fds → Fds
close n fds = update fds n none

-- `get_environ_key` and `get_environ_value`, for an argument with a '=' at the index.
unfoldable pub get_environ_key : List ℕ → List ℕ
get_environ_key arg = before_char arg b'='

unfoldable pub get_environ_value : List ℕ → ℕ → List ℕ
get_environ_value arg idx = drop (idx + 1) arg

-- An empty key is refused.
unfoldable pub setenv : List ℕ → List ℕ → Vars → Vars
setenv [] value vars = vars
setenv (c ∷ key) value vars = λ name. if str_eq name (c ∷ key) then some value else vars name

-- Without a '=' the key is read past the end of the argument.
unfoldable pub set_environ_vars : List (List ℕ) → Vars → Option Vars
set_environ_vars [] vars = some vars
set_environ_vars (arg ∷ eargv) vars = elim (block_contains arg b'=') [
  | none ↦ none
  | some idx ↦
      set_environ_vars eargv (setenv (get_environ_key arg) (get_environ_value arg idx) vars)
]

unfoldable pub open_redir_fd : System → Fds → List ℕ → Access → Option (ℕ × Fds)
open_redir_fd s fds file access =
    if s.opens file access then new_fd s fds (opened file access) else none

-- `dup2(fd, to); close(fd)`
unfoldable pub move_fd : ℕ → ℕ → Fds → Fds
move_fd fd to fds = close fd (dup2 fd to fds)

-- A redirection of descriptor `to` to a file, unless its name is empty; `none` for `exit(-1)`.
unfoldable pub redirect : System → List ℕ → Access → ℕ → Fds → Option Fds
redirect s [] access to fds = some fds
redirect s (c ∷ name) access to fds = elim (open_redir_fd s fds (c ∷ name) access) [
  | none ↦ none
  | some (fd, fds') ↦ some (move_fd fd to fds')
]

-- `err_file` starts with "&1".
abbrev pub is_to_stdout : List ℕ → Bool
is_to_stdout [] = false
is_to_stdout (c ∷ []) = false
is_to_stdout (c ∷ d ∷ name) = c == b'&' && d == b'1'

-- The redirection of descriptor 2, which goes on where the file cannot be opened: `dup2` and `close`
-- then fail at the descriptor -1.
unfoldable pub redirect_err : System → List ℕ → Fds → Fds
redirect_err s [] fds = fds
redirect_err s (c ∷ name) fds =
    if is_to_stdout (c ∷ name)
    then dup2 1 2 fds
    else elim (open_redir_fd s fds (c ∷ name) writing) [
      | none ↦ fds
      | some (fd, fds') ↦ move_fd fd 2 fds'
    ]

unfoldable pub redirect_all : System → ExecCmd → Fds → Option Fds
redirect_all s c fds = elim (redirect s c.out_file writing 1 fds) [
  | none ↦ none
  | some fds1 ↦ elim (redirect s c.in_file reading 0 fds1) [
    | none ↦ none
    | some fds2 ↦ some (redirect_err s c.err_file fds2)
  ]
]

-- The cases EXEC and REDIR of `exec_cmd`.
unfoldable pub exec_program : System → Vars → Fds → ExecCmd → Run
exec_program s vars fds c = elim (set_environ_vars c.eargv vars) [
  | none ↦ undefined
  | some vars' ↦ if s.executes c.argv then executed c.argv vars' fds else exited 255
]

unfoldable pub exec_struct : System → Vars → Fds → ExecCmd → Run
exec_struct s vars fds c = elim c.type [
  | exec_type ↦ exec_program s vars fds c
  | redir_type ↦ elim (redirect_all s c fds) [
    | none ↦ exited 255
    | some fds' ↦ exec_program s vars fds' c
  ]
]

-- `pipe(fd)`: both ends, or an error.
unfoldable pub new_pipe : System → List Side → Fds → Option (ℕ × ℕ × Fds)
new_pipe s place fds =
    if s.pipes place
    then elim (new_fd s fds (read_end place)) [
      | none ↦ none
      | some (r, fds1) ↦ elim (new_fd s fds1 (write_end place)) [
        | none ↦ none
        | some (w, fds2) ↦ some (r, w, fds2)
      ]
    ]
    else none

-- The descriptors of the children before they go on.
unfoldable pub left_fds : ℕ → ℕ → Fds → Fds
left_fds r w fds = close w (dup2 w 1 (close r fds))

unfoldable pub right_fds : ℕ → ℕ → Fds → Fds
right_fds r w fds = close r (dup2 r 0 (close w fds))

-- What the parent does about its two children, once it has the pipe.
unfoldable pub fork_both : System → List Side → Run → Run → Fds → Run
fork_both s place left right fds =
    if not (s.forks (left_side ∷ place))
    then exited 255
    else if not (s.forks (right_side ∷ place))
    then abandons left
    else waits left right fds

-- `exec_cmd` for the process at a place.
unfoldable pub exec_tree : System → List Side → Vars → Fds → Cmd → Run
exec_tree s place vars fds null_cmd = undefined
exec_tree s place vars fds (exec_cmd c) = exec_struct s vars fds c
exec_tree s place vars fds (back_cmd text c) = exec_struct s vars fds c
exec_tree s place vars fds (pipe_cmd l r) = elim (new_pipe s place fds) [
  | none ↦ exited 255
  | some (rd, wr, fds') ↦
      fork_both s place (exec_tree s (left_side ∷ place) vars (left_fds rd wr fds') l)
        (exec_tree s (right_side ∷ place) vars (right_fds rd wr fds') r) (close wr (close rd fds'))
]
