-- ===== src/Shell/Builtins.antt =====
-- 2-shell/builtin.c and runcmd.c: the commands that the shell runs itself, and what it does with a
-- line. A string in a buffer that is changed in place is a function from indices to bytes.
pub mod Reverse
pub mod Directory
pub mod Launch
use sistemas_operativos_fiub.Common.{
  ℕ, zero, suc, ◌+◌, ◌-◌, ◌/◌, Bool, true, false, Option, none, some, List, [], ◌∷◌, ◌==◌, ltb,
  if◌then◌else◌, update, length, str_eq,
}
use sistemas_operativos_fiub.Shell.Parsing.{
  space, Environ, Cmd, null_cmd, exec_cmd, back_cmd, pipe_cmd, split_line,
}
use sistemas_operativos_fiub.Shell.Lines.{parse_line}
use sistemas_operativos_fiub.Shell.Exec.{Fds, Vars, System, Run, exec_tree}

abbrev pub buflen : ℕ
buflen = 1024

-- The shell's process: its directory and the lines that it wrote.
pub record Session : Type 0 where
  pub cwd : List ℕ
  pub output : List (List ℕ)

-- What the C library gives: where `chdir` goes from a directory by a path, if it succeeds, and the
-- variables of the shell.
pub record Libc : Type 0 where
  pub chdir_from : List ℕ → List ℕ → Option (List ℕ)
  pub vars : Vars

unfoldable pub contains_command : List ℕ → List ℕ → Bool
contains_command str [] = true
contains_command [] (d ∷ command) = false
contains_command (c ∷ str) (d ∷ command) =
    let rest = contains_command str command in if c == d then rest else false

unfoldable pub exit_shell : List ℕ → Bool
exit_shell cmd = contains_command cmd (b'e' ∷ b'x' ∷ b'i' ∷ b't' ∷ [])

unfoldable pub history : List ℕ → Bool
history cmd = false

-- The byte of a string at an index, with the NUL behind it.
unfoldable pub byte : List ℕ → ℕ → ℕ
byte [] j = 0
byte (x ∷ xs) zero = x
byte (x ∷ xs) (suc j) = byte xs j

-- The string in a buffer, by its length.
unfoldable pub string : ℕ → (ℕ → ℕ) → List ℕ
string zero str = []
string (suc n) str = str 0 ∷ string n (λ j. str (suc j))

unfoldable pub swap : ℕ → ℕ → (ℕ → ℕ) → ℕ → ℕ
swap i rev str = update (update str i (str rev)) rev (str i)

-- The loop of `reverse` from index `i`, with the rounds that are left.
unfoldable pub reverse_loop : ℕ → ℕ → ℕ → (ℕ → ℕ) → ℕ → ℕ
reverse_loop zero i len str = str
reverse_loop (suc n) i len str = reverse_loop n (i + 1) len (swap i (len - i - 1) str)

unfoldable pub reverse : List ℕ → List ℕ
reverse str = string (length str) (reverse_loop (length str / 2) 0 (length str) (byte str))

unfoldable pub getcwd : Session → Option (List ℕ)
getcwd s = if ltb (length s.cwd) buflen then some s.cwd else none

-- `chdir` in the shell's process, which stays where it is if the call fails.
unfoldable pub chdir : Libc → List ℕ → Session → Session
chdir h path s = elim (h.chdir_from s.cwd path) [ none ↦ s | some dir ↦ record s { cwd = dir } ]

unfoldable pub go_back : List ℕ → List ℕ
go_back cwd = reverse (split_line (reverse cwd) b'/').1

unfoldable pub go_home : Libc → Session → Session
go_home h s = elim (h.vars (b'H' ∷ b'O' ∷ b'M' ∷ b'E' ∷ [])) [
  | none ↦ s
  | some home ↦ chdir h home s
]

-- The branches on the directory; `none` where `getcwd` gives NULL, which `reverse` reads.
unfoldable pub change_directory : Libc → List ℕ → Session → Option Session
change_directory h directory s =
    if str_eq directory []
    then some (chdir h directory (go_home h s))
    else if str_eq directory (b'.' ∷ [])
    then some s
    else if str_eq directory (b'.' ∷ b'.' ∷ [])
    then elim (getcwd s) [
      | none ↦ none
      | some cwd ↦ some (chdir h directory (chdir h (go_back cwd) s))
    ]
    else some (chdir h directory s)

-- Whether the line is a `cd`, with the session after it. What `chdir` returns is never below -1.
unfoldable pub cd : Libc → List ℕ → Session → Option (Bool × Session)
cd h cmd s =
    if contains_command cmd (b'c' ∷ b'd' ∷ [])
    then elim (change_directory h (split_line cmd space).1 s) [
      | none ↦ none
      | some s' ↦ some (true, s')
    ]
    else some (false, s)

-- `none` where `getcwd` gives NULL, which `printf` reads.
unfoldable pub pwd : List ℕ → Session → Option (Bool × Session)
pwd cmd s =
    if contains_command cmd (b'p' ∷ b'w' ∷ b'd' ∷ [])
    then elim (getcwd s) [
      | none ↦ none
      | some cwd ↦ some (true, record s { output = cwd ∷ s.output })
    ]
    else some (false, s)

-- What a line does: the shell goes on, it ends, or it starts a process, which it waits for unless
-- it is in the background, and goes on; or it does what C leaves undefined.
pub data LineOutcome : Type 0 where
  goes_on : Session → LineOutcome
  exits : Session → LineOutcome
  starts : Bool → Run → Session → LineOutcome
  crashes : LineOutcome

-- The process of a parsed command, if it can be made.
unfoldable pub launch : System → Bool → Vars → Fds → Session → Cmd → LineOutcome
launch sys can_fork vars fds s null_cmd = crashes
launch sys can_fork vars fds s (exec_cmd c) =
    if can_fork then starts false (exec_tree sys [] vars fds (exec_cmd c)) s else goes_on s
launch sys can_fork vars fds s (back_cmd text c) =
    if can_fork then starts true (exec_tree sys [] vars fds (back_cmd text c)) s else goes_on s
launch sys can_fork vars fds s (pipe_cmd l r) =
    if can_fork then starts false (exec_tree sys [] vars fds (pipe_cmd l r)) s else goes_on s

-- What the calls of `run_cmd` share: the C library, the text of the last status, the system, the
-- descriptors of the shell, whether its `fork` succeeds, and the byte in front of the line in memory.
pub record Terminal : Type 0 where
  pub host : Libc
  pub status_text : List ℕ
  pub system : System
  pub fds : Fds
  pub can_fork : Bool
  pub before : ℕ

unfoldable pub line_environ : Terminal → Environ
line_environ t = record { getenv = t.host.vars; status_text = t.status_text }

unfoldable pub run_parsed : Terminal → List ℕ → Session → LineOutcome
run_parsed t cmd s = elim (parse_line (line_environ t) (suc (length cmd)) t.before cmd) [
  | none ↦ crashes
  | some c ↦ launch t.system t.can_fork t.host.vars t.fds s c
]

unfoldable pub run_pwd : Terminal → List ℕ → Session → LineOutcome
run_pwd t cmd s = elim (pwd cmd s) [
  | none ↦ crashes
  | some (done, s') ↦ if done then goes_on s' else run_parsed t cmd s'
]

unfoldable pub run_cd : Terminal → List ℕ → Session → LineOutcome
run_cd t cmd s = elim (cd t.host cmd s) [
  | none ↦ crashes
  | some (done, s') ↦
      if done then goes_on s' else if exit_shell cmd then exits s' else run_pwd t cmd s'
]

unfoldable pub run_cmd : Terminal → List ℕ → Session → LineOutcome
run_cmd t [] s = goes_on s
run_cmd t (c ∷ cmd) s = if history (c ∷ cmd) then goes_on s else run_cd t (c ∷ cmd) s
