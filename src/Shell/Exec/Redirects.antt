-- ===== src/Shell/Exec/Redirects.antt =====
-- 2-shell/exec.c: the descriptors of a command after its redirections.
use sistemas_operativos_fiub.Common.{
  ℕ, ◌≡◌, refl, ◌<◌, true, false, some, List, [], ◌∷◌, ap, update, arith, fun_ext, if◌then◌else◌,
  Bool-cases, inl, inr,
}
use sistemas_operativos_fiub.Shell.Parsing.{ExecCmd, redir_type}
use sistemas_operativos_fiub.Shell.Exec.{
  Access, reading, writing, Object, opened, Fds, Vars, System, dup2, close, open_redir_fd, move_fd,
  redirect, is_to_stdout, redirect_err, redirect_all, exec_program, exec_struct,
}
use sistemas_operativos_fiub.Shell.Exec.Descriptors.{stdio, new_fd-stdio}

-- The object of a descriptor after a redirection to the file, whose name is empty where there is
-- none.
abbrev pub redirected : List ℕ → Access → Object → Object
redirected [] access old = old
redirected (c ∷ name) access old = opened (c ∷ name) access

abbrev pub redirected_err : List ℕ → Object → Object → Object
redirected_err [] out old = old
redirected_err (c ∷ name) out old =
    if is_to_stdout (c ∷ name) then out else opened (c ∷ name) writing

-- The file can be opened, where there is one.
abbrev pub Opens : System → List ℕ → Access → Type 0
Opens s [] access = Unit {0}
Opens s (c ∷ name) access = s.opens (c ∷ name) access ≡ true

open_redir_fd-stdio :
    (s : System) (i o e : Object) (file : List ℕ) (access : Access)
    → 4 < s.descriptors
    → s.opens file access ≡ true
    → open_redir_fd s (stdio i o e) file access
      ≡ some (3, update (stdio i o e) 3 (some (opened file access)))
unfolding open_redir_fd
open_redir_fd-stdio s i o e file access h ok =
    rw (open_redir_fd, ok) (new_fd-stdio s i o e (opened file access) h)

move_fd-in : (i o e x : Object) → move_fd 3 0 (update (stdio i o e) 3 (some x)) ≡ stdio x o e
unfolding move_fd dup2 close update
move_fd-in i o e x = fun_ext λ n. ground arith

move_fd-out : (i o e x : Object) → move_fd 3 1 (update (stdio i o e) 3 (some x)) ≡ stdio i x e
unfolding move_fd dup2 close update
move_fd-out i o e x = fun_ext λ n. ground arith

move_fd-err : (i o e x : Object) → move_fd 3 2 (update (stdio i o e) 3 (some x)) ≡ stdio i o x
unfolding move_fd dup2 close update
move_fd-err i o e x = fun_ext λ n. ground arith

dup2-stdio : (i o e : Object) → dup2 1 2 (stdio i o e) ≡ stdio i o o
unfolding dup2 update
dup2-stdio i o e = fun_ext λ n. ground arith

redirect-out :
    (s : System) (i o e : Object) (file : List ℕ)
    → 4 < s.descriptors
    → Opens s file writing
    → redirect s file writing 1 (stdio i o e) ≡ some (stdio i (redirected file writing o) e)
unfolding redirect
redirect-out s i o e [] h ok = refl
redirect-out s i o e (c ∷ name) h ok =
    rw (redirect, open_redir_fd-stdio s i o e (c ∷ name) writing h ok)
      (ap some (move_fd-out i o e (opened (c ∷ name) writing)))

redirect-in :
    (s : System) (i o e : Object) (file : List ℕ)
    → 4 < s.descriptors
    → Opens s file reading
    → redirect s file reading 0 (stdio i o e) ≡ some (stdio (redirected file reading i) o e)
unfolding redirect
redirect-in s i o e [] h ok = refl
redirect-in s i o e (c ∷ name) h ok =
    rw (redirect, open_redir_fd-stdio s i o e (c ∷ name) reading h ok)
      (ap some (move_fd-in i o e (opened (c ∷ name) reading)))

-- `&1` or a file that can be opened.
abbrev pub OpensErr : System → List ℕ → Type 0
OpensErr s file = is_to_stdout file ≡ false → Opens s file writing

redirect_err-file :
    (s : System) (i o e : Object) (c : ℕ) (name : List ℕ)
    → 4 < s.descriptors
    → is_to_stdout (c ∷ name) ≡ false
    → s.opens (c ∷ name) writing ≡ true
    → redirect_err s (c ∷ name) (stdio i o e) ≡ stdio i o (redirected_err (c ∷ name) o e)
unfolding redirect_err
redirect_err-file s i o e c name h n ok =
    rw (redirect_err, n, open_redir_fd-stdio s i o e (c ∷ name) writing h ok)
      (move_fd-err i o e (opened (c ∷ name) writing))

redirect_err-stdio :
    (s : System) (i o e : Object) (file : List ℕ)
    → 4 < s.descriptors
    → OpensErr s file
    → redirect_err s file (stdio i o e) ≡ stdio i o (redirected_err file o e)
unfolding redirect_err
redirect_err-stdio s i o e [] h ok = refl
redirect_err-stdio s i o e (c ∷ name) h ok = elim (Bool-cases (is_to_stdout (c ∷ name))) [
  | inl q ↦ rw (redirect_err, q) (dup2-stdio i o e)
  | inr q ↦ redirect_err-file s i o e c name h q (ok q)
]

-- The program of a command with redirections, each of which is to a file that can be opened, starts
-- with the descriptors 0, 1 and 2 and no other, where the shell's process has no other either and
-- may have five: each is open on its file, or on what it was open on where the command has no file
-- for it, and with `2>&1` descriptor 2 is open on what descriptor 1 is open on after its own
-- redirection, wherever on the line this one stands.
pub exec_struct-redirected :
    (s : System) (vars : Vars) (i o e : Object) (c : ExecCmd)
    → 4 < s.descriptors
    → c.type ≡ redir_type
    → Opens s c.out_file writing
    → Opens s c.in_file reading
    → OpensErr s c.err_file
    → exec_struct s vars (stdio i o e) c
      ≡ exec_program s vars
          (stdio
            (redirected c.in_file reading i)
            (redirected c.out_file writing o)
            (redirected_err c.err_file (redirected c.out_file writing o) e))
          c
unfolding exec_struct redirect_all exec_program
exec_struct-redirected s vars i o e c h t oo oi oe =
    let o' : Object = redirected c.out_file writing o in
    let i' : Object = redirected c.in_file reading i in
    rw
      (
        exec_struct,
        t,
        redirect_all,
        redirect-out s i o e c.out_file h oo,
        redirect-in s i o' e c.in_file h oi,
        redirect_err-stdio s i' o' e c.err_file h oe,
      )
      refl

-- The command has a file for it, which cannot be opened.
abbrev pub Unopened : System → List ℕ → Access → Type 0
Unopened s [] access = ⊥
Unopened s (c ∷ name) access = s.opens (c ∷ name) access ≡ false

redirect_err-Unopened :
    (s : System) (fds : Fds) (file : List ℕ)
    → is_to_stdout file ≡ false
    → Unopened s file writing
    → redirect_err s file fds ≡ fds
unfolding redirect_err open_redir_fd
redirect_err-Unopened s fds [] n u = absurd u
redirect_err-Unopened s fds (c ∷ name) n u = rw (redirect_err, n, open_redir_fd, u) refl

-- A command whose file for descriptor 2 cannot be opened is started all the same, with descriptor 2
-- open on what it was open on.
pub exec_struct-err-Unopened :
    (s : System) (vars : Vars) (i o e : Object) (c : ExecCmd)
    → 4 < s.descriptors
    → c.type ≡ redir_type
    → Opens s c.out_file writing
    → Opens s c.in_file reading
    → is_to_stdout c.err_file ≡ false
    → Unopened s c.err_file writing
    → exec_struct s vars (stdio i o e) c
      ≡ exec_program s vars
          (stdio (redirected c.in_file reading i) (redirected c.out_file writing o) e)
          c
unfolding exec_struct redirect_all exec_program
exec_struct-err-Unopened s vars i o e c h t oo oi n u =
    let o' : Object = redirected c.out_file writing o in
    let i' : Object = redirected c.in_file reading i in
    rw
      (
        exec_struct,
        t,
        redirect_all,
        redirect-out s i o e c.out_file h oo,
        redirect-in s i o' e c.in_file h oi,
        redirect_err-Unopened s (stdio i' o' e) c.err_file n u,
      )
      refl
