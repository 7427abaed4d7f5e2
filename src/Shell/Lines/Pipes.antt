-- ===== src/Shell/Lines/Pipes.antt =====
-- 2-shell/parsing.c: a line of commands with pipes between them.
use sistemas_operativos_fiub.Common.{
  LacksByte, ℕ, zero, suc, ◌+◌, ◌≡◌, ◌≢◌, ◌<◌, refl, none, some, List, [], ◌∷◌, ◌++◌, arith, length,
  drop, ==-ne, ==_refl, ap,
}
use sistemas_operativos_fiub.Shell.Parsing.{
  space, Environ, ExecCmd, Cmd, exec_cmd, pipe_cmd, contains_from, block_contains, before_char,
  skip_spaces, split_line, parse_exec,
}
use sistemas_operativos_fiub.Shell.Lines.{
  parse_cmd, parse_line, join_cmds, pick_right, pipe_cmd_create,
}

abbrev pub StartsPlain : List ℕ → Type 0
StartsPlain [] = ⊥
StartsPlain (x ∷ xs) = x ≢ space

-- A text without pipes and '&' that does not start with a space and is the given command.
pub record IsSimple (env : Environ) (text : List ℕ) (c : ExecCmd) : Type 0 where
  pub no_pipe : LacksByte b'|' text
  pub no_back : LacksByte b'&' text
  pub starts : StartsPlain text
  pub parses : parse_exec env text ≡ some c

abbrev pub AllSimple : Environ → List (List ℕ × ExecCmd) → Type 0
AllSimple env [] = Unit {0}
AllSimple env ((t, c) ∷ cs) = IsSimple env t c × AllSimple env cs

-- The texts with a pipe between them, and their commands, nested to the right.
abbrev pub join_pipes : List ℕ → List (List ℕ × ExecCmd) → List ℕ
join_pipes t [] = t
join_pipes t ((t', c) ∷ cs) = t ++ (b'|' ∷ join_pipes t' cs)

abbrev pub pipeline : ExecCmd → List (List ℕ × ExecCmd) → Cmd
pipeline c [] = exec_cmd c
pipeline c ((t, c') ∷ cs) = pipe_cmd (exec_cmd c) (pipeline c' cs)

contains_from-lacks : (c : ℕ) (t : List ℕ) (i : ℕ) → LacksByte c t → contains_from t c i ≡ none
unfolding contains_from
contains_from-lacks c [] i l = refl
contains_from-lacks c (x ∷ t) i (ne, l) = rw (==-ne x c ne, contains_from-lacks c t (i + 1) l) refl

contains_from-at :
    (c : ℕ) (t rest : List ℕ) (i : ℕ)
    → LacksByte c t
    → contains_from (t ++ (c ∷ rest)) c i ≡ some (i + length t)
unfolding contains_from
contains_from-at c [] rest i l = rw (==_refl c) (ap some (omega arith))
contains_from-at c (x ∷ t) rest i (ne, l) =
    rw (==-ne x c ne, contains_from-at c t rest (i + 1) l) (ap some (omega arith))

before_char-lacks : (c : ℕ) (t : List ℕ) → LacksByte c t → before_char t c ≡ t
unfolding before_char
before_char-lacks c [] l = refl
before_char-lacks c (x ∷ t) (ne, l) = rw (==-ne x c ne, before_char-lacks c t l) refl

before_char-at : (c : ℕ) (t rest : List ℕ) → LacksByte c t → before_char (t ++ (c ∷ rest)) c ≡ t
unfolding before_char
before_char-at c [] rest l = rw (==_refl c) refl
before_char-at c (x ∷ t) rest (ne, l) = rw (==-ne x c ne, before_char-at c t rest l) refl

drop-past : (t rest : List ℕ) (x : ℕ) → drop (suc (length t)) (t ++ (x ∷ rest)) ≡ rest
drop-past [] rest x = refl
drop-past (y ∷ t) rest x = drop-past t rest x

drop-all : (t : List ℕ) → drop (suc (length t)) t ≡ []
drop-all [] = refl
drop-all (y ∷ t) = drop-all t

parse_cmd-simple :
    (env : Environ) (before : ℕ) (t : List ℕ) (c : ExecCmd)
    → IsSimple env t c
    → parse_cmd env before t ≡ some (exec_cmd c)
unfolding parse_cmd block_contains
parse_cmd-simple env before [] c s = absurd s.starts
parse_cmd-simple env before (x ∷ t) c s =
    rw (parse_cmd, contains_from-lacks b'&' (x ∷ t) 0 s.no_back, s.parses) refl

-- What `split_line` makes of a text that has no pipe, and of one in front of a splitter.
split_line-last : (t : List ℕ) → LacksByte b'|' t → split_line t b'|' ≡ (t, [])
unfolding split_line skip_spaces
split_line-last t l = rw (split_line, before_char-lacks b'|' t l, drop-all t) refl

pub split_line-at :
    (c : ℕ) (t rest : List ℕ)
    → LacksByte c t
    → StartsPlain rest
    → split_line (t ++ (c ∷ rest)) c ≡ (t, rest)
unfolding split_line skip_spaces
split_line-at c t [] l s = absurd s
split_line-at c t (x ∷ rest) l s =
    rw (split_line, before_char-at c t (x ∷ rest) l, drop-past t (x ∷ rest) c, ==-ne x space s) refl

StartsPlain-append : (t rest : List ℕ) → StartsPlain t → StartsPlain (t ++ rest)
StartsPlain-append [] rest s = absurd s
StartsPlain-append (x ∷ t) rest s = s

pub StartsPlain-join_pipes :
    (t : List ℕ) (cs : List (List ℕ × ExecCmd)) → StartsPlain t → StartsPlain (join_pipes t cs)
StartsPlain-join_pipes t [] s = s
StartsPlain-join_pipes t ((t', c) ∷ cs) s = StartsPlain-append t (b'|' ∷ join_pipes t' cs) s

pipe_cmd_create-pipeline :
    (l : Cmd) (c : ExecCmd) (cs : List (List ℕ × ExecCmd))
    → pipe_cmd_create l (pipeline c cs) ≡ pipe_cmd l (pipeline c cs)
unfolding pipe_cmd_create
pipe_cmd_create-pipeline l c [] = refl
pipe_cmd_create-pipeline l c ((t, c') ∷ cs) = refl

-- The right part is read as `parse_line` reads it, whether it has a pipe or not.
right_part :
    (env : Environ) (n : ℕ) (t : List ℕ) (c : ExecCmd) (cs : List (List ℕ × ExecCmd))
    → IsSimple env t c
    → parse_line env n 0 (join_pipes t cs) ≡ some (pipeline c cs)
    → pick_right
        (block_contains (join_pipes t cs) b'|')
        (parse_line env n 0 (join_pipes t cs))
        (parse_cmd env 0 (join_pipes t cs))
      ≡ some (pipeline c cs)
unfolding block_contains pick_right
right_part env n t c [] s e =
    rw (contains_from-lacks b'|' t 0 s.no_pipe, pick_right) (parse_cmd-simple env 0 t c s)
right_part env n t c ((t', c') ∷ cs) s e =
    rw (contains_from-at b'|' t (join_pipes t' cs) 0 s.no_pipe, pick_right) e

-- A line of commands with a pipe between them, each of which is read by itself without pipes and
-- '&' and does not start with a space, is the pipeline of these commands, nested to the right.
pub parse_line-pipeline :
    (env : Environ) (n before : ℕ) (t : List ℕ) (c : ExecCmd) (cs : List (List ℕ × ExecCmd))
    → IsSimple env t c
    → AllSimple env cs
    → length cs < n
    → parse_line env n before (join_pipes t cs) ≡ some (pipeline c cs)
unfolding parse_line join_cmds pipe_cmd_create pick_right block_contains contains_from parse_cmd
parse_line-pipeline env zero before t c cs s r h = absurd (omega arith)
parse_line-pipeline env (suc n) before t c [] s r h =
    rw (parse_line, split_line-last t s.no_pipe, parse_cmd-simple env before t c s) refl
parse_line-pipeline env (suc n) before t c ((t', c') ∷ cs) s (s', r) h =
    rw
      (
        parse_line,
        split_line-at b'|' t (join_pipes t' cs) s.no_pipe (StartsPlain-join_pipes t' cs s'.starts),
        parse_cmd-simple env before t c s,
        right_part env n t' c' cs s' (parse_line-pipeline env n 0 t' c' cs s' r (omega arith)),
      )
      (ap some (pipe_cmd_create-pipeline (exec_cmd c) c' cs))
