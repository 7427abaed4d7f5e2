-- ===== src/Shell/Parsing.antt =====
-- 2-shell/parsing.c, with the helpers of utils.c and createcmd.c: a command line as a tree of
-- commands. A line is the string in a buffer of BUFLEN bytes that `read_line` clears first; a
-- token and a file name of it fit their arrays, which are as long as the buffer.
pub mod Loop
pub mod Args
use sistemas_operativos_fiub.Common.{
  ℕ, zero, suc, ◌+◌, ◌-◌, Bool, true, false, ◌&&◌, not, Option, none, some, List, [], ◌∷◌, ◌++◌,
  ◌==◌, ltb, str_eq, if◌then◌else◌, length, take, drop,
}

abbrev pub space : ℕ
space = 32

abbrev pub max_args : ℕ
max_args = 20

-- `getenv` of the C library, and what `sprintf` prints for the status of the last command.
pub record Environ : Type 0 where
  pub getenv : List ℕ → Option (List ℕ)
  pub status_text : List ℕ

-- EXEC or REDIR
pub data ExecType : Type 0 where
  exec_type redir_type : ExecType

-- `struct execcmd`; `argc` and `eargc` are the lengths of the lists.
pub record ExecCmd : Type 0 where
  pub type : ExecType
  pub scmd : List ℕ
  pub argv : List (List ℕ)
  pub eargv : List (List ℕ)
  pub out_file : List ℕ
  pub in_file : List ℕ
  pub err_file : List ℕ

-- `struct cmd *` with the structs that it may point to; a background command keeps its text.
pub data Cmd : Type 0 where
  null_cmd : Cmd
  exec_cmd : ExecCmd → Cmd
  back_cmd : List ℕ → ExecCmd → Cmd
  pipe_cmd : Cmd → Cmd → Cmd

-- The loop of `block_contains` from index `i`.
unfoldable pub contains_from : List ℕ → ℕ → ℕ → Option ℕ
contains_from [] c i = none
contains_from (x ∷ xs) c i =
    let rest = contains_from xs c (i + 1) in if x == c then some i else rest

unfoldable pub block_contains : List ℕ → ℕ → Option ℕ
block_contains buf c = contains_from buf c 0

-- The string up to the first `c`, and the rest from there, `c` included.
unfoldable pub before_char : List ℕ → ℕ → List ℕ
before_char [] c = []
before_char (x ∷ xs) c = let rest = before_char xs c in if x == c then [] else x ∷ rest

unfoldable pub skip_spaces : List ℕ → List ℕ
skip_spaces [] = []
skip_spaces (x ∷ xs) = let rest = skip_spaces xs in if x == space then rest else x ∷ xs

-- What `split_line` leaves in the buffer and what it returns. Behind a string without the splitter
-- the buffer holds zeros.
unfoldable pub split_line : List ℕ → ℕ → List ℕ × List ℕ
split_line buf splitter =
    let left = before_char buf splitter in (left, skip_spaces (drop (suc (length left)) buf))

unfoldable pub get_token : List ℕ → List ℕ
get_token buf = before_char buf space

unfoldable pub exec_cmd_create : List ℕ → ExecCmd
exec_cmd_create buf = record {
  type = exec_type;
  scmd = buf;
  argv = [];
  eargv = [];
  out_file = [];
  in_file = [];
  err_file = [];
}

-- The `switch` on the index of the '>'.
unfoldable pub redirect_out : ExecCmd → List ℕ → ℕ → ExecCmd
redirect_out c arg i =
    if i == 0
    then record c { out_file = drop 1 arg }
    else if i == 1
    then record c { err_file = drop 2 arg }
    else c

-- The changed command, or `none` for `false`.
unfoldable pub parse_redir_flow : ExecCmd → List ℕ → Option ExecCmd
parse_redir_flow c arg = elim (block_contains arg b'>') [
  | some i ↦ some (record (redirect_out c arg i) { type = redir_type })
  | none ↦ elim (block_contains arg b'<') [
    | some i ↦ some (record c { in_file = drop 1 arg; type = redir_type })
    | none ↦ none
  ]
]

-- The guards of `parse_environ_var`.
unfoldable pub is_environ_var : List ℕ → Bool
is_environ_var arg = elim (block_contains arg b'=') [
  | none ↦ false
  | some i ↦ elim (block_contains arg b'-') [ none ↦ not (i == 0) | some j ↦ false ]
]

-- The value of a variable, which is empty if there is none.
abbrev pub value_or_empty : Option (List ℕ) → List ℕ
value_or_empty none = []
value_or_empty (some value) = value

unfoldable pub expand_environ_var : Environ → List ℕ → List ℕ
expand_environ_var env [] = []
expand_environ_var env (x ∷ name) =
    if x == b'$'
    then (if str_eq name (b'?' ∷ []) then env.status_text else value_or_empty (env.getenv name))
    else x ∷ name

-- `c->eargv[c->eargc++] = arg`, or `none` where the index is out of the array.
unfoldable pub add_eargv : ExecCmd → List ℕ → Option ExecCmd
add_eargv c arg =
    if ltb (length c.eargv) max_args
    then some (record c { eargv = c.eargv ++ (arg ∷ []) })
    else none

-- `c->argv[argc++] = tok` for a token that is not empty.
unfoldable pub add_argv : ExecCmd → List ℕ → Option ExecCmd
add_argv c [] = some c
add_argv c (x ∷ tok) =
    if ltb (length c.argv) max_args
    then some (record c { argv = c.argv ++ ((x ∷ tok) ∷ []) })
    else none

-- The body of the loop of `parse_exec` for a token.
unfoldable pub parse_token : Environ → ExecCmd → List ℕ → Option ExecCmd
parse_token env c tok = elim (parse_redir_flow c tok) [
  | some c' ↦ some c'
  | none ↦ if is_environ_var tok then add_eargv c tok else add_argv c (expand_environ_var env tok)
]

-- Behind a token and the space that ends it.
unfoldable pub after_token : List ℕ → List ℕ
after_token buf = drop (suc (length (get_token buf))) buf

-- The loop of `parse_exec` with fuel for its rounds. Every round shortens the text.
unfoldable pub parse_tokens : Environ → ℕ → ExecCmd → List ℕ → Option ExecCmd
parse_tokens env zero c buf = some c
parse_tokens env (suc n) c [] = some c
parse_tokens env (suc n) c (x ∷ buf) = elim (parse_token env c (get_token (x ∷ buf))) [
  | none ↦ none
  | some c' ↦ parse_tokens env n c' (after_token (x ∷ buf))
]

-- `argv[argc] = NULL` needs a place too.
unfoldable pub end_argv : Option ExecCmd → Option ExecCmd
end_argv none = none
end_argv (some c) = if ltb (length c.argv) max_args then some c else none

unfoldable pub parse_exec : Environ → List ℕ → Option ExecCmd
parse_exec env buf_cmd =
    end_argv (parse_tokens env (length buf_cmd) (exec_cmd_create buf_cmd) buf_cmd)
