-- ===== src/Shell/Parsing/Args.antt =====
-- 2-shell/parsing.c: the arguments of a command line of plain words.
use sistemas_operativos_fiub.Common.{
  ℕ, zero, suc, ◌+◌, ◌≡◌, ◌≢◌, ◌<◌, ◌≤◌, refl, ◌∙◌, Option, none, some, List, [], ◌∷◌, ◌++◌, arith,
  length, drop, length-append, ==-ne,
}
use native.Mathlib.Decide.{dec_lt}
use sistemas_operativos_fiub.Shell.Parsing.{
  space, max_args, Environ, ExecCmd, exec_cmd_create, contains_from, block_contains, before_char,
  get_token, parse_redir_flow, is_environ_var, expand_environ_var, add_argv, parse_token,
  after_token, parse_tokens, end_argv, parse_exec,
}

-- The bytes that mean something to the parser do not occur.
abbrev pub PlainByte : ℕ → Type 0
PlainByte x = (x ≢ space) × (x ≢ b'>') × (x ≢ b'<') × (x ≢ b'=') × (x ≢ b'$')

abbrev pub PlainBytes : List ℕ → Type 0
PlainBytes [] = Unit {0}
PlainBytes (x ∷ xs) = PlainByte x × PlainBytes xs

-- Words of one plain byte at least.
abbrev pub PlainWords : List (List ℕ) → Type 0
PlainWords [] = Unit {0}
PlainWords (w ∷ ws) = (w ≢ []) × PlainBytes w × PlainWords ws

-- The line with one space between the words.
abbrev pub join_words : List (List ℕ) → List ℕ
join_words [] = []
join_words (w ∷ []) = w
join_words (w ∷ v ∷ ws) = w ++ (space ∷ join_words (v ∷ ws))

contains_from-plain :
    (w : List ℕ) (i : ℕ)
    → PlainBytes w
    → (contains_from w b'>' i ≡ none)
      × (contains_from w b'<' i ≡ none)
      × (contains_from w b'=' i ≡ none)
unfolding contains_from
contains_from-plain [] i p = (refl, refl, refl)
contains_from-plain (x ∷ w) i (p, rest) =
    let (a, b, c) = contains_from-plain w (i + 1) rest in
    (rw (==-ne x b'>' p.1) a, rw (==-ne x b'<' p.2) b, rw (==-ne x b'=' p.3) c)

before_char-word : (w rest : List ℕ) → PlainBytes w → before_char (w ++ (space ∷ rest)) space ≡ w
unfolding before_char
before_char-word [] rest p = refl
before_char-word (x ∷ w) rest (p, q) = rw (==-ne x space p.0, before_char-word w rest q) refl

before_char-last : (w : List ℕ) → PlainBytes w → before_char w space ≡ w
unfolding before_char
before_char-last [] p = refl
before_char-last (x ∷ w) (p, q) = rw (==-ne x space p.0, before_char-last w q) refl

parse_token-plain :
    (env : Environ) (c : ExecCmd) (w : List ℕ)
    → PlainBytes w
    → w ≢ []
    → length c.argv < max_args
    → parse_token env c w ≡ some (record c { argv = c.argv ++ (w ∷ []) })
unfolding parse_token parse_redir_flow is_environ_var block_contains expand_environ_var add_argv
parse_token-plain env c [] p ne h = absurd (ne refl)
parse_token-plain env c (x ∷ w) p ne h =
    let (a, b, e) = contains_from-plain (x ∷ w) 0 p in ground (arith, a, b, e, p)

parse_token-full :
    (env : Environ) (c : ExecCmd) (w : List ℕ)
    → PlainBytes w
    → w ≢ []
    → max_args ≤ length c.argv
    → parse_token env c w ≡ none
unfolding parse_token parse_redir_flow is_environ_var block_contains expand_environ_var add_argv
parse_token-full env c [] p ne h = absurd (ne refl)
parse_token-full env c (x ∷ w) p ne h =
    let (a, b, e) = contains_from-plain (x ∷ w) 0 p in ground (arith, a, b, e, p)

after_token-word : (w rest : List ℕ) → PlainBytes w → after_token (w ++ (space ∷ rest)) ≡ rest
unfolding after_token get_token
after_token-word w rest p = rw (before_char-word w rest p) (drop-word w rest)
  where
    drop-word : (w rest : List ℕ) → drop (suc (length w)) (w ++ (space ∷ rest)) ≡ rest
    drop-word [] rest = refl
    drop-word (x ∷ w) rest = drop-word w rest

after_token-last : (w : List ℕ) → PlainBytes w → after_token w ≡ []
unfolding after_token get_token
after_token-last w p = rw (before_char-last w p) (drop-all w)
  where
    drop-all : (w : List ℕ) → drop (suc (length w)) w ≡ []
    drop-all [] = refl
    drop-all (x ∷ w) = drop-all w

-- A round of the loop from its parts.
round :
    (env : Environ) (n : ℕ) (c : ExecCmd) (x : ℕ) (buf tok rest : List ℕ) (r : Option ExecCmd)
    → get_token (x ∷ buf) ≡ tok
    → after_token (x ∷ buf) ≡ rest
    → parse_token env c tok ≡ r
    → parse_tokens env (suc n) c (x ∷ buf)
      ≡ (elim r [ none ↦ none | some c' ↦ parse_tokens env n c' rest ])
unfolding parse_tokens
round env n c x buf tok rest none g a e = rw (parse_tokens, g, e) refl
round env n c x buf tok rest (some c') g a e = rw (parse_tokens, g, e, a) refl

-- One round.
parse_tokens-word :
    (env : Environ) (n : ℕ) (c : ExecCmd) (w : List ℕ) (ws : List (List ℕ)) (r : Option ExecCmd)
    → PlainBytes w
    → w ≢ []
    → parse_token env c w ≡ r
    → parse_tokens env (suc n) c (join_words (w ∷ ws))
      ≡ (elim r [ none ↦ none | some c' ↦ parse_tokens env n c' (join_words ws) ])
unfolding parse_tokens get_token
parse_tokens-word env n c [] ws r p ne e = absurd (ne refl)
parse_tokens-word env n c (x ∷ w) [] r p ne e =
    round env n c x w (x ∷ w) [] r (before_char-last (x ∷ w) p) (after_token-last (x ∷ w) p) e
parse_tokens-word env n c (x ∷ w) (v ∷ ws) r p ne e =
    let rest = join_words (v ∷ ws) in
    round env n c x (w ++ (space ∷ rest)) (x ∷ w) rest r (before_char-word (x ∷ w) rest p)
      (after_token-word (x ∷ w) rest p) e

append_nil : (xs : List (List ℕ)) → xs ++ [] ≡ xs
append_nil [] = refl
append_nil (x ∷ xs) = rw (append_nil xs) refl

append_snoc :
    (xs : List (List ℕ)) (y : List ℕ) (ys : List (List ℕ)) → (xs ++ (y ∷ [])) ++ ys ≡ xs ++ (y ∷ ys)
append_snoc [] y ys = refl
append_snoc (x ∷ xs) y ys = rw (append_snoc xs y ys) refl

-- The loop over plain words, as long as the arguments fit.
parse_tokens-words :
    (env : Environ) (n : ℕ) (c : ExecCmd) (ws : List (List ℕ))
    → PlainWords ws
    → length ws ≤ n
    → length c.argv + length ws ≤ max_args
    → parse_tokens env n c (join_words ws) ≡ some (record c { argv = c.argv ++ ws })
unfolding parse_tokens
parse_tokens-words env zero c [] p a b = rw (append_nil c.argv) refl
parse_tokens-words env (suc n) c [] p a b = rw (append_nil c.argv) refl
parse_tokens-words env zero c (w ∷ ws) p a b = absurd (omega arith)
parse_tokens-words env (suc n) c (w ∷ ws) (ne, p, rest) a b =
    parse_tokens-word env n c w ws _ p ne (parse_token-plain env c w p ne (omega arith))
    ∙ parse_tokens-words env n (record c { argv = c.argv ++ (w ∷ []) }) ws rest (omega arith)
        (rw (length-append c.argv (w ∷ [])) (omega arith))
    ∙ rw (append_snoc c.argv w ws) refl

-- The loop over plain words that do not fit.
parse_tokens-too_many :
    (env : Environ) (n : ℕ) (c : ExecCmd) (ws : List (List ℕ))
    → PlainWords ws
    → length ws ≤ n
    → length c.argv ≤ max_args
    → max_args < length c.argv + length ws
    → parse_tokens env n c (join_words ws) ≡ none
unfolding parse_tokens
parse_tokens-too_many env n c [] p a b h = absurd (omega arith)
parse_tokens-too_many env zero c (w ∷ ws) p a b h = absurd (omega arith)
parse_tokens-too_many env (suc n) c (w ∷ ws) (ne, p, rest) a b h =
    elim (dec_lt (length c.argv) max_args) [
      | no full ↦
          parse_tokens-word env n c w ws none p ne (parse_token-full env c w p ne (omega arith))
      | yes room ↦
          parse_tokens-word env n c w ws _ p ne (parse_token-plain env c w p ne room)
          ∙ parse_tokens-too_many env n (record c { argv = c.argv ++ (w ∷ []) }) ws rest
              (omega arith) (rw (length-append c.argv (w ∷ [])) (omega arith))
              (rw (length-append c.argv (w ∷ [])) (omega arith))
    ]

length-join_words : (ws : List (List ℕ)) → PlainWords ws → length ws ≤ length (join_words ws)
length-join_words [] p = omega arith
length-join_words ([] ∷ ws) (ne, p, rest) = absurd (ne refl)
length-join_words ((x ∷ w) ∷ []) p = omega arith
length-join_words ((x ∷ w) ∷ v ∷ ws) (ne, p, rest) =
    let rec = length-join_words (v ∷ ws) rest in
    rw (length-append w (space ∷ join_words (v ∷ ws))) (omega arith)

-- A line of plain words with one space between them, of fewer words than MAXARGS, is a command
-- without redirections whose arguments are the words.
pub parse_exec-join_words :
    (env : Environ) (ws : List (List ℕ))
    → PlainWords ws
    → length ws < max_args
    → parse_exec env (join_words ws) ≡ some (record (exec_cmd_create (join_words ws)) { argv = ws })
unfolding parse_exec end_argv exec_cmd_create
parse_exec-join_words env ws p h =
    let e =
      parse_tokens-words env (length (join_words ws)) (exec_cmd_create (join_words ws)) ws p
        (length-join_words ws p) (omega arith) in
    rw (parse_exec, e) (ground arith)

-- A line of MAXARGS plain words or more, with one space between them, is written outside `argv`.
pub parse_exec-too_many :
    (env : Environ) (ws : List (List ℕ))
    → PlainWords ws
    → max_args ≤ length ws
    → parse_exec env (join_words ws) ≡ none
unfolding parse_exec end_argv exec_cmd_create
parse_exec-too_many env ws p h = elim (dec_lt max_args (length ws)) [
  | yes more ↦
      let e =
        parse_tokens-too_many env (length (join_words ws)) (exec_cmd_create (join_words ws)) ws p
          (length-join_words ws p) (omega arith) (omega (arith, more)) in
      rw (parse_exec, e) refl
  | no same ↦
      let e =
        parse_tokens-words env (length (join_words ws)) (exec_cmd_create (join_words ws)) ws p
          (length-join_words ws p) (omega arith) in
      rw (parse_exec, e) (ground arith)
]
