-- ===== src/Shell/Parsing/Loop.antt =====
-- 2-shell/parsing.c: the loop of `parse_exec` ends by itself.
use sistemas_operativos_fiub.Common.{
  ℕ, zero, suc, ◌≡◌, refl, ◌≤◌, List, [], ◌∷◌, arith, length, length-drop, Option-cases, inl, inr,
}
use sistemas_operativos_fiub.Shell.Parsing.{
  Environ, ExecCmd, get_token, after_token, parse_token, parse_tokens,
}

length-after_token : (x : ℕ) (buf : List ℕ) → length (after_token (x ∷ buf)) ≤ length buf
unfolding after_token
length-after_token x buf =
    let e = length-drop (suc (length (get_token (x ∷ buf)))) (x ∷ buf) in rw e (omega arith)

-- The loop of `parse_exec` ends: with fuel for each byte of the text or more, it gives the same
-- result whatever the fuel is.
pub parse_tokens_enough :
    (env : Environ) (n m : ℕ) (c : ExecCmd) (buf : List ℕ)
    → length buf ≤ n
    → length buf ≤ m
    → parse_tokens env n c buf ≡ parse_tokens env m c buf
unfolding parse_tokens
parse_tokens_enough env zero zero c buf a b = refl
parse_tokens_enough env zero (suc m) c [] a b = refl
parse_tokens_enough env zero (suc m) c (x ∷ buf) a b = absurd (omega arith)
parse_tokens_enough env (suc n) zero c [] a b = refl
parse_tokens_enough env (suc n) zero c (x ∷ buf) a b = absurd (omega arith)
parse_tokens_enough env (suc n) (suc m) c [] a b = refl
parse_tokens_enough env (suc n) (suc m) c (x ∷ buf) a b =
    let shorter = length-after_token x buf in
    elim (Option-cases (parse_token env c (get_token (x ∷ buf)))) [
      | inl e ↦ rw (e, parse_tokens) refl
      | inr (c', e) ↦
          rw (e, parse_tokens)
            (parse_tokens_enough env n m c' (after_token (x ∷ buf)) (omega arith) (omega arith))
    ]
