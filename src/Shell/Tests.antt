-- ===== src/Shell/Tests.antt =====
-- Small command lines, and the theorems there.
use sistemas_operativos_fiub.Common.{ℕ, zero, suc, ◌≡◌, none, some, List, [], ◌∷◌, arith, replicate}
use sistemas_operativos_fiub.Shell.Parsing.{Environ, ExecCmd, exec_cmd_create, parse_exec}
use sistemas_operativos_fiub.Shell.Parsing.Args.{
  PlainByte, PlainWords, join_words, parse_exec-join_words,
}
use sistemas_operativos_fiub.Shell.Lines.Pipes.{IsSimple}

abbrev environ : Environ
environ = record { getenv = λ name. none; status_text = b'0' ∷ [] }

abbrev word_l : List ℕ
word_l = b'l' ∷ []

abbrev words_2 : List (List ℕ)
words_2 = (b'l' ∷ b's' ∷ []) ∷ (b'-' ∷ b'l' ∷ []) ∷ []

words_2-PlainWords : PlainWords words_2
words_2-PlainWords = ground arith

word_l-PlainByte : PlainByte b'l'
word_l-PlainByte = (omega arith, omega arith, omega arith, omega arith, omega arith)

words_n-PlainWords : (n : ℕ) → PlainWords (replicate n word_l)
words_n-PlainWords zero = tt
words_n-PlainWords (suc n) =
    let rest = words_n-PlainWords n in (λ e. ground arith, (word_l-PlainByte, tt), rest)

parse_exec-join_words_example :
    parse_exec environ (join_words words_2)
    ≡ some (record (exec_cmd_create (join_words words_2)) { argv = words_2 })
parse_exec-join_words_example =
    parse_exec-join_words environ words_2 words_2-PlainWords (omega arith)

abbrev command_l : ExecCmd
command_l = record (exec_cmd_create word_l) { argv = word_l ∷ [] }

word_l-IsSimple : IsSimple environ word_l command_l
unfolding exec_cmd_create
word_l-IsSimple = record {
  no_pipe = (omega arith, tt);
  no_back = (omega arith, tt);
  starts = omega arith;
  parses = parse_exec-join_words environ (word_l ∷ []) (words_n-PlainWords 1) (omega arith);
}
