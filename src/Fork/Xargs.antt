-- ===== src/Fork/Xargs.antt =====
-- 1-fork/xargs.c: the lines of the input as arguments of a command, NARGS for each run.
pub mod Groups
use sistemas_operativos_fiub.Common.{
  ℕ, zero, suc, ◌+◌, Bool, true, false, List, [], ◌∷◌, ◌++◌, ◌==◌, if◌then◌else◌, length,
}

-- The array `comandos` behind its first entry, and the runs so far: the `iterador` is one more than
-- the number of entries.
pub record Xargs : Type 0 where
  pub comandos : List (List ℕ)
  pub corridas : List (List (List ℕ))
  pub sigue : Bool  -- no fork has failed

-- A line of `getline` with its last byte overwritten, up to a NUL.
unfoldable pub linea_sin_fin : List ℕ → List ℕ
linea_sin_fin [] = []
linea_sin_fin (c ∷ []) = []
linea_sin_fin (c ∷ d ∷ s) = let rest = linea_sin_fin (d ∷ s) in if c == 0 then [] else c ∷ rest

-- The command, which `execvp` finds, is run with its arguments and waited for; where the fork fails
-- the program exits.
unfoldable pub leer_comandos : (ℕ → Bool) → List ℕ → Xargs → Xargs
leer_comandos forks comando x =
    if forks (length x.corridas)
    then record x { corridas = x.corridas ++ ((comando ∷ x.comandos) ∷ []) }
    else record x { sigue = false }

unfoldable pub verificar_numero_argumentos_alcanzado : (ℕ → Bool) → ℕ → List ℕ → Xargs → Xargs
verificar_numero_argumentos_alcanzado forks nargs comando x =
    if length x.comandos == nargs
    then record (leer_comandos forks comando x) { comandos = [] }
    else x

-- The loop of `main`.
unfoldable pub leer_lineas : (ℕ → Bool) → ℕ → List ℕ → List (List ℕ) → Xargs → Xargs
leer_lineas forks nargs comando [] x = x
leer_lineas forks nargs comando (linea ∷ lineas) x =
    let x' =
      verificar_numero_argumentos_alcanzado forks nargs comando
        (record x { comandos = x.comandos ++ (linea_sin_fin linea ∷ []) }) in
    elim x'.sigue [ false ↦ x' | true ↦ leer_lineas forks nargs comando lineas x' ]

-- The runs of the program on the lines that `getline` gives.
unfoldable pub xargs : (ℕ → Bool) → ℕ → List ℕ → List (List ℕ) → List (List (List ℕ))
xargs forks nargs comando lineas =
    let x =
      leer_lineas forks nargs comando lineas
        (record { comandos = []; corridas = []; sigue = true }) in
    (if x.sigue then leer_comandos forks comando x else x).corridas
