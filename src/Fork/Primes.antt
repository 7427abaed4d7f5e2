-- ===== src/Fork/Primes.antt =====
-- 1-fork/primes.c: a sieve of processes with a pipe between one and the next. What goes through a
-- pipe until its end is a list. The buffer of stdio is a parameter: `puts waiting x` are the lines that
-- printing the line of `x` writes to the output, and the lines that wait from then on. A fork copies
-- what waits, and `exit` writes it out.
pub mod Generated
pub mod Sieve
use sistemas_operativos_fiub.Common.{
  ℕ, zero, suc, ◌+◌, ◌-◌, ◌%◌, Bool, Option, none, some, List, [], ◌∷◌, ◌++◌, ◌==◌, not,
  if◌then◌else◌, length, inc_int,
}
use mathlib.Core.Option

-- `n` rounds of the loop of `generar_numeros`, from `numero_generado`; `none` where the int overflows,
-- which C leaves undefined.
unfoldable pub generar : ℕ → ℕ → Option (List ℕ)
generar zero numero_generado = some []
generar (suc n) numero_generado = elim (inc_int numero_generado) [
  | none ↦ none
  | some siguiente ↦ Option.map (λ l. numero_generado ∷ l) (generar n siguiente)
]

-- What is written for a limit that is not negative; a negative one is as 0.
unfoldable pub generar_numeros : ℕ → Option (List ℕ)
generar_numeros numero_limite = generar (numero_limite - 1) 2

-- What goes on to the next process.
unfoldable pub filtrar_numeros_primos : List ℕ → ℕ → List ℕ
filtrar_numeros_primos [] numero_primo = []
filtrar_numeros_primos (numero ∷ arriba) numero_primo =
    let rest = filtrar_numeros_primos arriba numero_primo in
    if not (numero % numero_primo == 0) then numero ∷ rest else rest

-- What the process and those behind it write to the output, in its order, for the lines `espera` that
-- wait in the buffer. The system creates the pipe and the process of the filter `k`, or fails: then the
-- filter exits and nothing comes behind it. A filter waits for the next one before it exits. Each
-- filter takes a number off the list, whose length is the fuel.
unfoldable pub filtro :
    (List ℕ → ℕ → List ℕ × List ℕ) → (ℕ → Bool) → ℕ → ℕ → List ℕ → List ℕ → List ℕ
filtro puts creates k zero espera arriba = espera
filtro puts creates k (suc n) espera [] = espera
filtro puts creates k (suc n) espera (numero_primo ∷ arriba) =
    let (escrito, resto) = puts espera numero_primo in
    let hijo = filtro puts creates (k + 1) n resto (filtrar_numeros_primos arriba numero_primo) in
    escrito ++ ((if creates k then hijo else []) ++ resto)

-- The numbers that the program prints, where its first pipe and process are created; `none` where C
-- leaves it undefined.
unfoldable pub primes : (List ℕ → ℕ → List ℕ × List ℕ) → (ℕ → Bool) → ℕ → Option (List ℕ)
primes puts creates numero_limite =
    Option.map (λ numeros. filtro puts creates 0 (length numeros) [] numeros)
      (generar_numeros numero_limite)
