-- ===== src/Fork/Tests.antt =====
-- Small runs of the sieve and of xargs, and the theorems there.
use sistemas_operativos_fiub.Common.{
  ℕ, ◌≡◌, ◌↔◌, ◌<◌, ◌≤◌, refl, true, some, inc_int, List, [], ◌∷◌, ◌++◌, arith, length, Mem,
  Increasing,
}
use sistemas_operativos_fiub.Fork.Primes.{
  generar, generar_numeros, filtrar_numeros_primos, filtro, primes,
}
use sistemas_operativos_fiub.Fork.Primes.Sieve.{IsPrime, primes_lem}
use sistemas_operativos_fiub.Fork.Xargs.{xargs}
use sistemas_operativos_fiub.Fork.Xargs.Groups.{
  con_comando, concat, con_fin, AllText, AllLength, xargs_lem,
}

-- On a terminal a line is written at once; elsewhere it waits in the buffer.
abbrev terminal : List ℕ → ℕ → List ℕ × List ℕ
terminal espera x = (espera ++ (x ∷ []), [])

abbrev archivo : List ℕ → ℕ → List ℕ × List ℕ
archivo espera x = ([], espera ++ (x ∷ []))

primes_10 : primes terminal (λ k. true) 10 ≡ some (2 ∷ 3 ∷ 5 ∷ 7 ∷ [])
unfolding generar generar_numeros filtrar_numeros_primos filtro primes inc_int
primes_10 = refl

-- Every process writes the lines of those before it again; the last one ends first.
repeats : primes archivo (λ k. true) 4 ≡ some (2 ∷ 3 ∷ 2 ∷ 3 ∷ 2 ∷ [])
unfolding generar generar_numeros filtrar_numeros_primos filtro primes inc_int
repeats = refl

primes_lem_example :
    (salida : List ℕ) × (primes terminal (λ k. true) 10 ≡ some salida)
    × Increasing salida
    × ((x : ℕ) → Mem x salida ↔ ((x ≤ 10) × IsPrime x))
primes_lem_example = primes_lem terminal (λ k. true) 10 (λ x. refl) (λ j. refl) (omega arith)

-- The lines a, b and c.
abbrev lines_3 : List (List ℕ)
lines_3 = (b'a' ∷ []) ∷ (b'b' ∷ []) ∷ (b'c' ∷ []) ∷ []

lines_3-AllText : AllText lines_3
lines_3-AllText =
    (((λ e. omega arith), tt), (((λ e. omega arith), tt), (((λ e. omega arith), tt), tt)))

abbrev echo : List ℕ
echo = b'e' ∷ []

xargs_lem_example :
    (groups : List (List (List ℕ))) × (last : List (List ℕ)) × (xargs
        (λ i. true)
        2
        echo
        (con_fin lines_3)
      ≡ con_comando echo groups ++ ((echo ∷ last) ∷ []))
    × AllLength 2 groups
    × (length last < 2)
    × (concat groups ++ last ≡ lines_3)
xargs_lem_example = xargs_lem (λ i. true) 2 echo lines_3 (λ i. refl) (omega arith) lines_3-AllText
