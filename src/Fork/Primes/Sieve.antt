-- ===== src/Fork/Primes/Sieve.antt =====
-- 1-fork/primes.c: what the filters print.
use sistemas_operativos_fiub.Common.{
  ℕ, zero, suc, ◌+◌, ◌-◌, ◌*◌, ◌/◌, ◌%◌, ◌≡◌, refl, ap, ◌∙◌, ◌≢◌, ◌<◌, ◌≤◌, ◌↔◌, inl, inr, Bool,
  true, some, ◌^◌, List, [], ◌∷◌, arith, length, Mem, Increasing, ==-ne,
}
use mathlib.Core.Option
use mathlib.Core.List.{append-nil}
use native.Mathlib.Decide.{ℕ_discrete, dec_lt}
use native.Mathlib.Nat.{div-add-mod', mul-mod_left}
use sistemas_operativos_fiub.Fork.Primes.{generar_numeros, filtrar_numeros_primos, filtro, primes}
use sistemas_operativos_fiub.Fork.Primes.Generated.{
  desde, generar-desde, desde-Mem, desde-Increasing,
}

-- No number from 2 to below `a` divides `x`.
pub Rough : ℕ → ℕ → Type 0
Rough a x = (d : ℕ) → 1 < d → d < a → x % d ≢ 0

abbrev pub IsPrime : ℕ → Type 0
IsPrime p = (1 < p) × ((d : ℕ) → 1 < d → d < p → p % d ≢ 0)

divides_trans : (x d e : ℕ) → x % d ≡ 0 → d % e ≡ 0 → x % e ≡ 0
divides_trans x d e p q = ap (λ (z : ℕ). z % e) product ∙ mul-mod_left (x / d * (d / e)) e
  where
    product : x ≡ x / d * (d / e) * e
    product = grind (arith, div-add-mod' x d, div-add-mod' d e, p, q)

-- The list on the way to the filter of the next number from `a` on.
record IsSieved (a n : ℕ) (xs : List ℕ) : Type 0 where
  pub increasing : Increasing xs
  pub sound : (x : ℕ) → Mem x xs → (a ≤ x) × (x ≤ n) × Rough a x
  pub complete : (x : ℕ) → a ≤ x → x ≤ n → Rough a x → Mem x xs

filtrar-drops :
    (p y : ℕ) (ys : List ℕ)
    → y % p ≡ 0
    → filtrar_numeros_primos (y ∷ ys) p ≡ filtrar_numeros_primos ys p
unfolding filtrar_numeros_primos
filtrar-drops p y ys e = rw e refl

filtrar-keeps :
    (p y : ℕ) (ys : List ℕ)
    → y % p ≢ 0
    → filtrar_numeros_primos (y ∷ ys) p ≡ y ∷ filtrar_numeros_primos ys p
unfolding filtrar_numeros_primos
filtrar-keeps p y ys ne = rw (==-ne (y % p) 0 ne) refl

filtrar-Mem :
    (x p : ℕ) (xs : List ℕ) → Mem x (filtrar_numeros_primos xs p) ↔ (Mem x xs × (x % p ≢ 0))
unfolding filtrar_numeros_primos
filtrar-Mem x p [] = (λ m. absurd m, λ (m, ne). absurd m)
filtrar-Mem x p (y ∷ ys) = elim (ℕ_discrete (y % p) 0) [
  | yes e ↦ rw (filtrar-drops p y ys e) (
    (λ m. let (later, ne) = (filtrar-Mem x p ys).0 m in (inr later, ne)),
    λ (m, ne).
        (filtrar-Mem x p ys).1 (elim m [ inl q ↦ absurd (ne (rw q e)) | inr later ↦ later ], ne),
  )
  | no here ↦ rw (filtrar-keeps p y ys here) (
    (λ m. elim m [
      | inl q ↦ (inl q, rw q here)
      | inr later ↦ let (m2, ne) = (filtrar-Mem x p ys).0 later in (inr m2, ne)
    ]),
    λ (m, ne). elim m [ inl q ↦ inl q | inr later ↦ inr ((filtrar-Mem x p ys).1 (later, ne)) ],
  )
]

filtrar-Increasing :
    (p : ℕ) (xs : List ℕ) → Increasing xs → Increasing (filtrar_numeros_primos xs p)
unfolding filtrar_numeros_primos
filtrar-Increasing p [] i = tt
filtrar-Increasing p (y ∷ ys) (below, i) = elim (ℕ_discrete (y % p) 0) [
  | yes e ↦ rw (filtrar-drops p y ys e) (filtrar-Increasing p ys i)
  | no ne ↦
      rw (filtrar-keeps p y ys ne)
        ((λ z m. below z ((filtrar-Mem z p ys).0 m).0), filtrar-Increasing p ys i)
]

module _ (a n p : ℕ) (xs : List ℕ) (two : 1 < a) (s : IsSieved a n (p ∷ xs)) where
  head_in : (a ≤ p) × (p ≤ n) × Rough a p
  head_in = s.sound p (inl refl)

  -- Between the bound and the head there is no number that passed.
  gap : (d : ℕ) → a ≤ d → d < p → ¬ Rough a d
  gap d low high r = elim (s.complete d low (omega (arith, head_in)) r) [
    | inl e ↦ omega arith
    | inr m ↦ omega (arith, s.increasing.0 d m)
  ]

  undivided : (x d : ℕ) → 1 < d → d < p → x % d ≡ 0 → ¬ Rough a x
  unfolding Rough
  undivided x d h l e r = elim (dec_lt d a) [
    | yes small ↦ r d h small e
    | no large ↦ gap d (omega arith) l (λ f hf lf ef. r f hf lf (divides_trans x d f e ef))
  ]

  head-IsPrime : IsPrime p
  unfolding Rough
  head-IsPrime = (omega (arith, head_in.0), λ d h l e. undivided p d h l e (head_in.2))

  next-IsSieved : IsSieved (p + 1) n (filtrar_numeros_primos xs p)
  unfolding Rough
  next-IsSieved = record {
    increasing = filtrar-Increasing p xs s.increasing.1;
    sound = λ x m.
        let (m2, ne) = (filtrar-Mem x p xs).0 m in
        let above = s.increasing.0 x m2 in
        let (low, high, r) = s.sound x (inr m2) in
        (
          omega (arith, above),
          high,
          λ d h l e. elim (ℕ_discrete d p) [
            | yes q ↦ ne (rw q at e)
            | no other ↦ undivided x d h (omega arith) e r
          ],
        );
    complete = λ x low high r. (filtrar-Mem x p xs).1 (
      elim (s.complete x (omega (arith, head_in.0)) high
          (λ d h l. r d h (omega (arith, head_in.0)))) [ inl e ↦ absurd (omega arith) | inr m ↦ m ],
      r p (omega (arith, head_in.0)) (omega arith),
    );
  }

filtrar-length : (p : ℕ) (xs : List ℕ) → length (filtrar_numeros_primos xs p) ≤ length xs
unfolding filtrar_numeros_primos
filtrar-length p [] = omega arith
filtrar-length p (x ∷ xs) = ground (arith, filtrar-length p xs)

-- What a list of primes is.
abbrev ArePrimes : ℕ → ℕ → List ℕ → Type 0
ArePrimes a n xs = Increasing xs × ((x : ℕ) → Mem x xs ↔ ((a ≤ x) × (x ≤ n) × IsPrime x))

-- The head and the primes behind it.
with_head :
    (a n p : ℕ) (xs rest : List ℕ)
    → 1 < a
    → IsSieved a n (p ∷ xs)
    → ArePrimes (p + 1) n rest
    → ArePrimes a n (p ∷ rest)
unfolding Rough
with_head a n p xs rest two s (i, mem) =
    let (low, high, r) = head_in a n p xs two s in
    (
      ((λ y m. omega (arith, ((mem y).0 m).0)), i),
      λ x. (
        λ m. elim m [
          | inl e ↦ rw e (low, high, head-IsPrime a n p xs two s)
          | inr later ↦ let (l, h, q) = (mem x).0 later in (omega (arith, l), h, q)
        ],
        λ (l, h, q). elim (dec_lt p x) [
          | yes above ↦ inr ((mem x).1 (omega arith, h, q))
          | no not_above ↦ elim (ℕ_discrete x p) [
            | yes e ↦ inl e
            | no other ↦
                absurd (gap a n p xs two s x l (omega arith) (λ d g u. q.1 d g (omega arith)))
          ]
        ],
      ),
    )

-- A prime from the bound on is in the list.
prime-Mem : (a n x : ℕ) (xs : List ℕ) → IsSieved a n xs → a ≤ x → x ≤ n → IsPrime x → Mem x xs
unfolding Rough
prime-Mem a n x xs s low high p = s.complete x low high (λ d h l. p.1 d h (omega arith))

-- The output is a terminal: stdio writes a line at its end, and none waits.
abbrev pub LineBuffered : (List ℕ → ℕ → List ℕ × List ℕ) → Type 0
LineBuffered puts = (x : ℕ) → puts [] x ≡ (x ∷ [], [])

filtro-step :
    (puts : List ℕ → ℕ → List ℕ × List ℕ) (creates : ℕ → Bool) (k n p : ℕ) (xs : List ℕ)
    → LineBuffered puts
    → creates k ≡ true
    → filtro puts creates k (suc n) [] (p ∷ xs)
      ≡ p ∷ filtro puts creates (k + 1) n [] (filtrar_numeros_primos xs p)
unfolding filtro
filtro-step puts creates k n p xs lines e =
    rw (lines p, e)
      (ap (λ (l : List ℕ). p ∷ l)
        (append-nil (filtro puts creates (k + 1) n [] (filtrar_numeros_primos xs p))))

filtro-IsPrime :
    (puts : List ℕ → ℕ → List ℕ × List ℕ) (creates : ℕ → Bool) (k fuel a n : ℕ) (xs : List ℕ)
    → LineBuffered puts
    → ((j : ℕ) → creates j ≡ true)
    → 1 < a
    → length xs ≤ fuel
    → IsSieved a n xs
    → ArePrimes a n (filtro puts creates k fuel [] xs)
unfolding filtro
filtro-IsPrime puts creates k zero a n [] lines works two enough s =
    (tt, λ x. (λ m. absurd m, λ (low, high, p). prime-Mem a n x [] s low high p))
filtro-IsPrime puts creates k zero a n (p ∷ xs) lines works two enough s = absurd (omega arith)
filtro-IsPrime puts creates k (suc fuel) a n [] lines works two enough s =
    (tt, λ x. (λ m. absurd m, λ (low, high, p). prime-Mem a n x [] s low high p))
filtro-IsPrime puts creates k (suc fuel) a n (p ∷ xs) lines works two enough s =
    rw (filtro-step puts creates k fuel p xs lines (works k)) (
      with_head a n p xs (filtro puts creates (k + 1) fuel [] (filtrar_numeros_primos xs p)) two s (
        filtro-IsPrime puts creates (k + 1) fuel (p + 1) n (filtrar_numeros_primos xs p) lines works
          (omega (arith, (head_in a n p xs two s).0)) (omega (arith, filtrar-length p xs))
          (next-IsSieved a n p xs two s)))

-- Where the output is a terminal, every pipe and process is created and the limit is below the largest
-- int, the program prints the primes up to its limit, all of them, in increasing order and each once.
pub primes_lem :
    (puts : List ℕ → ℕ → List ℕ × List ℕ) (creates : ℕ → Bool) (numero_limite : ℕ)
    → LineBuffered puts
    → ((j : ℕ) → creates j ≡ true)
    → numero_limite < 2 ^ 31 - 1
    → (salida : List ℕ) × (primes puts creates numero_limite ≡ some salida)
      × Increasing salida
      × ((x : ℕ) → Mem x salida ↔ ((x ≤ numero_limite) × IsPrime x))
unfolding primes generar_numeros Rough
primes_lem puts creates numero_limite lines works small =
    let numeros = desde (numero_limite - 1) 2 in
    let (i, mem) =
      filtro-IsPrime puts creates 0 (length numeros) 2 numero_limite numeros lines works
        (omega arith) (omega arith)
        (record {
          increasing = desde-Increasing (numero_limite - 1) 2;
          sound = λ x m.
              let (l, h) = (desde-Mem (numero_limite - 1) 2 x).0 m in
              (l, omega (arith, h), λ d g u. absurd (omega arith));
          complete = λ x l h r. (desde-Mem (numero_limite - 1) 2 x).1 (l, omega arith);
        }) in
    (
      filtro puts creates 0 (length numeros) [] numeros,
      ap (Option.map (λ (ns : List ℕ). filtro puts creates 0 (length ns) [] ns))
          (generar-desde (numero_limite - 1) 2 (omega arith)),
      i,
      λ x. (
        λ m. let (l, h, q) = (mem x).0 m in (h, q),
        λ (h, q). (mem x).1 (omega (arith, q.0), h, q),
      ),
    )
