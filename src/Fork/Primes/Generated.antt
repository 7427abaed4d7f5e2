-- ===== src/Fork/Primes/Generated.antt =====
-- 1-fork/primes.c: the numbers that `generar_numeros` writes.
use sistemas_operativos_fiub.Common.{
  ℕ, zero, suc, ◌+◌, ◌≡◌, refl, ap, ◌<◌, ◌≤◌, ◌↔◌, inl, inr, some, inc_int, ◌^◌, List, [], ◌∷◌,
  arith, Mem, Increasing,
}
use mathlib.Core.Option
use native.Mathlib.Decide.{ℕ_discrete}
use sistemas_operativos_fiub.Fork.Primes.{generar}

-- `n` numbers from `i` on.
pub desde : ℕ → ℕ → List ℕ
desde zero i = []
desde (suc n) i = i ∷ desde n (i + 1)

-- The loop does not overflow below the largest int.
pub generar-desde : (n i : ℕ) → i + n < 2 ^ 31 → generar n i ≡ some (desde n i)
unfolding generar desde
generar-desde zero i h = refl
generar-desde (suc n) i h =
    rw (generar, inc_int-some i (omega arith))
      (ap (Option.map (λ (l : List ℕ). i ∷ l)) (generar-desde n (i + 1) (omega arith)))
  where
    inc_int-some : (i : ℕ) → i + 1 < 2 ^ 31 → inc_int i ≡ some (i + 1)
    inc_int-some i h = unfold inc_int in ground (arith, h)

pub desde-Mem : (n i x : ℕ) → Mem x (desde n i) ↔ ((i ≤ x) × (x < i + n))
unfolding desde
desde-Mem zero i x = (λ m. absurd m, λ (l, h). absurd (omega arith))
desde-Mem (suc n) i x = (
  λ m. elim m [
    | inl e ↦ (omega arith, omega arith)
    | inr later ↦
        let (l, h) = (desde-Mem n (i + 1) x).0 later in (omega (arith, l), omega (arith, h))
  ],
  λ (l, h). elim (ℕ_discrete x i) [
    | yes e ↦ inl e
    | no other ↦ inr ((desde-Mem n (i + 1) x).1 (omega arith, omega arith))
  ],
)

pub desde-Increasing : (n i : ℕ) → Increasing (desde n i)
unfolding desde
desde-Increasing zero i = tt
desde-Increasing (suc n) i =
    ((λ y m. omega (arith, ((desde-Mem n (i + 1) y).0 m).0)), desde-Increasing n (i + 1))
