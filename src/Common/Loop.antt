-- ===== src/Common/Loop.antt =====
-- The loop `for (i = lo; i < lo + n; i++) if (test(i)) return i;` that the sources use to search
-- their tables, and tables as functions of the index with an update at one index.
use Prim.Native.Nat.{ℕ, zero, suc, ◌+◌, ◌≤◌, ◌<◌}
use mathlib.Core.Path.{◌≡◌, refl, ap}
use mathlib.Core.Logic.{◌≢◌, inl, inr}
use mathlib.Core.Bool.{Bool, true, false}
use mathlib.Core.Option.{Option, none, some}
use native.Mathlib.Omega.{arith}
use native.Mathlib.Decide.{ℕ_discrete, dec_lt}
use sistemas_operativos_fiub.Common.Tests.{
  if◌then◌else◌, ◌==◌, ==_refl, ==-ne, some-injective, true≢false, none-ne-some, Bool-cases,
  Option-cases,
}

-- `n` rounds from index `i`; `none` is the -1 after the loop.
unfoldable pub first : (ℕ → Bool) → ℕ → ℕ → Option ℕ
first test zero i = none
first test (suc n) i = let rest = first test n (i + 1) in if test i then some i else rest

-- What the loop returns passes the test, lies in the range, and nothing before it passes.
pub record IsFirst (test : ℕ → Bool) (lo : ℕ) (n : ℕ) (k : ℕ) : Type 0 where
  pub passes : test k ≡ true
  pub above : lo ≤ k
  pub below : k < lo + n
  pub least : (j : ℕ) → lo ≤ j → j < k → test j ≡ false

first-step :
    (test : ℕ → Bool) (n i : ℕ)
    → first test (suc n) i ≡ (if test i then some i else first test n (i + 1))
unfolding first
first-step test n i = refl

pub first-IsFirst : (test : ℕ → Bool) (n i k : ℕ) → first test n i ≡ some k → IsFirst test i n k
unfolding first
first-IsFirst test zero i k h = cc
first-IsFirst test (suc n) i k h = elim (Bool-cases (test i)) [
  | inl e ↦ here e (some-injective (rw e at h))
  | inr e ↦ later e (first-IsFirst test n (i + 1) k (rw e at h))
]
  where
    here : test i ≡ true → i ≡ k → IsFirst test i (suc n) k
    here e q = record {
      passes = rw (← q) e;
      above = omega arith;
      below = omega arith;
      least = λ j a b. absurd (omega arith);
    }

    later : test i ≡ false → IsFirst test (i + 1) n k → IsFirst test i (suc n) k
    later e r = record {
      passes = r.passes;
      above = omega (arith, r.above);
      below = omega (arith, r.below);
      least =
          λ j a b. elim (ℕ_discrete i j) [ yes q ↦ rw (← q) e | no q ↦ r.least j (omega arith) b ];
    }

-- The loop misses nothing.
pub first-none :
    (test : ℕ → Bool) (n i : ℕ)
    → first test n i ≡ none
    → (j : ℕ) → i ≤ j
    → j < i + n
    → test j ≡ false
unfolding first
first-none test zero i h j a b = absurd (omega arith)
first-none test (suc n) i h j a b = elim (Bool-cases (test i)) [
  | inl e ↦ absurd (none-ne-some i (rw e at h))
  | inr e ↦ elim (ℕ_discrete i j) [
    | yes q ↦ rw (← q) e
    | no q ↦ first-none test n (i + 1) (rw e at h) j (omega arith) (omega arith)
  ]
]

-- It returns the index that passes with nothing before it.
pub first-eq-some : (test : ℕ → Bool) (n i k : ℕ) → IsFirst test i n k → first test n i ≡ some k
first-eq-some test n i k f = elim (Option-cases (first test n i)) [
  | inl e ↦ absurd (true≢false f.passes (first-none test n i e k f.above f.below))
  | inr (m, e) ↦ rw e (ap some (same m (first-IsFirst test n i m e)))
]
  where
    same : (m : ℕ) → IsFirst test i n m → m ≡ k
    same m g = elim (dec_lt m k) [
      | yes p ↦ absurd (true≢false g.passes (f.least m g.above p))
      | no p ↦ elim (dec_lt k m) [
        | yes q ↦ absurd (true≢false f.passes (g.least k f.above q))
        | no q ↦ omega arith
      ]
    ]

pub first-eq-none :
    (test : ℕ → Bool) (n i : ℕ)
    → ((j : ℕ) → i ≤ j → j < i + n → test j ≡ false)
    → first test n i ≡ none
first-eq-none test n i h = elim (Option-cases (first test n i)) [
  | inl e ↦ e
  | inr (m, e) ↦ absurd (clash m (first-IsFirst test n i m e))
]
  where
    clash : (m : ℕ) → IsFirst test i n m → ⊥
    clash m g = true≢false g.passes (h m g.above g.below)

-- An array, indexed from 0; an update changes one entry.
unfoldable pub update {ℓ} : {A : Type ℓ} → (ℕ → A) → ℕ → A → ℕ → A
update f i v j = if i == j then v else f j

pub update_self {ℓ} : {A : Type ℓ} (f : ℕ → A) (i : ℕ) (v : A) → update f i v i ≡ v
unfolding update
update_self f i v = rw (==_refl i)

pub update_ne {ℓ} : {A : Type ℓ} (f : ℕ → A) (i j : ℕ) (v : A) → i ≢ j → update f i v j ≡ f j
unfolding update
update_ne f i j v h = rw (==-ne i j h)
