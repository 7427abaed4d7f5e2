-- ===== src/Kern/Text/Bytes.antt =====
-- 3-sched/lib: memory after a list of bytes was written to it.
use sistemas_operativos_fiub.Common.{
  ℕ, zero, suc, ◌+◌, ◌-◌, ◌≡◌, refl, ◌<◌, ◌&&◌, List, [], ◌∷◌, arith, ltb, leb, if◌then◌else◌,
  update,
}
use native.Mathlib.Decide.{dec_lt}

-- The element at an index, 0 behind the end.
abbrev pub nth : List ℕ → ℕ → ℕ
nth [] j = 0
nth (x ∷ xs) zero = x
nth (x ∷ xs) (suc j) = nth xs j

nth_head : (x i j : ℕ) (xs : List ℕ) → j ≡ i → nth (x ∷ xs) (j - i) ≡ x
nth_head x i j xs e = let z : j - i ≡ 0 = omega arith in rw z refl

nth_tail : (x i j : ℕ) (xs : List ℕ) → i < j → nth (x ∷ xs) (j - i) ≡ nth xs (j - (i + 1))
nth_tail x i j xs h = let z : j - i ≡ suc (j - (i + 1)) = omega arith in rw z refl

-- The bytes of `out` from `lo` to below `hi`, and the old ones elsewhere.
abbrev pub written : List ℕ → ℕ → ℕ → (ℕ → ℕ) → ℕ → ℕ
written out lo hi old j = if leb lo j && ltb j hi then nth out (j - lo) else old j

pub written-cons :
    (ch lo hi : ℕ) (out : List ℕ) (old : ℕ → ℕ) (j : ℕ)
    → lo < hi
    → written out (lo + 1) hi (update old lo ch) j ≡ written (ch ∷ out) lo hi old j
unfolding update
written-cons ch lo hi out old j h = elim (dec_lt lo j) [
  | yes l ↦ rw (nth_tail ch lo j out l) (ground arith)
  | no n ↦ elim (dec_lt j lo) [
    | yes l ↦ ground arith
    | no m ↦ rw (nth_head ch lo j out (omega arith)) (ground arith)
  ]
]
