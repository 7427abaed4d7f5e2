-- ===== src/Fs/Strings.antt =====
-- The functions of <string.h> that 4-fs calls, over bytes. A `char[N]` is the list of its N bytes,
-- and a `const char *` argument is the list of the bytes before its terminator.
pub mod Laws
use sistemas_operativos_fiub.Common.{
  ℕ, zero, suc, ◌+◌, ◌-◌, ◌≤◌, ◌<◌, ◌≡◌, refl, ap, ◌≢◌, Option, none, some, List, [], ◌∷◌, ◌++◌,
  arith, length, take, drop, length-append, ◌==◌, if◌then◌else◌, inl, inr, Bool-cases, ==_iff,
  length-take, take-all,
}
use mathlib.Core.Path.{sym}
use mathlib.Core.List.{append-nil}
use Prim.Native.Nat.{min}

-- The string that a `char[N]` holds: its bytes before the first NUL.
unfoldable pub c_str : List ℕ → List ℕ
c_str [] = []
c_str (x ∷ xs) = let rest = c_str xs in if x == 0 then [] else x ∷ rest

-- `n` zero bytes, as `memset(p, 0, n)` writes them.
unfoldable pub zeros : ℕ → List ℕ
zeros zero = []
zeros (suc n) = 0 ∷ zeros n

-- The `n` bytes that `strncpy(d, s, n)` writes: the string, then zeros.
unfoldable pub strncpy : ℕ → List ℕ → List ℕ
strncpy zero s = []
strncpy (suc n) [] = 0 ∷ strncpy n []
strncpy (suc n) (x ∷ s) = x ∷ strncpy n s

-- `memcpy(d + off, bytes, length bytes)`; what lies past the end of `d` is not written.
unfoldable pub blit : List ℕ → ℕ → List ℕ → List ℕ
blit [] off bytes = []
blit (d ∷ ds) zero [] = d ∷ ds
blit (d ∷ ds) zero (b ∷ bs) = b ∷ blit ds zero bs
blit (d ∷ ds) (suc off) bs = d ∷ blit ds off bs

-- `strrchr(s, c)`: the index of the last `c`.
unfoldable pub strrchr : List ℕ → ℕ → Option ℕ
strrchr [] c = none
strrchr (x ∷ xs) c = elim (strrchr xs c) [
  | some k ↦ some (suc k)
  | none ↦ if x == c then some 0 else none
]

-- A string proper: no byte of it is NUL.
abbrev pub IsText : List ℕ → Type 0
IsText [] = Unit {0}
IsText (x ∷ xs) = (x ≢ 0) × IsText xs
