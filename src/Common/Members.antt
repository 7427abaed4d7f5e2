-- ===== src/Common/Members.antt =====
-- Members of lists of numbers, and lists in increasing order.
use Prim.Native.Nat.{ℕ, ◌<◌}
use mathlib.Core.Path.{◌≡◌}
use mathlib.Core.Logic.{◌≢◌, ◌⊎◌}
use mathlib.Core.List.{List, [], ◌∷◌}

abbrev pub Mem : ℕ → List ℕ → Type 0
Mem x [] = ⊥
Mem x (y ∷ ys) = (x ≡ y) ⊎ Mem x ys

-- Each number is below all that follow it.
abbrev pub Increasing : List ℕ → Type 0
Increasing [] = Unit {0}
Increasing (x ∷ xs) = ((y : ℕ) → Mem y xs → x < y) × Increasing xs

-- The byte does not occur.
abbrev pub LacksByte : ℕ → List ℕ → Type 0
LacksByte c [] = Unit {0}
LacksByte c (x ∷ xs) = (x ≢ c) × LacksByte c xs
