-- ===== src/Kern/Text/Strings/Compare.antt =====
-- 3-sched/lib/string.c: when two strings, or the starts of two strings, compare as equal.
use sistemas_operativos_fiub.Common.{
  ℕ, zero, suc, ◌≡◌, ◌↔◌, refl, sym, ap, ◌∙◌, ◌<◌, Bool, false, List, [], ◌∷◌, arith, ◌==◌,
  if◌then◌else◌, take,
}
use sistemas_operativos_fiub.Kern.Chain.{All}
use sistemas_operativos_fiub.Kern.Text.Strings.{difference, strcmp, strncmp}

-- A byte that is not NUL.
abbrev pub IsByte : ℕ → Type 0
IsByte c = 0 < c

equal_heads :
    (c d : ℕ) (r : Bool × ℕ)
    → (if c == d then r else difference c d) ≡ (false, 0)
    → (c ≡ d) × (r ≡ (false, 0))
unfolding difference
equal_heads c d r h = ground (arith, h)

below : (d : ℕ) → 0 < d → difference 0 d ≡ (false, 0) → ⊥
unfolding difference
below d e h = ground (arith, e, h)

above : (c : ℕ) → 0 < c → difference c 0 ≡ (false, 0) → ⊥
unfolding difference
above c e h = ground (arith, e, h)

strcmp_sound : (p q : List ℕ) → All IsByte p → All IsByte q → strcmp p q ≡ (false, 0) → p ≡ q
unfolding strcmp difference
strcmp_sound [] [] a b h = refl
strcmp_sound [] (d ∷ q) a (e, b) h = absurd (below d e h)
strcmp_sound (c ∷ p) [] (e, a) b h = absurd (above c e h)
strcmp_sound (c ∷ p) (d ∷ q) (e, a) (f, b) h =
    let (same, rest) = equal_heads c d (strcmp p q) h in
    ap (λ x. x ∷ p) same ∙ ap (λ l. d ∷ l) (strcmp_sound p q a b rest)

strcmp_refl : (p : List ℕ) → strcmp p p ≡ (false, 0)
unfolding strcmp difference
strcmp_refl [] = ground arith
strcmp_refl (c ∷ p) = ground (arith, strcmp_refl p)

-- `strcmp` gives 0 for equal strings and for no others.
pub strcmp_lem : (p q : List ℕ) → All IsByte p → All IsByte q → (strcmp p q ≡ (false, 0)) ↔ (p ≡ q)
strcmp_lem p q a b = (strcmp_sound p q a b, λ e. ap (λ x. strcmp p x) (sym e) ∙ strcmp_refl p)

strncmp_sound :
    (p q : List ℕ) (n : ℕ)
    → All IsByte p
    → All IsByte q
    → strncmp p q n ≡ (false, 0)
    → take n p ≡ take n q
unfolding strncmp difference
strncmp_sound p q zero a b h = refl
strncmp_sound [] [] (suc n) a b h = refl
strncmp_sound [] (d ∷ q) (suc n) a (e, b) h = absurd (below d e h)
strncmp_sound (c ∷ p) [] (suc n) (e, a) b h = absurd (above c e h)
strncmp_sound (c ∷ p) (d ∷ q) (suc n) (e, a) (f, b) h =
    let (same, rest) = equal_heads c d (strncmp p q n) h in
    ap (λ x. x ∷ take n p) same ∙ ap (λ l. d ∷ l) (strncmp_sound p q n a b rest)

strncmp_complete :
    (p q : List ℕ) (n : ℕ)
    → All IsByte p
    → All IsByte q
    → take n p ≡ take n q
    → strncmp p q n ≡ (false, 0)
unfolding strncmp difference
strncmp_complete p q zero a b h = refl
strncmp_complete [] [] (suc n) a b h = ground arith
strncmp_complete [] (d ∷ q) (suc n) a b h = cc
strncmp_complete (c ∷ p) [] (suc n) a b h = cc
strncmp_complete (c ∷ p) (d ∷ q) (suc n) (e, a) (f, b) h =
    ground (arith, h, strncmp_complete p q n a b)

-- `strncmp` gives 0 for strings that start with the same bytes, as many as it is told to compare, and
-- for no others.
pub strncmp_lem :
    (p q : List ℕ) (n : ℕ)
    → All IsByte p
    → All IsByte q
    → (strncmp p q n ≡ (false, 0)) ↔ (take n p ≡ take n q)
strncmp_lem p q n a b = (strncmp_sound p q n a b, strncmp_complete p q n a b)
