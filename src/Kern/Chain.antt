-- ===== src/Kern/Chain.antt =====
-- The free lists of the kernel: links between the entries of a table, NULL at the end.
use sistemas_operativos_fiub.Common.{
  ℕ, ◌≡◌, ◌≢◌, Option, none, some, List, [], ◌∷◌, update, update_ne,
}

-- The index does not stand in the list.
abbrev pub Outside : ℕ → List ℕ → Type 0
Outside a [] = Unit {0}
Outside a (x ∷ xs) = (a ≢ x) × Outside a xs

-- From the head the links lead through these entries, each once, to NULL.
abbrev pub Chain : (ℕ → Option ℕ) → Option ℕ → List ℕ → Type 0
Chain next head [] = head ≡ none
Chain next head (x ∷ xs) = (head ≡ some x) × Outside x xs × Chain next (next x) xs

-- Every entry of the list has the property.
abbrev pub All : (ℕ → Type 0) → List ℕ → Type 0
All P [] = Unit {0}
All P (x ∷ xs) = P x × All P xs

-- A link of an entry outside the list is not followed.
pub Chain-update :
    (next : ℕ → Option ℕ) (head : Option ℕ) (xs : List ℕ) (a : ℕ) (v : Option ℕ)
    → Outside a xs
    → Chain next head xs
    → Chain (update next a v) head xs
Chain-update next head [] a v o c = c
Chain-update next head (x ∷ xs) a v (ne, o) (e, fresh, c) =
    (e, fresh, rw (update_ne next a x v ne) (Chain-update next (next x) xs a v o c))

-- What holds of all entries of the list but changes at an entry outside of it.
pub All-mono : (P Q : ℕ → Type 0) (xs : List ℕ) → ((x : ℕ) → P x → Q x) → All P xs → All Q xs
All-mono P Q [] f a = tt
All-mono P Q (x ∷ xs) f (p, a) = (f x p, All-mono P Q xs f a)

pub All-Outside :
    (P Q : ℕ → Type 0) (a : ℕ) (xs : List ℕ)
    → ((x : ℕ) → a ≢ x → P x → Q x)
    → Outside a xs
    → All P xs
    → All Q xs
All-Outside P Q a [] f o h = tt
All-Outside P Q a (x ∷ xs) f (ne, o) (p, h) = (f x ne p, All-Outside P Q a xs f o h)

-- An entry without the property stands outside a list of entries that have it.
pub Outside-All : (P : ℕ → Type 0) (a : ℕ) (xs : List ℕ) → All P xs → ¬ P a → Outside a xs
Outside-All P a [] h n = tt
Outside-All P a (x ∷ xs) (p, h) n = (λ e. n (rw e p), Outside-All P a xs h n)

-- The links of the entries alone count.
pub Chain-cong :
    (next next2 : ℕ → Option ℕ) (head : Option ℕ) (xs : List ℕ) (a : ℕ)
    → ((j : ℕ) → a ≢ j → next2 j ≡ next j)
    → Outside a xs
    → Chain next head xs
    → Chain next2 head xs
Chain-cong next next2 head [] a f o c = c
Chain-cong next next2 head (x ∷ xs) a f (ne, o) (e, fresh, c) =
    (e, fresh, rw (f x ne) (Chain-cong next next2 (next x) xs a f o c))
