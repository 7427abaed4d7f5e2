-- ===== src/Common/Lists.antt =====
-- Lists measured and indexed by native numbers, under the library's names.
use Prim.Native.Nat.{ℕ, zero, suc, ◌+◌, ◌-◌, ◌≤◌, min}
use mathlib.Core.Path.{◌≡◌, refl, ap, sym, ◌∙◌}
use mathlib.Core.List.{List, [], ◌∷◌, ◌++◌}
use native.Mathlib.Omega.{arith}

module _ {ℓ} {A : Type ℓ} where
  abbrev pub length : List A → ℕ
  length [] = 0
  length (x ∷ xs) = suc (length xs)

  abbrev pub take : ℕ → List A → List A
  take zero xs = []
  take (suc n) [] = []
  take (suc n) (x ∷ xs) = x ∷ take n xs

  abbrev pub drop : ℕ → List A → List A
  drop zero xs = xs
  drop (suc n) [] = []
  drop (suc n) (x ∷ xs) = drop n xs

  abbrev pub replicate : ℕ → A → List A
  replicate zero a = []
  replicate (suc n) a = a ∷ replicate n a

  pub length-append : (xs ys : List A) → length (xs ++ ys) ≡ length xs + length ys
  length-append [] ys = omega arith
  length-append (x ∷ xs) ys = omega (arith, length-append xs ys)

  pub take-append-drop : (n : ℕ) (xs : List A) → take n xs ++ drop n xs ≡ xs
  take-append-drop zero xs = refl
  take-append-drop (suc n) [] = refl
  take-append-drop (suc n) (x ∷ xs) = ap (λ l. x ∷ l) (take-append-drop n xs)

  pub length-take : (n : ℕ) (xs : List A) → length (take n xs) ≡ min n (length xs)
  length-take zero xs = omega arith
  length-take (suc n) [] = omega arith
  length-take (suc n) (x ∷ xs) = omega (arith, length-take n xs)

  pub length-drop : (n : ℕ) (xs : List A) → length (drop n xs) ≡ length xs - n
  length-drop zero xs = omega arith
  length-drop (suc n) [] = omega arith
  length-drop (suc n) (x ∷ xs) = omega (arith, length-drop n xs)

  pub length-replicate : (n : ℕ) (a : A) → length (replicate n a) ≡ n
  length-replicate zero a = refl
  length-replicate (suc n) a = ap suc (length-replicate n a)

  pub take-all : (n : ℕ) (xs : List A) → length xs ≤ n → take n xs ≡ xs
  take-all zero [] h = refl
  take-all zero (x ∷ xs) h = absurd (omega arith)
  take-all (suc n) [] h = refl
  take-all (suc n) (x ∷ xs) h = ap (λ l. x ∷ l) (take-all n xs (omega arith))

module _ {ℓ} {A : Type ℓ} where
  pub take_nil : (n : ℕ) → take {A = A} n [] ≡ []
  take_nil zero = refl
  take_nil (suc n) = refl

  pub take_zero : (n : ℕ) (xs : List A) → n ≡ 0 → take n xs ≡ []
  take_zero n xs e = rw e refl

  pub drop-take : (m n : ℕ) (xs : List A) → drop m (take n xs) ≡ take (n - m) (drop m xs)
  drop-take zero n xs = let e : n ≡ n - 0 = omega arith in ap (λ k. take k xs) e
  drop-take (suc m) zero xs = sym (take_zero (0 - suc m) (drop (suc m) xs) (omega arith))
  drop-take (suc m) (suc n) [] = sym (take_nil (suc n - suc m))
  drop-take (suc m) (suc n) (x ∷ xs) =
      let e : n - m ≡ suc n - suc m = omega arith in
      drop-take m n xs ∙ ap (λ k. take k (drop m xs)) e

  pub take-take : (m n : ℕ) (xs : List A) → take m (take n xs) ≡ take (min m n) xs
  take-take zero n xs = sym (take_zero (min 0 n) xs (omega arith))
  take-take (suc m) zero xs = sym (take_zero (min (suc m) 0) xs (omega arith))
  take-take (suc m) (suc n) [] = sym (take_nil (min (suc m) (suc n)))
  take-take (suc m) (suc n) (x ∷ xs) =
      let e : suc (min m n) ≡ min (suc m) (suc n) = omega arith in
      ap (λ l. x ∷ l) (take-take m n xs) ∙ ap (λ k. take k (x ∷ xs)) e
