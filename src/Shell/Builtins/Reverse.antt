-- ===== src/Shell/Builtins/Reverse.antt =====
-- 2-shell/builtin.c: the loop of `reverse` and the reversed string.
use sistemas_operativos_fiub.Common.{
  ℕ, zero, suc, ◌+◌, ◌-◌, ◌*◌, ◌/◌, ◌≡◌, refl, sym, ap, ◌∙◌, ◌<◌, ◌≤◌, Bool, ◌&&◌, ◌||◌, List, [],
  ◌∷◌, ◌++◌, arith, ltb, leb, if◌then◌else◌, update, length,
}
use mathlib.Core.List
use mathlib.Core.List.{append-nil}
use sistemas_operativos_fiub.Shell.Builtins.{byte, string, swap, reverse_loop, reverse}

-- The bytes that the rounds from `i` on exchange.
abbrev is_swapped : ℕ → ℕ → ℕ → ℕ → Bool
is_swapped n i len j = (leb i j && ltb j (i + n)) || (leb (len - i - n) j && ltb j (len - i))

swap-mirror :
    (n i len : ℕ) (str : ℕ → ℕ) (j : ℕ)
    → 2 * (i + suc n) ≤ len
    → (if is_swapped n (i + 1) len j
        then swap i (len - i - 1) str (len - 1 - j)
        else swap i (len - i - 1) str j)
      ≡ (if is_swapped (suc n) i len j then str (len - 1 - j) else str j)
unfolding swap update
swap-mirror n i len str j h = ground arith

reverse_loop_lem :
    (n i len : ℕ) (str : ℕ → ℕ) (j : ℕ)
    → 2 * (i + n) ≤ len
    → reverse_loop n i len str j ≡ (if is_swapped n i len j then str (len - 1 - j) else str j)
unfolding reverse_loop
reverse_loop_lem zero i len str j h = ground arith
reverse_loop_lem (suc n) i len str j h =
    reverse_loop_lem n (i + 1) len (swap i (len - i - 1) str) j (omega arith)
    ∙ swap-mirror n i len str j h

string_ext : (n : ℕ) (f g : ℕ → ℕ) → ((j : ℕ) → j < n → f j ≡ g j) → string n f ≡ string n g
unfolding string
string_ext zero f g h = refl
string_ext (suc n) f g h =
    rw
      (
        h 0 (omega arith),
        string_ext n (λ j. f (suc j)) (λ j. g (suc j)) (λ j l. h (suc j) (omega arith)),
      )
      refl

string_snoc : (n : ℕ) (f : ℕ → ℕ) → string (suc n) f ≡ string n f ++ (f n ∷ [])
unfolding string
string_snoc zero f = refl
string_snoc (suc n) f = ap (λ l. f 0 ∷ l) (string_snoc n (λ j. f (suc j)))

byte_first : (x : ℕ) (xs : List ℕ) (n : ℕ) → byte (x ∷ xs) (suc n - 1 - n) ≡ x
unfolding byte
byte_first x xs n = rw (the_zero n) refl
  where
    the_zero : (n : ℕ) → suc n - 1 - n ≡ 0
    the_zero n = omega arith

byte-mirror :
    (x : ℕ) (xs : List ℕ) (n j : ℕ) → j < n → byte (x ∷ xs) (suc n - 1 - j) ≡ byte xs (n - 1 - j)
unfolding byte
byte-mirror x xs n j h = rw (the_suc n j h) refl
  where
    the_suc : (n j : ℕ) → j < n → suc n - 1 - j ≡ suc (n - 1 - j)
    the_suc n j h = omega arith

append-cons : (xs r : List ℕ) (x : ℕ) → (xs ++ (x ∷ [])) ++ r ≡ xs ++ (x ∷ r)
append-cons [] r x = refl
append-cons (y ∷ xs) r x = ap (λ l. y ∷ l) (append-cons xs r x)

string-mirror :
    (str r : List ℕ)
    → string (length str) (λ j. byte str (length str - 1 - j)) ++ r ≡ List.reverse_aux str r
unfolding string
string-mirror [] r = refl
string-mirror (x ∷ xs) r =
    let n : ℕ = length xs in
    let bytes : ℕ → ℕ = λ j. byte (x ∷ xs) (suc n - 1 - j) in
    let tail : ℕ → ℕ = λ j. byte xs (n - 1 - j) in
    ap (λ l. l ++ r) (string_snoc n bytes)
    ∙ append-cons (string n bytes) r (bytes n)
    ∙ ap (λ l. l ++ (bytes n ∷ r)) (string_ext n bytes tail (byte-mirror x xs n))
    ∙ ap (λ b. string n tail ++ (b ∷ r)) (byte_first x xs n)
    ∙ string-mirror xs (x ∷ r)

-- `reverse` reverses the string.
pub reverse_lem : (str : List ℕ) → reverse str ≡ List.reverse str
unfolding reverse
reverse_lem str =
    string_ext (length str) (reverse_loop (length str / 2) 0 (length str) (byte str))
      (λ j. byte str (length str - 1 - j))
      (λ j l.
        reverse_loop_lem (length str / 2) 0 (length str) (byte str) j (omega arith)
        ∙ whole (length str) j (byte str) l)
    ∙ sym (append-nil (string (length str) (λ j. byte str (length str - 1 - j))))
    ∙ string-mirror str []
  where
    whole :
        (len j : ℕ) (str : ℕ → ℕ)
        → j < len
        → (if is_swapped (len / 2) 0 len j then str (len - 1 - j) else str j) ≡ str (len - 1 - j)
    whole len j str l = ground arith

pub reverse_aux-append :
    (xs ys r : List ℕ) → List.reverse_aux (xs ++ ys) r ≡ List.reverse_aux ys (List.reverse_aux xs r)
reverse_aux-append [] ys r = refl
reverse_aux-append (x ∷ xs) ys r = reverse_aux-append xs ys (x ∷ r)

pub reverse_aux_lem : (xs r : List ℕ) → List.reverse_aux xs r ≡ List.reverse xs ++ r
reverse_aux_lem [] r = refl
reverse_aux_lem (x ∷ xs) r =
    reverse_aux_lem xs (x ∷ r)
    ∙ sym (append-cons (List.reverse xs) r x)
    ∙ ap (λ l. l ++ r) (sym (reverse_aux_lem xs (x ∷ [])))

pub reverse-reverse_aux :
    (xs r : List ℕ) → List.reverse (List.reverse_aux xs r) ≡ List.reverse_aux r xs
reverse-reverse_aux [] r = refl
reverse-reverse_aux (x ∷ xs) r = reverse-reverse_aux xs (x ∷ r)
