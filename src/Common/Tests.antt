-- ===== src/Common/Tests.antt =====
-- Boolean tests on the native numbers and on byte strings, and the conditional.
use Prim.Native.Nat.{ℕ, ◌+◌, ◌^◌, ◌≤◌, ◌<◌, compare, Ordering}
use mathlib.Core.Path.{◌≡◌, refl, sym}
use mathlib.Core.Logic.{◌↔◌, ◌⊎◌, inl, inr, ◌≢◌}
use mathlib.Core.Bool.{Bool, true, false, ◌&&◌}
use mathlib.Core.Option.{Option, none, some}
use mathlib.Core.List.{List, [], ◌∷◌}
use native.Mathlib.Omega.{arith}

abbrev pub ltb : ℕ → ℕ → Bool
ltb a b = elim (compare a b) [ Ordering.lt ↦ true | _ ↦ false ]

abbrev pub leb : ℕ → ℕ → Bool
leb a b = elim (compare a b) [ Ordering.gt ↦ false | _ ↦ true ]

infix 50 ◌==◌
abbrev pub ◌==◌ : ℕ → ℕ → Bool
a == b = elim (compare a b) [ Ordering.eq ↦ true | _ ↦ false ]

infix 1 if◌then◌else◌
abbrev pub if◌then◌else◌ {ℓ} : {A : Type ℓ} → Bool → A → A → A
if true then x else y = x
if false then x else y = y

pub ltb→lt : (a b : ℕ) → ltb a b ≡ true → a < b
ltb→lt a b h = ground arith

pub lt→ltb : (a b : ℕ) → a < b → ltb a b ≡ true
lt→ltb a b h = ground arith

pub not_lt→ltb : (a b : ℕ) → ¬ (a < b) → ltb a b ≡ false
not_lt→ltb a b h = ground arith

pub leb→le : (a b : ℕ) → leb a b ≡ true → a ≤ b
leb→le a b h = ground arith

pub leb-false→lt : (a b : ℕ) → leb a b ≡ false → b < a
leb-false→lt a b h = ground arith

pub ==_iff : (a b : ℕ) → ((a == b) ≡ true) ↔ (a ≡ b)
==_iff a b = ground arith

pub ==_refl : (a : ℕ) → (a == a) ≡ true
==_refl a = ground arith

pub ==-ne : (a b : ℕ) → a ≢ b → (a == b) ≡ false
==-ne a b h = ground arith

pub none-ne-some {ℓ} : {A : Type ℓ} (a : A) → ◌≡◌ {A = Option A} (some a) none → ⊥
none-ne-some a h = cc

pub some-injective {ℓ} : {A : Type ℓ} {a b : A} → ◌≡◌ {A = Option A} (some a) (some b) → a ≡ b
some-injective h = cc

pub true≢false : {b : Bool} → b ≡ true → b ≡ false → ⊥
true≢false p q = cc

-- To split on a computed value and keep the equation.
pub Bool-cases : (b : Bool) → (b ≡ true) ⊎ (b ≡ false)
Bool-cases true = inl refl
Bool-cases false = inr refl

pub Option-cases {ℓ} : {A : Type ℓ} (o : Option A) → (o ≡ none) ⊎ ((a : A) × (o ≡ some a))
Option-cases none = inl refl
Option-cases (some a) = inr (a, refl)

-- `n++` for an int that is not negative; `none` where it overflows, which C leaves undefined.
unfoldable pub inc_int : ℕ → Option ℕ
inc_int n = if leb (2 ^ 31) (n + 1) then none else some (n + 1)

-- `strcmp(s, t) == 0`
unfoldable pub str_eq : List ℕ → List ℕ → Bool
str_eq [] [] = true
str_eq [] (y ∷ t) = false
str_eq (x ∷ s) [] = false
str_eq (x ∷ s) (y ∷ t) = (x == y) && str_eq s t

pub str_eq_sound : (s t : List ℕ) → str_eq s t ≡ true → s ≡ t
unfolding str_eq
str_eq_sound [] [] h = refl
str_eq_sound [] (y ∷ t) h = cc
str_eq_sound (x ∷ s) [] h = cc
str_eq_sound (x ∷ s) (y ∷ t) h = ground (arith, str_eq_sound s t)

pub str_eq_refl : (s : List ℕ) → str_eq s s ≡ true
unfolding str_eq
str_eq_refl [] = refl
str_eq_refl (x ∷ s) = ground (arith, str_eq_refl s)

pub str_eq-ne : (s t : List ℕ) → s ≢ t → str_eq s t ≡ false
str_eq-ne s t h = elim (Bool-cases (str_eq s t)) [
  | inl e ↦ absurd (h (str_eq_sound s t e))
  | inr e ↦ e
]

pub Bool-ext : (a b : Bool) → (a ≡ true → b ≡ true) → (b ≡ true → a ≡ true) → a ≡ b
Bool-ext true b f g = sym (f refl)
Bool-ext false true f g = g refl
Bool-ext false false f g = refl
