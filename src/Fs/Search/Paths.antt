-- ===== src/Fs/Search/Paths.antt =====
-- 4-fs/fs_utils.c: `get_parent_dir` and `get_file_name` split a path without loss.
use sistemas_operativos_fiub.Common.{
  ℕ, zero, suc, ◌≡◌, refl, ap, ◌∙◌, sym, ◌≢◌, false, Option, none, some, List, [], ◌∷◌, ◌++◌, arith,
  take, drop, length, if◌then◌else◌, inl, inr, Bool-cases, Option-cases, ◌==◌, ==_iff, ==-ne,
  str_eq, str_eq_refl, length-take, length-drop, ◌⊎◌, some-injective, none-ne-some, ◌<◌, ◌≤◌,
}
use native.Mathlib.Numerals.{add-one}
use sistemas_operativos_fiub.Fs.Strings.{strrchr, IsText}
use sistemas_operativos_fiub.Fs.Strings.Laws.{take-IsText}
use sistemas_operativos_fiub.Fs.State.{root_path}
use sistemas_operativos_fiub.Fs.Search.{get_parent_dir, get_file_name}

-- An absolute path, as FUSE gives them: it begins with one slash.
abbrev pub IsAbsolute : List ℕ → Type 0
IsAbsolute [] = ⊥
IsAbsolute (x ∷ []) = x ≡ b'/'
IsAbsolute (x ∷ y ∷ rest) = (x ≡ b'/') × (y ≢ b'/')

-- No byte is `c`.
abbrev pub Lacks : ℕ → List ℕ → Type 0
Lacks c [] = Unit {0}
Lacks c (x ∷ xs) = (x ≢ c) × Lacks c xs

-- The path of the entry `name` of the directory `parent`.
unfoldable pub join_path : List ℕ → List ℕ → List ℕ
join_path parent name = if str_eq parent root_path then b'/' ∷ name else parent ++ (b'/' ∷ name)

strrchr-none : (s : List ℕ) (c : ℕ) → strrchr s c ≡ none → Lacks c s
unfolding strrchr
strrchr-none [] c h = tt
strrchr-none (x ∷ s) c h = ground (arith, strrchr-none s c)

-- What `strrchr` finds is the byte, and the last one.
pub record IsLast (s : List ℕ) (c : ℕ) (k : ℕ) : Type 0 where
  pub split : s ≡ take k s ++ (c ∷ drop (suc k) s)
  pub bound : k < length s
  pub later : Lacks c (drop (suc k) s)

pub strrchr-IsLast : (s : List ℕ) (c k : ℕ) → strrchr s c ≡ some k → IsLast s c k
unfolding strrchr
strrchr-IsLast [] c k h = absurd (none-ne-some k (sym h))
strrchr-IsLast (x ∷ s) c k h = go (strrchr s c) refl (λ m. strrchr-IsLast s c m)
  where
    inner : (m : ℕ) → IsLast s c m → IsLast (x ∷ s) c (suc m)
    inner m r = record {
      split = ap (λ l. x ∷ l) r.split;
      bound = omega (arith, r.bound);
      later = r.later;
    }

    go :
        (o : Option ℕ)
        → strrchr s c ≡ o
        → ((m : ℕ) → strrchr s c ≡ some m → IsLast s c m)
        → IsLast (x ∷ s) c k
    go (some m) e ih = let q : suc m ≡ k = some-injective (rw e at h) in rw (← q) (inner m (ih m e))
    go none e ih = elim (Bool-cases (x == c)) [
      | inl y ↦
          let q : 0 ≡ k = some-injective (rw (e, y) at h) in
          rw (← q) (record {
            split = ap (λ (t : ℕ). t ∷ s) ((==_iff x c).0 y);
            bound = omega arith;
            later = strrchr-none s c e;
          })
      | inr y ↦ absurd (none-ne-some k (sym (rw (e, y) at h)))
    ]

parent_of_last :
    (path : List ℕ) (k : ℕ)
    → strrchr path b'/' ≡ some k
    → get_parent_dir path ≡ (if k == 0 then root_path else take k path)
unfolding get_parent_dir
parent_of_last path k e = rw (e, get_parent_dir)

name_of_last :
    (path : List ℕ) (k : ℕ) → strrchr path b'/' ≡ some k → get_file_name path ≡ drop (suc k) path
unfolding get_file_name
name_of_last path k e = rw (e, get_file_name, add-one)

slash_found : (path : List ℕ) → IsAbsolute path → strrchr path b'/' ≢ none
slash_found path abs e = lacks path abs (strrchr-none path b'/' e)
  where
    lacks : (p : List ℕ) → IsAbsolute p → Lacks b'/' p → ⊥
    lacks [] a l = a
    lacks (x ∷ []) a l = l.0 a
    lacks (x ∷ y ∷ r) a l = l.0 a.0

-- The last slash at 0: the entry is in the root.
rejoin_root : (path : List ℕ) → IsLast path b'/' 0 → b'/' ∷ drop 1 path ≡ path
rejoin_root path r = sym r.split

-- A prefix that goes past the first slash is not the root.
prefix-ne-root :
    (path : List ℕ) (k : ℕ)
    → IsAbsolute path
    → IsLast path b'/' (suc k)
    → str_eq (take (suc k) path) root_path ≡ false
unfolding str_eq
prefix-ne-root [] k a r = absurd a
prefix-ne-root (x ∷ []) k a r = absurd (omega (arith, r.bound))
prefix-ne-root (x ∷ y ∷ rest) zero a r = absurd (a.1 (cons_head r.split))
  where
    cons_head : x ∷ y ∷ rest ≡ x ∷ b'/' ∷ rest → y ≡ b'/'
    cons_head q = cc
prefix-ne-root (x ∷ y ∷ rest) (suc k) a r = ground arith

-- The parent's path and the entry's name make up an absolute path again.
pub join-parent-name :
    (path : List ℕ) → IsAbsolute path → join_path (get_parent_dir path) (get_file_name path) ≡ path
unfolding join_path
join-parent-name path abs = elim (Option-cases (strrchr path b'/')) [
  | inl e ↦ absurd (slash_found path abs e)
  | inr (k, e) ↦
      rw (parent_of_last path k e, name_of_last path k e) (rejoin k (strrchr-IsLast path b'/' k e))
]
  where
    rejoin :
        (k : ℕ)
        → IsLast path b'/' k
        → join_path (if k == 0 then root_path else take k path) (drop (suc k) path) ≡ path
    rejoin zero r = rw (str_eq_refl root_path) (rejoin_root path r)
    rejoin (suc k) r = rw (==-ne (suc k) 0 (omega arith), prefix-ne-root path k abs r) (sym r.split)

Lacks-all : (path : List ℕ) → strrchr path b'/' ≡ none → get_file_name path ≡ path
unfolding get_file_name
Lacks-all path e = rw (e, get_file_name)

-- The name of an entry has no slash.
pub get_file_name-Lacks : (path : List ℕ) → Lacks b'/' (get_file_name path)
get_file_name-Lacks path = elim (Option-cases (strrchr path b'/')) [
  | inl e ↦ rw (Lacks-all path e) (strrchr-none path b'/' e)
  | inr (k, e) ↦ rw (name_of_last path k e) ((strrchr-IsLast path b'/' k e).later)
]

drop-IsText : (n : ℕ) (s : List ℕ) → IsText s → IsText (drop n s)
drop-IsText zero s h = h
drop-IsText (suc n) [] h = tt
drop-IsText (suc n) (x ∷ s) h = drop-IsText n s h.1

pub get_file_name-IsText : (path : List ℕ) → IsText path → IsText (get_file_name path)
get_file_name-IsText path h = elim (Option-cases (strrchr path b'/')) [
  | inl e ↦ rw (Lacks-all path e) h
  | inr (k, e) ↦ rw (name_of_last path k e) (drop-IsText (suc k) path h)
]

pub length-get_file_name : (path : List ℕ) → length (get_file_name path) ≤ length path
length-get_file_name path = elim (Option-cases (strrchr path b'/')) [
  | inl e ↦ rw (Lacks-all path e) (omega arith)
  | inr (k, e) ↦ rw (name_of_last path k e) (omega (arith, length-drop (suc k) path))
]

-- The parent of an absolute path is the root or a proper prefix of at least one byte.
parent_cases :
    (path : List ℕ)
    → IsAbsolute path
    → (get_parent_dir path ≡ root_path)
      ⊎ ((k : ℕ) × (suc k < length path) × (get_parent_dir path ≡ take (suc k) path))
parent_cases path abs = elim (Option-cases (strrchr path b'/')) [
  | inl e ↦ absurd (slash_found path abs e)
  | inr (k, e) ↦ go k e
]
  where
    go :
        (k : ℕ)
        → strrchr path b'/' ≡ some k
        → (get_parent_dir path ≡ root_path)
          ⊎ ((k : ℕ) × (suc k < length path) × (get_parent_dir path ≡ take (suc k) path))
    go zero e = inl (parent_of_last path 0 e)
    go (suc k) e = inr (
      k,
      (strrchr-IsLast path b'/' (suc k) e).bound,
      parent_of_last path (suc k) e ∙ rw (==-ne (suc k) 0 (omega arith)),
    )

pub get_parent_dir-IsText :
    (path : List ℕ) → IsAbsolute path → IsText path → IsText (get_parent_dir path)
get_parent_dir-IsText path abs h = elim (parent_cases path abs) [
  | inl e ↦ rw e (omega arith)
  | inr (k, b, e) ↦ rw e (take-IsText (suc k) path h)
]

pub length-get_parent_dir :
    (path : List ℕ) → IsAbsolute path → length (get_parent_dir path) ≤ length path
length-get_parent_dir path abs = elim (parent_cases path abs) [
  | inl e ↦ rw e (nonempty path abs)
  | inr (k, b, e) ↦ rw e (omega (arith, length-take (suc k) path))
]
  where
    nonempty : (p : List ℕ) → IsAbsolute p → 1 ≤ length p
    nonempty [] a = absurd a
    nonempty (x ∷ p) a = omega arith

pub get_parent_dir-ne-nil : (path : List ℕ) → IsAbsolute path → get_parent_dir path ≢ []
get_parent_dir-ne-nil path abs nil = elim (parent_cases path abs) [
  | inl e ↦ one (sym e ∙ nil)
  | inr (k, b, e) ↦ two path b (sym e ∙ nil)
]
  where
    one : root_path ≡ [] → ⊥
    one q = cc

    two : {k : ℕ} (p : List ℕ) → suc k < length p → take (suc k) p ≡ [] → ⊥
    two [] b q = omega arith
    two (x ∷ p) b q = cc
