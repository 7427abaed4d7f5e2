-- ===== src/Fs/Create/Listing.antt =====
-- 4-fs/fisopfs.c: `fisopfs_readdir` lists exactly the inodes in use with the directory for their
-- parent.
use sistemas_operativos_fiub.Common.{
  ℕ, zero, suc, ◌+◌, ◌≡◌, refl, sym, ◌≢◌, true, List, [], ◌∷◌, arith, ◌<◌, ◌≤◌, ◌⊎◌, inl, inr,
  Bool-cases, str_eq_refl, str_eq_sound, ◌↔◌,
}
use native.Mathlib.Decide.{ℕ_discrete}
use sistemas_operativos_fiub.Fs.Strings.{c_str}
use sistemas_operativos_fiub.Fs.State.{Superblock, max_inodes, occupied}
use sistemas_operativos_fiub.Fs.Create.{is_entry, entries, dot, dot_dot, readdir}

-- `x` is in the list.
abbrev pub Listed : List ℕ → List (List ℕ) → Type 0
Listed x [] = ⊥
Listed x (y ∷ ys) = (x ≡ y) ⊎ Listed x ys

-- Inode `i` is in use, in directory `path`, under the name `x`.
pub record IsChild (sb : Superblock) (path x : List ℕ) (i : ℕ) : Type 0 where
  pub used : sb.status_inodes i ≡ occupied
  pub parent : c_str ((sb.inodes i).file_parent) ≡ path
  pub named : c_str ((sb.inodes i).name) ≡ x

IsChild→is_entry :
    (sb : Superblock) (path x : List ℕ) (i : ℕ) → IsChild sb path x i → is_entry sb path i ≡ true
unfolding is_entry
IsChild→is_entry sb path x i c = rw (c.used, c.parent, str_eq_refl path)

is_entry→IsChild :
    (sb : Superblock) (path : List ℕ) (i : ℕ)
    → is_entry sb path i ≡ true
    → IsChild sb path (c_str ((sb.inodes i).name)) i
unfolding is_entry
is_entry→IsChild sb path i e = record {
  used = ground arith;
  parent = str_eq_sound (c_str ((sb.inodes i).file_parent)) path (ground arith);
  named = refl;
}

entries-Listed :
    (sb : Superblock) (path x : List ℕ) (n i j : ℕ)
    → i ≤ j
    → j < i + n
    → IsChild sb path x j
    → Listed x (entries sb path n i)
unfolding entries
entries-Listed sb path x zero i j lo hi c = absurd (omega arith)
entries-Listed sb path x (suc n) i j lo hi c = elim (ℕ_discrete i j) [
  | yes e ↦ rw (e, IsChild→is_entry sb path x j c) (inl (sym c.named))
  | no ne ↦
      let later = entries-Listed sb path x n (i + 1) j (omega arith) (omega arith) c in
      elim (Bool-cases (is_entry sb path i)) [ inl y ↦ rw y (inr later) | inr y ↦ rw y later ]
]

Listed-entries :
    (sb : Superblock) (path x : List ℕ) (n i : ℕ)
    → Listed x (entries sb path n i)
    → (j : ℕ) × (j < i + n) × IsChild sb path x j
unfolding entries
Listed-entries sb path x zero i l = absurd l
Listed-entries sb path x (suc n) i l = elim (Bool-cases (is_entry sb path i)) [
  | inl y ↦ here y (Listed-entries sb path x n (i + 1)) (rw y at l)
  | inr y ↦ wider (Listed-entries sb path x n (i + 1) (rw y at l))
]
  where
    wider :
        (j : ℕ) × (j < i + 1 + n) × IsChild sb path x j
        → (j : ℕ) × (j < i + suc n) × IsChild sb path x j
    wider (j, b, c) = (j, omega arith, c)

    here :
        is_entry sb path i ≡ true
        → (Listed x (entries sb path n (i + 1)) → (j : ℕ) × (j < i + 1 + n) × IsChild sb path x j)
        → (x ≡ c_str ((sb.inodes i).name)) ⊎ Listed x (entries sb path n (i + 1))
        → (j : ℕ) × (j < i + suc n) × IsChild sb path x j
    here y rec (inl e) = (i, omega arith, rw e (is_entry→IsChild sb path i y))
    here y rec (inr r) = wider (rec r)

-- A name other than `.` and `..` is listed for a directory exactly if an inode of the table is in
-- use under that name with the directory for its parent.
pub readdir_lists :
    (path x : List ℕ) (sb : Superblock)
    → x ≢ dot
    → x ≢ dot_dot
    → Listed x (readdir path sb) ↔ ((j : ℕ) × (j < max_inodes) × IsChild sb path x j)
unfolding readdir
readdir_lists path x sb not_dot not_dot_dot = (to, from)
  where
    to :
        Listed x (dot ∷ dot_dot ∷ entries sb path max_inodes 0)
        → (j : ℕ) × (j < max_inodes) × IsChild sb path x j
    to (inl e) = absurd (not_dot e)
    to (inr (inl e)) = absurd (not_dot_dot e)
    to (inr (inr l)) =
        let (j, b, c) = Listed-entries sb path x max_inodes 0 l in (j, omega arith, c)

    from :
        (j : ℕ) × (j < max_inodes) × IsChild sb path x j
        → Listed x (dot ∷ dot_dot ∷ entries sb path max_inodes 0)
    from (j, b, c) =
        inr (inr (entries-Listed sb path x max_inodes 0 j (omega arith) (omega arith) c))
