-- ===== src/Fs/Search/Laws.antt =====
-- 4-fs/fs_utils.c: the searches find the first inode that answers, and miss none.
use sistemas_operativos_fiub.Common.{
  ℕ, ◌≡◌, refl, ap, ◌≢◌, true, none, some, List, arith, if◌then◌else◌, inl, inr, Bool-cases, ==_iff,
  str_eq, ◌↔◌, str_eq_refl, str_eq_sound, ◌<◌, first, IsFirst, first-IsFirst, first-none,
  first-eq-some, first-eq-none, true≢false, fun_ext,
}
use sistemas_operativos_fiub.Fs.Strings.{c_str}
use sistemas_operativos_fiub.Fs.State.{Superblock, occupied, free, max_inodes, root_path}
use sistemas_operativos_fiub.Fs.Search.{
  has_path, is_free, search_inode_by_path, search_free_inode, get_inode_index,
}

-- Inode `i` is in use under `path`.
pub record Holds (sb : Superblock) (path : List ℕ) (i : ℕ) : Type 0 where
  pub inside : i < max_inodes
  pub used : sb.status_inodes i ≡ occupied
  pub named : c_str ((sb.inodes i).path) ≡ path

pub Holds→has_path :
    (sb : Superblock) (path : List ℕ) (i : ℕ) → Holds sb path i → has_path sb path i ≡ true
unfolding has_path
Holds→has_path sb path i h = rw (h.used, h.named, str_eq_refl path)

pub has_path→Holds :
    (sb : Superblock) (path : List ℕ) (i : ℕ)
    → i < max_inodes
    → has_path sb path i ≡ true
    → Holds sb path i
unfolding has_path
has_path→Holds sb path i inside h = record {
  inside = inside;
  used = ground arith;
  named = str_eq_sound _ path (ground arith);
}

-- The search for a path returns the first inode in use under it; it returns -1 only if there is
-- none.
pub search_inode_by_path_lem :
    (sb : Superblock) (path : List ℕ) (k : ℕ)
    → (search_inode_by_path sb path ≡ some k)
      ↔ (Holds sb path k × ((j : ℕ) → j < k → ¬ Holds sb path j))
unfolding search_inode_by_path
search_inode_by_path_lem sb path k = (to, from)
  where
    to :
        first (has_path sb path) max_inodes 0 ≡ some k
        → Holds sb path k × ((j : ℕ) → j < k → ¬ Holds sb path j)
    to e =
        let f : IsFirst (has_path sb path) 0 max_inodes k = first-IsFirst _ _ _ _ e in
        (
          has_path→Holds sb path k (omega (arith, f.below)) f.passes,
          λ j jk h. true≢false (Holds→has_path sb path j h) (f.least j (omega arith) jk),
        )

    from :
        Holds sb path k × ((j : ℕ) → j < k → ¬ Holds sb path j)
        → first (has_path sb path) max_inodes 0 ≡ some k
    from (h, least) = first-eq-some _ _ _ _ (record {
      passes = Holds→has_path sb path k h;
      above = omega arith;
      below = omega (arith, h.inside);
      least = λ j _ jk. elim (Bool-cases (has_path sb path j)) [
        | inl e ↦ absurd (least j jk (has_path→Holds sb path j (omega (arith, h.inside)) e))
        | inr e ↦ e
      ];
    })

pub search_inode_by_path-none :
    (sb : Superblock) (path : List ℕ)
    → (search_inode_by_path sb path ≡ none) ↔ ((j : ℕ) → ¬ Holds sb path j)
unfolding search_inode_by_path
search_inode_by_path-none sb path = (
  λ e j h.
      true≢false (Holds→has_path sb path j h)
        (first-none _ _ _ e j (omega arith) (omega (arith, h.inside))),
  λ no. first-eq-none _ _ _ (λ j _ b. elim (Bool-cases (has_path sb path j)) [
    | inl e ↦ absurd (no j (has_path→Holds sb path j (omega arith) e))
    | inr e ↦ e
  ]),
)

-- The free inode that is found is the first.
pub search_free_inode-some :
    (sb : Superblock) (k : ℕ)
    → search_free_inode sb ≡ some k
    → (k < max_inodes) × (sb.status_inodes k ≡ free) × ((j : ℕ) → j < k → sb.status_inodes j ≢ free)
unfolding search_free_inode is_free
search_free_inode-some sb k e =
    let f : IsFirst (is_free sb) 0 max_inodes k = first-IsFirst _ _ _ _ e in
    (
      omega (arith, f.below),
      (==_iff _ free).0 f.passes,
      λ j jk q. true≢false ((==_iff _ free).1 q) (f.least j (omega arith) jk),
    )

pub search_free_inode-none :
    (sb : Superblock)
    → search_free_inode sb ≡ none
    → (j : ℕ) → j < max_inodes
    → sb.status_inodes j ≢ free
unfolding search_free_inode is_free
search_free_inode-none sb e j b q =
    true≢false ((==_iff _ free).1 q) (first-none _ _ _ e j (omega arith) (omega arith))

-- Off the root, `get_inode_index` is the search by path; the root is always inode 0.
pub get_inode_index_lem :
    (sb : Superblock) (path : List ℕ)
    → get_inode_index sb path
      ≡ (if str_eq path root_path then some 0 else search_inode_by_path sb path)
unfolding get_inode_index search_inode_by_path
get_inode_index_lem sb path = refl

-- The searches see only the paths and which inodes are in use.
pub search_inode_by_path-cong :
    (sb sb' : Superblock) (path : List ℕ)
    → sb'.status_inodes ≡ sb.status_inodes
    → ((i : ℕ) → (sb'.inodes i).path ≡ (sb.inodes i).path)
    → search_inode_by_path sb' path ≡ search_inode_by_path sb path
unfolding search_inode_by_path has_path
search_inode_by_path-cong sb sb' path s p =
    ap (λ t. first t max_inodes 0) (fun_ext (λ i. rw (s, p i)))
