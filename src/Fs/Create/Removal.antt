-- ===== src/Fs/Create/Removal.antt =====
-- 4-fs/fisopfs.c: what `fisopfs_rmdir` and `fisopfs_unlink` do in a well-formed table.
use sistemas_operativos_fiub.Common.{
  ℕ, ◌≡◌, refl, ◌∙◌, sym, ◌≢◌, none, some, List, arith, first, Option-cases, inl, inr, first-none,
  str_eq_refl, true≢false,
}
use sistemas_operativos_fiub.Fs.Strings.{c_str}
use sistemas_operativos_fiub.Fs.State.{
  Superblock, done, ok, err, enoent, enotempty, max_inodes, occupied, file_type_directory,
  file_type_regular,
}
use sistemas_operativos_fiub.Fs.Search.{search_inode_by_path}
use sistemas_operativos_fiub.Fs.Search.Laws.{search_inode_by_path_lem}
use sistemas_operativos_fiub.Fs.Create.{rmdir, unlink, release, getattr, is_entry}
use sistemas_operativos_fiub.Fs.Create.Lookup.{
  search-release_self, getattr-release_ne, get_inode_index-search, getattr-none,
}
use sistemas_operativos_fiub.Fs.Tree.{IsTree}

found_path :
    (sb : Superblock) (path : List ℕ) (i : ℕ)
    → search_inode_by_path sb path ≡ some i
    → c_str ((sb.inodes i).path) ≡ path
found_path sb path i e = ((search_inode_by_path_lem sb path i).0 e).0.named

child_found :
    (path : List ℕ) (j : ℕ) (sb : Superblock)
    → IsTree sb
    → sb.status_inodes j ≡ occupied
    → c_str ((sb.inodes j).file_parent) ≡ path
    → (k : ℕ) × (first (is_entry sb path) max_inodes 0 ≡ some k)
unfolding is_entry
child_found path j sb t used parent = elim (Option-cases (first (is_entry sb path) max_inodes 0)) [
  | inl none_found ↦ absurd (
      true≢false (rw (used, parent, str_eq_refl path) refl) (
        first-none (is_entry sb path) max_inodes 0 none_found j (omega arith)
          (omega (arith, t.inside j used))))
  | inr found ↦ found
]

-- In a well-formed table, a directory without entries is removed: its path is then not found, and
-- what is reported of every other path stays.
pub rmdir-getattr :
    (path q : List ℕ) (i : ℕ) (sb : Superblock)
    → IsTree sb
    → search_inode_by_path sb path ≡ some i
    → (sb.inodes i).type ≡ file_type_directory
    → first (is_entry sb path) max_inodes 0 ≡ none
    → q ≢ path
    → (sb' : Superblock) × (rmdir path sb ≡ done (ok tt) sb')
      × (getattr path sb' ≡ err enoent)
      × (getattr q sb' ≡ getattr q sb)
unfolding rmdir
rmdir-getattr path q i sb t e dir empty ne = (
  release sb i,
  rw (get_inode_index-search sb path t, e, rmdir, empty) (ground arith),
  getattr-none (release sb i) path (search-release_self sb i path t e),
  getattr-release_ne sb i q (λ same. ne (sym (sym (found_path sb path i e) ∙ same))),
)

-- In a well-formed table, a directory is not removed while an inode in use has it for its parent:
-- the call fails with ENOTEMPTY and changes nothing.
pub rmdir_not_empty :
    (path : List ℕ) (i j : ℕ) (sb : Superblock)
    → IsTree sb
    → search_inode_by_path sb path ≡ some i
    → (sb.inodes i).type ≡ file_type_directory
    → sb.status_inodes j ≡ occupied
    → c_str ((sb.inodes j).file_parent) ≡ path
    → rmdir path sb ≡ done (err enotempty) sb
unfolding rmdir
rmdir_not_empty path i j sb t e dir used parent =
    let (k, f) = child_found path j sb t used parent in
    rw (get_inode_index-search sb path t, e, rmdir, f) (ground arith)

-- In a well-formed table, a regular file that is unlinked is not found any more; what is reported
-- of every other path stays, the link counts of the file's other names included.
pub unlink-getattr :
    (path q : List ℕ) (i : ℕ) (sb : Superblock)
    → IsTree sb
    → search_inode_by_path sb path ≡ some i
    → (sb.inodes i).type ≡ file_type_regular
    → q ≢ path
    → (sb' : Superblock) × (unlink path sb ≡ done (ok tt) sb')
      × (getattr path sb' ≡ err enoent)
      × (getattr q sb' ≡ getattr q sb)
unfolding unlink
unlink-getattr path q i sb t e file ne = (
  release sb i,
  rw (get_inode_index-search sb path t, e, unlink) (ground arith),
  getattr-none (release sb i) path (search-release_self sb i path t e),
  getattr-release_ne sb i q (λ same. ne (sym (sym (found_path sb path i e) ∙ same))),
)
