-- ===== src/Fs/Tests/Names.antt =====
-- 4-fs: the theorems on creation, removal, listing and paths, applied to the small mount.
use sistemas_operativos_fiub.Common.{ℕ, ◌<◌, ◌↔◌, [], ◌∷◌, ◌≡◌, refl, none, some, arith, first}
use sistemas_operativos_fiub.Fs.Strings.{c_str}
use sistemas_operativos_fiub.Fs.State.{
  Superblock, done, ok, err, occupied, max_inodes, file_type_regular, file_type_directory,
  root_path, enoent,
}
use sistemas_operativos_fiub.Fs.Search.{search_inode_by_path}
use sistemas_operativos_fiub.Fs.Create.{new_inode, is_entry}
use sistemas_operativos_fiub.Fs.Create.{getattr, unlink, rmdir, readdir}
use sistemas_operativos_fiub.Fs.Create.Laws.{new_stat, new_inode-getattr}
use sistemas_operativos_fiub.Fs.Create.Removal.{rmdir-getattr, unlink-getattr}
use sistemas_operativos_fiub.Fs.Create.Listing.{Listed, IsChild, readdir_lists}
use sistemas_operativos_fiub.Fs.Tests.{
  host, path_a, path_b, path_d, table_2, runs, path_b-GoodPath, table_2-IsSound, a_found, b_missing,
  slot_found, a_regular, d_found, d_directory,
}

new_inode-getattr_example :
    (sb' : Superblock) × (new_inode host path_b file_type_regular table_2 ≡ done (ok tt) sb')
    × (getattr path_b sb' ≡ ok (new_stat host file_type_regular))
    × (getattr path_a sb' ≡ getattr path_a table_2)
new_inode-getattr_example =
    new_inode-getattr host path_b path_a file_type_regular 3 table_2 (table_2-IsSound.tree)
      path_b-GoodPath refl b_missing slot_found (λ e. ground arith)

d_empty : first (is_entry table_2 path_d) max_inodes 0 ≡ none
unfolding runs
d_empty = refl

root_entries :
    (search_inode_by_path table_2 root_path ≡ some 0)
    × ((table_2.inodes 0).type ≡ file_type_directory)
    × (table_2.status_inodes 1 ≡ occupied)
    × (c_str ((table_2.inodes 1).file_parent) ≡ root_path)
unfolding runs
root_entries = (refl, refl, refl, refl)

unlink-getattr_example :
    (sb' : Superblock) × (unlink path_a table_2 ≡ done (ok tt) sb')
    × (getattr path_a sb' ≡ err enoent)
    × (getattr path_d sb' ≡ getattr path_d table_2)
unlink-getattr_example =
    unlink-getattr path_a path_d 1 table_2 (table_2-IsSound.tree) a_found a_regular
      (λ e. ground arith)

rmdir-getattr_example :
    (sb' : Superblock) × (rmdir path_d table_2 ≡ done (ok tt) sb')
    × (getattr path_d sb' ≡ err enoent)
    × (getattr path_a sb' ≡ getattr path_a table_2)
rmdir-getattr_example =
    rmdir-getattr path_d path_a 2 table_2 (table_2-IsSound.tree) d_found d_directory d_empty
      (λ e. ground arith)

readdir_lists_example :
    Listed (b'a' ∷ []) (readdir root_path table_2)
    ↔ ((j : ℕ) × (j < max_inodes) × IsChild table_2 root_path (b'a' ∷ []) j)
readdir_lists_example =
    readdir_lists root_path (b'a' ∷ []) table_2 (λ e. ground arith) (λ e. ground arith)
