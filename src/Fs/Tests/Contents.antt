-- ===== src/Fs/Tests/Contents.antt =====
-- 4-fs: the theorems on contents and links, applied to the small mount.
use sistemas_operativos_fiub.Common.{[], ◌∷◌, ◌++◌, ◌≡◌, refl, true, ◌≢◌, arith, ◌<◌, inr, take}
use sistemas_operativos_fiub.Fs.Strings.{c_str, zeros, strrchr}
use sistemas_operativos_fiub.Fs.State.{Superblock, done, ok, occupied, inc_ulong}
use sistemas_operativos_fiub.Fs.Search.{get_parent_dir, get_file_name}
use sistemas_operativos_fiub.Fs.Content.{read, write, truncate}
use sistemas_operativos_fiub.Fs.Content.RoundTrip.{MayWrite, write-read, write-read_binary}
use sistemas_operativos_fiub.Fs.Content.Linked.{write-linked, write-unlinked}
use sistemas_operativos_fiub.Fs.Content.Truncate.{bytes_of, resized, truncate-read}
use sistemas_operativos_fiub.Fs.Create.{getattr, stat_of}
use sistemas_operativos_fiub.Fs.Links.{Tails, readable, reaches, link, symlink, readlink}
use sistemas_operativos_fiub.Fs.Links.Hard.{link-shares}
use sistemas_operativos_fiub.Fs.Links.Symbolic.{kept, symlink-readlink}
use sistemas_operativos_fiub.Fs.Tests.{
  host, path_a, path_b, table_2, runs, path_b-GoodPath, table_2-IsSound, a_found, a_index,
  b_missing, slot_found, a_regular, a_uid, hi,
}

hi_allowed : MayWrite host path_a hi 0 1 table_2
hi_allowed = record { leads = a_index; found = a_found; owned = a_uid; fits = omega arith }

write-read_example :
    (sb' : Superblock) × (write host path_a hi 0 table_2 ≡ done (ok 2) sb')
    × (read path_a 2 0 sb' ≡ done (ok hi) sb')
write-read_example =
    write-read host path_a hi 0 1 table_2 (table_2-IsSound.contents) hi_allowed (omega arith)

binary_allowed : MayWrite host path_a ((b'h' ∷ []) ++ (0 ∷ b'i' ∷ [])) 0 1 table_2
binary_allowed = record { leads = a_index; found = a_found; owned = a_uid; fits = omega arith }

write-read_binary_example :
    (sb' : Superblock) × (write host path_a ((b'h' ∷ []) ++ (0 ∷ b'i' ∷ [])) 0 table_2
      ≡ done (ok 3) sb')
    × (read path_a 3 0 sb' ≡ done (ok ((b'h' ∷ []) ++ zeros 2)) sb')
write-read_binary_example =
    write-read_binary host path_a (b'h' ∷ []) (b'i' ∷ []) 0 1 table_2 (table_2-IsSound.contents)
      binary_allowed (omega arith)

root_linked : (table_2.status_inodes 0 ≡ occupied) × (1 < (table_2.inodes 0).nlink)
unfolding runs
root_linked = (refl, omega arith)

-- A write to `/a` changes the contents of the root directory.
write-linked_example :
    (sb' : Superblock) × (write host path_a hi 0 table_2 ≡ done (ok 2) sb')
    × (c_str ((sb'.inodes 0).file_content) ≡ c_str ((sb'.inodes 1).file_content))
write-linked_example =
    write-linked host path_a hi 0 1 0 table_2 (table_2-IsSound.contents) hi_allowed (omega arith)
      root_linked.0 root_linked.1

inode_3_free : table_2.status_inodes 3 ≢ occupied
unfolding runs
inode_3_free = λ e. omega arith

write-unlinked_example :
    (sb' : Superblock) × (write host path_a hi 0 table_2 ≡ done (ok 2) sb')
    × (sb'.inodes 3 ≡ table_2.inodes 3)
write-unlinked_example =
    write-unlinked host path_a hi 0 1 3 table_2 hi_allowed (λ e. omega arith) (inr inode_3_free)

truncate-read_example :
    (sb' : Superblock) × (truncate path_a 4 table_2 ≡ done (ok tt) sb')
    × (read path_a 4 0 sb' ≡ done (ok (resized (bytes_of (table_2.inodes 1)) 4)) sb')
truncate-read_example =
    truncate-read path_a 4 1 table_2 (table_2-IsSound.contents) a_index a_found a_regular
      (omega arith)

-- Zeros behind the strings of a hard link.
abbrev zero_tails : Tails
zero_tails = record { name = zeros 1022; path = zeros 200; parent = zeros 126 }

b_readable : readable path_b zero_tails ≡ true
unfolding readable reaches get_file_name get_parent_dir strrchr zeros
b_readable = refl

link-shares_example :
    let status = record (stat_of (table_2.inodes 1)) {
      st_nlink = inc_ulong ((table_2.inodes 1).nlink);
    } in
    (sb' : Superblock) × (link host zero_tails path_a path_b table_2 ≡ done (ok tt) sb')
    × (getattr path_a sb' ≡ ok status)
    × (getattr path_b sb' ≡ ok status)
    × (read path_b 4 0 sb' ≡ read path_a 4 0 sb')
link-shares_example =
    link-shares host zero_tails path_a path_b path_b-GoodPath 4 0 1 3 table_2 (table_2-IsSound.tree)
      refl b_readable a_found a_regular b_missing slot_found

symlink-readlink_example :
    (sb' : Superblock) × (symlink host path_a path_b table_2 ≡ done (ok tt) sb')
    × (readlink path_b 100 sb' ≡ done (ok (take (kept 100) path_a)) sb')
symlink-readlink_example =
    symlink-readlink host path_a path_b path_b-GoodPath 100 3 table_2 (table_2-IsSound.tree) refl
      b_missing slot_found (omega arith) (omega arith)
