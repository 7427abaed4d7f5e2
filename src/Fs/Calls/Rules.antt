-- ===== src/Fs/Calls/Rules.antt =====
-- 4-fs/fisopfs.c: for each operation a rule that what it leaves satisfies a predicate, from the
-- tables that it can leave.
use sistemas_operativos_fiub.Common.{
  ℕ, ◌+◌, ◌≡◌, some, List, arith, ◌<◌, ◌≤◌, length, first, Option-cases, inl, inr,
}
use sistemas_operativos_fiub.Fs.State.{
  Superblock, Host, Safe, max_inodes, max_path_len, max_content,
}
use sistemas_operativos_fiub.Fs.Search.{search_free_inode, get_inode_index}
use sistemas_operativos_fiub.Fs.Create.{
  new_node, same_entry, set_inode_in_superblock, new_inode, rmdir, unlink, utimens, put_inode,
  link_up, release, is_entry, set_times,
}
use sistemas_operativos_fiub.Fs.Content.{write_inode, write, truncated, truncate}
use sistemas_operativos_fiub.Fs.Content.Bounds.{AllContentOk}
use sistemas_operativos_fiub.Fs.Content.Write.{written}
use sistemas_operativos_fiub.Fs.Links.{symlink_inode, symlink}

module _ (P : Superblock → Type 0) (sb : Superblock) (p : P sb) where
  pub new_inode-Safe :
      (h : Host) (path : List ℕ) (type : ℕ)
      → length path < max_path_len
      → ((i : ℕ) → P (link_up sb i))
      → ((k : ℕ) → search_free_inode sb ≡ some k → P (put_inode sb k (new_node h path type)))
      → Safe P (new_inode h path type sb)
  unfolding new_inode set_inode_in_superblock
  new_inode-Safe h path type fits up put =
      elim (Option-cases (first (same_entry sb (new_node h path type)) max_inodes 0)) [
        | inr (i, e) ↦ ground (arith, up i)
        | inl e ↦ elim (Option-cases (search_free_inode sb)) [
          | inr (k, f) ↦ ground (arith, put k f)
          | inl f ↦ ground arith
        ]
      ]

  pub rmdir-Safe :
      (path : List ℕ)
      → ((i : ℕ) → get_inode_index sb path ≡ some i → P (release sb i))
      → Safe P (rmdir path sb)
  unfolding rmdir
  rmdir-Safe path freed = elim (Option-cases (get_inode_index sb path)) [
    | inl e ↦ rw (e, rmdir) p
    | inr (i, e) ↦ elim (Option-cases (first (is_entry sb path) max_inodes 0)) [
      | inl f ↦ rw (e, rmdir, f) (ground (arith, freed i e))
      | inr (k, f) ↦ rw (e, rmdir, f) (ground arith)
    ]
  ]

  pub unlink-Safe :
      (path : List ℕ)
      → ((i : ℕ) → get_inode_index sb path ≡ some i → P (release sb i))
      → Safe P (unlink path sb)
  unfolding unlink
  unlink-Safe path freed = elim (Option-cases (get_inode_index sb path)) [
    | inl e ↦ rw (e, unlink) p
    | inr (i, e) ↦ rw (e, unlink) (ground (arith, freed i e))
  ]

  pub truncate-Safe :
      (path : List ℕ) (offset : ℕ)
      → AllContentOk sb
      → ((i : ℕ) → offset ≤ max_content → P (truncated sb i offset))
      → Safe P (truncate path offset sb)
  unfolding truncate
  truncate-Safe path offset c cut = elim (Option-cases (get_inode_index sb path)) [
    | inl e ↦ rw (e, truncate) p
    | inr (i, e) ↦ rw (e, truncate) (ground (arith, c i, cut i))
  ]

  pub write_inode-Safe :
      (h : Host) (i : ℕ) (buffer : List ℕ) (offset : ℕ)
      → offset + length buffer < max_content
      → P (written sb i buffer offset)
      → Safe P (write_inode h i buffer offset sb)
  unfolding write_inode written
  write_inode-Safe h i buffer offset fits out = ground arith

  pub write-Safe :
      (h : Host) (path buffer : List ℕ) (offset : ℕ)
      → offset + length buffer < max_content
      → ((i : ℕ) → P (written sb i buffer offset))
      → Safe P (write h path buffer offset sb)
  unfolding write
  write-Safe h path buffer offset fits out = elim (Option-cases (get_inode_index sb path)) [
    | inl e ↦ rw (e, write) p
    | inr (i, e) ↦ rw (e, write) (write_inode-Safe h i buffer offset fits (out i))
  ]

  pub symlink-Safe :
      (h : Host) (oldpath newpath : List ℕ)
      → length newpath < max_path_len
      → ((k : ℕ)
          → search_free_inode sb ≡ some k
          → P (put_inode sb k (symlink_inode h oldpath newpath)))
      → Safe P (symlink h oldpath newpath sb)
  unfolding symlink
  symlink-Safe h oldpath newpath fits put = elim (Option-cases (search_free_inode sb)) [
    | inl e ↦ rw (e, symlink) p
    | inr (k, e) ↦ rw (e, symlink) (ground (arith, put k e))
  ]

  pub utimens-Safe :
      (path : List ℕ) (atime mtime : ℕ)
      → ((i : ℕ) → P (set_times sb i atime mtime))
      → Safe P (utimens path atime mtime sb)
  unfolding utimens
  utimens-Safe path atime mtime set = elim (Option-cases (get_inode_index sb path)) [
    | inl e ↦ rw (e, utimens) p
    | inr (i, e) ↦ rw (e, utimens) (set i)
  ]
