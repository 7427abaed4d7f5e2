-- ===== src/Fs/Calls/Sound.antt =====
-- 4-fs: the invariant of the whole table, kept by every call that FUSE may make, and what follows
-- for the tables that are reached from a fresh mount.
use sistemas_operativos_fiub.Common.{
  ℕ, ◌+◌, ◌≡◌, refl, ◌≢◌, true, none, List, [], ◌∷◌, arith, ◌<◌, ◌≤◌, length, update, length-append,
  length-take,
}
use sistemas_operativos_fiub.Fs.Strings.{c_str, zeros, strncpy, IsText}
use sistemas_operativos_fiub.Fs.Strings.Laws.{length-strncpy, c_str-strncpy}
use sistemas_operativos_fiub.Fs.State.{Inode, Superblock, Host, max_content, root_path}
use sistemas_operativos_fiub.Fs.Search.{search_inode_by_path}
use sistemas_operativos_fiub.Fs.Create.{put_inode, link_up, release}
use sistemas_operativos_fiub.Fs.Create.Names.{GoodPath}
use sistemas_operativos_fiub.Fs.Content.{store, truncated, resize}
use sistemas_operativos_fiub.Fs.Content.Bounds.{
  ContentOk, AllContentOk, write_content-ContentOk, sync_links-AllContentOk, update-AllContentOk,
  resize-ContentOk,
}
use sistemas_operativos_fiub.Fs.Content.Write.{written, written-SameButContent, status-written}
use sistemas_operativos_fiub.Fs.Links.{symlink_inode, Tails, linked_inode, readable}
use sistemas_operativos_fiub.Fs.Links.Hard.{linked}
use sistemas_operativos_fiub.Fs.Tree.{IsTree, IsTree-same}
use sistemas_operativos_fiub.Fs.Calls.{
  Call, create_call, mkdir_call, rmdir_call, unlink_call, utimens_call, truncate_call, write_call,
  symlink_call, link_call,
}

pub record IsSound (sb : Superblock) : Type 0 where
  pub tree : IsTree sb
  pub contents : AllContentOk sb

-- What the kernel sees to before it makes a call, and what the code does not check: for a write and
-- for the target of a symbolic link the length, and for a hard link that its strings lie in objects of
-- MAX_PATH_LEN - 1 bytes at least.
abbrev pub Allowed : Superblock → Call → Type 0
Allowed sb (create_call path) = GoodPath path
Allowed sb (mkdir_call path) = GoodPath path
Allowed sb (rmdir_call path) = path ≢ root_path
Allowed sb (unlink_call path) = path ≢ root_path
Allowed sb (utimens_call path atime mtime) = Unit {0}
Allowed sb (truncate_call path offset) = Unit {0}
Allowed sb (write_call path buffer offset) = offset + length buffer < max_content
Allowed sb (symlink_call oldpath newpath) =
    GoodPath newpath
    × (search_inode_by_path sb newpath ≡ none)
    × IsText oldpath
    × (length oldpath ≤ max_content)
Allowed sb (link_call tails oldpath newpath) =
    GoodPath newpath × (search_inode_by_path sb newpath ≡ none) × (readable newpath tails ≡ true)

pub zeros-ContentOk :
    (inode : Inode)
    → inode.file_content ≡ zeros max_content
    → inode.file_size ≤ max_content
    → ContentOk inode
unfolding c_str zeros
zeros-ContentOk inode e h = record { bytes = rw e refl; ended = rw e (omega arith); sized = h }

pub symlink_inode-ContentOk :
    (h : Host) (oldpath newpath : List ℕ)
    → IsText oldpath
    → length oldpath ≤ max_content
    → ContentOk (symlink_inode h oldpath newpath)
unfolding symlink_inode
symlink_inode-ContentOk h oldpath newpath text fits = record {
  bytes = omega (arith, length-append (strncpy 99 oldpath) (0 ∷ []), length-strncpy 99 oldpath);
  ended = rw (c_str-strncpy 99 oldpath [] text) (omega (arith, length-take 99 oldpath));
  sized = fits;
}

pub put_inode-AllContentOk :
    (sb : Superblock) (k : ℕ) (inode : Inode)
    → AllContentOk sb
    → ContentOk inode
    → AllContentOk (put_inode sb k inode)
unfolding put_inode
put_inode-AllContentOk sb k inode c h = update-AllContentOk sb k inode c h

pub link_up-AllContentOk : (sb : Superblock) (k : ℕ) → AllContentOk sb → AllContentOk (link_up sb k)
unfolding link_up
link_up-AllContentOk sb k c = update-AllContentOk sb k _ c (ground (arith, c k))

pub release-AllContentOk : (sb : Superblock) (k : ℕ) → AllContentOk sb → AllContentOk (release sb k)
unfolding release
release-AllContentOk sb k c = c

pub written-AllContentOk :
    (sb : Superblock) (k : ℕ) (buffer : List ℕ) (offset : ℕ)
    → offset + length buffer < max_content
    → AllContentOk sb
    → AllContentOk (written sb k buffer offset)
unfolding written store
written-AllContentOk sb k buffer offset fits c =
    sync_links-AllContentOk _ k (
      update-AllContentOk sb k _ c (write_content-ContentOk (sb.inodes k) buffer offset (c k) fits))

pub truncated-AllContentOk :
    (sb : Superblock) (k offset : ℕ)
    → offset ≤ max_content
    → AllContentOk sb
    → AllContentOk (truncated sb k offset)
unfolding truncated
truncated-AllContentOk sb k offset fits c =
    update-AllContentOk sb k _ c (resize-ContentOk (sb.inodes k) offset (c k) fits)

pub linked-AllContentOk :
    (h : Host) (tails : Tails) (oldpath newpath : List ℕ) (g : GoodPath newpath) (sb : Superblock)
    (i k : ℕ)
    → AllContentOk sb
    → AllContentOk (linked h tails oldpath newpath g sb i k)
unfolding linked linked_inode
linked-AllContentOk h tails oldpath newpath g sb i k c =
    link_up-AllContentOk _ i (put_inode-AllContentOk sb k _ c (ground (arith, c i)))

pub written-IsTree :
    (sb : Superblock) (k : ℕ) (buffer : List ℕ) (offset : ℕ)
    → IsTree sb
    → IsTree (written sb k buffer offset)
written-IsTree sb k buffer offset =
    IsTree-same sb (written sb k buffer offset) (status-written sb k buffer offset) (λ j.
      let s = written-SameButContent sb k buffer offset j in
      record { path = s.path; name = s.name; file_parent = s.file_parent; type = s.type })

pub truncated-IsTree : (sb : Superblock) (k offset : ℕ) → IsTree sb → IsTree (truncated sb k offset)
truncated-IsTree sb k offset =
    IsTree-same sb (truncated sb k offset) (unfold truncated in refl)
      (λ j. unfold truncated update resize in ground arith)
