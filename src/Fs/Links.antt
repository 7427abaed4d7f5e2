-- ===== src/Fs/Links.antt =====
-- 4-fs/fisopfs.c: symbolic and hard links.
pub mod Symbolic
pub mod Hard
use sistemas_operativos_fiub.Common.{
  ℕ, ◌+◌, ◌-◌, Bool, ◌&&◌, not, none, some, List, [], ◌∷◌, ◌++◌, length, take, ◌==◌, leb,
  if◌then◌else◌,
}
use sistemas_operativos_fiub.Fs.Strings.{c_str, strncpy}
use sistemas_operativos_fiub.Fs.State.{
  Inode, Superblock, ok, err, Outcome, done, fault, Host, enoent, enospc, enomem, eisdir, einval,
  max_content, max_path_len, file_type_regular, mode_symlink, inc_ulong, path_field, is_lnk,
}
use sistemas_operativos_fiub.Fs.Search.{
  get_parent_dir, get_file_name, search_inode_by_path, search_free_inode, get_inode_index,
}
use sistemas_operativos_fiub.Fs.Create.{put_inode, link_up}

-- The `symlink_inode` that `fisopfs_symlink` fills in. The target is cut at `MAX_CONTENT - 1`
-- bytes, and the size is that of the whole target.
unfoldable pub symlink_inode : Host → List ℕ → List ℕ → Inode
symlink_inode h oldpath newpath = record {
  name = path_field (get_file_name newpath);
  file_size = length oldpath;
  type = file_type_regular;
  path = path_field newpath;
  file_content = strncpy (max_content - 1) oldpath ++ (0 ∷ []);
  file_parent = path_field (get_parent_dir newpath);
  nlink = 1;
  uid = h.uid;
  gid = h.gid;
  mode = mode_symlink;
  ctime = h.ctime;
  mtime = h.mtime;
  atime = h.atime;
}

unfoldable pub symlink : Host → List ℕ → List ℕ → Superblock → Outcome (Unit {0})
symlink h oldpath newpath sb = elim (search_free_inode sb) [
  | none ↦ done (err enospc) sb
  | some index_new ↦
      if leb max_path_len (length newpath)
      then fault
      else if h.malloc_ok
      then done (ok tt) (put_inode sb index_new (symlink_inode h oldpath newpath))
      else done (err enomem) sb
]

-- The string that `fisopfs_readlink` leaves in the buffer. With `size` 0, `size - 1` wraps round
-- and the `memcpy` leaves the buffer.
unfoldable pub readlink : List ℕ → ℕ → Superblock → Outcome (List ℕ)
readlink path size sb = elim (search_inode_by_path sb path) [
  | none ↦ done (err enoent) sb
  | some idx ↦
      if not (is_lnk ((sb.inodes idx).mode))
      then done (err einval) sb
      else if size == 0
      then fault
      else (let len = length (c_str ((sb.inodes idx).file_content)) in
          let count = if leb size len then size - 1 else len in
          done (ok (take count ((sb.inodes idx).file_content))) sb)
]

-- The bytes behind the terminators of `filename`, `newpath` and `parent`, up to the end of the objects
-- that hold them: 1024 bytes of malloc, what FUSE has allocated, and a `char[128]`.
pub record Tails : Type 0 where
  pub name : List ℕ
  pub path : List ℕ
  pub parent : List ℕ

-- `memcpy(d, s, MAX_PATH_LEN - 1); d[MAX_PATH_LEN - 1] = '\0';` copies what lies behind the
-- string as well.
unfoldable pub copied_field : List ℕ → List ℕ → List ℕ
copied_field s tail = take (max_path_len - 1) (s ++ (0 ∷ tail)) ++ (0 ∷ [])

-- `memcpy` from `s` stays inside the object.
unfoldable pub reaches : List ℕ → List ℕ → Bool
reaches s tail = leb (max_path_len - 1) (length s + 1 + length tail)

-- So do the three of `fisopfs_link`.
unfoldable pub readable : List ℕ → Tails → Bool
readable newpath tails =
    reaches (get_file_name newpath) tails.name
    && reaches newpath tails.path
    && reaches (get_parent_dir newpath) tails.parent

-- The copy of the old inode that `fisopfs_link` stores under the new path.
unfoldable pub linked_inode : Inode → List ℕ → Tails → Inode
linked_inode old newpath tails = record old {
  name = copied_field (get_file_name newpath) tails.name;
  path = copied_field newpath tails.path;
  file_parent = copied_field (get_parent_dir newpath) tails.parent;
  nlink = inc_ulong old.nlink;
}

unfoldable pub link : Host → Tails → List ℕ → List ℕ → Superblock → Outcome (Unit {0})
link h tails oldpath newpath sb = elim (get_inode_index sb oldpath) [
  | none ↦ done (err enoent) sb
  | some index_old ↦
      if not ((sb.inodes index_old).type == file_type_regular)
      then done (err eisdir) sb
      else elim (search_free_inode sb) [
        | none ↦ done (err enospc) sb
        | some index_new ↦
            if leb max_path_len (length newpath)
            then fault
            else if h.malloc_ok
            then (if readable newpath tails
                then done (ok tt) (
                    link_up
                      (put_inode sb index_new (linked_inode (sb.inodes index_old) newpath tails))
                      index_old)
                else fault)
            else done (err enomem) sb
      ]
]
