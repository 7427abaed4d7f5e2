-- ===== src/Fs/Create.antt =====
-- 4-fs/fisopfs.c: creation and removal of inodes, and the metadata operations.
pub mod Names
pub mod Lookup
pub mod Listing
pub mod Laws
pub mod Removal
use sistemas_operativos_fiub.Common.{
  ℕ, zero, suc, ◌+◌, Bool, ◌&&◌, not, Option, none, some, List, [], ◌∷◌, length, ◌==◌, leb,
  if◌then◌else◌, str_eq, first, update,
}
use sistemas_operativos_fiub.Fs.Strings.{c_str, zeros}
use sistemas_operativos_fiub.Fs.State.{
  Inode, Superblock, Errno, Reply, ok, err, Outcome, done, fault, Host, enoent, enospc, enomem,
  enotdir, enotempty, eisdir, occupied, free, max_inodes, max_content, max_path_len,
  file_type_regular, file_type_directory, mode_regular, mode_directory, inc_ulong, path_field,
  is_lnk,
}
use sistemas_operativos_fiub.Fs.Search.{
  get_parent_dir, get_file_name, search_inode_by_path, search_free_inode, get_inode_index,
}

-- The test of the first loop of `set_inode_in_superblock`.
unfoldable pub same_entry : Superblock → Inode → ℕ → Bool
same_entry sb inode i =
    sb.status_inodes i == occupied
    && (str_eq (c_str ((sb.inodes i).name)) (c_str inode.name)
        && str_eq (c_str ((sb.inodes i).file_parent)) (c_str inode.file_parent))

-- `superblock.inodes[i] = inode; superblock.status_inodes[i] = OCCUPIED;`
unfoldable pub put_inode : Superblock → ℕ → Inode → Superblock
put_inode sb i inode = record {
  inodes = update sb.inodes i inode;
  status_inodes = update sb.status_inodes i occupied;
}

-- `superblock.inodes[i].nlink++`
unfoldable pub link_up : Superblock → ℕ → Superblock
link_up sb i = record sb {
  inodes = update sb.inodes i (record (sb.inodes i) { nlink = inc_ulong ((sb.inodes i).nlink) });
}

-- `superblock.status_inodes[i] = FREE`
unfoldable pub release : Superblock → ℕ → Superblock
release sb i = record sb { status_inodes = update sb.status_inodes i free }

unfoldable pub set_inode_in_superblock : Inode → Superblock → Reply ℕ × Superblock
set_inode_in_superblock inode sb = elim (first (same_entry sb inode) max_inodes 0) [
  | some i ↦ (ok i, link_up sb i)
  | none ↦ elim (search_free_inode sb) [
    | some free_idx ↦ (ok free_idx, put_inode sb free_idx inode)
    | none ↦ (err enospc, sb)
  ]
]

-- The `new_node` that `new_inode` fills in.
unfoldable pub new_node : Host → List ℕ → ℕ → Inode
new_node h path type = record {
  name = path_field (get_file_name path);
  file_size = 0;
  type = type;
  path = path_field path;
  file_content = zeros max_content;
  file_parent = path_field (get_parent_dir path);
  nlink = if type == file_type_regular then 1 else 2;
  uid = h.uid;
  gid = h.gid;
  mode = if type == file_type_regular then mode_regular else mode_directory;
  ctime = h.ctime;
  mtime = h.mtime;
  atime = h.atime;
}

-- `(free_idx < 0) ? -ENOSPC : 0`
abbrev pub or_enospc : Reply ℕ → Reply (Unit {0})
or_enospc (ok i) = ok tt
or_enospc (err e) = err enospc

-- A path of `MAX_PATH_LEN` bytes or more overflows `padre`.
unfoldable pub new_inode : Host → List ℕ → ℕ → Superblock → Outcome (Unit {0})
new_inode h path type sb =
    if leb max_path_len (length path)
    then fault
    else if h.malloc_ok
    then (let (r, sb') = set_inode_in_superblock (new_node h path type) sb in
        done (or_enospc r) sb')
    else done (err enomem) sb

unfoldable pub create : Host → List ℕ → Superblock → Outcome (Unit {0})
create h path sb = new_inode h path file_type_regular sb

unfoldable pub mkdir : Host → List ℕ → Superblock → Outcome (Unit {0})
mkdir h path sb = new_inode h path file_type_directory sb

-- The test of the loops over the entries of a directory, in `fisopfs_rmdir` and `fisopfs_readdir`.
unfoldable pub is_entry : Superblock → List ℕ → ℕ → Bool
is_entry sb path i =
    sb.status_inodes i == occupied && str_eq (c_str ((sb.inodes i).file_parent)) path

unfoldable pub rmdir : List ℕ → Superblock → Outcome (Unit {0})
rmdir path sb = elim (get_inode_index sb path) [
  | none ↦ done (err enoent) sb
  | some index ↦
      if not ((sb.inodes index).type == file_type_directory)
      then done (err enotdir) sb
      else elim (first (is_entry sb path) max_inodes 0) [
        | some i ↦ done (err enotempty) sb
        | none ↦ done (ok tt) (release sb index)
      ]
]

unfoldable pub unlink : List ℕ → Superblock → Outcome (Unit {0})
unlink path sb = elim (get_inode_index sb path) [
  | none ↦ done (err enoent) sb
  | some index ↦
      if not ((sb.inodes index).type == file_type_regular) && not (is_lnk ((sb.inodes index).mode))
      then done (err eisdir) sb
      else done (ok tt) (release sb index)
]

-- The fields of `struct stat` that `fisopfs_getattr` sets; it clears the others.
pub record Stat : Type 0 where
  pub st_uid : ℕ
  pub st_gid : ℕ
  pub st_nlink : ℕ
  pub st_size : ℕ
  pub st_ctime : ℕ
  pub st_mtime : ℕ
  pub st_atime : ℕ
  pub st_mode : ℕ

unfoldable pub stat_of : Inode → Stat
stat_of inode = record {
  st_uid = inode.uid;
  st_gid = inode.gid;
  st_nlink = inode.nlink;
  st_size = inode.file_size;
  st_ctime = inode.ctime;
  st_mtime = inode.mtime;
  st_atime = inode.atime;
  st_mode = inode.mode;
}

unfoldable pub getattr : List ℕ → Superblock → Reply Stat
getattr path sb = elim (search_inode_by_path sb path) [
  | none ↦ err enoent
  | some idx ↦ ok (stat_of (sb.inodes idx))
]

-- The loop of `fisopfs_readdir` from index `i`: the names that it hands to `filler`.
unfoldable pub entries : Superblock → List ℕ → ℕ → ℕ → List (List ℕ)
entries sb path zero i = []
entries sb path (suc n) i =
    let rest = entries sb path n (i + 1) in
    if is_entry sb path i then c_str ((sb.inodes i).name) ∷ rest else rest

abbrev pub dot : List ℕ
dot = b'.' ∷ []

abbrev pub dot_dot : List ℕ
dot_dot = b'.' ∷ b'.' ∷ []

-- What `fisopfs_readdir` hands to `filler`, in order; it always returns 0.
unfoldable pub readdir : List ℕ → Superblock → List (List ℕ)
readdir path sb = dot ∷ dot_dot ∷ entries sb path max_inodes 0

-- `superblock.inodes[i].atime = atime; superblock.inodes[i].mtime = mtime;`
unfoldable pub set_times : Superblock → ℕ → ℕ → ℕ → Superblock
set_times sb i atime mtime = record sb {
  inodes = update sb.inodes i (record (sb.inodes i) { atime = atime; mtime = mtime });
}

unfoldable pub utimens : List ℕ → ℕ → ℕ → Superblock → Outcome (Unit {0})
utimens path atime mtime sb = elim (get_inode_index sb path) [
  | none ↦ done (err enoent) sb
  | some index ↦ done (ok tt) (set_times sb index atime mtime)
]
