-- ===== src/Fs/Mount.antt =====
-- 4-fs: the root directory, the image on disk, mounting and unmounting, and the `--filedisk`
-- argument of `main`. The disk file is a list of bytes; how a superblock lies in memory is the
-- compiler's, and each call of the C library that may fail has its result in a record.
pub mod Laws
use sistemas_operativos_fiub.Common.{
  ℕ, Bool, true, false, Option, none, some, List, [], ◌∷◌, if◌then◌else◌, str_eq, update, take,
  length, leb,
}
use sistemas_operativos_fiub.Fs.Strings.{zeros, strncpy}
use sistemas_operativos_fiub.Fs.State.{
  Inode, Superblock, Host, occupied, free, max_content, max_path_len, root_path, no_parent,
  file_type_directory, mode_directory,
}

-- An inode of zero bytes.
unfoldable pub zero_inode : Inode
zero_inode = record {
  name = zeros max_path_len;
  file_size = 0;
  type = 0;
  path = zeros max_path_len;
  file_content = zeros max_content;
  file_parent = zeros max_path_len;
  nlink = 0;
  uid = 0;
  gid = 0;
  mode = 0;
  ctime = 0;
  mtime = 0;
  atime = 0;
}

abbrev pub root_name : List ℕ
root_name = b'R' ∷ b'o' ∷ b'o' ∷ b't' ∷ []

unfoldable pub root_inode : Host → Inode
root_inode h = record {
  name = strncpy max_path_len root_name;
  file_size = max_content;
  type = file_type_directory;
  path = strncpy max_path_len root_path;
  file_content = zeros max_content;
  file_parent = strncpy max_path_len no_parent;
  nlink = 2;
  uid = h.uid;
  gid = h.gid;
  mode = mode_directory;
  ctime = h.ctime;
  mtime = h.mtime;
  atime = h.atime;
}

-- Nothing of the superblock that was there is left.
unfoldable pub create_root : Host → Superblock
create_root h = record {
  inodes = update (λ i. zero_inode) 0 (root_inode h);
  status_inodes = update (λ i. free) 0 occupied;
}

-- The bytes of a `super_block_t` in memory, as the compiler lays them out, and back.
pub record Layout : Type 0 where
  pub size : ℕ
  pub bytes : Superblock → List ℕ
  pub load : List ℕ → Superblock

-- The file that `filedisk` names, and what the calls of the C library on it do.
pub record Disk : Type 0 where
  pub image : List ℕ  -- the bytes in the file
  pub read_open_ok : Bool  -- fopen(path, "rb")
  pub calloc_ok : Bool
  pub write_open_ok : Bool  -- fopen(path, "wb"), which empties the file
  pub fwrite_ok : Bool  -- fwrite returns 1
  pub stored : ℕ  -- the bytes that are in the file after fclose, at most

-- `write_persistence`, with `true` for its 0. The results of `fflush` and `fclose` are not looked at.
unfoldable pub write_persistence : Layout → Disk → Superblock → Bool × Disk
write_persistence layout d sb =
    if d.write_open_ok
    then (let d' = record d { image = take d.stored (layout.bytes sb) } in
        if d.fwrite_ok then (true, d') else (false, d'))
    else (false, d)

-- `read_persistence`, with `none` for NULL; `fread` returns 1 if the file has the bytes of a
-- `super_block_t`.
unfoldable pub read_persistence : Layout → Disk → Option Superblock
read_persistence layout d =
    if d.read_open_ok
    then if d.calloc_ok
      then if leb layout.size (length d.image)
        then some (layout.load (take layout.size d.image))
        else none
      else none
    else none

-- `fisopfs_init` ignores what `write_persistence` returns.
unfoldable pub init : Layout → Host → Disk → Superblock × Disk
init layout h d = elim (read_persistence layout d) [
  | none ↦ (create_root h, (write_persistence layout d (create_root h)).1)
  | some fs ↦ (fs, d)
]

-- `fisopfs_destroy`: `false` stands for the `exit(1)`.
unfoldable pub destroy : Layout → Superblock → Disk → Bool × Disk
destroy layout sb d = write_persistence layout d sb

abbrev pub filedisk_flag : List ℕ
filedisk_flag = b'-' ∷ b'-' ∷ b'f' ∷ b'i' ∷ b'l' ∷ b'e' ∷ b'd' ∷ b'i' ∷ b's' ∷ b'k' ∷ []

-- The loop of `main` over the arguments after the program's name: the name of the disk file, if
-- one is given, and what is left for `fuse_main`. The last argument is never read as the flag.
unfoldable pub parse_args : List (List ℕ) → Option (List ℕ) × List (List ℕ)
parse_args [] = (none, [])
parse_args (x ∷ []) = (none, x ∷ [])
parse_args (x ∷ y ∷ rest) =
    let (file, left) = parse_args (y ∷ rest) in
    if str_eq x filedisk_flag then (some y, rest) else (file, x ∷ left)
