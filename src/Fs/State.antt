-- ===== src/Fs/State.antt =====
-- 4-fs/def.h: the inode, the superblock and the limits; what an operation returns; and the values
-- that the operations take from the system.
use sistemas_operativos_fiub.Common.{ℕ, ◌+◌, ◌-◌, ◌%◌, ◌^◌, Bool, List, [], ◌∷◌, ◌++◌, ◌==◌}
use sistemas_operativos_fiub.Fs.Strings.{strncpy}
use Prim.Native.Nat.{bit_and}

abbrev pub max_path_len : ℕ
max_path_len = 128

abbrev pub max_inodes : ℕ
max_inodes = 64

abbrev pub max_content : ℕ
max_content = 100

abbrev pub occupied : ℕ
occupied = 1

abbrev pub free : ℕ
free = 0

abbrev pub no_parent : List ℕ
no_parent = []

abbrev pub root_path : List ℕ
root_path = b'/' ∷ []

abbrev pub file_type_regular : ℕ
file_type_regular = 1

abbrev pub file_type_directory : ℕ
file_type_directory = 2

-- <sys/stat.h>: the type bits of a mode, alone and with the permissions that the source joins.
abbrev pub s_ifmt : ℕ
s_ifmt = 0o170000

abbrev pub s_iflnk : ℕ
s_iflnk = 0o120000

abbrev pub mode_directory : ℕ
mode_directory = 0o040755

abbrev pub mode_regular : ℕ
mode_regular = 0o100644

abbrev pub mode_symlink : ℕ
mode_symlink = 0o120777

-- `S_ISLNK(mode)`
unfoldable pub is_lnk : ℕ → Bool
is_lnk mode = bit_and mode s_ifmt == s_iflnk

-- `struct inode`
pub record Inode : Type 0 where
  pub name : List ℕ  -- char[128]
  pub file_size : ℕ  -- int
  pub type : ℕ
  pub path : List ℕ  -- char[128]
  pub file_content : List ℕ  -- char[100]
  pub file_parent : List ℕ  -- char[128]
  pub nlink : ℕ  -- unsigned long
  pub uid : ℕ
  pub gid : ℕ
  pub mode : ℕ
  pub ctime : ℕ
  pub mtime : ℕ
  pub atime : ℕ

-- `struct super_block`: both arrays have `max_inodes` entries, and every index that the code
-- uses comes from a search below that.
pub record Superblock : Type 0 where
  pub inodes : ℕ → Inode
  pub status_inodes : ℕ → ℕ

-- The error numbers that the operations return, negated in C.
pub data Errno : Type 0 where
  enoent enospc enomem enotdir enotempty eisdir eacces efbig einval : Errno

pub data Reply (A : Type 0) : Type 0 where
  ok : A → Reply A
  err : Errno → Reply A

-- What a call does: it returns, with the superblock as it leaves it, or it accesses memory
-- outside an array, where C defines nothing more.
pub data Outcome (A : Type 0) : Type 0 where
  done : Reply A → Superblock → Outcome A
  fault : Outcome A

-- The call returns, and what it leaves satisfies `P`.
abbrev pub Safe : {A : Type 0} → (Superblock → Type 0) → Outcome A → Type 0
Safe P (done r sb) = P sb
Safe P fault = ⊥

-- What the operations ask of the system: `getuid`, `getgid`, three readings of `time`, whether
-- `malloc` succeeds, and `fuse_get_context()->uid`.
pub record Host : Type 0 where
  pub uid : ℕ
  pub gid : ℕ
  pub ctime : ℕ
  pub mtime : ℕ
  pub atime : ℕ
  pub malloc_ok : Bool
  pub caller_uid : ℕ

-- `nlink++`, an unsigned long
abbrev pub inc_ulong : ℕ → ℕ
inc_ulong n = (n + 1) % 2 ^ 64

-- `strncpy(d, s, MAX_PATH_LEN - 1); d[MAX_PATH_LEN - 1] = '\0';`
unfoldable pub path_field : List ℕ → List ℕ
path_field s = strncpy (max_path_len - 1) s ++ (0 ∷ [])
