-- ===== src/Fs/Search.antt =====
-- 4-fs/fs_utils.c: the parts of a path, and the linear searches of the inode table. -1 is `none`.
pub mod Paths
pub mod Laws
use sistemas_operativos_fiub.Common.{
  ℕ, suc, zero, ◌+◌, ◌-◌, Bool, ◌&&◌, Option, none, some, List, take, drop, ◌==◌, if◌then◌else◌,
  str_eq, first,
}
use sistemas_operativos_fiub.Fs.Strings.{c_str, strrchr}
use sistemas_operativos_fiub.Fs.State.{Superblock, occupied, free, max_inodes, root_path}

-- `get_parent_dir`: what it leaves in `output`, which must have room for the whole path.
unfoldable pub get_parent_dir : List ℕ → List ℕ
get_parent_dir path = elim (strrchr path b'/') [
  | none ↦ root_path
  | some last ↦ if last == 0 then root_path else take last path
]

-- `get_file_name`, where `malloc` succeeds
unfoldable pub get_file_name : List ℕ → List ℕ
get_file_name path = elim (strrchr path b'/') [ none ↦ path | some last ↦ drop (last + 1) path ]

-- The test of the two searches by path.
unfoldable pub has_path : Superblock → List ℕ → ℕ → Bool
has_path sb path i = sb.status_inodes i == occupied && str_eq (c_str ((sb.inodes i).path)) path

unfoldable pub search_inode_by_path : Superblock → List ℕ → Option ℕ
search_inode_by_path sb path = first (has_path sb path) max_inodes 0

-- The test of `search_free_inode`.
unfoldable pub is_free : Superblock → ℕ → Bool
is_free sb i = sb.status_inodes i == free

unfoldable pub search_free_inode : Superblock → Option ℕ
search_free_inode sb = first (is_free sb) max_inodes 0

unfoldable pub get_inode_index : Superblock → List ℕ → Option ℕ
get_inode_index sb path =
    if str_eq path root_path then some 0 else first (has_path sb path) max_inodes 0
