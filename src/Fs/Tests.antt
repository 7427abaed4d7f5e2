-- ===== src/Fs/Tests.antt =====
-- 4-fs: a small mount with a file and a directory, and the invariant applied to it.
mod Contents
mod Names
mod Mounting
use sistemas_operativos_fiub.Common.{
  ℕ, zero, suc, ◌+◌, ◌≡◌, refl, ◌≢◌, Bool, true, false, Option, none, some, List, [], ◌∷◌, arith,
  length, ◌<◌, ◌≤◌, first, update, str_eq, inl, inr, take, ◌↔◌,
}
use sistemas_operativos_fiub.Fs.Strings.{c_str, zeros, strncpy, strrchr, blit}
use sistemas_operativos_fiub.Fs.State.{
  Inode, Superblock, Host, Outcome, done, fault, ok, err, Reply, Safe, free, occupied, max_inodes,
  file_type_regular, file_type_directory, path_field, root_path, is_lnk, max_content, enoent,
  enotempty, inc_ulong,
}
use sistemas_operativos_fiub.Fs.Search.{
  get_parent_dir, get_file_name, has_path, is_free, search_inode_by_path, search_free_inode,
  get_inode_index,
}
use sistemas_operativos_fiub.Fs.Create.{
  same_entry, put_inode, new_node, set_inode_in_superblock, new_inode, create, mkdir, is_entry,
}
use sistemas_operativos_fiub.Fs.Create.Names.{GoodPath}
use sistemas_operativos_fiub.Fs.Mount.{create_root, root_inode, zero_inode}
use sistemas_operativos_fiub.Fs.Calls.{create_call, mkdir_call, write_call, exec}
use sistemas_operativos_fiub.Fs.Content.{read_inode, read, write, truncate}
use sistemas_operativos_fiub.Fs.Content.Bounds.{read_inode_lem}
use sistemas_operativos_fiub.Fs.Content.RoundTrip.{MayWrite, write-read, write-read_binary}
use sistemas_operativos_fiub.Fs.Content.Linked.{write-linked, write-unlinked}
use sistemas_operativos_fiub.Fs.Content.Truncate.{bytes_of, resized, truncate-read}
use sistemas_operativos_fiub.Fs.Create.{getattr, stat_of, rmdir, unlink, readdir}
use sistemas_operativos_fiub.Fs.Create.Laws.{
  create_spec, new_stat, new_inode_lem, new_inode-getattr, new_inode_existing,
}
use sistemas_operativos_fiub.Fs.Create.Removal.{rmdir-getattr, rmdir_not_empty, unlink-getattr}
use sistemas_operativos_fiub.Fs.Create.Listing.{Listed, IsChild, readdir_lists}
use sistemas_operativos_fiub.Fs.Create.Lookup.{get_inode_index-search}
use sistemas_operativos_fiub.Fs.Search.Paths.{join_path, join-parent-name}
use sistemas_operativos_fiub.Fs.Links.{Tails, link, symlink, readlink}
use sistemas_operativos_fiub.Fs.Links.Hard.{link-shares}
use sistemas_operativos_fiub.Fs.Links.Symbolic.{kept, symlink-readlink}
use sistemas_operativos_fiub.Fs.Mount.{Disk, init, destroy, parse_args, filedisk_flag}
use sistemas_operativos_fiub.Fs.Mount.Laws.{init-destroy, parse_args_flag}
use sistemas_operativos_fiub.Fs.Calls.Sound.{IsSound}
use sistemas_operativos_fiub.Fs.Calls.Reach.{Reach, mounted, called, Reach-IsSound, exec-IsSound}

abbrev host : Host
host = record {
  uid = 1000;
  gid = 1000;
  ctime = 7;
  mtime = 8;
  atime = 9;
  malloc_ok = true;
  caller_uid = 1000;
}

abbrev path_a : List ℕ
path_a = b'/' ∷ b'a' ∷ []

abbrev path_b : List ℕ
path_b = b'/' ∷ b'b' ∷ []

abbrev path_d : List ℕ
path_d = b'/' ∷ b'd' ∷ []

-- The mount after `create("/a")` and `mkdir("/d")`.
abbrev table_0 : Superblock
table_0 = create_root host

abbrev table_1 : Superblock
table_1 = put_inode table_0 1 (new_node host path_a file_type_regular)

abbrev table_2 : Superblock
table_2 = put_inode table_1 2 (new_node host path_d file_type_directory)

-- The definitions that the runs below compute with.
runs : ℕ
unfolding c_str zeros strncpy strrchr blit path_field is_lnk get_parent_dir get_file_name has_path
    is_free search_inode_by_path search_free_inode get_inode_index same_entry new_node
    set_inode_in_superblock new_inode create mkdir is_entry create_root root_inode zero_inode exec
    first update str_eq put_inode
runs = 0

path_a-GoodPath : GoodPath path_a
path_a-GoodPath = record {
  absolute = ground arith;
  not_root = λ e. cc;
  text = omega arith;
  fits = omega arith;
}

path_b-GoodPath : GoodPath path_b
path_b-GoodPath = record {
  absolute = ground arith;
  not_root = λ e. cc;
  text = omega arith;
  fits = omega arith;
}

path_d-GoodPath : GoodPath path_d
path_d-GoodPath = record {
  absolute = ground arith;
  not_root = λ e. cc;
  text = omega arith;
  fits = omega arith;
}

create_a : exec host (create_call path_a) table_0 ≡ done (ok tt) table_1
unfolding runs
create_a = refl

mkdir_d : exec host (mkdir_call path_d) table_1 ≡ done (ok tt) table_2
unfolding runs
mkdir_d = refl

table_1-Reach : Reach table_1
table_1-Reach = called host (create_call path_a) (mounted host) path_a-GoodPath create_a

table_2-Reach : Reach table_2
table_2-Reach = called host (mkdir_call path_d) table_1-Reach path_d-GoodPath mkdir_d

Reach-IsSound_example : IsSound table_2
Reach-IsSound_example = Reach-IsSound table_2 table_2-Reach

table_2-IsSound : IsSound table_2
table_2-IsSound = Reach-IsSound table_2 table_2-Reach

exec-IsSound_example : Safe IsSound (exec host (write_call path_a (b'h' ∷ b'i' ∷ []) 0) table_2)
exec-IsSound_example =
    exec-IsSound host table_2 table_2-IsSound (write_call path_a (b'h' ∷ b'i' ∷ []) 0) (omega arith)

a_found : search_inode_by_path table_2 path_a ≡ some 1
unfolding runs
a_found = refl

a_index : get_inode_index table_2 path_a ≡ some 1
unfolding runs
a_index = refl

b_missing : search_inode_by_path table_2 path_b ≡ none
unfolding runs
b_missing = refl

d_found : search_inode_by_path table_2 path_d ≡ some 2
unfolding runs
d_found = refl

slot_found : search_free_inode table_2 ≡ some 3
unfolding runs
slot_found = refl

a_regular : (table_2.inodes 1).type ≡ file_type_regular
unfolding runs
a_regular = refl

a_uid : (table_2.inodes 1).uid ≡ 1000
unfolding runs
a_uid = refl

d_directory : (table_2.inodes 2).type ≡ file_type_directory
unfolding runs
d_directory = refl

abbrev hi : List ℕ
hi = b'h' ∷ b'i' ∷ []
