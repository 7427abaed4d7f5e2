-- ===== src/Fs/Content.antt =====
-- 4-fs/fisopfs.c: reading, writing and truncating the contents of an inode. Offsets and sizes are
-- not negative, which the kernel sees to before it calls the file system.
pub mod Sync
pub mod Bounds
pub mod Write
pub mod RoundTrip
pub mod Linked
pub mod Truncate
use sistemas_operativos_fiub.Common.{
  ℕ, zero, suc, ◌+◌, ◌-◌, ◌%◌, ◌^◌, Bool, ◌&&◌, not, none, some, List, [], ◌∷◌, length, take, drop,
  ◌==◌, ltb, leb, if◌then◌else◌, str_eq, update,
}
use sistemas_operativos_fiub.Fs.Strings.{c_str, zeros, strncpy, blit}
use sistemas_operativos_fiub.Fs.State.{
  Inode, Superblock, ok, err, Outcome, done, fault, Host, enoent, eisdir, eacces, efbig, occupied,
  max_inodes, max_content, file_type_regular,
}
use sistemas_operativos_fiub.Fs.Search.{search_inode_by_path, get_inode_index}

-- `fisopfs_read` once the inode is found. `offset + size` is an unsigned 64-bit sum; a `memcpy`
-- that would leave `file_content` is a fault.
unfoldable pub read_inode : Inode → ℕ → ℕ → Superblock → Outcome (List ℕ)
read_inode inode size offset sb =
    if leb inode.file_size offset
    then done (ok []) sb
    else (let count : ℕ =
          if ltb inode.file_size ((offset + size) % 2 ^ 64)
          then inode.file_size - offset
          else size in
        if leb (offset + count) max_content
        then done (ok (take count (drop offset inode.file_content))) sb
        else fault)

unfoldable pub read : List ℕ → ℕ → ℕ → Superblock → Outcome (List ℕ)
read path size offset sb = elim (search_inode_by_path sb path) [
  | none ↦ done (err enoent) sb
  | some idx ↦ read_inode (sb.inodes idx) size offset sb
]

-- `strncpy` of the buffer into the contents, the new size, and the NUL behind it.
unfoldable pub write_content : Inode → List ℕ → ℕ → Inode
write_content inode buffer offset = record inode {
  file_content =
      blit (blit inode.file_content offset (strncpy (length buffer) (c_str buffer)))
        (offset + length buffer) (0 ∷ []);
  file_size = offset + length buffer;
}

-- The test of the loop of `fisopfs_write` at inode `i`, for a write to inode `index`.
unfoldable pub differs : Superblock → ℕ → ℕ → Bool
differs sb index i =
    sb.status_inodes i == occupied
    && (ltb 1 ((sb.inodes i).nlink)
        && not
            (str_eq (c_str ((sb.inodes i).file_content)) (c_str ((sb.inodes index).file_content))))

-- Its body: the string of `from` over the whole of `file_content`, and its size.
unfoldable pub copy_content : Inode → Inode → Inode
copy_content to from = record to {
  file_content = strncpy max_content (c_str from.file_content);
  file_size = from.file_size;
}

unfoldable pub sync_inode : Superblock → ℕ → ℕ → Superblock
sync_inode sb index i =
    if differs sb index i
    then record sb { inodes = update sb.inodes i (copy_content (sb.inodes i) (sb.inodes index)) }
    else sb

-- The loop, `n` rounds from inode `i`. It reads the written inode anew in each round.
unfoldable pub sync_links : Superblock → ℕ → ℕ → ℕ → Superblock
sync_links sb index zero i = sb
sync_links sb index (suc n) i = sync_links (sync_inode sb index i) index n (i + 1)

-- The write to inode `index` itself, before the loop.
unfoldable pub store : Superblock → ℕ → List ℕ → ℕ → Superblock
store sb index buffer offset = record sb {
  inodes = update sb.inodes index (write_content (sb.inodes index) buffer offset);
}

-- `fisopfs_write` once the inode is found. The buffer has `size` bytes. The bytes and the NUL
-- behind them must lie inside `file_content`.
unfoldable pub write_inode : Host → ℕ → List ℕ → ℕ → Superblock → Outcome ℕ
write_inode h index buffer offset sb =
    if not ((sb.inodes index).uid == h.caller_uid)
    then done (err enoent) sb
    else if not ((sb.inodes index).uid == h.caller_uid)
    then done (err eacces) sb
    else if ltb max_content offset
    then done (err efbig) sb
    else if ltb (offset + length buffer) max_content
    then done (ok (length buffer)) (sync_links (store sb index buffer offset) index max_inodes 0)
    else fault

unfoldable pub write : Host → List ℕ → List ℕ → ℕ → Superblock → Outcome ℕ
write h path buffer offset sb = elim (get_inode_index sb path) [
  | none ↦ done (err enoent) sb
  | some index ↦ write_inode h index buffer offset sb
]

-- `memset` over what a truncation cuts off or adds, then the new size.
unfoldable pub resize : Inode → ℕ → Inode
resize inode offset = record inode {
  file_content =
      if ltb offset inode.file_size
      then blit inode.file_content offset (zeros (inode.file_size - offset))
      else blit inode.file_content inode.file_size (zeros (offset - inode.file_size));
  file_size = offset;
}

unfoldable pub truncated : Superblock → ℕ → ℕ → Superblock
truncated sb index offset = record sb {
  inodes = update sb.inodes index (resize (sb.inodes index) offset);
}

-- A `memset` past `file_content` is a fault: it can only be reached with a `file_size` above
-- `MAX_CONTENT`.
unfoldable pub truncate : List ℕ → ℕ → Superblock → Outcome (Unit {0})
truncate path offset sb = elim (get_inode_index sb path) [
  | none ↦ done (err enoent) sb
  | some index ↦
      if not ((sb.inodes index).type == file_type_regular)
      then done (err eisdir) sb
      else if ltb max_content offset
      then done (err eisdir) sb
      else if ltb offset ((sb.inodes index).file_size)
          && ltb max_content ((sb.inodes index).file_size)
      then fault
      else done (ok tt) (truncated sb index offset)
]
