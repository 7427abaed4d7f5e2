-- ===== src/Fs/Content/Bounds.antt =====
-- 4-fs/fisopfs.c: the contents of an inode stay a terminated string inside its 100 bytes, and what
-- reads and truncates it stays inside them.
use sistemas_operativos_fiub.Common.{
  ℕ, ◌+◌, ◌-◌, ◌^◌, ◌≡◌, ◌∙◌, List, [], ◌∷◌, arith, ◌<◌, ◌≤◌, update, length, take, drop, drop-take,
  take-take,
}
use Prim.Native.Nat.{min}
use native.Mathlib.Decide.{dec_lt}
use sistemas_operativos_fiub.Fs.Strings.{c_str, strncpy, blit, zeros}
use sistemas_operativos_fiub.Fs.Strings.Laws.{
  length-blit, length-strncpy, length-c_str-blit, length-c_str-blit-zeros,
}
use sistemas_operativos_fiub.Fs.State.{Inode, Superblock, done, ok, max_inodes, max_content}
use sistemas_operativos_fiub.Fs.Content.{
  copy_content, sync_links, read_inode, write_content, resize,
}
use sistemas_operativos_fiub.Fs.Content.Sync.{c_str-copy_content, inodes-sync_links}

-- The contents of one inode are sound.
pub record ContentOk (inode : Inode) : Type 0 where
  pub bytes : length inode.file_content ≡ max_content
  pub ended : length (c_str inode.file_content) < max_content
  pub sized : inode.file_size ≤ max_content

-- Those of every inode of the table are.
abbrev pub AllContentOk : Superblock → Type 0
AllContentOk sb = (i : ℕ) → ContentOk (sb.inodes i)

pub write_content-ContentOk :
    (inode : Inode) (buffer : List ℕ) (offset : ℕ)
    → ContentOk inode
    → offset + length buffer < max_content
    → ContentOk (write_content inode buffer offset)
unfolding write_content
write_content-ContentOk inode buffer offset c h =
    let bs = strncpy (length buffer) (c_str buffer) in
    let d = blit inode.file_content offset bs in
    let e : length d ≡ length inode.file_content = length-blit inode.file_content offset bs in
    record {
      bytes = length-blit d (offset + length buffer) (0 ∷ []) ∙ e ∙ c.bytes;
      ended = omega (
        arith,
        e,
        c.bytes,
        length-c_str-blit d (offset + length buffer) (omega (arith, e, c.bytes)),
      );
      sized = omega arith;
    }

pub copy_content-ContentOk : (to from : Inode) → ContentOk from → ContentOk (copy_content to from)
copy_content-ContentOk to from c = record {
  bytes = unfold copy_content in length-strncpy max_content (c_str from.file_content);
  ended = rw (c_str-copy_content to from (omega (arith, c.ended))) c.ended;
  sized = unfold copy_content in c.sized;
}

pub resize-ContentOk :
    (inode : Inode) (offset : ℕ)
    → ContentOk inode
    → offset ≤ max_content
    → ContentOk (resize inode offset)
unfolding resize
resize-ContentOk inode offset c h = ground (
  arith,
  length-blit inode.file_content offset (zeros (inode.file_size - offset)),
  length-blit inode.file_content inode.file_size (zeros (offset - inode.file_size)),
  length-c_str-blit-zeros inode.file_content offset (inode.file_size - offset),
  length-c_str-blit-zeros inode.file_content inode.file_size (offset - inode.file_size),
)

pub sync_links-AllContentOk :
    (sb : Superblock) (index : ℕ)
    → AllContentOk sb
    → AllContentOk (sync_links sb index max_inodes 0)
sync_links-AllContentOk sb index c j = ground (
  arith,
  inodes-sync_links max_inodes 0 sb index j,
  c j,
  copy_content-ContentOk (sb.inodes j) (sb.inodes index) (c index),
)

pub update-AllContentOk :
    (sb : Superblock) (i : ℕ) (inode : Inode)
    → AllContentOk sb
    → ContentOk inode
    → (j : ℕ) → ContentOk (update sb.inodes i inode j)
unfolding update
update-AllContentOk sb i inode c h j = ground (arith, c j)

-- A read of a sound inode stays inside the contents, and returns the bytes between the offset and
-- the size, at most as many as are asked for.
pub read_inode_lem :
    (inode : Inode) (size offset : ℕ) (sb : Superblock)
    → ContentOk inode
    → offset + size < 2 ^ 64
    → read_inode inode size offset sb
      ≡ done (ok (take size (drop offset (take inode.file_size inode.file_content)))) sb
unfolding read_inode
read_inode_lem inode size offset sb c h =
    rw (drop-take offset inode.file_size inode.file_content, take-take)
      (elim (dec_lt offset inode.file_size) [
        | yes inside ↦ ground (arith, c)
        | no past ↦ rw (to_zero past) (ground (arith, c))
      ])
  where
    to_zero : ¬ (offset < inode.file_size) → min size (inode.file_size - offset) ≡ 0
    to_zero p = omega arith
