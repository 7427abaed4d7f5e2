-- ===== src/Fs/Content/Sync.antt =====
-- 4-fs/fisopfs.c: the loop at the end of `fisopfs_write`, which copies the written contents to
-- every inode in use with more than one link.
use sistemas_operativos_fiub.Common.{
  ℕ, zero, suc, ◌+◌, ◌≡◌, refl, ◌∙◌, ◌≢◌, false, ◌&&◌, arith, if◌then◌else◌, str_eq_refl, ◌≤◌, ltb,
  leb, update_self, update_ne, length, take-all,
}
use native.Mathlib.Decide.{ℕ_discrete}
use sistemas_operativos_fiub.Fs.Strings.{c_str}
use sistemas_operativos_fiub.Fs.Strings.Laws.{c_str-strncpy_full, c_str-IsText}
use sistemas_operativos_fiub.Fs.State.{Inode, Superblock, max_inodes, max_content}
use sistemas_operativos_fiub.Fs.Content.{differs, copy_content, sync_inode, sync_links}

-- The written inode does not differ from itself.
differs_self : (sb : Superblock) (index : ℕ) → differs sb index index ≡ false
unfolding differs
differs_self sb index = rw (str_eq_refl (c_str ((sb.inodes index).file_content))) (ground arith)

status-sync_inode :
    (sb : Superblock) (index i : ℕ) → (sync_inode sb index i).status_inodes ≡ sb.status_inodes
unfolding sync_inode
status-sync_inode sb index i = ground arith

inodes-sync_inode_self :
    (sb : Superblock) (index i : ℕ)
    → (sync_inode sb index i).inodes i
      ≡ (if differs sb index i then copy_content (sb.inodes i) (sb.inodes index) else sb.inodes i)
unfolding sync_inode
inodes-sync_inode_self sb index i =
    ground (arith, update_self sb.inodes i (copy_content (sb.inodes i) (sb.inodes index)))

inodes-sync_inode_ne :
    (sb : Superblock) (index i j : ℕ) → i ≢ j → (sync_inode sb index i).inodes j ≡ sb.inodes j
unfolding sync_inode
inodes-sync_inode_ne sb index i j h =
    ground (arith, update_ne sb.inodes i j (copy_content (sb.inodes i) (sb.inodes index)) h)

-- A round leaves the written inode alone, also its own.
inodes-sync_inode_index :
    (sb : Superblock) (index i : ℕ) → (sync_inode sb index i).inodes index ≡ sb.inodes index
inodes-sync_inode_index sb index i = elim (ℕ_discrete i index) [
  | yes e ↦ rw e (inodes-sync_inode_self sb index index ∙ rw (differs_self sb index))
  | no ne ↦ inodes-sync_inode_ne sb index i index ne
]

-- Whether inode `j` differs is not changed by a round for another inode.
differs-sync_inode :
    (sb : Superblock) (index i j : ℕ)
    → i ≢ j
    → differs (sync_inode sb index i) index j ≡ differs sb index j
unfolding differs
differs-sync_inode sb index i j h = rw (
  status-sync_inode sb index i,
  inodes-sync_inode_ne sb index i j h,
  inodes-sync_inode_index sb index i,
)

pub status-sync_links :
    (n i : ℕ) (sb : Superblock) (index : ℕ)
    → (sync_links sb index n i).status_inodes ≡ sb.status_inodes
unfolding sync_links
status-sync_links zero i sb index = refl
status-sync_links (suc n) i sb index =
    status-sync_links n (i + 1) (sync_inode sb index i) index ∙ status-sync_inode sb index i

-- Inode `j` after the loop, in terms of the superblock before it.
pub inodes-sync_links :
    (n i : ℕ) (sb : Superblock) (index j : ℕ)
    → (sync_links sb index n i).inodes j ≡ (
        if leb i j && (ltb j (i + n) && differs sb index j)
        then copy_content (sb.inodes j) (sb.inodes index)
        else sb.inodes j)
unfolding sync_links
inodes-sync_links zero i sb index j = ground arith
inodes-sync_links (suc n) i sb index j = elim (ℕ_discrete i j) [
  | yes e ↦ ground (
    arith,
    inodes-sync_links n (i + 1) (sync_inode sb index i) index j,
    inodes-sync_inode_self sb index i,
  )
  | no ne ↦ ground (
    arith,
    inodes-sync_links n (i + 1) (sync_inode sb index i) index j,
    inodes-sync_inode_ne sb index i j ne,
    inodes-sync_inode_index sb index i,
    differs-sync_inode sb index i j ne,
  )
]

-- The written inode itself comes out as it went in.
pub inodes-sync_links_index :
    (sb : Superblock) (index : ℕ)
    → (sync_links sb index max_inodes 0).inodes index ≡ sb.inodes index
inodes-sync_links_index sb index =
    ground (arith, inodes-sync_links max_inodes 0 sb index index, differs_self sb index)

-- What a copy makes of a string that fits.
pub c_str-copy_content :
    (to from : Inode)
    → length (c_str from.file_content) ≤ max_content
    → c_str ((copy_content to from).file_content) ≡ c_str from.file_content
unfolding copy_content
c_str-copy_content to from h =
    c_str-strncpy_full max_content (c_str from.file_content) (c_str-IsText from.file_content)
    ∙ take-all max_content (c_str from.file_content) h
