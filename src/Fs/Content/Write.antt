-- ===== src/Fs/Content/Write.antt =====
-- 4-fs/fisopfs.c: what `fisopfs_write` leaves, for the file itself and for every other inode.
use sistemas_operativos_fiub.Common.{
  ℕ, ◌+◌, ◌≡◌, refl, ◌∙◌, ◌≢◌, List, arith, ◌<◌, update, update_self, update_ne, length,
}
use sistemas_operativos_fiub.Fs.State.{Inode, Superblock, done, ok, Host, max_inodes, max_content}
use sistemas_operativos_fiub.Fs.Content.{
  copy_content, sync_links, write_content, store, write_inode,
}
use sistemas_operativos_fiub.Fs.Content.Sync.{
  inodes-sync_links, inodes-sync_links_index, status-sync_links,
}

pub inodes-store_self :
    (sb : Superblock) (index : ℕ) (buffer : List ℕ) (offset : ℕ)
    → (store sb index buffer offset).inodes index ≡ write_content (sb.inodes index) buffer offset
unfolding store
inodes-store_self sb index buffer offset =
    update_self sb.inodes index (write_content (sb.inodes index) buffer offset)

pub inodes-store_ne :
    (sb : Superblock) (index : ℕ) (buffer : List ℕ) (offset j : ℕ)
    → index ≢ j
    → (store sb index buffer offset).inodes j ≡ sb.inodes j
unfolding store
inodes-store_ne sb index buffer offset j h =
    update_ne sb.inodes index j (write_content (sb.inodes index) buffer offset) h

pub status-store :
    (sb : Superblock) (index : ℕ) (buffer : List ℕ) (offset : ℕ)
    → (store sb index buffer offset).status_inodes ≡ sb.status_inodes
unfolding store
status-store sb index buffer offset = refl

-- A write keeps every field but the contents and the size.
pub record SameButContent (a b : Inode) : Type 0 where
  pub path : a.path ≡ b.path
  pub name : a.name ≡ b.name
  pub file_parent : a.file_parent ≡ b.file_parent
  pub type : a.type ≡ b.type
  pub nlink : a.nlink ≡ b.nlink
  pub uid : a.uid ≡ b.uid
  pub mode : a.mode ≡ b.mode

pub store-SameButContent :
    (sb : Superblock) (index : ℕ) (buffer : List ℕ) (offset j : ℕ)
    → SameButContent ((store sb index buffer offset).inodes j) (sb.inodes j)
unfolding store update write_content
store-SameButContent sb index buffer offset j = ground arith

sync-SameButContent :
    (sb : Superblock) (index j : ℕ)
    → SameButContent ((sync_links sb index max_inodes 0).inodes j) (sb.inodes j)
unfolding copy_content
sync-SameButContent sb index j = ground (arith, inodes-sync_links max_inodes 0 sb index j)

-- The superblock that a write leaves.
unfoldable pub written : Superblock → ℕ → List ℕ → ℕ → Superblock
written sb index buffer offset = sync_links (store sb index buffer offset) index max_inodes 0

-- A write that is allowed and fits goes through.
pub write_inode_ok :
    (h : Host) (index : ℕ) (buffer : List ℕ) (offset : ℕ) (sb : Superblock)
    → (sb.inodes index).uid ≡ h.caller_uid
    → offset + length buffer < max_content
    → write_inode h index buffer offset sb
      ≡ done (ok (length buffer)) (written sb index buffer offset)
unfolding write_inode written
write_inode_ok h index buffer offset sb u fits = ground arith

pub written-SameButContent :
    (sb : Superblock) (index : ℕ) (buffer : List ℕ) (offset j : ℕ)
    → SameButContent ((written sb index buffer offset).inodes j) (sb.inodes j)
unfolding written
written-SameButContent sb index buffer offset j = ground (
  arith,
  store-SameButContent sb index buffer offset j,
  sync-SameButContent (store sb index buffer offset) index j,
)

pub status-written :
    (sb : Superblock) (index : ℕ) (buffer : List ℕ) (offset : ℕ)
    → (written sb index buffer offset).status_inodes ≡ sb.status_inodes
unfolding written store
status-written sb index buffer offset =
    status-sync_links max_inodes 0 (store sb index buffer offset) index

pub inodes-written_self :
    (sb : Superblock) (index : ℕ) (buffer : List ℕ) (offset : ℕ)
    → (written sb index buffer offset).inodes index ≡ write_content (sb.inodes index) buffer offset
unfolding written
inodes-written_self sb index buffer offset =
    inodes-sync_links_index (store sb index buffer offset) index
    ∙ inodes-store_self sb index buffer offset
