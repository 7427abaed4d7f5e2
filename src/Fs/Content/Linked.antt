-- ===== src/Fs/Content/Linked.antt =====
-- 4-fs/fisopfs.c: where `fisopfs_write` leaves the contents, and what it leaves in other inodes.
use sistemas_operativos_fiub.Common.{
  ℕ, ◌+◌, ◌≡◌, ◌∙◌, sym, ◌≢◌, ◌⊎◌, List, arith, ◌<◌, ◌≤◌, length, str_eq_sound,
}
use sistemas_operativos_fiub.Fs.Strings.{c_str}
use sistemas_operativos_fiub.Fs.State.{
  Superblock, done, ok, Host, occupied, max_inodes, max_content,
}
use sistemas_operativos_fiub.Fs.Content.{differs, sync_links, store, write}
use sistemas_operativos_fiub.Fs.Content.Sync.{
  c_str-copy_content, inodes-sync_links, inodes-sync_links_index,
}
use sistemas_operativos_fiub.Fs.Content.Bounds.{AllContentOk, write_content-ContentOk}
use sistemas_operativos_fiub.Fs.Content.Write.{
  inodes-store_self, inodes-store_ne, status-store, store-SameButContent, written,
}
use sistemas_operativos_fiub.Fs.Content.RoundTrip.{MayWrite, write-written}

-- An inode that the loop passes over, or copies to, holds the string of the written inode.
synced :
    (sb : Superblock) (index j : ℕ)
    → length (c_str ((sb.inodes index).file_content)) ≤ max_content
    → j < max_inodes
    → sb.status_inodes j ≡ occupied
    → 1 < (sb.inodes j).nlink
    → c_str (((sync_links sb index max_inodes 0).inodes j).file_content)
      ≡ c_str ((sb.inodes index).file_content)
unfolding differs
synced sb index j short inside used linked = ground (
  arith,
  inodes-sync_links max_inodes 0 sb index j,
  c_str-copy_content (sb.inodes j) (sb.inodes index) short,
  str_eq_sound (c_str ((sb.inodes j).file_content)) (c_str ((sb.inodes index).file_content)),
)

passed_over :
    (sb : Superblock) (index j : ℕ)
    → ((sb.inodes j).nlink ≤ 1) ⊎ (sb.status_inodes j ≢ occupied)
    → (sync_links sb index max_inodes 0).inodes j ≡ sb.inodes j
unfolding differs
passed_over sb index j h = ground (arith, inodes-sync_links max_inodes 0 sb index j)

untouched :
    (sb : Superblock) (index : ℕ) (buffer : List ℕ) (offset j : ℕ)
    → j ≢ index
    → ((sb.inodes j).nlink ≤ 1) ⊎ (sb.status_inodes j ≢ occupied)
    → (written sb index buffer offset).inodes j ≡ sb.inodes j
unfolding written
untouched sb index buffer offset j ne h =
    let same : (store sb index buffer offset).inodes j ≡ sb.inodes j =
      inodes-store_ne sb index buffer offset j (λ e. ne (sym e)) in
    passed_over (store sb index buffer offset) index j
      (rw (same, status-store sb index buffer offset) h)
    ∙ same

linked_copy :
    (sb : Superblock) (index : ℕ) (buffer : List ℕ) (offset j : ℕ)
    → AllContentOk sb
    → offset + length buffer < max_content
    → j < max_inodes
    → sb.status_inodes j ≡ occupied
    → 1 < (sb.inodes j).nlink
    → c_str (((written sb index buffer offset).inodes j).file_content)
      ≡ c_str (((written sb index buffer offset).inodes index).file_content)
unfolding written
linked_copy sb index buffer offset j c fits inside used linked =
    let sb₁ = store sb index buffer offset in
    let own = inodes-store_self sb index buffer offset in
    let sound = write_content-ContentOk (sb.inodes index) buffer offset (c index) fits in
    rw (inodes-sync_links_index sb₁ index) (
      synced sb₁ index j (rw own (omega (arith, sound.ended))) inside
        (rw (status-store sb index buffer offset) used)
        (rw ((store-SameButContent sb index buffer offset j).nlink) linked))

-- A write that is allowed and fits, in a table with sound contents, leaves its string in every
-- inode in use with more than one link, of whatever file or directory.
pub write-linked :
    (h : Host) (path buffer : List ℕ) (offset index j : ℕ) (sb : Superblock)
    → AllContentOk sb
    → MayWrite h path buffer offset index sb
    → j < max_inodes
    → sb.status_inodes j ≡ occupied
    → 1 < (sb.inodes j).nlink
    → (sb' : Superblock) × (write h path buffer offset sb ≡ done (ok (length buffer)) sb')
      × (c_str ((sb'.inodes j).file_content) ≡ c_str ((sb'.inodes index).file_content))
write-linked h path buffer offset index j sb c m inside used linked = (
  written sb index buffer offset,
  write-written h path buffer offset index sb m,
  linked_copy sb index buffer offset j c m.fits inside used linked,
)

-- A write that is allowed and fits leaves every other inode that is not in use, or has at most one
-- link, as it was.
pub write-unlinked :
    (h : Host) (path buffer : List ℕ) (offset index j : ℕ) (sb : Superblock)
    → MayWrite h path buffer offset index sb
    → j ≢ index
    → ((sb.inodes j).nlink ≤ 1) ⊎ (sb.status_inodes j ≢ occupied)
    → (sb' : Superblock) × (write h path buffer offset sb ≡ done (ok (length buffer)) sb')
      × (sb'.inodes j ≡ sb.inodes j)
write-unlinked h path buffer offset index j sb m ne alone = (
  written sb index buffer offset,
  write-written h path buffer offset index sb m,
  untouched sb index buffer offset j ne alone,
)
