-- ===== src/Fs/Content/RoundTrip.antt =====
-- 4-fs/fisopfs.c: what is written to a file is read back from it.
use sistemas_operativos_fiub.Common.{
  ℕ, suc, ◌+◌, ◌-◌, ◌≡◌, refl, ◌∙◌, some, List, [], ◌∷◌, ◌++◌, arith, ◌<◌, length, take, drop,
  take-take, drop-take,
}
use Prim.Native.Nat.{min}
use sistemas_operativos_fiub.Fs.Strings.{c_str, strncpy, blit, zeros, IsText}
use sistemas_operativos_fiub.Fs.Strings.Laws.{
  c_str_text, strncpy_exact, length-strncpy, drop-blit, take-drop-blit, c_str-append, strncpy_text,
}
use sistemas_operativos_fiub.Fs.State.{Inode, Superblock, done, ok, Host, max_content}
use sistemas_operativos_fiub.Fs.Search.{search_inode_by_path, get_inode_index}
use sistemas_operativos_fiub.Fs.Search.Laws.{search_inode_by_path-cong}
use sistemas_operativos_fiub.Fs.Content.{read_inode, read, write_content, write}
use sistemas_operativos_fiub.Fs.Content.Bounds.{
  ContentOk, AllContentOk, write_content-ContentOk, read_inode_lem,
}
use sistemas_operativos_fiub.Fs.Content.Write.{
  written, write_inode_ok, written-SameButContent, status-written, inodes-written_self,
}

-- The written bytes stand at the offset: the string of the buffer, filled up with zeros.
drop-write_content :
    (inode : Inode) (buffer : List ℕ) (offset : ℕ)
    → ContentOk inode
    → offset + length buffer < max_content
    → take (length buffer) (drop offset ((write_content inode buffer offset).file_content))
      ≡ strncpy (length buffer) (c_str buffer)
unfolding write_content
drop-write_content inode buffer offset c fits =
    let n = length buffer in
    let bs = strncpy n (c_str buffer) in
    let len : length bs ≡ n = length-strncpy n (c_str buffer) in
    take-drop-blit (blit inode.file_content offset bs) n offset (offset + n) (0 ∷ []) (omega arith)
    ∙ rw len at (drop-blit inode.file_content offset bs (omega (arith, len, c.bytes)))

file_size-write_content :
    (inode : Inode) (buffer : List ℕ) (offset : ℕ)
    → (write_content inode buffer offset).file_size ≡ offset + length buffer
unfolding write_content
file_size-write_content inode buffer offset = refl

read_inode-write_content :
    (inode : Inode) (buffer : List ℕ) (offset : ℕ) (sb : Superblock)
    → ContentOk inode
    → offset + length buffer < max_content
    → read_inode (write_content inode buffer offset) (length buffer) offset sb
      ≡ done (ok (strncpy (length buffer) (c_str buffer))) sb
read_inode-write_content inode buffer offset sb c fits =
    let n = length buffer in
    let e : min n (offset + n - offset) ≡ n = omega arith in
    read_inode_lem (write_content inode buffer offset) n offset sb
      (write_content-ContentOk inode buffer offset c fits) (omega arith)
    ∙ rw (
      file_size-write_content inode buffer offset,
      drop-take offset (offset + n),
      take-take n,
      e,
      drop-write_content inode buffer offset c fits,
    )

read-written :
    (path buffer : List ℕ) (offset index : ℕ) (sb : Superblock)
    → AllContentOk sb
    → search_inode_by_path sb path ≡ some index
    → offset + length buffer < max_content
    → let sb' = written sb index buffer offset in
      read path (length buffer) offset sb' ≡ done (ok (strncpy (length buffer) (c_str buffer))) sb'
unfolding read
read-written path buffer offset index sb c f fits =
    let sb' = written sb index buffer offset in
    let found : search_inode_by_path sb' path ≡ some index =
      search_inode_by_path-cong sb sb' path (status-written sb index buffer offset)
        (λ i. (written-SameButContent sb index buffer offset i).path)
      ∙ f in
    rw (found, read, inodes-written_self sb index buffer offset)
      (read_inode-write_content (sb.inodes index) buffer offset sb' (c index) fits)

-- The hypotheses under which a call of `fisopfs_write` goes through: the path leads to inode
-- `index`, the caller owns it, and the bytes and a NUL behind them fit.
pub record MayWrite (h : Host) (path buffer : List ℕ) (offset index : ℕ) (sb : Superblock)
    : Type 0 where
  pub leads : get_inode_index sb path ≡ some index
  pub found : search_inode_by_path sb path ≡ some index
  pub owned : (sb.inodes index).uid ≡ h.caller_uid
  pub fits : offset + length buffer < max_content

pub write-written :
    (h : Host) (path buffer : List ℕ) (offset index : ℕ) (sb : Superblock)
    → MayWrite h path buffer offset index sb
    → write h path buffer offset sb ≡ done (ok (length buffer)) (written sb index buffer offset)
unfolding write
write-written h path buffer offset index sb m =
    rw (m.leads, write) (write_inode_ok h index buffer offset sb m.owned m.fits)

-- In a table with sound contents, a write of text that is allowed and fits returns the number of
-- bytes, and a read of as many bytes at the same offset returns the text.
pub write-read :
    (h : Host) (path buffer : List ℕ) (offset index : ℕ) (sb : Superblock)
    → AllContentOk sb
    → MayWrite h path buffer offset index sb
    → IsText buffer
    → (sb' : Superblock) × (write h path buffer offset sb ≡ done (ok (length buffer)) sb')
      × (read path (length buffer) offset sb' ≡ done (ok buffer) sb')
write-read h path buffer offset index sb c m text = (
  written sb index buffer offset,
  write-written h path buffer offset index sb m,
  rw (c_str_text buffer text, strncpy_exact) at
      (read-written path buffer offset index sb c m.found m.fits),
)

-- A write of bytes with a NUL among them, text `a` up to it and `b` behind it, that is allowed and
-- fits returns their full number, but a read gives `a` and then only zeros.
pub write-read_binary :
    (h : Host) (path a b : List ℕ) (offset index : ℕ) (sb : Superblock)
    → AllContentOk sb
    → MayWrite h path (a ++ (0 ∷ b)) offset index sb
    → IsText a
    → let n = length (a ++ (0 ∷ b)) in
      (sb' : Superblock) × (write h path (a ++ (0 ∷ b)) offset sb ≡ done (ok n) sb')
      × (read path n offset sb' ≡ done (ok (a ++ zeros (suc (length b)))) sb')
write-read_binary h path a b offset index sb c m text = (
  written sb index (a ++ (0 ∷ b)) offset,
  write-written h path (a ++ (0 ∷ b)) offset index sb m,
  rw (c_str-append a b text, strncpy_text a b) at
      (read-written path (a ++ (0 ∷ b)) offset index sb c m.found m.fits),
)
