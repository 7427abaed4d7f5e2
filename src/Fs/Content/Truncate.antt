-- ===== src/Fs/Content/Truncate.antt =====
-- 4-fs/fisopfs.c: what `fisopfs_truncate` keeps, cuts off and adds.
use sistemas_operativos_fiub.Common.{
  ℕ, ◌+◌, ◌-◌, ◌≡◌, refl, ap, ◌∙◌, sym, some, List, [], ◌++◌, arith, ◌<◌, ◌≤◌, update, update_self,
  length, take, take-take, length-take, take-all, lt→ltb, not_lt→ltb,
}
use mathlib.Core.List.{append-nil}
use native.Mathlib.Decide.{dec_lt}
use Prim.Native.Nat.{min}
use sistemas_operativos_fiub.Fs.Strings.{blit, zeros}
use sistemas_operativos_fiub.Fs.Strings.Laws.{take-blit, take-blit_before, length-zeros}
use sistemas_operativos_fiub.Fs.State.{Inode, Superblock, done, ok, max_content, file_type_regular}
use sistemas_operativos_fiub.Fs.Search.{search_inode_by_path, get_inode_index}
use sistemas_operativos_fiub.Fs.Search.Laws.{search_inode_by_path-cong}
use sistemas_operativos_fiub.Fs.Content.{read, resize, truncated, truncate}
use sistemas_operativos_fiub.Fs.Content.Bounds.{
  ContentOk, AllContentOk, resize-ContentOk, read_inode_lem,
}

-- The bytes of a file: the first `file_size` of its contents.
unfoldable pub bytes_of : Inode → List ℕ
bytes_of inode = take inode.file_size inode.file_content

-- A file of these bytes cut, or filled up with zeros, to `n` bytes.
unfoldable pub resized : List ℕ → ℕ → List ℕ
resized bytes n = take n bytes ++ zeros (n - length bytes)

zeros_none : (n : ℕ) → n ≡ 0 → zeros n ≡ []
unfolding zeros
zeros_none n e = rw e refl

length-bytes_of : (inode : Inode) → ContentOk inode → length (bytes_of inode) ≡ inode.file_size
unfolding bytes_of
length-bytes_of inode c =
    omega (arith, length-take inode.file_size inode.file_content, c.bytes, c.sized)

bytes_of-cut :
    (inode : Inode) (n : ℕ)
    → n < inode.file_size
    → take n (blit inode.file_content n (zeros (inode.file_size - n))) ≡ take n (bytes_of inode)
unfolding bytes_of
bytes_of-cut inode n h =
    let e : min n inode.file_size ≡ n = omega arith in
    take-blit_before inode.file_content n n (zeros (inode.file_size - n)) (omega arith)
    ∙ sym (take-take n inode.file_size inode.file_content ∙ ap (λ k. take k inode.file_content) e)

bytes_of-grown :
    (inode : Inode) (n : ℕ)
    → ContentOk inode
    → inode.file_size ≤ n
    → n ≤ max_content
    → take n (blit inode.file_content inode.file_size (zeros (n - inode.file_size)))
      ≡ bytes_of inode ++ zeros (n - inode.file_size)
unfolding bytes_of
bytes_of-grown inode n c h fits =
    let bs = zeros (n - inode.file_size) in
    let len : length bs ≡ n - inode.file_size = length-zeros (n - inode.file_size) in
    let e : inode.file_size + length bs ≡ n = omega (arith, len) in
    rw e at (take-blit inode.file_content inode.file_size bs (omega (arith, e, c.bytes)))

resized_shorter : (bytes : List ℕ) (n : ℕ) → n ≤ length bytes → resized bytes n ≡ take n bytes
unfolding resized
resized_shorter bytes n h =
    rw (zeros_none (n - length bytes) (omega arith)) (append-nil (take n bytes))

resized_longer :
    (bytes : List ℕ) (n : ℕ)
    → length bytes ≤ n
    → resized bytes n ≡ bytes ++ zeros (n - length bytes)
unfolding resized
resized_longer bytes n h = ap (λ l. l ++ zeros (n - length bytes)) (take-all n bytes h)

bytes_of-resize :
    (inode : Inode) (n : ℕ)
    → ContentOk inode
    → n ≤ max_content
    → bytes_of (resize inode n) ≡ resized (bytes_of inode) n
bytes_of-resize inode n c fits =
    let len = length-bytes_of inode c in
    elim (dec_lt n inode.file_size) [
      | yes cut ↦
          rw (resized_shorter (bytes_of inode) n (omega (arith, len)))
            (unfold bytes_of resize in rw (lt→ltb n inode.file_size cut) (bytes_of-cut inode n cut))
      | no grown ↦
          rw (resized_longer (bytes_of inode) n (omega (arith, len)), len)
            (unfold bytes_of resize in
              rw (not_lt→ltb n inode.file_size grown) (bytes_of-grown inode n c (omega arith) fits))
    ]

pub status-truncated :
    (sb : Superblock) (index n : ℕ) → (truncated sb index n).status_inodes ≡ sb.status_inodes
unfolding truncated
status-truncated sb index n = refl

pub path-truncated :
    (sb : Superblock) (index n j : ℕ) → ((truncated sb index n).inodes j).path ≡ (sb.inodes j).path
unfolding truncated update resize
path-truncated sb index n j = ground arith

inodes-truncated_self :
    (sb : Superblock) (index n : ℕ)
    → (truncated sb index n).inodes index ≡ resize (sb.inodes index) n
unfolding truncated
inodes-truncated_self sb index n = update_self sb.inodes index (resize (sb.inodes index) n)

file_size-resize : (inode : Inode) (n : ℕ) → (resize inode n).file_size ≡ n
unfolding resize
file_size-resize inode n = refl

bytes_of_resized :
    (inode : Inode) (n : ℕ) → bytes_of (resize inode n) ≡ take n ((resize inode n).file_content)
unfolding bytes_of resize
bytes_of_resized inode n = refl

truncate_ok :
    (path : List ℕ) (n index : ℕ) (sb : Superblock)
    → AllContentOk sb
    → get_inode_index sb path ≡ some index
    → (sb.inodes index).type ≡ file_type_regular
    → n ≤ max_content
    → truncate path n sb ≡ done (ok tt) (truncated sb index n)
unfolding truncate
truncate_ok path n index sb c g regular fits = rw (g, truncate) (ground (arith, c index))

-- A call of `fisopfs_truncate` that finds a regular inode with sound contents, and a length up to
-- the limit, succeeds; the file then reads as its old bytes, cut or filled up with zeros.
pub truncate-read :
    (path : List ℕ) (n index : ℕ) (sb : Superblock)
    → AllContentOk sb
    → get_inode_index sb path ≡ some index
    → search_inode_by_path sb path ≡ some index
    → (sb.inodes index).type ≡ file_type_regular
    → n ≤ max_content
    → (sb' : Superblock) × (truncate path n sb ≡ done (ok tt) sb')
      × (read path n 0 sb' ≡ done (ok (resized (bytes_of (sb.inodes index)) n)) sb')
unfolding read
truncate-read path n index sb c g f regular fits =
    (truncated sb index n, truncate_ok path n index sb c g regular fits, reads)
  where
    sb' : Superblock
    sb' = truncated sb index n

    found : search_inode_by_path sb' path ≡ some index
    found =
        search_inode_by_path-cong sb sb' path (status-truncated sb index n)
          (path-truncated sb index n)
        ∙ f

    all : min n n ≡ n
    all = omega arith

    reads : read path n 0 sb' ≡ done (ok (resized (bytes_of (sb.inodes index)) n)) sb'
    reads =
        rw (found, read, inodes-truncated_self sb index n)
          (read_inode_lem (resize (sb.inodes index) n) n 0 sb'
              (resize-ContentOk (sb.inodes index) n (c index) fits) (omega arith)
            ∙ rw (
              file_size-resize (sb.inodes index) n,
              take-take n n,
              all,
              ← bytes_of-resize (sb.inodes index) n (c index) fits,
              bytes_of_resized (sb.inodes index) n,
            ))
