-- ===== src/Fs/Links/Symbolic.antt =====
-- 4-fs/fisopfs.c: symbolic links are read back, hard links share contents and status, and both
-- keep the table well-formed.
use sistemas_operativos_fiub.Common.{
  ℕ, ◌-◌, ◌≡◌, refl, ap, ◌∙◌, sym, true, false, none, some, List, [], ◌∷◌, ◌++◌, arith,
  if◌then◌else◌, ◌<◌, ◌≤◌, length, leb, take, take-all, take-take, leb→le, leb-false→lt,
  length-take, Bool-cases, Option-cases, inl, inr,
}
use Prim.Native.Nat.{min}
use sistemas_operativos_fiub.Fs.Strings.{c_str, strncpy, IsText}
use sistemas_operativos_fiub.Fs.Strings.Laws.{c_str-strncpy, take-strncpy, c_str-path_field}
use sistemas_operativos_fiub.Fs.State.{
  Superblock, Host, done, ok, err, Safe, enomem, max_content, is_lnk,
}
use sistemas_operativos_fiub.Fs.Search.{
  get_parent_dir, get_file_name, search_inode_by_path, search_free_inode,
}
use sistemas_operativos_fiub.Fs.Search.Paths.{
  get_file_name-IsText, length-get_file_name, get_parent_dir-IsText, length-get_parent_dir,
}
use sistemas_operativos_fiub.Fs.Search.Laws.{search_free_inode-some}
use sistemas_operativos_fiub.Fs.Create.{put_inode}
use sistemas_operativos_fiub.Fs.Create.Names.{GoodPath}
use sistemas_operativos_fiub.Fs.Create.Lookup.{
  search-put_self, search-none-IsFresh, inodes-put_self,
}
use sistemas_operativos_fiub.Fs.Links.{symlink_inode, symlink, readlink}
use sistemas_operativos_fiub.Fs.Tree.{Named, IsTree, put_inode-IsTree, free-ne-root}

-- How many bytes of a target a buffer of `size` bytes receives.
unfoldable pub kept : ℕ → ℕ
kept size = min (size - 1) (max_content - 1)

readlink_bytes :
    (oldpath : List ℕ) (size : ℕ)
    → 0 < size
    → IsText oldpath
    → let content = strncpy 99 oldpath ++ (0 ∷ []) in
      let len = length (c_str content) in
      take (if leb size len then size - 1 else len) content ≡ take (kept size) oldpath
unfolding kept
readlink_bytes oldpath size pos text = rw (c_str-strncpy 99 oldpath [] text) (
    let len : length (take 99 oldpath) ≡ min 99 (length oldpath) = length-take 99 oldpath in
    elim (Bool-cases (leb size (length (take 99 oldpath)))) [
      | inl cut ↦
          let le = leb→le size (length (take 99 oldpath)) cut in
          rw cut (
            bytes (size - 1) (omega (arith, len, le)) (omega (arith, len, le))
              (omega (arith, len, le)))
      | inr whole ↦
          let lt = leb-false→lt size (length (take 99 oldpath)) whole in
          rw whole (
            bytes (length (take 99 oldpath)) (omega (arith, len)) (omega (arith, len))
              (omega (arith, len, lt)))
    ])
  where
    all : (n : ℕ) → take (min n (length oldpath)) oldpath ≡ take n oldpath
    all n = sym (
        ap (λ l. take n l) (sym (take-all (length oldpath) oldpath (omega arith)))
        ∙ take-take n (length oldpath) oldpath)

    bytes :
        (count : ℕ)
        → count ≤ 99
        → count ≤ length oldpath
        → count ≡ min (min (size - 1) 99) (length oldpath)
        → take count (strncpy 99 oldpath ++ (0 ∷ [])) ≡ take (min (size - 1) 99) oldpath
    bytes count a b e =
        take-strncpy count 99 oldpath (0 ∷ []) a b
        ∙ ap (λ n. take n oldpath) e
        ∙ all (min (size - 1) 99)

readlink-search :
    (path : List ℕ) (size k : ℕ) (sb : Superblock)
    → search_inode_by_path sb path ≡ some k
    → is_lnk ((sb.inodes k).mode) ≡ true
    → 0 < size
    → let content = (sb.inodes k).file_content in
      let len = length (c_str content) in
      readlink path size sb ≡ done (ok (take (if leb size len then size - 1 else len) content)) sb
unfolding readlink
readlink-search path size k sb e lnk pos = rw (e, readlink, lnk) (ground arith)

module _ (h : Host) (oldpath newpath : List ℕ) (g : GoodPath newpath) where
  pub path-symlink_inode : c_str ((symlink_inode h oldpath newpath).path) ≡ newpath
  unfolding symlink_inode
  path-symlink_inode = c_str-path_field newpath g.text g.fits

  pub symlink_inode-Named : Named (symlink_inode h oldpath newpath)
  unfolding symlink_inode
  symlink_inode-Named = record {
    absolute = rw path-symlink_inode g.absolute;
    not_root = rw path-symlink_inode g.not_root;
    name = rw path-symlink_inode (
        c_str-path_field (get_file_name newpath) (get_file_name-IsText newpath g.text)
          (omega (arith, length-get_file_name newpath, g.fits)));
    parent = rw path-symlink_inode (
        c_str-path_field (get_parent_dir newpath) (get_parent_dir-IsText newpath g.absolute g.text)
          (omega (arith, length-get_parent_dir newpath g.absolute, g.fits)));
  }

  symlink_ok :
      (sb : Superblock) (k : ℕ)
      → search_free_inode sb ≡ some k
      → h.malloc_ok ≡ true
      → symlink h oldpath newpath sb
        ≡ done (ok tt) (put_inode sb k (symlink_inode h oldpath newpath))
  unfolding symlink
  symlink_ok sb k f m = rw (f, symlink) (ground (arith, g))

  symlink_no_memory :
      (sb : Superblock) (k : ℕ)
      → search_free_inode sb ≡ some k
      → h.malloc_ok ≡ false
      → symlink h oldpath newpath sb ≡ done (err enomem) sb
  unfolding symlink
  symlink_no_memory sb k f m = rw (f, symlink) (ground (arith, g))

  -- Where, in a well-formed table, the new path is absolute, fits its fields and is not in use, an
  -- inode is free and memory is at hand, a symbolic link to the text `oldpath` is made, and reading
  -- it into a buffer of `size` bytes, one at least, gives the target, cut to `size - 1` bytes and to
  -- `MAX_CONTENT - 1`.
  pub symlink-readlink :
      (size k : ℕ) (sb : Superblock)
      → IsTree sb
      → h.malloc_ok ≡ true
      → search_inode_by_path sb newpath ≡ none
      → search_free_inode sb ≡ some k
      → IsText oldpath
      → 0 < size
      → (sb' : Superblock) × (symlink h oldpath newpath sb ≡ done (ok tt) sb')
        × (readlink newpath size sb' ≡ done (ok (take (kept size) oldpath)) sb')
  symlink-readlink size k sb t m e f text pos =
      let node = symlink_inode h oldpath newpath in
      let (inside, unused, least) = search_free_inode-some sb k f in
      (
        put_inode sb k node,
        symlink_ok sb k f m,
        readlink-search newpath size k (put_inode sb k node)
              (search-put_self sb k node newpath inside path-symlink_inode
                (search-none-IsFresh sb newpath t e))
              (rw (inodes-put_self sb k node) (unfold symlink_inode is_lnk in refl)) pos
            ∙ rw (inodes-put_self sb k node) (
                unfold symlink_inode in
                ap (λ l. done (ok l) (put_inode sb k node)) (readlink_bytes oldpath size pos text)),
      )

  -- Making a symbolic link under a path that is not in use returns and keeps the table
  -- well-formed.
  pub symlink-IsTree :
      (sb : Superblock)
      → IsTree sb
      → search_inode_by_path sb newpath ≡ none
      → Safe IsTree (symlink h oldpath newpath sb)
  symlink-IsTree sb t e = elim (Option-cases (search_free_inode sb)) [
    | inl f ↦ unfold symlink in rw (f, symlink) t
    | inr (k, f) ↦
        let (inside, unused, least) = search_free_inode-some sb k f in
        let put : IsTree (put_inode sb k (symlink_inode h oldpath newpath)) =
          put_inode-IsTree sb k (symlink_inode h oldpath newpath) inside
            (free-ne-root sb k t unused) symlink_inode-Named
            (rw path-symlink_inode (search-none-IsFresh sb newpath t e)) t in
        elim (Bool-cases h.malloc_ok) [
          | inl m ↦ rw (symlink_ok sb k f m) put
          | inr m ↦ rw (symlink_no_memory sb k f m) t
        ]
  ]
