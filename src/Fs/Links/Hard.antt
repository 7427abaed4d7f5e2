-- ===== src/Fs/Links/Hard.antt =====
-- 4-fs/fisopfs.c: a hard link shares contents and status with the old name, and keeps the table
-- well-formed.
use sistemas_operativos_fiub.Common.{
  ℕ, ◌≡◌, refl, ap, ◌∙◌, sym, ◌≢◌, true, none, some, List, arith, ◌<◌, length, take-all,
  none-ne-some, Option-cases, inl, inr, update_self, update_ne,
}
use sistemas_operativos_fiub.Fs.Strings.{c_str, IsText}
use sistemas_operativos_fiub.Fs.Strings.Laws.{c_str-take-append}
use sistemas_operativos_fiub.Fs.State.{
  Inode, Superblock, Host, done, ok, Safe, max_inodes, max_path_len, occupied, free,
  file_type_regular, inc_ulong,
}
use sistemas_operativos_fiub.Fs.Search.{
  get_parent_dir, get_file_name, search_inode_by_path, search_free_inode, get_inode_index,
}
use sistemas_operativos_fiub.Fs.Search.Paths.{
  get_file_name-IsText, length-get_file_name, get_parent_dir-IsText, length-get_parent_dir,
}
use sistemas_operativos_fiub.Fs.Search.Laws.{search_free_inode-some, search_inode_by_path_lem}
use sistemas_operativos_fiub.Fs.Create.{put_inode, link_up, stat_of, getattr}
use sistemas_operativos_fiub.Fs.Create.Names.{GoodPath}
use sistemas_operativos_fiub.Fs.Create.Lookup.{
  search-put_self, search-put_ne, search-link_up, search-none-IsFresh, get_inode_index-search,
  getattr-search, inodes-put_self, inodes-put_ne,
}
use sistemas_operativos_fiub.Fs.Content.{read_inode, read}
use sistemas_operativos_fiub.Fs.Links.{Tails, copied_field, linked_inode, readable, link}
use sistemas_operativos_fiub.Fs.Tree.{Named, IsTree, put_inode-IsTree, link_up-IsTree, free-ne-root}

occupied-ne-free : occupied ≡ free → ⊥
occupied-ne-free e = omega arith

read-search :
    (path : List ℕ) (size offset i : ℕ) (sb : Superblock)
    → search_inode_by_path sb path ≡ some i
    → read path size offset sb ≡ read_inode (sb.inodes i) size offset sb
unfolding read
read-search path size offset i sb e = rw (e, read)

-- A read sees the size and the contents alone.
read_inode-cong :
    (a b : Inode) (size offset : ℕ) (sb : Superblock)
    → a.file_size ≡ b.file_size
    → a.file_content ≡ b.file_content
    → read_inode a size offset sb ≡ read_inode b size offset sb
unfolding read_inode
read_inode-cong a b size offset sb e f = rw (e, f)

module _ (h : Host) (tails : Tails) (oldpath newpath : List ℕ) (g : GoodPath newpath) where
  c_str-copied_field :
      (s tail : List ℕ) → IsText s → length s < max_path_len → c_str (copied_field s tail) ≡ s
  unfolding copied_field
  c_str-copied_field s tail text fits =
      c_str-take-append 127 s tail text ∙ take-all 127 s (omega arith)

  path-linked_inode : (old : Inode) → c_str ((linked_inode old newpath tails).path) ≡ newpath
  unfolding linked_inode
  path-linked_inode old = c_str-copied_field newpath tails.path g.text g.fits

  linked_inode-Named : (old : Inode) → Named (linked_inode old newpath tails)
  unfolding linked_inode
  linked_inode-Named old = record {
    absolute = rw (path-linked_inode old) g.absolute;
    not_root = rw (path-linked_inode old) g.not_root;
    name = rw (path-linked_inode old) (
        c_str-copied_field (get_file_name newpath) tails.name (get_file_name-IsText newpath g.text)
          (omega (arith, length-get_file_name newpath, g.fits)));
    parent = rw (path-linked_inode old) (
        c_str-copied_field (get_parent_dir newpath) tails.parent
          (get_parent_dir-IsText newpath g.absolute g.text)
          (omega (arith, length-get_parent_dir newpath g.absolute, g.fits)));
  }

  -- The table that a hard link from inode `i` leaves, its copy in inode `k`.
  unfoldable pub linked : Superblock → ℕ → ℕ → Superblock
  linked sb i k = link_up (put_inode sb k (linked_inode (sb.inodes i) newpath tails)) i

  link_ok :
      (sb : Superblock) (i k : ℕ)
      → get_inode_index sb oldpath ≡ some i
      → (sb.inodes i).type ≡ file_type_regular
      → search_free_inode sb ≡ some k
      → h.malloc_ok ≡ true
      → readable newpath tails ≡ true
      → link h tails oldpath newpath sb ≡ done (ok tt) (linked sb i k)
  unfolding link linked
  link_ok sb i k e file f m long = rw (e, link, f) (ground (arith, g, long))

  inodes-linked_new :
      (sb : Superblock) (i k : ℕ)
      → i ≢ k
      → (linked sb i k).inodes k ≡ linked_inode (sb.inodes i) newpath tails
  unfolding linked link_up
  inodes-linked_new sb i k ne =
      update_ne _ i k _ ne ∙ inodes-put_self sb k (linked_inode (sb.inodes i) newpath tails)

  inodes-linked_old :
      (sb : Superblock) (i k : ℕ)
      → i ≢ k
      → (linked sb i k).inodes i ≡ record (sb.inodes i) { nlink = inc_ulong ((sb.inodes i).nlink) }
  unfolding linked link_up
  inodes-linked_old sb i k ne =
      update_self _ i _
      ∙ ap (λ (n : Inode). record n { nlink = inc_ulong n.nlink })
          (inodes-put_ne sb k (linked_inode (sb.inodes i) newpath tails) i (λ e. ne (sym e)))

  -- Where, in a well-formed table, the old path leads to a regular file, the new one is absolute,
  -- fits its fields and is not in use, an inode is free, memory is at hand and the three strings lie
  -- in objects of MAX_PATH_LEN - 1 bytes at least, a hard link is made, whatever is behind the strings;
  -- both paths then have the status of the old one with one more link, and the same bytes at every
  -- offset.
  pub link-shares :
      (size offset i k : ℕ) (sb : Superblock)
      → IsTree sb
      → h.malloc_ok ≡ true
      → readable newpath tails ≡ true
      → search_inode_by_path sb oldpath ≡ some i
      → (sb.inodes i).type ≡ file_type_regular
      → search_inode_by_path sb newpath ≡ none
      → search_free_inode sb ≡ some k
      → let status = record (stat_of (sb.inodes i)) {
        st_nlink = inc_ulong ((sb.inodes i).nlink);
      } in
        (sb' : Superblock) × (link h tails oldpath newpath sb ≡ done (ok tt) sb')
        × (getattr oldpath sb' ≡ ok status)
        × (getattr newpath sb' ≡ ok status)
        × (read newpath size offset sb' ≡ read oldpath size offset sb')
  link-shares size offset i k sb t m long found file fresh f = (
    sb',
    link_ok sb i k (get_inode_index-search sb oldpath t ∙ found) file f m long,
    getattr-search sb' oldpath i find_old
        ∙ rw (inodes-linked_old sb i k apart) (unfold stat_of in refl),
    getattr-search sb' newpath k find_new
        ∙ rw (inodes-linked_new sb i k apart) (unfold stat_of linked_inode in refl),
    read-search newpath size offset k sb' find_new
        ∙ rw (inodes-linked_new sb i k apart) (
            read_inode-cong node (record (sb.inodes i) { nlink = inc_ulong ((sb.inodes i).nlink) })
              size offset sb' (unfold linked_inode in refl) (unfold linked_inode in refl))
        ∙ sym (
            rw (inodes-linked_old sb i k apart) at
              (read-search oldpath size offset i sb' find_old)),
  )
    where
      sb' : Superblock
      sb' = linked sb i k

      node : Inode
      node = linked_inode (sb.inodes i) newpath tails

      slot :
          (k < max_inodes)
          × (sb.status_inodes k ≡ free)
          × ((j : ℕ) → j < k → sb.status_inodes j ≢ free)
      slot = search_free_inode-some sb k f

      used : sb.status_inodes i ≡ occupied
      used = ((search_inode_by_path_lem sb oldpath i).0 found).0.used

      apart : i ≢ k
      apart e = occupied-ne-free (sym used ∙ ap sb.status_inodes e ∙ slot.1)

      find_new : search_inode_by_path sb' newpath ≡ some k
      find_new =
          unfold linked in
          search-link_up (put_inode sb k node) i newpath
          ∙ search-put_self sb k node newpath slot.0 (path-linked_inode (sb.inodes i))
              (search-none-IsFresh sb newpath t fresh)

      differ : c_str node.path ≢ oldpath
      differ e = none-ne-some i (
          sym found
          ∙ ap (search_inode_by_path sb) (sym e ∙ path-linked_inode (sb.inodes i))
          ∙ fresh)

      find_old : search_inode_by_path sb' oldpath ≡ some i
      find_old =
          unfold linked in
          search-link_up (put_inode sb k node) i oldpath
          ∙ search-put_ne sb k node oldpath slot.1 differ
          ∙ found

  -- What a link from strings that reach far enough leaves satisfies `P`, if the table does and so does each table with a link added.
  pub link-Safe :
      (P : Superblock → Type 0) (sb : Superblock)
      → P sb
      → readable newpath tails ≡ true
      → ((i k : ℕ) → search_free_inode sb ≡ some k → P (linked sb i k))
      → Safe P (link h tails oldpath newpath sb)
  unfolding link linked
  link-Safe P sb p long added = elim (Option-cases (get_inode_index sb oldpath)) [
    | inl e ↦ rw (e, link) p
    | inr (i, e) ↦ elim (Option-cases (search_free_inode sb)) [
      | inl f ↦ rw (e, link, f) (ground arith)
      | inr (k, f) ↦ rw (e, link, f) (ground (arith, g, long, added i k f))
    ]
  ]

  pub linked-IsTree :
      (sb : Superblock) (i k : ℕ)
      → IsTree sb
      → search_inode_by_path sb newpath ≡ none
      → search_free_inode sb ≡ some k
      → IsTree (linked sb i k)
  unfolding linked
  linked-IsTree sb i k t e f =
      let (inside, unused, least) = search_free_inode-some sb k f in
      let node = linked_inode (sb.inodes i) newpath tails in
      link_up-IsTree (put_inode sb k node) i (
        put_inode-IsTree sb k node inside (free-ne-root sb k t unused)
          (linked_inode-Named (sb.inodes i))
          (rw (path-linked_inode (sb.inodes i)) (search-none-IsFresh sb newpath t e)) t)
