-- ===== src/Fs/Create/Names.antt =====
-- 4-fs/fisopfs.c: in a well-formed table, `set_inode_in_superblock` recognises an existing entry by
-- name and parent exactly where the search by path finds one.
use sistemas_operativos_fiub.Common.{
  ℕ, ◌≡◌, ap, ◌∙◌, sym, ◌≢◌, ◌↔◌, true, List, arith, ◌<◌, first, fun_ext, Bool-ext, str_eq_refl,
  str_eq_sound, length,
}
use native.Mathlib.Decide.{ℕ_discrete}
use sistemas_operativos_fiub.Fs.Strings.{c_str, IsText}
use sistemas_operativos_fiub.Fs.Strings.Laws.{c_str-path_field}
use sistemas_operativos_fiub.Fs.State.{
  Inode, Superblock, Host, max_inodes, max_path_len, occupied, root_path,
}
use sistemas_operativos_fiub.Fs.Search.{
  get_parent_dir, get_file_name, has_path, search_inode_by_path,
}
use sistemas_operativos_fiub.Fs.Search.Paths.{
  IsAbsolute, join-parent-name, get_file_name-IsText, length-get_file_name, get_parent_dir-IsText,
  length-get_parent_dir, get_parent_dir-ne-nil,
}
use sistemas_operativos_fiub.Fs.Create.{same_entry, new_node}
use sistemas_operativos_fiub.Fs.Tree.{Named, IsTree}

-- A path that FUSE may ask to create and that fits its field.
pub record GoodPath (path : List ℕ) : Type 0 where
  pub absolute : IsAbsolute path
  pub not_root : path ≢ root_path
  pub text : IsText path
  pub fits : length path < max_path_len

same_entry_iff :
    (sb : Superblock) (inode : Inode) (i : ℕ)
    → (same_entry sb inode i ≡ true) ↔ (
        (sb.status_inodes i ≡ occupied)
        × (c_str ((sb.inodes i).name) ≡ c_str inode.name)
        × (c_str ((sb.inodes i).file_parent) ≡ c_str inode.file_parent))
unfolding same_entry
same_entry_iff sb inode i = (
  λ e. (
    ground arith,
    str_eq_sound (c_str ((sb.inodes i).name)) (c_str inode.name) (ground arith),
    str_eq_sound (c_str ((sb.inodes i).file_parent)) (c_str inode.file_parent) (ground arith),
  ),
  λ (u, n, p). rw (u, n, p, str_eq_refl (c_str inode.name), str_eq_refl (c_str inode.file_parent)),
)

has_path_iff :
    (sb : Superblock) (path : List ℕ) (i : ℕ)
    → (has_path sb path i ≡ true)
      ↔ ((sb.status_inodes i ≡ occupied) × (c_str ((sb.inodes i).path) ≡ path))
unfolding has_path
has_path_iff sb path i = (
  λ e. (ground arith, str_eq_sound (c_str ((sb.inodes i).path)) path (ground arith)),
  λ (u, p). rw (u, p, str_eq_refl path),
)

module _ (h : Host) (path : List ℕ) (type : ℕ) (g : GoodPath path) where
  pub path-new_node : c_str ((new_node h path type).path) ≡ path
  unfolding new_node
  path-new_node = c_str-path_field path g.text g.fits

  pub name-new_node : c_str ((new_node h path type).name) ≡ get_file_name path
  unfolding new_node
  name-new_node =
      c_str-path_field (get_file_name path) (get_file_name-IsText path g.text)
        (omega (arith, length-get_file_name path, g.fits))

  pub parent-new_node : c_str ((new_node h path type).file_parent) ≡ get_parent_dir path
  unfolding new_node
  parent-new_node =
      c_str-path_field (get_parent_dir path) (get_parent_dir-IsText path g.absolute g.text)
        (omega (arith, length-get_parent_dir path g.absolute, g.fits))

  pub new_node-Named : Named (new_node h path type)
  new_node-Named = record {
    absolute = rw path-new_node g.absolute;
    not_root = rw path-new_node g.not_root;
    name = rw path-new_node name-new_node;
    parent = rw path-new_node parent-new_node;
  }

  -- An entry with the name and the parent of the new one has its path.
  same_entry→path :
      (sb : Superblock) (i : ℕ)
      → IsTree sb
      → sb.status_inodes i ≡ occupied
      → c_str ((sb.inodes i).name) ≡ get_file_name path
      → c_str ((sb.inodes i).file_parent) ≡ get_parent_dir path
      → c_str ((sb.inodes i).path) ≡ path
  same_entry→path sb i t used en ep = elim (ℕ_discrete i 0) [
    | yes e ↦ absurd (
        get_parent_dir-ne-nil path g.absolute
          (sym ep ∙ ap (λ k. c_str ((sb.inodes k).file_parent)) e ∙ t.root_parent))
    | no ne ↦
        let n = t.named i ne used in
        sym (join-parent-name (c_str ((sb.inodes i).path)) n.absolute)
        ∙ rw (← n.parent, ← n.name, ep, en) (join-parent-name path g.absolute)
  ]

  used_path-Named :
      (sb : Superblock) (i : ℕ)
      → IsTree sb
      → sb.status_inodes i ≡ occupied
      → c_str ((sb.inodes i).path) ≡ path
      → Named (sb.inodes i)
  used_path-Named sb i t used e = elim (ℕ_discrete i 0) [
    | yes z ↦ absurd (g.not_root (sym e ∙ ap (λ k. c_str ((sb.inodes k).path)) z ∙ t.root_named))
    | no ne ↦ t.named i ne used
  ]

  -- The two tests agree.
  pub same_entry-eq-has_path :
      (sb : Superblock) (i : ℕ)
      → IsTree sb
      → same_entry sb (new_node h path type) i ≡ has_path sb path i
  same_entry-eq-has_path sb i t =
      Bool-ext (same_entry sb (new_node h path type) i) (has_path sb path i)
        (λ e.
          let (used, en, ep) = (same_entry_iff sb (new_node h path type) i).0 e in
          (has_path_iff sb path i).1
            (used, same_entry→path sb i t used (en ∙ name-new_node) (ep ∙ parent-new_node)))
        (λ e.
          let (used, q) = (has_path_iff sb path i).0 e in
          let n = used_path-Named sb i t used q in
          (same_entry_iff sb (new_node h path type) i).1
            (used, n.name ∙ rw (q, name-new_node), n.parent ∙ rw (q, parent-new_node)))

  -- So the first loop of `set_inode_in_superblock` is the search by path.
  pub first-same_entry :
      (sb : Superblock)
      → IsTree sb
      → first (same_entry sb (new_node h path type)) max_inodes 0 ≡ search_inode_by_path sb path
  unfolding search_inode_by_path
  first-same_entry sb t =
      ap (λ test. first test max_inodes 0) (fun_ext (λ i. same_entry-eq-has_path sb i t))
