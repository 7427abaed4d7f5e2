-- ===== src/Fs/Tree.antt =====
-- 4-fs: the invariant of the names in the inode table, and how each change of the table keeps it.
use sistemas_operativos_fiub.Common.{
  ℕ, ◌≡◌, refl, ◌≢◌, List, arith, if◌then◌else◌, ◌==◌, ◌<◌, update,
}
use native.Mathlib.Decide.{ℕ_discrete}
use sistemas_operativos_fiub.Fs.Strings.{c_str}
use sistemas_operativos_fiub.Fs.State.{
  Inode, Superblock, max_inodes, occupied, free, root_path, no_parent, file_type_directory,
}
use sistemas_operativos_fiub.Fs.Search.{get_parent_dir, get_file_name}
use sistemas_operativos_fiub.Fs.Search.Paths.{IsAbsolute}
use sistemas_operativos_fiub.Fs.Create.{put_inode, link_up, release}

-- The name and the parent of an inode are those of its path, which is absolute and not the root.
pub record Named (inode : Inode) : Type 0 where
  pub absolute : IsAbsolute (c_str inode.path)
  pub not_root : c_str inode.path ≢ root_path
  pub name : c_str inode.name ≡ get_file_name (c_str inode.path)
  pub parent : c_str inode.file_parent ≡ get_parent_dir (c_str inode.path)

-- Inode 0 is the root directory, the inodes in use lie in the table, all but the root are named
-- by their paths, and no two have the same path.
pub record IsTree (sb : Superblock) : Type 0 where
  pub root_used : sb.status_inodes 0 ≡ occupied
  pub root_named : c_str ((sb.inodes 0).path) ≡ root_path
  pub root_type : (sb.inodes 0).type ≡ file_type_directory
  pub root_parent : c_str ((sb.inodes 0).file_parent) ≡ no_parent
  pub inside : (i : ℕ) → sb.status_inodes i ≡ occupied → i < max_inodes
  pub named : (i : ℕ) → i ≢ 0 → sb.status_inodes i ≡ occupied → Named (sb.inodes i)
  pub distinct :
      (i j : ℕ)
      → sb.status_inodes i ≡ occupied
      → sb.status_inodes j ≡ occupied
      → c_str ((sb.inodes i).path) ≡ c_str ((sb.inodes j).path)
      → i ≡ j

-- What the invariant sees of an inode.
pub record SameNames (a b : Inode) : Type 0 where
  pub path : a.path ≡ b.path
  pub name : a.name ≡ b.name
  pub file_parent : a.file_parent ≡ b.file_parent
  pub type : a.type ≡ b.type

Named-same : (a b : Inode) → SameNames a b → Named b → Named a
Named-same a b s n = record {
  absolute = rw s.path n.absolute;
  not_root = rw s.path n.not_root;
  name = rw (s.name, s.path) n.name;
  parent = rw (s.file_parent, s.path) n.parent;
}

-- A change of other fields keeps the invariant.
pub IsTree-same :
    (sb sb' : Superblock)
    → sb'.status_inodes ≡ sb.status_inodes
    → ((i : ℕ) → SameNames (sb'.inodes i) (sb.inodes i))
    → IsTree sb
    → IsTree sb'
IsTree-same sb sb' e s t = record {
  root_used = rw e t.root_used;
  root_named = rw ((s 0).path) t.root_named;
  root_type = rw ((s 0).type) t.root_type;
  root_parent = rw ((s 0).file_parent) t.root_parent;
  inside = rw e t.inside;
  named = λ i ne used. Named-same (sb'.inodes i) (sb.inodes i) (s i) (t.named i ne (rw e at used));
  distinct =
      λ i j ui uj p. t.distinct i j (rw e at ui) (rw e at uj) (rw ((s i).path, (s j).path) at p);
}

pub link_up-IsTree : (sb : Superblock) (k : ℕ) → IsTree sb → IsTree (link_up sb k)
link_up-IsTree sb k t = IsTree-same sb (link_up sb k) (unfold link_up in refl) same t
  where
    same : (i : ℕ) → SameNames ((link_up sb k).inodes i) (sb.inodes i)
    same i = unfold link_up update in ground arith

pub release-IsTree : (sb : Superblock) (k : ℕ) → k ≢ 0 → IsTree sb → IsTree (release sb k)
unfolding release update
release-IsTree sb k ne t = record {
  root_used = ground (arith, t);
  root_named = t.root_named;
  root_type = t.root_type;
  root_parent = t.root_parent;
  inside = λ i used. t.inside i (still i used);
  named = λ i i0 used. t.named i i0 (still i used);
  distinct = λ i j ui uj p. t.distinct i j (still i ui) (still j uj) p;
}
  where
    still :
        (i : ℕ)
        → (if k == i then free else sb.status_inodes i) ≡ occupied
        → sb.status_inodes i ≡ occupied
    still i h = ground arith

-- No inode in use has this path.
abbrev pub IsFresh : Superblock → List ℕ → Type 0
IsFresh sb path = (i : ℕ) → sb.status_inodes i ≡ occupied → c_str ((sb.inodes i).path) ≢ path

pub put_inode-IsTree :
    (sb : Superblock) (k : ℕ) (inode : Inode)
    → k < max_inodes
    → k ≢ 0
    → Named inode
    → IsFresh sb (c_str inode.path)
    → IsTree sb
    → IsTree (put_inode sb k inode)
unfolding put_inode update
put_inode-IsTree sb k inode inside ne n fresh t = record {
  root_used = ground (arith, t);
  root_named = ground (arith, t);
  root_type = ground (arith, t);
  root_parent = ground (arith, t);
  inside = λ i used. elim (ℕ_discrete k i) [
    | yes e ↦ rw (← e) inside
    | no other ↦ t.inside i (ground arith)
  ];
  named = λ i i0 used. ground (arith, t.named i i0);
  distinct = λ i j ui uj p. ground (arith, t.distinct i j, fresh i, fresh j);
}

pub free-ne-root : (sb : Superblock) (k : ℕ) → IsTree sb → sb.status_inodes k ≡ free → k ≢ 0
free-ne-root sb k t f e = ground (arith, t.root_used)
