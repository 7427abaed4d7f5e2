-- ===== src/Fs/Calls/Reach.antt =====
-- 4-fs: every call that FUSE may make keeps the table sound and stays inside its arrays, so every
-- table that is reached from a fresh mount is sound.
use sistemas_operativos_fiub.Common.{
  ℕ, ◌≡◌, refl, ap, ◌∙◌, sym, ◌≢◌, none, some, List, arith, ◌≤◌, length, update,
}
use sistemas_operativos_fiub.Fs.Strings.{c_str, strncpy, IsText}
use sistemas_operativos_fiub.Fs.State.{
  Superblock, Host, Outcome, done, fault, ok, err, Reply, Safe, max_content, occupied, root_path,
  file_type_directory, file_type_regular,
}
use sistemas_operativos_fiub.Fs.Search.{search_inode_by_path, search_free_inode, get_inode_index}
use sistemas_operativos_fiub.Fs.Search.Laws.{search_free_inode-some, search_inode_by_path_lem}
use sistemas_operativos_fiub.Fs.Create.{
  new_node, new_inode, create, mkdir, put_inode, release, set_times,
}
use sistemas_operativos_fiub.Fs.Create.Names.{GoodPath}
use sistemas_operativos_fiub.Fs.Create.Lookup.{get_inode_index-search, search-none-IsFresh}
use sistemas_operativos_fiub.Fs.Create.Laws.{new_inode-IsTree}
use sistemas_operativos_fiub.Fs.Content.{write}
use sistemas_operativos_fiub.Fs.Content.Bounds.{ContentOk, AllContentOk, update-AllContentOk}
use sistemas_operativos_fiub.Fs.Links.{symlink_inode}
use sistemas_operativos_fiub.Fs.Links.Symbolic.{symlink_inode-Named, path-symlink_inode}
use sistemas_operativos_fiub.Fs.Links.Hard.{linked-IsTree, link-Safe}
use sistemas_operativos_fiub.Fs.Mount.{create_root, root_inode, zero_inode}
use sistemas_operativos_fiub.Fs.Tree.{
  IsTree, IsTree-same, put_inode-IsTree, release-IsTree, free-ne-root,
}
use sistemas_operativos_fiub.Fs.Calls.{
  Call, create_call, mkdir_call, rmdir_call, unlink_call, utimens_call, truncate_call, write_call,
  symlink_call, link_call, status_of, exec,
}
use sistemas_operativos_fiub.Fs.Calls.Rules.{
  new_inode-Safe, rmdir-Safe, unlink-Safe, truncate-Safe, write-Safe, symlink-Safe, utimens-Safe,
}
use sistemas_operativos_fiub.Fs.Calls.Sound.{
  IsSound, Allowed, zeros-ContentOk, symlink_inode-ContentOk, put_inode-AllContentOk,
  link_up-AllContentOk, release-AllContentOk, written-AllContentOk, truncated-AllContentOk,
  linked-AllContentOk, written-IsTree, truncated-IsTree,
}

new_node-ContentOk : (h : Host) (path : List ℕ) (type : ℕ) → ContentOk (new_node h path type)
unfolding new_node
new_node-ContentOk h path type = zeros-ContentOk (new_node h path type) refl (omega arith)

module _ (h : Host) (sb : Superblock) (s : IsSound sb) where
  new_inode-IsSound :
      (path : List ℕ) (type : ℕ) → GoodPath path → Safe IsSound (new_inode h path type sb)
  new_inode-IsSound path type g =
      both (new_inode h path type sb) (new_inode-IsTree h path type sb s.tree g) (
        new_inode-Safe AllContentOk sb s.contents h path type g.fits
          (λ i. link_up-AllContentOk sb i s.contents)
          (λ k f.
            put_inode-AllContentOk sb k (new_node h path type) s.contents
              (new_node-ContentOk h path type)))
    where
      both : {A : Type 0} (o : Outcome A) → Safe IsTree o → Safe AllContentOk o → Safe IsSound o
      both (done r sb') t c = record { tree = t; contents = c }
      both fault t c = t

  not_root_index :
      (path : List ℕ) (i : ℕ) → path ≢ root_path → get_inode_index sb path ≡ some i → i ≢ 0
  not_root_index path i ne e z =
      let held =
        ((search_inode_by_path_lem sb path i).0
          (sym (get_inode_index-search sb path s.tree) ∙ e)).0 in
      ne (sym held.named ∙ ap (λ k. c_str ((sb.inodes k).path)) z ∙ s.tree.root_named)

  released :
      (path : List ℕ) (i : ℕ)
      → path ≢ root_path
      → get_inode_index sb path ≡ some i
      → IsSound (release sb i)
  released path i ne e = record {
    tree = release-IsTree sb i (not_root_index path i ne e) s.tree;
    contents = release-AllContentOk sb i s.contents;
  }

  timed-IsSound : (i atime mtime : ℕ) → IsSound (set_times sb i atime mtime)
  unfolding set_times
  timed-IsSound i atime mtime = record {
    tree = IsTree-same sb _ refl (λ j. unfold update in ground arith) s.tree;
    contents = update-AllContentOk sb i _ s.contents (ground (arith, s.contents i));
  }

  status_of-Safe : {A : Type 0} (o : Outcome A) → Safe IsSound o → Safe IsSound (status_of o)
  status_of-Safe (done (ok a) sb') h = h
  status_of-Safe (done (err e) sb') h = h
  status_of-Safe fault h = h

  symlink_added :
      (oldpath newpath : List ℕ) (k : ℕ)
      → GoodPath newpath
      → search_inode_by_path sb newpath ≡ none
      → IsText oldpath
      → length oldpath ≤ max_content
      → search_free_inode sb ≡ some k
      → IsSound (put_inode sb k (symlink_inode h oldpath newpath))
  symlink_added oldpath newpath k g e text fits f =
      let (inside, unused, least) = search_free_inode-some sb k f in
      let node = symlink_inode h oldpath newpath in
      record {
        tree =
            put_inode-IsTree sb k node inside (free-ne-root sb k s.tree unused)
              (symlink_inode-Named h oldpath newpath g)
              (rw (path-symlink_inode h oldpath newpath g)
                (search-none-IsFresh sb newpath s.tree e))
              s.tree;
        contents =
            put_inode-AllContentOk sb k node s.contents
              (symlink_inode-ContentOk h oldpath newpath text fits);
      }

  -- An allowed call on a sound table returns, without an access outside an array, and keeps the
  -- table sound. A hard link is allowed only where its three strings lie in objects of
  -- MAX_PATH_LEN - 1 bytes at least.
  pub exec-IsSound : (c : Call) → Allowed sb c → Safe IsSound (exec h c sb)
  unfolding exec create mkdir
  exec-IsSound (create_call path) g = new_inode-IsSound path file_type_regular g
  exec-IsSound (mkdir_call path) g = new_inode-IsSound path file_type_directory g
  exec-IsSound (rmdir_call path) ne = rmdir-Safe IsSound sb s path (λ i e. released path i ne e)
  exec-IsSound (unlink_call path) ne = unlink-Safe IsSound sb s path (λ i e. released path i ne e)
  exec-IsSound (utimens_call path atime mtime) a =
      utimens-Safe IsSound sb s path atime mtime (λ i. timed-IsSound i atime mtime)
  exec-IsSound (truncate_call path offset) a =
      truncate-Safe IsSound sb s path offset s.contents (λ i fits. record {
        tree = truncated-IsTree sb i offset s.tree;
        contents = truncated-AllContentOk sb i offset fits s.contents;
      })
  exec-IsSound (write_call path buffer offset) fits =
      status_of-Safe (write h path buffer offset sb) (
        write-Safe IsSound sb s h path buffer offset fits (λ i. record {
          tree = written-IsTree sb i buffer offset s.tree;
          contents = written-AllContentOk sb i buffer offset fits s.contents;
        }))
  exec-IsSound (symlink_call oldpath newpath) (g, e, text, fits) =
      symlink-Safe IsSound sb s h oldpath newpath g.fits
        (λ k f. symlink_added oldpath newpath k g e text fits f)
  exec-IsSound (link_call tails oldpath newpath) (g, e, long) =
      link-Safe h tails oldpath newpath g IsSound sb s long (λ i k f. record {
        tree = linked-IsTree h tails oldpath newpath g sb i k s.tree e f;
        contents = linked-AllContentOk h tails oldpath newpath g sb i k s.contents;
      })

-- A table that is reached from a fresh mount by allowed calls; each call has its own view of the
-- system.
pub data Reach : Superblock → Type 0 where
  mounted : (h : Host) → Reach (create_root h)
  called :
      {sb sb' : Superblock} {r : Reply (Unit {0})} (h : Host) (c : Call)
      → Reach sb
      → Allowed sb c
      → exec h c sb ≡ done r sb'
      → Reach sb'

-- Only inode 0 is in use after a fresh mount.
only_root : (h : Host) (i : ℕ) → (create_root h).status_inodes i ≡ occupied → i ≡ 0
unfolding create_root update
only_root h i used = ground arith

create_root-IsTree : (h : Host) → IsTree (create_root h)
create_root-IsTree h = record {
  root_used = unfold create_root update in refl;
  root_named = unfold create_root update root_inode c_str strncpy in refl;
  root_type = unfold create_root update root_inode in refl;
  root_parent = unfold create_root update root_inode c_str strncpy in refl;
  inside = λ i used. omega (arith, only_root h i used);
  named = λ i ne used. absurd (ne (only_root h i used));
  distinct = λ i j ui uj e. only_root h i ui ∙ sym (only_root h j uj);
}

create_root-IsSound : (h : Host) → IsSound (create_root h)
create_root-IsSound h = record {
  tree = create_root-IsTree h;
  contents = λ i.
      unfold create_root update in
      ground (
        arith,
        zeros-ContentOk (root_inode h) (unfold root_inode in refl)
            (unfold root_inode in omega arith),
        zeros-ContentOk zero_inode (unfold zero_inode in refl) (unfold zero_inode in omega arith),
      );
}

-- Every table that is reached from a fresh mount by allowed calls is sound.
pub Reach-IsSound : (sb : Superblock) → Reach sb → IsSound sb
Reach-IsSound sb (mounted h) = create_root-IsSound h
Reach-IsSound sb (called {sb = before} h c reach allowed e) =
    rw e at (exec-IsSound h before (Reach-IsSound before reach) c allowed)
