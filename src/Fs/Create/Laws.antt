-- ===== src/Fs/Create/Laws.antt =====
-- 4-fs/fisopfs.c: what `fisopfs_create` and `fisopfs_mkdir` do in a well-formed table, seen through
-- the searches and `fisopfs_getattr`.
use sistemas_operativos_fiub.Common.{
  ℕ, ◌≡◌, refl, ap, ◌∙◌, sym, ◌≢◌, true, false, Option, none, some, List, arith, if◌then◌else◌,
  ◌==◌, ◌<◌, ◌≤◌, length, Option-cases, inl, inr, update, Bool-cases,
}
use sistemas_operativos_fiub.Fs.State.{
  Superblock, Host, Outcome, done, fault, ok, err, Reply, enospc, max_path_len, file_type_regular,
  inc_ulong, mode_regular, mode_directory, Safe, enomem,
}
use sistemas_operativos_fiub.Fs.Search.{search_inode_by_path, search_free_inode}
use sistemas_operativos_fiub.Fs.Search.Laws.{search_free_inode-some}
use sistemas_operativos_fiub.Fs.Create.{
  new_node, set_inode_in_superblock, new_inode, put_inode, link_up, Stat, stat_of, getattr,
}
use sistemas_operativos_fiub.Fs.Create.Names.{
  GoodPath, first-same_entry, path-new_node, new_node-Named,
}
use sistemas_operativos_fiub.Fs.Create.Lookup.{
  search-put_self, search-link_up, getattr-put_ne, inodes-put_self, search-none-IsFresh,
  getattr-search,
}
use sistemas_operativos_fiub.Fs.Tree.{IsTree, put_inode-IsTree, link_up-IsTree, free-ne-root}

-- What creating an entry comes to, by the search for its path and the search for a free inode.
unfoldable pub create_spec :
    Host → List ℕ → ℕ → Superblock → Option ℕ → Option ℕ → Outcome (Unit {0})
create_spec h path type sb (some i) slot = done (ok tt) (link_up sb i)
create_spec h path type sb none (some k) = done (ok tt) (put_inode sb k (new_node h path type))
create_spec h path type sb none none = done (err enospc) sb

pub new_inode_lem :
    (h : Host) (path : List ℕ) (type : ℕ) (sb : Superblock)
    → IsTree sb
    → GoodPath path
    → h.malloc_ok ≡ true
    → new_inode h path type sb
      ≡ create_spec h path type sb (search_inode_by_path sb path) (search_free_inode sb)
unfolding new_inode set_inode_in_superblock create_spec
new_inode_lem h path type sb t g m =
    let same = first-same_entry h path type g sb t in
    elim (Option-cases (search_inode_by_path sb path)) [
      | inr (i, e) ↦ ground (arith, same, g)
      | inl e ↦ elim (Option-cases (search_free_inode sb)) [
        | inr (k, f) ↦ ground (arith, same, g)
        | inl f ↦ ground (arith, same, g)
      ]
    ]

-- A path that is too long for its field runs over the buffer for the parent's path, whatever the
-- table holds.
pub new_inode_long :
    (h : Host) (path : List ℕ) (type : ℕ) (sb : Superblock)
    → max_path_len ≤ length path
    → new_inode h path type sb ≡ fault
unfolding new_inode
new_inode_long h path type sb long = ground arith

new_inode_no_memory :
    (h : Host) (path : List ℕ) (type : ℕ) (sb : Superblock)
    → length path < max_path_len
    → h.malloc_ok ≡ false
    → new_inode h path type sb ≡ done (err enomem) sb
unfolding new_inode
new_inode_no_memory h path type sb fits m = ground arith

-- Creating an entry returns and keeps the table well-formed, whether or not the path exists, the
-- table is full or memory runs out.
pub new_inode-IsTree :
    (h : Host) (path : List ℕ) (type : ℕ) (sb : Superblock)
    → IsTree sb
    → GoodPath path
    → Safe IsTree (new_inode h path type sb)
new_inode-IsTree h path type sb t g = elim (Bool-cases h.malloc_ok) [
  | inl m ↦
      rw (new_inode_lem h path type sb t g m)
        (go (search_inode_by_path sb path) (search_free_inode sb) refl refl)
  | inr m ↦ rw (new_inode_no_memory h path type sb g.fits m) t
]
  where
    go :
        (o s : Option ℕ)
        → search_inode_by_path sb path ≡ o
        → search_free_inode sb ≡ s
        → Safe IsTree (create_spec h path type sb o s)
    go (some i) s e f = unfold create_spec in link_up-IsTree sb i t
    go none (some k) e f =
        let (inside, unused, least) = search_free_inode-some sb k f in
        unfold create_spec in
        put_inode-IsTree sb k (new_node h path type) inside (free-ne-root sb k t unused)
          (new_node-Named h path type g)
          (rw (path-new_node h path type g) (search-none-IsFresh sb path t e)) t
    go none none e f = unfold create_spec in t

-- The status of an entry that was just created.
pub new_stat : Host → ℕ → Stat
unfolding stat_of new_node
new_stat h type = record {
  st_uid = h.uid;
  st_gid = h.gid;
  st_nlink = if type == file_type_regular then 1 else 2;
  st_size = 0;
  st_ctime = h.ctime;
  st_mtime = h.mtime;
  st_atime = h.atime;
  st_mode = if type == file_type_regular then mode_regular else mode_directory;
}

stat-new_node :
    (h : Host) (path : List ℕ) (type : ℕ) → stat_of (new_node h path type) ≡ new_stat h type
unfolding stat_of new_node new_stat
stat-new_node h path type = refl

new_inode_fresh :
    (h : Host) (path : List ℕ) (type k : ℕ) (sb : Superblock)
    → IsTree sb
    → GoodPath path
    → h.malloc_ok ≡ true
    → search_inode_by_path sb path ≡ none
    → search_free_inode sb ≡ some k
    → new_inode h path type sb ≡ done (ok tt) (put_inode sb k (new_node h path type))
unfolding create_spec
new_inode_fresh h path type k sb t g m e f =
    new_inode_lem h path type sb t g m ∙ rw (e, f, create_spec)

-- Where, in a well-formed table, an absolute path that fits its fields is not in use, an inode is
-- free and memory is at hand, creating an entry succeeds; `fisopfs_getattr` then reports an empty
-- file or directory at this path, whose owner and group are those of the file system's process, as
-- `getuid` and `getgid` give them, and at every other path what it did before.
pub new_inode-getattr :
    (h : Host) (path q : List ℕ) (type k : ℕ) (sb : Superblock)
    → IsTree sb
    → GoodPath path
    → h.malloc_ok ≡ true
    → search_inode_by_path sb path ≡ none
    → search_free_inode sb ≡ some k
    → q ≢ path
    → (sb' : Superblock) × (new_inode h path type sb ≡ done (ok tt) sb')
      × (getattr path sb' ≡ ok (new_stat h type))
      × (getattr q sb' ≡ getattr q sb)
new_inode-getattr h path q type k sb t g m e f ne =
    let (inside, unused, least) = search_free_inode-some sb k f in
    let node = new_node h path type in
    let named = path-new_node h path type g in
    (
      put_inode sb k node,
      new_inode_fresh h path type k sb t g m e f,
      getattr-search (put_inode sb k node) path k
            (search-put_self sb k node path inside named (search-none-IsFresh sb path t e))
          ∙ ap ok (ap stat_of (inodes-put_self sb k node) ∙ stat-new_node h path type),
      getattr-put_ne sb k node q unused (λ same. ne (sym (sym named ∙ same))),
    )

stat-link_up :
    (sb : Superblock) (i : ℕ)
    → ◌≡◌ {A = Reply Stat}
        (ok (stat_of ((link_up sb i).inodes i)))
        (ok (record (stat_of (sb.inodes i)) { st_nlink = inc_ulong ((sb.inodes i).nlink) }))
unfolding link_up update stat_of
stat-link_up sb i = ground arith

-- In a well-formed table, with memory at hand, creating an entry under an absolute path that is in
-- use succeeds too: the status at this path then has one more link and is otherwise as it was.
pub new_inode_existing :
    (h : Host) (path : List ℕ) (type i : ℕ) (sb : Superblock)
    → IsTree sb
    → GoodPath path
    → h.malloc_ok ≡ true
    → search_inode_by_path sb path ≡ some i
    → (sb' : Superblock) × (new_inode h path type sb ≡ done (ok tt) sb')
      × (getattr path sb'
          ≡ ok (record (stat_of (sb.inodes i)) { st_nlink = inc_ulong ((sb.inodes i).nlink) }))
unfolding create_spec
new_inode_existing h path type i sb t g m e = (
  link_up sb i,
  new_inode_lem h path type sb t g m ∙ rw (e, create_spec),
  getattr-search (link_up sb i) path i (search-link_up sb i path ∙ e) ∙ stat-link_up sb i,
)
