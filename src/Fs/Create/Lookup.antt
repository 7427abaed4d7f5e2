-- ===== src/Fs/Create/Lookup.antt =====
-- 4-fs: what the searches by path find after an inode is put, linked or released, and what
-- `fisopfs_getattr` then reports.
use sistemas_operativos_fiub.Common.{
  ℕ, ◌≡◌, refl, ap, ◌∙◌, sym, ◌≢◌, none, some, List, arith, ◌<◌, update, update_self, update_ne,
  first, fun_ext, str_eq, str_eq_sound, inl, inr, Bool-cases, str_eq-ne, Option-cases,
}
use native.Mathlib.Decide.{ℕ_discrete}
use sistemas_operativos_fiub.Fs.Strings.{c_str}
use sistemas_operativos_fiub.Fs.State.{
  Inode, Superblock, ok, err, enoent, max_inodes, occupied, free, root_path,
}
use sistemas_operativos_fiub.Fs.Search.{has_path, search_inode_by_path, get_inode_index}
use sistemas_operativos_fiub.Fs.Search.Laws.{
  Holds, search_inode_by_path_lem, search_inode_by_path-none, search_inode_by_path-cong,
  get_inode_index_lem,
}
use sistemas_operativos_fiub.Fs.Create.{put_inode, link_up, release, stat_of, getattr}
use sistemas_operativos_fiub.Fs.Tree.{IsTree, IsFresh}

pub inodes-put_self :
    (sb : Superblock) (k : ℕ) (inode : Inode) → (put_inode sb k inode).inodes k ≡ inode
unfolding put_inode
inodes-put_self sb k inode = update_self sb.inodes k inode

pub status-put_self :
    (sb : Superblock) (k : ℕ) (inode : Inode) → (put_inode sb k inode).status_inodes k ≡ occupied
unfolding put_inode
status-put_self sb k inode = update_self sb.status_inodes k occupied

pub inodes-put_ne :
    (sb : Superblock) (k : ℕ) (inode : Inode) (i : ℕ)
    → k ≢ i
    → (put_inode sb k inode).inodes i ≡ sb.inodes i
unfolding put_inode
inodes-put_ne sb k inode i ne = update_ne sb.inodes k i inode ne

pub status-put_ne :
    (sb : Superblock) (k : ℕ) (inode : Inode) (i : ℕ)
    → k ≢ i
    → (put_inode sb k inode).status_inodes i ≡ sb.status_inodes i
unfolding put_inode
status-put_ne sb k inode i ne = update_ne sb.status_inodes k i occupied ne

-- An inode put under a fresh path is found.
pub search-put_self :
    (sb : Superblock) (k : ℕ) (inode : Inode) (path : List ℕ)
    → k < max_inodes
    → c_str inode.path ≡ path
    → IsFresh sb path
    → search_inode_by_path (put_inode sb k inode) path ≡ some k
search-put_self sb k inode path inside e fresh =
    (search_inode_by_path_lem (put_inode sb k inode) path k).1 (
      record {
        inside = inside;
        used = status-put_self sb k inode;
        named = rw (inodes-put_self sb k inode) e;
      },
      λ j jk h.
          fresh j (rw (status-put_ne sb k inode j (omega arith)) at h.used)
            (rw (inodes-put_ne sb k inode j (omega arith)) at h.named),
    )

has_path-put_ne :
    (sb : Superblock) (k : ℕ) (inode : Inode) (path : List ℕ) (i : ℕ)
    → sb.status_inodes k ≡ free
    → c_str inode.path ≢ path
    → has_path (put_inode sb k inode) path i ≡ has_path sb path i
unfolding has_path
has_path-put_ne sb k inode path i unused ne = elim (ℕ_discrete k i) [
  | yes e ↦
      rw (← e, inodes-put_self sb k inode, status-put_self sb k inode, unused, str_eq-ne _ path ne)
  | no other ↦ rw (inodes-put_ne sb k inode i other, status-put_ne sb k inode i other)
]

-- The searches for other paths go on as before.
pub search-put_ne :
    (sb : Superblock) (k : ℕ) (inode : Inode) (path : List ℕ)
    → sb.status_inodes k ≡ free
    → c_str inode.path ≢ path
    → search_inode_by_path (put_inode sb k inode) path ≡ search_inode_by_path sb path
unfolding search_inode_by_path
search-put_ne sb k inode path unused ne =
    ap (λ test. first test max_inodes 0)
      (fun_ext (λ i. has_path-put_ne sb k inode path i unused ne))

pub search-link_up :
    (sb : Superblock) (k : ℕ) (path : List ℕ)
    → search_inode_by_path (link_up sb k) path ≡ search_inode_by_path sb path
search-link_up sb k path =
    search_inode_by_path-cong sb (link_up sb k) path (unfold link_up in refl) same
  where
    same : (i : ℕ) → ((link_up sb k).inodes i).path ≡ (sb.inodes i).path
    same i = unfold link_up update in ground arith

-- A released path is not found any more.
pub search-release_self :
    (sb : Superblock) (k : ℕ) (path : List ℕ)
    → IsTree sb
    → search_inode_by_path sb path ≡ some k
    → search_inode_by_path (release sb k) path ≡ none
search-release_self sb k path t f = (search_inode_by_path-none (release sb k) path).1 gone
  where
    held : Holds sb path k
    held = ((search_inode_by_path_lem sb path k).0 f).0

    gone : (j : ℕ) → ¬ Holds (release sb k) path j
    gone j h = unfold release update in ground (arith, t.distinct j k, h.used, h.named, held)

has_path-release_ne :
    (sb : Superblock) (k : ℕ) (path : List ℕ) (i : ℕ)
    → c_str ((sb.inodes k).path) ≢ path
    → has_path (release sb k) path i ≡ has_path sb path i
unfolding has_path release update
has_path-release_ne sb k path i ne = ground (arith, str_eq-ne (c_str ((sb.inodes k).path)) path ne)

pub search-release_ne :
    (sb : Superblock) (k : ℕ) (path : List ℕ)
    → c_str ((sb.inodes k).path) ≢ path
    → search_inode_by_path (release sb k) path ≡ search_inode_by_path sb path
unfolding search_inode_by_path
search-release_ne sb k path ne =
    ap (λ test. first test max_inodes 0) (fun_ext (λ i. has_path-release_ne sb k path i ne))

-- A search that finds nothing: the path is fresh.
pub search-none-IsFresh :
    (sb : Superblock) (path : List ℕ)
    → IsTree sb
    → search_inode_by_path sb path ≡ none
    → IsFresh sb path
search-none-IsFresh sb path t e i used named =
    (search_inode_by_path-none sb path).0 e i
      (record { inside = t.inside i used; used = used; named = named })

-- In a well-formed table `get_inode_index` and `search_inode_by_path` give the same inode, the
-- root's path included.
pub get_inode_index-search :
    (sb : Superblock) (path : List ℕ)
    → IsTree sb
    → get_inode_index sb path ≡ search_inode_by_path sb path
get_inode_index-search sb path t =
    get_inode_index_lem sb path ∙ (elim (Bool-cases (str_eq path root_path)) [
      | inl e ↦ rw (e, str_eq_sound path root_path e) (sym root)
      | inr e ↦ rw e
    ])
  where
    root : search_inode_by_path sb root_path ≡ some 0
    root = (search_inode_by_path_lem sb root_path 0).1 (
      record { inside = omega arith; used = t.root_used; named = t.root_named },
      λ j j0 h. absurd (omega arith),
    )

pub getattr-search :
    (sb : Superblock) (path : List ℕ) (k : ℕ)
    → search_inode_by_path sb path ≡ some k
    → getattr path sb ≡ ok (stat_of (sb.inodes k))
unfolding getattr
getattr-search sb path k e = rw (e, getattr)

pub getattr-none :
    (sb : Superblock) (path : List ℕ)
    → search_inode_by_path sb path ≡ none
    → getattr path sb ≡ err enoent
unfolding getattr
getattr-none sb path e = rw (e, getattr)

-- A put under another path changes nothing that `fisopfs_getattr` reports of this one.
pub getattr-put_ne :
    (sb : Superblock) (k : ℕ) (inode : Inode) (path : List ℕ)
    → sb.status_inodes k ≡ free
    → c_str inode.path ≢ path
    → getattr path (put_inode sb k inode) ≡ getattr path sb
getattr-put_ne sb k inode path unused ne = elim (Option-cases (search_inode_by_path sb path)) [
  | inl e ↦
      getattr-none (put_inode sb k inode) path (search-put_ne sb k inode path unused ne ∙ e)
      ∙ sym (getattr-none sb path e)
  | inr (i, e) ↦
      getattr-search (put_inode sb k inode) path i (search-put_ne sb k inode path unused ne ∙ e)
      ∙ rw (inodes-put_ne sb k inode i (apart i e)) (sym (getattr-search sb path i e))
]
  where
    apart : (i : ℕ) → search_inode_by_path sb path ≡ some i → k ≢ i
    apart i e = ground (arith, ((search_inode_by_path_lem sb path i).0 e).0)

pub getattr-release_ne :
    (sb : Superblock) (k : ℕ) (path : List ℕ)
    → c_str ((sb.inodes k).path) ≢ path
    → getattr path (release sb k) ≡ getattr path sb
unfolding getattr release
getattr-release_ne sb k path ne = rw (search-release_ne sb k path ne, getattr) refl
