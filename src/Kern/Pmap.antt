-- ===== src/Kern/Pmap.antt =====
-- 3-sched/kern/pmap.c: physical pages, page tables and the checks of user memory. A page, a page
-- table and a page directory are named by the number of their physical page, and a `pte_t *` by the
-- table and the index in it. The translation cache is hardware and is left out.
pub mod Pool
pub mod Init
pub mod View
pub mod Remove
pub mod Insert
pub mod Table
pub mod Map
pub mod Check
use sistemas_operativos_fiub.Common.{
  ℕ, zero, suc, ◌+◌, ◌-◌, ◌*◌, ◌/◌, ◌%◌, ◌^◌, Bool, true, false, ◌&&◌, ◌||◌, not, Option, none,
  some, ◌==◌, ltb, leb, if◌then◌else◌, update,
}
use sistemas_operativos_fiub.Kern.Words.{
  pgsize, npdentries, utop, mmiobase, mmiolim, pgnum, pdx, ptx, round_down, round_up, pte_p, pte_w,
  pte_u, pte_pwt, pte_pcd, has_flag, or_flag, or_perm,
}
use Prim.Native.Nat.{bit_and}

-- The globals of pmap.c: `pages` by its two fields, the free list, and the words of memory by page
-- and index.
pub record Phys : Type 0 where
  pub npages : ℕ
  pub pp_link : ℕ → Option ℕ
  pub pp_ref : ℕ → ℕ  -- uint16_t
  pub page_free_list : Option ℕ
  pub mem : ℕ → ℕ → ℕ

-- A word written to memory.
unfoldable pub set_word : Phys → ℕ → ℕ → ℕ → Phys
set_word m page index v = record m { mem = update m.mem page (update (m.mem page) index v) }

-- `memset(page2kva(pp), 0, PGSIZE)`
unfoldable pub zero_page : Phys → ℕ → Phys
zero_page m p = record m { mem = update m.mem p (λ i. 0) }

-- The first entry of the free list is taken off it.
unfoldable pub take_page : Phys → ℕ → Phys
take_page m p = record m { page_free_list = m.pp_link p; pp_link = update m.pp_link p none }

-- `none` for a panic. `page2kva` panics at a page that is not there.
unfoldable pub page_alloc : Bool → Phys → Option (Option ℕ × Phys)
page_alloc zeroed m = elim m.page_free_list [
  | none ↦ some (none, m)
  | some p ↦
      if zeroed
      then (if ltb p m.npages then some (some p, zero_page (take_page m p) p) else none)
      else some (some p, take_page m p)
]

abbrev pub is_null : Option ℕ → Bool
is_null none = true
is_null (some p) = false

unfoldable pub page_free : ℕ → Phys → Option Phys
page_free p m =
    if not (m.pp_ref p == 0)
    then none
    else if not (is_null (m.pp_link p))
    then none
    else some (record m { pp_link = update m.pp_link p m.page_free_list; page_free_list = some p })

-- `pp->pp_ref++` and `--pp->pp_ref`, of 16 digits
unfoldable pub incref : Phys → ℕ → Phys
incref m p = record m { pp_ref = update m.pp_ref p ((m.pp_ref p + 1) % 2 ^ 16) }

unfoldable pub decref : Phys → ℕ → Phys
decref m p = record m { pp_ref = update m.pp_ref p ((m.pp_ref p + (2 ^ 16 - 1)) % 2 ^ 16) }

unfoldable pub page_decref : ℕ → Phys → Option Phys
page_decref p m = let m' = decref m p in if m'.pp_ref p == 0 then page_free p m' else some m'

-- The guards of `page_init`'s loop, the other way round; `kernel_end` is the page behind what the
-- kernel has in use, `PGNUM(PADDR(boot_alloc(0)))`.
unfoldable pub is_usable : ℕ → ℕ → Bool
is_usable kernel_end i =
    not (i == 0)
    && (not (i == 7) && (not (leb 0xA0 i && ltb i 0x100) && not (leb 0x100 i && ltb i kernel_end)))

-- A round of the loop.
unfoldable pub init_page : ℕ → ℕ → Phys → Phys
init_page kernel_end i m =
    if is_usable kernel_end i
    then record m {
      pp_link = update m.pp_link i m.page_free_list;
      pp_ref = update m.pp_ref i 0;
      page_free_list = some i;
    }
    else record m { pp_link = update m.pp_link i none }

-- `n` rounds from page `i`.
unfoldable pub init_pages : ℕ → ℕ → ℕ → Phys → Phys
init_pages kernel_end zero i m = m
init_pages kernel_end (suc n) i m = init_pages kernel_end n (i + 1) (init_page kernel_end i m)

unfoldable pub page_init : ℕ → Phys → Phys
page_init kernel_end m = init_pages kernel_end m.npages 0 m

-- What `pgdir_walk` returns: an entry by table and index, or NULL; or it panics.
pub data Walk : Type 0 where
  entry_at : ℕ → ℕ → Walk
  no_entry : Walk
  walk_panics : Walk

-- The end of `pgdir_walk`. `KADDR` panics at a page that is not there.
unfoldable pub find_entry : ℕ → ℕ → Phys → Walk
find_entry pgdir va m =
    let pde = m.mem pgdir (pdx va) in
    if pde == 0
    then no_entry
    else if ltb (pgnum pde) m.npages
    then entry_at (pgnum pde) (ptx va)
    else walk_panics

-- The entry for a new table, `page2pa(page) | PTE_P | PTE_W | PTE_U`.
unfoldable pub install_table : ℕ → ℕ → ℕ → Phys → Phys
install_table pgdir va page m =
    set_word (incref m page) pgdir (pdx va) (page * pgsize + (pte_p + pte_w + pte_u))

unfoldable pub walk_new : ℕ → ℕ → Option (Option ℕ × Phys) → Walk × Phys → Walk × Phys
walk_new pgdir va none before = (walk_panics, before.1)
walk_new pgdir va (some (none, m)) before = (find_entry pgdir va m, m)
walk_new pgdir va (some (some page, m)) before =
    (find_entry pgdir va (install_table pgdir va page m), install_table pgdir va page m)

unfoldable pub pgdir_walk : ℕ → ℕ → Bool → Phys → Walk × Phys
pgdir_walk pgdir va create m =
    if m.mem pgdir (pdx va) == 0 && create
    then walk_new pgdir va (page_alloc true m) (no_entry, m)
    else (find_entry pgdir va m, m)

-- What `page_lookup` returns: a page with the place of its entry, or NULL; or it panics.
pub data PageLookup : Type 0 where
  page_at : ℕ → ℕ → ℕ → PageLookup
  no_page : PageLookup
  lookup_panics : PageLookup

-- The test of the entry is `*pte && PTE_P`, which holds for every word but 0. `pa2page` panics at a
-- page that is not there.
unfoldable pub page_lookup : ℕ → ℕ → Phys → PageLookup
page_lookup pgdir va m = elim ((pgdir_walk pgdir va false m).0) [
  | walk_panics ↦ lookup_panics
  | no_entry ↦ no_page
  | entry_at table index ↦
      let pte = m.mem table index in
      if pte == 0
      then no_page
      else if ltb (pgnum pte) m.npages
      then page_at (pgnum pte) table index
      else lookup_panics
]

unfoldable pub page_remove : ℕ → ℕ → Phys → Option Phys
page_remove pgdir va m = elim (page_lookup pgdir va m) [
  | lookup_panics ↦ none
  | no_page ↦ some m
  | page_at page table index ↦ elim (page_decref page m) [
    | none ↦ none
    | some m' ↦ some (set_word m' table index 0)
  ]
]

unfoldable pub insert_at : ℕ → ℕ → ℕ → ℕ → Walk × Phys → Option (Bool × Phys)
insert_at pgdir pp va perm (walk_panics, m) = none
insert_at pgdir pp va perm (no_entry, m) = some (false, m)
insert_at pgdir pp va perm (entry_at table index, m) = elim (page_remove pgdir va (incref m pp)) [
  | none ↦ none
  | some m' ↦ some (true, set_word m' table index (or_flag (or_perm pp perm) pte_p))
]

-- `true` for 0, `false` for -E_NO_MEM, `none` for a panic.
unfoldable pub page_insert : ℕ → ℕ → ℕ → ℕ → Phys → Option (Bool × Phys)
page_insert pgdir pp va perm m = insert_at pgdir pp va perm (pgdir_walk pgdir va true m)
