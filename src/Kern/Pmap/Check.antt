-- ===== src/Kern/Pmap/Check.antt =====
-- 3-sched/kern/pmap.c: the checks of user memory, and the regions that the kernel maps for itself.
pub mod Range
use sistemas_operativos_fiub.Common.{
  ℕ, zero, suc, ◌+◌, ◌-◌, ◌*◌, ◌/◌, ◌%◌, ◌^◌, Bool, true, false, ◌&&◌, not, Option, none, some,
  ◌==◌, ltb, leb, if◌then◌else◌,
}
use Prim.Native.Nat.{bit_and}
use sistemas_operativos_fiub.Kern.Words.{
  pgsize, utop, mmiobase, mmiolim, round_down, round_up, pte_p, pte_w, pte_pwt, pte_pcd, or_flag,
}
use sistemas_operativos_fiub.Kern.Pmap.{
  Phys, set_word, pgdir_walk, page_remove, Walk, entry_at, no_entry, walk_panics,
}

-- What `user_mem_check` gives: 0; -E_FAULT, with the address that it stores in
-- `user_mem_check_addr`; or a panic of `KADDR`.
pub data MemCheck : Type 0 where
  access_ok : MemCheck
  access_fault : ℕ → MemCheck
  check_panics : MemCheck

-- `((*pte) & (perm | PTE_P)) == (perm | PTE_P)`
unfoldable pub allows : ℕ → ℕ → Bool
allows pte perm = bit_and pte (or_flag perm pte_p) == or_flag perm pte_p

-- The loop of `user_mem_check`, `n` rounds from the page at `va_act`.
unfoldable pub check_pages : Phys → ℕ → ℕ → ℕ → ℕ → ℕ → MemCheck
check_pages m pgdir perm va_lo zero va_act = access_ok
check_pages m pgdir perm va_lo (suc n) va_act =
    let rest = check_pages m pgdir perm va_lo n (va_act + pgsize) in
    let fault = access_fault (if ltb va_lo va_act then va_act else va_lo) in
    elim ((pgdir_walk pgdir va_act false m).0) [
      | walk_panics ↦ check_panics
      | no_entry ↦ fault
      | entry_at table index ↦ if allows (m.mem table index) perm then rest else fault
    ]

-- The sum `va + len` wraps around. The loop runs once for each page from `ROUNDDOWN(va_lo)` to
-- `va_hi`.
unfoldable pub user_mem_check : Phys → ℕ → ℕ → ℕ → ℕ → MemCheck
user_mem_check m pgdir va len perm =
    let va_hi = round_up ((va + len) % 2 ^ 32) in
    if ltb utop va_hi
    then access_fault va
    else check_pages m pgdir perm va ((va_hi - round_down va) / pgsize) (round_down va)

-- The loop of `boot_map_region` over the pages of a region, `n` rounds from its page `va`. It writes
-- through a null pointer where no table can be made: `none`, as for a panic.
unfoldable pub map_pages : ℕ → ℕ → ℕ → ℕ → ℕ → Phys → Option Phys
map_pages pgdir perm zero va pa m = some m
map_pages pgdir perm (suc n) va pa m = elim ((pgdir_walk pgdir va true m).0) [
  | walk_panics ↦ none
  | no_entry ↦ none
  | entry_at table index ↦ elim (page_remove pgdir va ((pgdir_walk pgdir va true m).1)) [
    | none ↦ none
    | some m' ↦
        map_pages pgdir perm n ((va + pgsize) % 2 ^ 32) ((pa + pgsize) % 2 ^ 32)
          (set_word m' table index (or_flag (pa + perm) pte_p))
  ]
]

-- `boot_map_region`, as it is built without TP1_PSE, for a region at the start of a page and a `perm`
-- without address bits.
unfoldable pub boot_map_region : ℕ → ℕ → ℕ → ℕ → ℕ → Phys → Option Phys
boot_map_region pgdir va size pa perm m =
    map_pages pgdir perm ((size + (pgsize - 1)) / pgsize) va pa m

-- `mmio_map_region` with its static `base`: the address of the region, and the next base.
unfoldable pub mmio_map_region : ℕ → ℕ → ℕ → ℕ → Phys → Option (ℕ × ℕ × Phys)
mmio_map_region kern_pgdir pa size base m =
    let size' = round_up size in
    if leb mmiolim ((base + size') % 2 ^ 32)
    then none
    else elim (boot_map_region kern_pgdir base size' (round_down pa)
        (pte_w + pte_p + pte_pcd + pte_pwt) m) [
          | none ↦ none
          | some m' ↦ some (base, (base + size') % 2 ^ 32, m')
        ]

-- `boot_alloc` at its static `nextfree`, a linear address in the kernel's part: the address that it
-- returns and the next one, or a panic. The source adds `n` to the pointer, as a sum that wraps
-- around.
unfoldable pub boot_alloc : ℕ → ℕ → ℕ → Option (ℕ × ℕ)
boot_alloc npages nextfree n =
    let top = (nextfree + n) % 2 ^ 32 in
    if ltb top 0xF0000000
    then none
    else (let last = top - 0xF0000000 in
        if leb (pgsize * npages) last then none else some (nextfree, round_up (last + 0xF0000000)))
