-- ===== src/Kern/Syscall/Pages.antt =====
-- 3-sched/kern/syscall.c: the system calls on pages.
use Prim.Native.Nat.{bit_and}
use sistemas_operativos_fiub.Common.{
  ℕ, ◌%◌, Bool, true, false, ◌&&◌, ◌||◌, not, Option, none, some, ◌==◌, leb, if◌then◌else◌,
}
use sistemas_operativos_fiub.Kern.Words.{pgsize, utop, pte_p, pte_w, pte_u, has_flag, or_flag}
use sistemas_operativos_fiub.Kern.Pmap.{
  page_alloc, page_lookup, page_at, no_page, lookup_panics, page_insert, page_remove,
}
use sistemas_operativos_fiub.Kern.Machine.{
  Machine, e_inval, e_no_mem, Call, returns, fails, panics, undefined, and_then, set_phys,
}
use sistemas_operativos_fiub.Kern.Syscall.Envs.{target}

-- The bits of a word that are not in PTE_SYSCALL.
abbrev pub no_syscall_bits : ℕ
no_syscall_bits = 0xFFFFF1F8

-- `check_perm(perm, pte)`, for the entry that `pte` points to where it is not NULL: whether it gives
-- 0, otherwise it gives -E_INVAL.
unfoldable pub allowed_by_pte : ℕ → Option ℕ → Bool
allowed_by_pte perm none = true
allowed_by_pte perm (some pte) =
    not (not (pte == 0) && not (has_flag pte pte_p))
    && not (has_flag perm pte_w && not (has_flag pte pte_w))

unfoldable pub check_perm : ℕ → Option ℕ → Bool
check_perm perm pte =
    bit_and perm no_syscall_bits == 0
    && (has_flag perm pte_p && has_flag perm pte_u)
    && allowed_by_pte perm pte

-- `page_insert` in the directory of environment `i`.
unfoldable pub insert_page : Machine → ℕ → ℕ → ℕ → ℕ → Call ℕ
insert_page m i page va perm = elim ((m.kern.envs i).env_pgdir) [
  | none ↦ undefined
  | some pgdir ↦ elim (page_insert pgdir page va perm m.phys) [
    | none ↦ panics
    | some (true, p) ↦ returns 0 (set_phys m p)
    | some (false, p) ↦ fails e_no_mem (set_phys m p)
  ]
]

unfoldable pub env_page_alloc : Machine → ℕ → ℕ → ℕ → Call ℕ
env_page_alloc m i va perm =
    if not (check_perm perm none) then fails e_inval m else elim (page_alloc true m.phys) [
      | none ↦ panics
      | some (none, p) ↦ fails e_no_mem (set_phys m p)
      | some (some page, p) ↦ insert_page (set_phys m p) i page va perm
    ]

unfoldable pub env_page_map : Machine → ℕ → ℕ → ℕ → ℕ → ℕ → Call ℕ
env_page_map m src srcva dst dstva perm = elim ((m.kern.envs src).env_pgdir) [
  | none ↦ undefined
  | some pgdir ↦ elim (page_lookup pgdir srcva m.phys) [
    | lookup_panics ↦ panics
    | no_page ↦ fails e_inval m
    | page_at page table index ↦
        if has_flag perm pte_w && not (has_flag (m.phys.mem table index) pte_w)
        then fails e_inval m
        else insert_page m dst page dstva perm
  ]
]

-- The address is not the start of a page below UTOP.
unfoldable pub is_bad_va : ℕ → Bool
is_bad_va va = leb utop va || not (va % pgsize == 0)

-- `perm | PTE_U | PTE_P`
unfoldable pub user_perm : ℕ → ℕ
user_perm perm = or_flag (or_flag perm pte_u) pte_p

unfoldable pub sys_page_alloc : Machine → ℕ → ℕ → ℕ → Call ℕ
sys_page_alloc m envid va perm =
    if is_bad_va va
    then fails e_inval m
    else and_then (target m envid true) (λ i m'. env_page_alloc m' i va (user_perm perm))

unfoldable pub sys_page_map : Machine → ℕ → ℕ → ℕ → ℕ → ℕ → Call ℕ
sys_page_map m srcenvid srcva dstenvid dstva perm =
    if is_bad_va srcva
    then fails e_inval m
    else if is_bad_va dstva
    then fails e_inval m
    else and_then (target m srcenvid true) (λ src m1.
      and_then (target m1 dstenvid true)
        (λ dst m2. env_page_map m2 src srcva dst dstva (user_perm perm)))

-- `page_remove` in the directory of environment `i`.
unfoldable pub remove_page : Machine → ℕ → ℕ → Call ℕ
remove_page m i va = elim ((m.kern.envs i).env_pgdir) [
  | none ↦ undefined
  | some pgdir ↦ elim (page_remove pgdir va m.phys) [
    | none ↦ panics
    | some p ↦ returns 0 (set_phys m p)
  ]
]

unfoldable pub sys_page_unmap : Machine → ℕ → ℕ → Call ℕ
sys_page_unmap m envid va =
    if is_bad_va va
    then fails e_inval m
    else and_then (target m envid true) (λ i m'. remove_page m' i va)
