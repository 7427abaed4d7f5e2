-- ===== src/Kern/Machine.antt =====
-- 3-sched/kern/env.c, and user_mem_assert of kern/pmap.c: the operations that work on environments
-- and on physical memory at once.
pub mod Directory
pub mod Alloc
use sistemas_operativos_fiub.Common.{
  ℕ, zero, suc, ◌+◌, ◌-◌, ◌*◌, ◌/◌, ◌%◌, ◌^◌, Bool, true, false, ◌&&◌, not, Option, none, some,
  ◌==◌, ltb, if◌then◌else◌, update,
}
use sistemas_operativos_fiub.Kern.Words.{
  pgsize, utop, uvpt, pgnum, pdx, round_down, round_up, pte_p, pte_w, pte_u, has_flag, or_flag,
}
use sistemas_operativos_fiub.Kern.Env.{
  Status, env_free, env_dying, env_runnable, is_running, PushRegs, Trapframe, Env, Kernel, Lookup,
  found, bad_env, null_curenv, envid2env, next_env_id, set_status,
}
use sistemas_operativos_fiub.Kern.Sched.{Outcome, max_priority}
use sistemas_operativos_fiub.Kern.Pmap.{
  Phys, set_word, page_alloc, page_insert, page_remove, page_decref, incref,
}
use sistemas_operativos_fiub.Kern.Pmap.Check.{
  MemCheck, access_ok, access_fault, check_panics, user_mem_check,
}

-- The globals of the kernel: those of env.c, those of pmap.c, and `kern_pgdir` by its page.
pub record Machine : Type 0 where
  pub kern : Kernel
  pub phys : Phys
  pub kern_pgdir : ℕ

-- The codes of inc/error.h that the kernel returns, negated.
pub data Error : Type 0 where
  e_unspecified e_bad_env e_inval e_no_mem e_no_free_env e_ipc_not_recv : Error

-- How an operation of the kernel ends: with a value, with an error, in the scheduler and not back,
-- in a panic, or by something that C leaves undefined.
pub data Call (A : Type 0) : Type 0 where
  returns : A → Machine → Call A
  fails : Error → Machine → Call A
  leaves : Outcome → Phys → Call A
  panics : Call A
  undefined : Call A

-- What is done after a call that returns.
unfoldable pub and_then : {A B : Type 0} → Call A → (A → Machine → Call B) → Call B
and_then (returns a m) f = f a m
and_then (fails e m) f = fails e m
and_then (leaves o p) f = leaves o p
and_then panics f = panics
and_then undefined f = undefined

unfoldable pub set_env : Machine → ℕ → Env → Machine
set_env m i e = record m { kern = record m.kern { envs = update m.kern.envs i e } }

unfoldable pub set_phys : Machine → Phys → Machine
set_phys m p = record m { phys = p }

-- The new directory: that of the kernel but for the entry of UVPT, `PADDR(e->env_pgdir) | PTE_P |
-- PTE_U`.
unfoldable pub copy_directory : Phys → ℕ → ℕ → Phys
copy_directory p page kern_pgdir =
    let copied = record p { mem = update p.mem page (p.mem kern_pgdir) } in
    set_word (incref copied page) page (pdx uvpt) (page * pgsize + (pte_p + pte_u))

unfoldable pub env_setup_vm : Machine → ℕ → Call (Unit {0})
env_setup_vm m i = elim (page_alloc true m.phys) [
  | none ↦ panics
  | some (none, p) ↦ fails e_no_mem (set_phys m p)
  | some (some page, p) ↦ returns tt (
      set_env (set_phys m (copy_directory p page m.kern_pgdir)) i
        (record (m.kern.envs i) { env_pgdir = some page }))
]

abbrev zero_registers : PushRegs
zero_registers = record {
  reg_edi = 0;
  reg_esi = 0;
  reg_ebp = 0;
  reg_oesp = 0;
  reg_ebx = 0;
  reg_edx = 0;
  reg_ecx = 0;
  reg_eax = 0;
}

-- `GD_UD | 3` is 0x23, `GD_UT | 3` is 0x1b, USTACKTOP is two pages below UTOP, FL_IF is 0x200.
abbrev pub user_trapframe : Trapframe
user_trapframe = record {
  tf_regs = zero_registers;
  tf_es = 0x23;
  tf_ds = 0x23;
  tf_trapno = 0;
  tf_err = 0;
  tf_eip = 0;
  tf_cs = 0x1b;
  tf_eflags = 0x200;
  tf_esp = utop - 2 * pgsize;
  tf_ss = 0x23;
}

-- The priority of the parent, as `envid2env` finds it without a check of permission.
unfoldable pub parent_priority : Kernel → ℕ → ℕ
parent_priority k parent_id = elim (envid2env k parent_id false) [
  | null_curenv ↦ max_priority
  | bad_env ↦ max_priority
  | found none ↦ max_priority
  | found (some j) ↦ (k.envs j).env_priority
]

-- The fields that `env_alloc` sets before it looks the parent up, and those after.
unfoldable pub name_env : Machine → ℕ → ℕ → Machine
name_env m i parent_id = set_env m i (record (m.kern.envs i) {
  env_id = next_env_id ((m.kern.envs i).env_id) i;
  env_parent_id = parent_id;
  env_status = env_runnable;
  env_runs = 0;
})

unfoldable pub reset_env : Machine → ℕ → ℕ → Machine
reset_env m i priority = set_env m i (record (m.kern.envs i) {
  env_priority = priority;
  env_tf = user_trapframe;
  env_pgfault_upcall = 0;
  env_ipc_recving = false;
})

unfoldable pub pop_env : Machine → ℕ → Machine
pop_env m i = record m { kern = record m.kern { env_free_list = (m.kern.envs i).env_link } }

unfoldable pub env_alloc : Machine → ℕ → Call ℕ
env_alloc m parent_id = elim m.kern.env_free_list [
  | none ↦ fails e_no_free_env m
  | some i ↦ and_then (env_setup_vm m i) (λ _ m'.
      let named = name_env m' i parent_id in
      returns i (pop_env (reset_env named i (parent_priority named.kern parent_id)) i))
]

-- The loop of `region_alloc`, `n` rounds from the page at `va`.
unfoldable pub alloc_pages : ℕ → ℕ → ℕ → Phys → Option Phys
alloc_pages pgdir zero va p = some p
alloc_pages pgdir (suc n) va p = elim (page_alloc false p) [
  | none ↦ none
  | some (none, p') ↦ none
  | some (some page, p') ↦ elim (page_insert pgdir page va (pte_u + pte_w) p') [
    | none ↦ none
    | some (false, p'') ↦ none
    | some (true, p'') ↦ alloc_pages pgdir n (va + pgsize) p''
  ]
]

-- `none` for a panic.
unfoldable pub region_alloc : ℕ → ℕ → ℕ → Phys → Option Phys
region_alloc pgdir va len p =
    let va_lo = round_down va in
    let va_hi = round_up ((va + len) % 2 ^ 32) in
    if ltb utop va_hi then none else alloc_pages pgdir ((va_hi - va_lo) / pgsize) va_lo p

-- The loop of `env_free` over the entries of a table, `n` of them from entry `pteno`.
unfoldable pub remove_pages : ℕ → ℕ → ℕ → ℕ → ℕ → Phys → Option Phys
remove_pages pgdir pdeno table zero pteno p = some p
remove_pages pgdir pdeno table (suc n) pteno p =
    let removed =
      if has_flag (p.mem table pteno) pte_p
      then page_remove pgdir (pdeno * 2 ^ 22 + pteno * 2 ^ 12) p
      else some p in
    elim removed [ none ↦ none | some p' ↦ remove_pages pgdir pdeno table n (pteno + 1) p' ]

-- A round of the loop over the tables. `KADDR` and `pa2page` panic at a page that is not there.
unfoldable pub free_table : ℕ → ℕ → Phys → Option Phys
free_table pgdir pdeno p =
    let pde = p.mem pgdir pdeno in
    if not (has_flag pde pte_p)
    then some p
    else if ltb (pgnum pde) p.npages
    then elim (remove_pages pgdir pdeno (pgnum pde) 1024 0 p) [
      | none ↦ none
      | some p' ↦ page_decref (pgnum pde) (set_word p' pgdir pdeno 0)
    ]
    else none

unfoldable pub free_tables : ℕ → ℕ → ℕ → Phys → Option Phys
free_tables pgdir zero pdeno p = some p
free_tables pgdir (suc n) pdeno p = elim (free_table pgdir pdeno p) [
  | none ↦ none
  | some p' ↦ free_tables pgdir n (pdeno + 1) p'
]

-- The memory after `env_free` of an environment with the directory. `pa2page` panics at a page that
-- is not there.
unfoldable pub free_space : ℕ → Phys → Option Phys
free_space pgdir p = elim (free_tables pgdir (pdx utop) 0 p) [
  | none ↦ none
  | some p' ↦ if ltb pgdir p'.npages then page_decref pgdir p' else none
]

-- The end of `env_free`.
unfoldable pub push_env : Machine → ℕ → Machine
push_env m i =
    let m' = set_env m i (record (m.kern.envs i) {
      env_pgdir = none;
      env_status = env_free;
      env_link = m.kern.env_free_list;
    }) in
    record m' { kern = record m'.kern { env_free_list = some i } }

unfoldable pub env_free_call : Machine → ℕ → Call (Unit {0})
env_free_call m i = elim ((m.kern.envs i).env_pgdir) [
  | none ↦ undefined
  | some pgdir ↦ elim (free_space pgdir m.phys) [
    | none ↦ panics
    | some p ↦ returns tt (push_env (set_phys m p) i)
  ]
]

unfoldable pub is_current : Kernel → ℕ → Bool
is_current k i = elim k.curenv [ none ↦ false | some c ↦ i == c ]

-- `env_destroy`, for the scheduler of the build. An environment that runs on another processor is
-- marked; the current environment makes place for another one.
unfoldable pub env_destroy : (Kernel → Outcome) → Machine → ℕ → Call (Unit {0})
env_destroy sched_yield m i =
    if is_running ((m.kern.envs i).env_status) && not (is_current m.kern i)
    then returns tt (record m { kern = set_status m.kern i env_dying })
    else and_then (env_free_call m i) (λ _ m'.
      if is_current m'.kern i
      then leaves (sched_yield (record m'.kern { curenv = none })) m'.phys
      else returns tt m')

unfoldable pub user_mem_assert : (Kernel → Outcome) → Machine → ℕ → ℕ → ℕ → ℕ → Call (Unit {0})
user_mem_assert sched_yield m i va len perm = elim ((m.kern.envs i).env_pgdir) [
  | none ↦ undefined
  | some pgdir ↦ elim (user_mem_check m.phys pgdir va len (or_flag perm pte_u)) [
    | check_panics ↦ panics
    | access_ok ↦ returns tt m
    | access_fault a ↦ env_destroy sched_yield m i
  ]
]
