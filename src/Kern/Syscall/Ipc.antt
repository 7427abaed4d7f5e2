-- ===== src/Kern/Syscall/Ipc.antt =====
-- 3-sched/kern/syscall.c: messages between environments, and the dispatch of all calls.
use sistemas_operativos_fiub.Common.{
  ℕ, ◌%◌, true, false, ◌&&◌, not, none, some, ◌==◌, leb, if◌then◌else◌,
}
use sistemas_operativos_fiub.Kern.Words.{pgsize, utop, pte_p, pte_w, has_flag}
use sistemas_operativos_fiub.Kern.Env.{env_runnable, env_not_runnable, Kernel}
use sistemas_operativos_fiub.Kern.Sched.{Outcome}
use sistemas_operativos_fiub.Kern.Pmap.{page_lookup, page_at, no_page, lookup_panics}
use sistemas_operativos_fiub.Kern.Machine.{
  Machine, e_inval, e_ipc_not_recv, Call, returns, fails, leaves, panics, undefined, and_then,
  set_env,
}
use sistemas_operativos_fiub.Kern.Syscall.Envs.{target, with_curenv}
use sistemas_operativos_fiub.Kern.Syscall.Pages.{env_page_alloc, env_page_map, user_perm, is_bad_va}

unfoldable pub set_ipc_perm : Machine → ℕ → ℕ → Machine
set_ipc_perm m dst perm = set_env m dst (record (m.kern.envs dst) { env_ipc_perm = perm })

-- The end of `sys_ipc_try_send`, from its label `bail`.
unfoldable pub deliver : Machine → ℕ → ℕ → ℕ → Machine
deliver m c dst value =
    let e = m.kern.envs dst in
    set_env m dst (record e {
      env_ipc_from = (m.kern.envs c).env_id;
      env_ipc_recving = false;
      env_ipc_value = value;
      env_tf = record e.env_tf { tf_regs = record e.env_tf.tf_regs { reg_eax = 0 } };
      env_status = env_runnable;
    })

-- The page goes to the receiver, where it waits for one: `perm` has PTE_U and PTE_P by now.
unfoldable pub send_page : Machine → ℕ → ℕ → ℕ → ℕ → Call (Unit {0})
send_page m c dst srcva perm =
    let dstva = (m.kern.envs dst).env_ipc_dstva in
    if dstva == 0
    then returns tt m
    else and_then (env_page_alloc m dst dstva perm) (λ _ m1.
      and_then (env_page_map m1 c srcva dst dstva perm)
        (λ _ m2. returns tt (set_ipc_perm m2 dst perm)))

-- The checks of the sender's page. Where nothing is mapped `srcpte` has no value and is followed.
unfoldable pub check_source : Machine → ℕ → ℕ → ℕ → Call (Unit {0})
check_source m c srcva perm = elim ((m.kern.envs c).env_pgdir) [
  | none ↦ undefined
  | some pgdir ↦ elim (page_lookup pgdir srcva m.phys) [
    | lookup_panics ↦ panics
    | no_page ↦ undefined
    | page_at page table index ↦
        let pte = m.phys.mem table index in
        if not (pte == 0) && not (has_flag pte pte_p)
        then fails e_inval m
        else if has_flag perm pte_w && not (has_flag pte pte_w)
        then fails e_inval m
        else returns tt m
  ]
]

-- `sys_ipc_try_send` for the receiver `dst` and the sender `c`.
unfoldable pub try_send : Machine → ℕ → ℕ → ℕ → ℕ → ℕ → Call ℕ
try_send m c dst value srcva perm =
    if not ((m.kern.envs dst).env_ipc_recving)
    then fails e_ipc_not_recv m
    else if leb utop srcva
    then returns 0 (deliver (set_ipc_perm m dst 0) c dst value)
    else if not (srcva % pgsize == 0)
    then fails e_inval m
    else and_then (check_source m c srcva perm) (λ _ m1.
      and_then (send_page m1 c dst srcva (user_perm perm))
        (λ _ m2. returns 0 (deliver m2 c dst value)))

unfoldable pub sys_ipc_try_send : Machine → ℕ → ℕ → ℕ → ℕ → Call ℕ
sys_ipc_try_send m envid value srcva perm =
    and_then (target m envid false)
      (λ dst m'. with_curenv m' (λ c. try_send m' c dst value srcva perm))

-- `sys_ipc_recv`, for the scheduler of the build.
unfoldable pub sys_ipc_recv : (Kernel → Outcome) → Machine → ℕ → Call ℕ
sys_ipc_recv sched_yield m dstva = with_curenv m (λ c.
    let m1 = set_env m c (record (m.kern.envs c) { env_ipc_recving = true }) in
    if is_bad_va dstva
    then fails e_inval m1
    else (let m2 =
          set_env m1 c
            (record (m1.kern.envs c) { env_ipc_dstva = dstva; env_status = env_not_runnable }) in
        leaves (sched_yield m2.kern) m2.phys))
