-- ===== src/Kern/Syscall/Envs.antt =====
-- 3-sched/kern/syscall.c: the system calls on environments and the one that prints. A call comes
-- from a current environment; a null pointer that C follows is `undefined`.
use sistemas_operativos_fiub.Common.{ℕ, ◌+◌, Bool, true, Option, none, some, ◌==◌, if◌then◌else◌}
use sistemas_operativos_fiub.Kern.Words.{pgsize, pte_p, pte_w, pte_u}
use sistemas_operativos_fiub.Kern.Env.{
  Status, env_runnable, env_not_runnable, Kernel, found, bad_env, null_curenv, envid2env,
}
use sistemas_operativos_fiub.Kern.Sched.{Outcome}
use sistemas_operativos_fiub.Kern.Machine.{
  Machine, e_bad_env, e_inval, Call, returns, fails, undefined, and_then, set_env, env_alloc,
  env_destroy, user_mem_assert,
}

-- The environment that a call names, or -E_BAD_ENV.
unfoldable pub target : Machine → ℕ → Bool → Call ℕ
target m envid checkperm = elim (envid2env m.kern envid checkperm) [
  | null_curenv ↦ undefined
  | bad_env ↦ fails e_bad_env m
  | found none ↦ undefined
  | found (some i) ↦ returns i m
]

-- What is done with `curenv`.
unfoldable pub with_curenv : {A : Type 0} → Machine → (ℕ → Call A) → Call A
with_curenv m f = elim m.kern.curenv [ none ↦ undefined | some c ↦ f c ]

-- The answer 0.
unfoldable pub zero_after : Call (Unit {0}) → Call ℕ
zero_after call = and_then call (λ _ m. returns 0 m)

-- `sys_cputs` up to what it prints.
unfoldable pub sys_cputs : (Kernel → Outcome) → Machine → ℕ → ℕ → Call (Unit {0})
sys_cputs sched_yield m s len =
    with_curenv m (λ c. user_mem_assert sched_yield m c s len (pte_p + pte_w + pte_u))

unfoldable pub sys_getenvid : Machine → Call ℕ
sys_getenvid m = with_curenv m (λ c. returns ((m.kern.envs c).env_id) m)

unfoldable pub sys_env_destroy : (Kernel → Outcome) → Machine → ℕ → Call ℕ
sys_env_destroy sched_yield m envid =
    and_then (target m envid true) (λ i m'. zero_after (env_destroy sched_yield m' i))

-- The child as `sys_exofork` leaves it.
unfoldable pub copy_registers : Machine → ℕ → ℕ → Machine
copy_registers m c child =
    let tf = (m.kern.envs c).env_tf in
    set_env m child (record (m.kern.envs child) {
      env_status = env_not_runnable;
      env_tf = record tf { tf_regs = record tf.tf_regs { reg_eax = 0 } };
    })

unfoldable pub sys_exofork : Machine → Call ℕ
sys_exofork m = with_curenv m (λ c.
    and_then (env_alloc m ((m.kern.envs c).env_id)) (λ child m'.
      let m'' = copy_registers m' c child in returns ((m''.kern.envs child).env_id) m''))

-- The statuses that a call may set: ENV_RUNNABLE is 2, ENV_NOT_RUNNABLE is 4.
unfoldable pub settable_status : ℕ → Option Status
settable_status n =
    if n == 2 then some env_runnable else if n == 4 then some env_not_runnable else none

unfoldable pub sys_env_set_status : Machine → ℕ → ℕ → Call ℕ
sys_env_set_status m envid status = elim (settable_status status) [
  | none ↦ fails e_inval m
  | some s ↦
      and_then (target m envid true)
        (λ i m'. returns 0 (set_env m' i (record (m'.kern.envs i) { env_status = s })))
]

unfoldable pub sys_env_set_pgfault_upcall : (Kernel → Outcome) → Machine → ℕ → ℕ → Call ℕ
sys_env_set_pgfault_upcall sched_yield m envid func = and_then (target m envid true) (λ i m1.
    and_then (user_mem_assert sched_yield m1 i func pgsize (pte_p + pte_u))
      (λ _ m2. returns 0 (set_env m2 i (record (m2.kern.envs i) { env_pgfault_upcall = func }))))
