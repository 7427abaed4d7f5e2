-- ===== src/Kern/Env.antt =====
-- 3-sched/inc/env.h and kern/env.c: the environment table, environment ids and the switch to an
-- environment. An `envid_t` is its 32-bit pattern; `curenv` is the index of an environment.
pub mod Ids
pub mod Run
pub mod Pool
use sistemas_operativos_fiub.Common.{
  ℕ, zero, suc, ◌+◌, ◌-◌, ◌*◌, ◌/◌, ◌%◌, ◌^◌, Bool, true, false, ◌&&◌, ◌||◌, not, Option, none,
  some, ◌==◌, leb, if◌then◌else◌, update,
}

abbrev pub nenv : ℕ
nenv = 1024

-- `ENVX(envid)`, the low ten bits
unfoldable pub envx : ℕ → ℕ
envx envid = envid % nenv

pub data Status : Type 0 where
  env_free env_dying env_runnable env_running env_not_runnable : Status

abbrev pub is_free : Status → Bool
is_free env_free = true
is_free _ = false

abbrev pub is_dying : Status → Bool
is_dying env_dying = true
is_dying _ = false

abbrev pub is_runnable : Status → Bool
is_runnable env_runnable = true
is_runnable _ = false

abbrev pub is_running : Status → Bool
is_running env_running = true
is_running _ = false

-- `struct PushRegs` and `struct Trapframe`, without the padding
pub record PushRegs : Type 0 where
  pub reg_edi : ℕ
  pub reg_esi : ℕ
  pub reg_ebp : ℕ
  pub reg_oesp : ℕ
  pub reg_ebx : ℕ
  pub reg_edx : ℕ
  pub reg_ecx : ℕ
  pub reg_eax : ℕ

pub record Trapframe : Type 0 where
  pub tf_regs : PushRegs
  pub tf_es : ℕ
  pub tf_ds : ℕ
  pub tf_trapno : ℕ
  pub tf_err : ℕ
  pub tf_eip : ℕ
  pub tf_cs : ℕ
  pub tf_eflags : ℕ
  pub tf_esp : ℕ
  pub tf_ss : ℕ

-- `struct Env`: a `struct Env *` is an index, a page directory the number of its page. The one value
-- of `env_type` is left out.
pub record Env : Type 0 where
  pub env_tf : Trapframe
  pub env_link : Option ℕ
  pub env_id : ℕ
  pub env_parent_id : ℕ
  pub env_status : Status
  pub env_runs : ℕ  -- uint32_t
  pub env_cpunum : ℕ
  pub env_pgdir : Option ℕ
  pub env_pgfault_upcall : ℕ
  pub env_ipc_recving : Bool
  pub env_ipc_dstva : ℕ
  pub env_ipc_value : ℕ
  pub env_ipc_from : ℕ
  pub env_ipc_perm : ℕ
  pub env_priority : ℕ  -- int, never negative

-- `struct SchedStats`
pub record SchedStats : Type 0 where
  pub history : ℕ → ℕ
  pub scheduler_calls : ℕ
  pub process_execution_count : ℕ → ℕ
  pub history_index : ℕ
  pub total_boots : ℕ

-- The globals: `envs`, `env_free_list`, this processor's `curenv` and number, and `sched_stats`.
pub record Kernel : Type 0 where
  pub envs : ℕ → Env
  pub env_free_list : Option ℕ
  pub curenv : Option ℕ
  pub cpunum : ℕ
  pub sched_stats : SchedStats

-- What `envid2env` does: it stores an environment (NULL is `none`) and returns 0, or it returns
-- -E_BAD_ENV, or it follows a null `curenv`.
pub data Lookup : Type 0 where
  found : Option ℕ → Lookup
  bad_env : Lookup
  null_curenv : Lookup

-- The check of the caller's permission over environment `i`.
unfoldable pub check_permission : Kernel → ℕ → Lookup
check_permission k i = elim k.curenv [
  | none ↦ null_curenv
  | some c ↦
      if not (i == c) && not ((k.envs i).env_parent_id == (k.envs c).env_id)
      then bad_env
      else found (some i)
]

unfoldable pub envid2env : Kernel → ℕ → Bool → Lookup
envid2env k envid checkperm =
    if envid == 0
    then found k.curenv
    else (let i = envx envid in
        if is_free ((k.envs i).env_status) || not ((k.envs i).env_id == envid)
        then bad_env
        else if checkperm
        then check_permission k i
        else found (some i))

-- The id that `env_alloc` gives to environment `i`, whose slot had the id `old`. A generation that
-- is not positive as an int starts again; `|` joins bits that do not overlap.
unfoldable pub next_env_id : ℕ → ℕ → ℕ
next_env_id old i =
    let generation = (old + 2 ^ 12) % 2 ^ 32 / nenv * nenv in
    (if generation == 0 || leb (2 ^ 31) generation then 2 ^ 12 else generation) + i

unfoldable pub set_status : Kernel → ℕ → Status → Kernel
set_status k i s = record k { envs = update k.envs i (record (k.envs i) { env_status = s }) }

unfoldable pub set_priority : Kernel → ℕ → ℕ → Kernel
set_priority k i n = record k { envs = update k.envs i (record (k.envs i) { env_priority = n }) }

-- The first step of `env_run`: a running current environment becomes runnable.
unfoldable pub preempt : Kernel → Kernel
preempt k = elim k.curenv [
  | none ↦ k
  | some c ↦ if is_running ((k.envs c).env_status) then set_status k c env_runnable else k
]

-- The state in which `env_run` leaves the kernel for environment `i`.
unfoldable pub env_run : Kernel → ℕ → Kernel
env_run k i =
    let p = preempt k in
    record p {
      envs = update p.envs i (record (p.envs i) {
        env_status = env_running;
        env_runs = ((p.envs i).env_runs + 1) % 2 ^ 32;
        env_cpunum = p.cpunum;
      });
      curenv = some i;
    }

-- A round of `env_init`'s loop.
unfoldable pub init_env : Kernel → ℕ → Kernel
init_env k i = record k {
  envs =
      update k.envs i
        (record (k.envs i) { env_id = 0; env_status = env_free; env_link = some (i + 1) });
}

-- `n` rounds from index `i`.
unfoldable pub init_envs : ℕ → ℕ → Kernel → Kernel
init_envs zero i k = k
init_envs (suc n) i k = init_envs n (i + 1) (init_env k i)

unfoldable pub env_init : Kernel → Kernel
env_init k =
    let k' = init_envs nenv 0 k in
    record k' {
      envs = update k'.envs (nenv - 1) (record (k'.envs (nenv - 1)) { env_link = none });
      env_free_list = some 0;
    }
