-- ===== src/Kern/Tests.antt =====
-- Runs of the scheduler and of the system calls at a small kernel, and the theorems there.
pub mod Memory
mod Calls
mod Numbers
mod Formats
mod Inputs
use sistemas_operativos_fiub.Common.{
  inc_int, ℕ, zero, suc, ◌+◌, ◌==◌, if◌then◌else◌, ◌<◌, ◌≤◌, ◌^◌, ◌≡◌, ◌≢◌, ◌⊎◌, ◌↔◌, refl, true,
  false, none, some, arith, update, first,
}
use sistemas_operativos_fiub.Kern.Env.{
  nenv, envx, Status, PushRegs, Trapframe, env_free, env_runnable, env_running, Env, SchedStats,
  Kernel, found, envid2env, next_env_id, set_priority, env_run,
}
use sistemas_operativos_fiub.Kern.Env.Ids.{next_env_id_lem, envid2env-found}
use sistemas_operativos_fiub.Kern.Env.Run.{OnlyCurrent}
use sistemas_operativos_fiub.Kern.Sched.{
  Outcome, runs, halts, monitors, undefined, max_priority, start_index, select, no_best,
  boost_all_envs, sched_yield_round_robin, sched_yield_priorities, count_call, round_robin,
  is_candidate, add_counts_to_sched, count_run, consider, is_better,
}
use sistemas_operativos_fiub.Kern.Sched.Counts.{CanCount}
use sistemas_operativos_fiub.Kern.Sched.RoundRobin.{
  rounds, CanBeRun, IsNext, sched_yield_round_robin-IsNext,
}
use sistemas_operativos_fiub.Kern.Sched.Progress.{sched_yield_round_robin-progress}
use sistemas_operativos_fiub.Kern.Sched.Switch.{Settled, sched_yield_round_robin-Settled}
use sistemas_operativos_fiub.Kern.Sched.Boost.{Boosted, boost_all_envs_lem}
use sistemas_operativos_fiub.Kern.Sched.Select.{IsBest, select-IsBest}
use sistemas_operativos_fiub.Kern.Sched.Priority.{sched_yield_priorities-undefined}
use sistemas_operativos_fiub.Kern.Syscall.{replies, refuses, sys_get_priority, sys_set_priority}
use sistemas_operativos_fiub.Kern.Syscall.Laws.{sys_set_priority_lem, sys_set_priority-no_raise}

-- Environment 0 runs, 1 and 2 are its children and can be run, the others are free.
abbrev status_at : ℕ → Status
status_at zero = env_running
status_at (suc zero) = env_runnable
status_at (suc (suc zero)) = env_runnable
status_at (suc (suc (suc n))) = env_free

abbrev pub no_registers : PushRegs
no_registers = record {
  reg_edi = 0;
  reg_esi = 0;
  reg_ebp = 0;
  reg_oesp = 0;
  reg_ebx = 0;
  reg_edx = 0;
  reg_ecx = 0;
  reg_eax = 0;
}

abbrev pub no_trapframe : Trapframe
no_trapframe = record {
  tf_regs = no_registers;
  tf_es = 0;
  tf_ds = 0;
  tf_trapno = 0;
  tf_err = 0;
  tf_eip = 0;
  tf_cs = 0;
  tf_eflags = 0;
  tf_esp = 0;
  tf_ss = 0;
}

abbrev pub env_at : ℕ → Env
env_at i = record {
  env_tf = no_trapframe;
  env_link = none;
  env_id = 4096 + i;
  env_parent_id = 4096;
  env_status = status_at i;
  env_runs = 0;
  env_cpunum = 0;
  env_pgdir = none;
  env_pgfault_upcall = 0;
  env_ipc_recving = false;
  env_ipc_dstva = 0;
  env_ipc_value = 0;
  env_ipc_from = 0;
  env_ipc_perm = 0;
  env_priority = if i == 2 then 4 else 3;
}

abbrev pub no_stats : SchedStats
no_stats = record {
  history = λ i. 0;
  scheduler_calls = 0;
  process_execution_count = λ i. 0;
  history_index = 0;
  total_boots = 0;
}

abbrev pub kernel : Kernel
kernel = record {
  envs = env_at;
  env_free_list = none;
  curenv = some 0;
  cpunum = 0;
  sched_stats = no_stats;
}

kernel-CanCount : CanCount kernel
kernel-CanCount = record {
  calls = omega arith;
  runs_left = λ i. omega arith;
  history_left = omega arith;
}

two-CanBeRun : CanBeRun kernel 2
two-CanBeRun = record { inside = omega arith; runnable = refl }

kernel-OnlyCurrent : OnlyCurrent kernel
kernel-OnlyCurrent zero e = refl
kernel-OnlyCurrent (suc zero) e = cc
kernel-OnlyCurrent (suc (suc zero)) e = cc
kernel-OnlyCurrent (suc (suc (suc n))) e = cc

large_id : (i : ℕ) → nenv ≤ 4096 + i
large_id i = omega arith

index_bits : (i : ℕ) → i < nenv → envx (4096 + i) ≡ i
unfolding envx
index_bits i h = omega arith

start_is_zero : start_index kernel ≡ 0
unfolding start_index envx
start_is_zero = refl

start-not : ¬ CanBeRun kernel (start_index kernel)
start-not c = cc_start (rw start_is_zero at c.runnable)
  where
    cc_start : env_running ≡ env_runnable → ⊥
    cc_start e = cc

sched_yield_round_robin-IsNext_example :
    (i : ℕ) × (s : SchedStats) × (sched_yield_round_robin kernel
      ≡ runs i (env_run (record kernel { sched_stats = s }) i))
    × IsNext kernel i
sched_yield_round_robin-IsNext_example =
    sched_yield_round_robin-IsNext kernel 2 kernel-CanCount two-CanBeRun

sched_yield_round_robin-progress_example :
    (i : ℕ) × (k' : Kernel) × (sched_yield_round_robin kernel ≡ runs i k')
    × ((i ≡ 2) ⊎ (CanBeRun k' 2 × (rounds (start_index k') 2 < rounds (start_index kernel) 2)))
sched_yield_round_robin-progress_example =
    sched_yield_round_robin-progress kernel 2 kernel-CanCount (λ i h. index_bits i h) start-not
      two-CanBeRun

sched_yield_round_robin-Settled_example : Settled (sched_yield_round_robin kernel)
sched_yield_round_robin-Settled_example = sched_yield_round_robin-Settled kernel kernel-OnlyCurrent

sched_yield_priorities-undefined_example : sched_yield_priorities kernel ≡ undefined
sched_yield_priorities-undefined_example =
    sched_yield_priorities-undefined kernel 2 (λ i h. large_id i) two-CanBeRun

choice : Outcome → ℕ
choice (runs i k) = i
choice (halts k) = nenv
choice monitors = nenv + 1
choice undefined = nenv + 2

-- From environment 0 on, environment 1 is the first that can be run.
first_choice : choice (sched_yield_round_robin kernel) ≡ 1
unfolding choice sched_yield_round_robin count_call inc_int round_robin first is_candidate
    start_index envx add_counts_to_sched count_run
first_choice = refl

-- The search by priority prefers environment 2.
best_choice : (select kernel 0 nenv 0 no_best).env_best_priority ≡ some 2
unfolding select consider is_better
best_choice = refl
