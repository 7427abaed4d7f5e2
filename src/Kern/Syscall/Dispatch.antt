-- ===== src/Kern/Syscall/Dispatch.antt =====
-- 3-sched/kern/syscall.c: the dispatch of the calls. What the console has read, `cons_getc`, is an
-- argument.
use sistemas_operativos_fiub.Common.{ℕ, ◌==◌, if◌then◌else◌}
use sistemas_operativos_fiub.Kern.Env.{Kernel}
use sistemas_operativos_fiub.Kern.Sched.{Outcome}
use sistemas_operativos_fiub.Kern.Machine.{
  Machine, e_unspecified, e_inval, Call, returns, fails, leaves, undefined,
}
use sistemas_operativos_fiub.Kern.Syscall.{
  Reply, replies, refuses, no_curenv, sys_get_priority, sys_set_priority,
}
use sistemas_operativos_fiub.Kern.Syscall.Envs.{
  zero_after, sys_cputs, sys_getenvid, sys_env_destroy, sys_exofork, sys_env_set_status,
  sys_env_set_pgfault_upcall,
}
use sistemas_operativos_fiub.Kern.Syscall.Pages.{sys_page_alloc, sys_page_map, sys_page_unmap}
use sistemas_operativos_fiub.Kern.Syscall.Ipc.{sys_ipc_try_send, sys_ipc_recv}

-- The answer of a call on the priority; -1 is -E_UNSPECIFIED.
unfoldable pub from_reply : Machine → Reply → Call ℕ
from_reply m (replies n k) = returns n (record m { kern = k })
from_reply m (refuses k) = fails e_unspecified (record m { kern = k })
from_reply m no_curenv = undefined

-- The numbers of the calls are those of inc/syscall.h.
unfoldable pub syscall : (Kernel → Outcome) → ℕ → Machine → ℕ → ℕ → ℕ → ℕ → ℕ → ℕ → Call ℕ
syscall sched_yield input m syscallno a1 a2 a3 a4 a5 =
    if syscallno == 0
    then zero_after (sys_cputs sched_yield m a1 a2)
    else if syscallno == 1
    then returns input m
    else if syscallno == 2
    then sys_getenvid m
    else if syscallno == 3
    then sys_env_destroy sched_yield m a1
    else if syscallno == 4
    then sys_page_alloc m a1 a2 a3
    else if syscallno == 5
    then sys_page_map m a1 a2 a3 a4 a5
    else if syscallno == 6
    then sys_page_unmap m a1 a2
    else if syscallno == 7
    then sys_exofork m
    else if syscallno == 8
    then sys_env_set_status m a1 a2
    else if syscallno == 9
    then sys_env_set_pgfault_upcall sched_yield m a1 a2
    else if syscallno == 10
    then leaves (sched_yield m.kern) m.phys
    else if syscallno == 11
    then sys_ipc_try_send m a1 a2 a3 a4
    else if syscallno == 12
    then sys_ipc_recv sched_yield m a1
    else if syscallno == 13
    then from_reply m (sys_get_priority m.kern)
    else if syscallno == 14
    then from_reply m (sys_set_priority m.kern a1)
    else fails e_inval m
