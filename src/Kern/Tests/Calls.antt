-- ===== src/Kern/Tests/Calls.antt =====
-- Small machines, and the theorems on environments and calls there.
use sistemas_operativos_fiub.Common.{
  ℕ, ◌+◌, ◌*◌, ◌≡◌, ◌⊎◌, refl, true, false, false, some, List, [], ◌∷◌, not, ◌&&◌, ◌==◌,
  if◌then◌else◌, arith,
}
use sistemas_operativos_fiub.Kern.Words.{
  utop, pgnum, pdx, ptx, pte_p, pte_w, or_flag, pgsize, has_flag,
}
use sistemas_operativos_fiub.Kern.Env.{
  env_free, nenv, envx, Env, env_runnable, env_init, envid2env, check_permission,
}
use sistemas_operativos_fiub.Kern.Env.Pool.{IsEnvPool, in_order, env_init-IsEnvPool}
use sistemas_operativos_fiub.Kern.Sched.{sched_yield_round_robin}
use sistemas_operativos_fiub.Kern.Pmap.View.{pte_at}
use sistemas_operativos_fiub.Kern.Pmap.Insert.{CanMap}
use sistemas_operativos_fiub.Kern.Machine.{
  Machine, e_bad_env, e_no_mem, e_no_free_env, e_ipc_not_recv, returns, fails, env_alloc, and_then,
}
use sistemas_operativos_fiub.Kern.Machine.Alloc.{IsNew, env_alloc_lem}
use sistemas_operativos_fiub.Kern.Syscall.Envs.{target, with_curenv, settable_status}
use sistemas_operativos_fiub.Kern.Syscall.Pages.{is_bad_va, user_perm, sys_page_map}
use sistemas_operativos_fiub.Kern.Syscall.Ipc.{sys_ipc_try_send, try_send, deliver, set_ipc_perm}
use sistemas_operativos_fiub.Kern.Syscall.Dispatch.{syscall}
use sistemas_operativos_fiub.Kern.Syscall.Permission.{syscall-foreign}
use sistemas_operativos_fiub.Kern.Syscall.Messages.{HasMessage, sys_ipc_try_send-once}
use sistemas_operativos_fiub.Kern.Syscall.Sharing.{IsRequest, sys_page_map_lem}
use sistemas_operativos_fiub.Kern.Syscall.Envs.{sys_exofork}
use sistemas_operativos_fiub.Kern.Syscall.Fork.{IsChild, sys_exofork_lem}
use sistemas_operativos_fiub.Kern.Tests.{env_at, kernel}
use sistemas_operativos_fiub.Kern.Tests.Memory.{
  memory, free_pages, memory-IsPool, memory-IsSpace, empty-IsSpace, mapped_word, empty-IsHeld,
  page_six-CanMap,
}

flags : (has_flag 7 pte_w && not (has_flag 0x6007 pte_w)) ≡ false
unfolding has_flag
flags = refl

page_number : pgnum 0x6007 ≡ 6
unfolding pgnum
page_number = refl

-- Environment 0 calls, with the directory in page 4; 1 is its child, with the directory in page 7, and
-- waits for a message; 2 is the child of another one.
abbrev machine_envs : ℕ → Env
machine_envs i =
    if i == 0
    then record (env_at 0) { env_pgdir = some 4 }
    else if i == 1
    then record (env_at 1) { env_pgdir = some 7; env_ipc_recving = true }
    else record (env_at 2) { env_parent_id = 1 }

abbrev machine : Machine
machine = record { kern = record kernel { envs = machine_envs }; phys = memory; kern_pgdir = 3 }

-- A machine that has just started.
abbrev started : Machine
started = record { kern = env_init kernel; phys = memory; kern_pgdir = 3 }

env_alloc_lem_example :
    ((in_order nenv 0 ≡ []) × (env_alloc started 0 ≡ fails e_no_free_env started))
    ⊎ (((free_pages ≡ []) × (env_alloc started 0 ≡ fails e_no_mem started))
        ⊎ ((i : ℕ) × (p : ℕ) × (is : List ℕ) × (ps : List ℕ) × (m2 : Machine) × (in_order nenv 0
              ≡ i ∷ is)
            × (free_pages ≡ p ∷ ps)
            × (env_alloc started 0 ≡ returns i m2)
            × IsNew started m2 i p 0 is ps))
env_alloc_lem_example =
    env_alloc_lem started 0 (in_order nenv 0) free_pages (env_init-IsEnvPool kernel) memory-IsPool
      ((λ e. omega arith), ((λ e. omega arith), tt)) (λ d h. refl)

syscall-foreign_example :
    (syscall sched_yield_round_robin 0 machine 3 4098 0 0 0 0 ≡ fails e_bad_env machine)
    × (syscall sched_yield_round_robin 0 machine 4 4098 0x1000 7 0 0 ≡ fails e_bad_env machine)
    × (syscall sched_yield_round_robin 0 machine 5 4098 0x1000 0 0x2000 7 ≡ fails e_bad_env machine)
    × (syscall sched_yield_round_robin 0 machine 5 0 0x1000 4098 0x2000 7 ≡ fails e_bad_env machine)
    × (syscall sched_yield_round_robin 0 machine 6 4098 0x1000 0 0 0 ≡ fails e_bad_env machine)
    × (syscall sched_yield_round_robin 0 machine 8 4098 2 0 0 0 ≡ fails e_bad_env machine)
    × (syscall sched_yield_round_robin 0 machine 9 4098 0x3000 0 0 0 ≡ fails e_bad_env machine)
unfolding envx settable_status is_bad_va
syscall-foreign_example =
    syscall-foreign sched_yield_round_robin 0 machine 4098 0 2 0x3000 0x1000 0x2000 7 env_runnable
      refl (λ e. omega (arith, e)) (λ e. omega (arith, e)) (λ e. omega (arith, e)) refl refl refl

-- The machine after the message 42 to environment 1.
abbrev sent : Machine
sent = deliver (set_ipc_perm machine 1 0) 0 1 42

sends_word : sys_ipc_try_send machine 4097 42 utop 0 ≡ returns 0 sent
unfolding sys_ipc_try_send target envid2env and_then with_curenv try_send envx
sends_word = refl

sys_ipc_try_send-once_example :
    (dst : ℕ) × (c : ℕ) × (target machine 4097 false ≡ returns dst machine)
    × (machine.kern.curenv ≡ some c)
    × HasMessage sent dst ((machine.kern.envs c).env_id) 42
    × ((value2 srcva2 perm2 : ℕ)
        → sys_ipc_try_send sent 4097 value2 srcva2 perm2 ≡ fails e_ipc_not_recv sent)
    × ((m3 : Machine) (envid2 c2 value2 srcva2 perm2 : ℕ)
        → (m3.kern.envs dst).env_ipc_recving ≡ (sent.kern.envs dst).env_ipc_recving
        → m3.kern.curenv ≡ some c2
        → target m3 envid2 false ≡ returns dst m3
        → sys_ipc_try_send m3 envid2 value2 srcva2 perm2 ≡ fails e_ipc_not_recv m3)
sys_ipc_try_send-once_example = sys_ipc_try_send-once machine sent 4097 42 utop 0 0 sends_word

machine-IsRequest : IsRequest machine 0 0x1000 4097 0x2000 0 1 4 7 free_pages
unfolding is_bad_va target envid2env check_permission envx pte_at pgnum pdx ptx
machine-IsRequest = record {
  good_source = refl;
  good_target = refl;
  source = refl;
  destination = refl;
  source_directory = refl;
  destination_directory = refl;
  space = memory-IsSpace;
  mapped = λ e. omega (arith, e);
  inside = omega arith;
}

sys_page_map_lem_example :
    ((m2 : Machine) × (sys_page_map machine 0 0x1000 4097 0x2000 7 ≡ returns 0 m2)
      × (m2.kern ≡ machine.kern)
      × (pte_at m2.phys 7 0x2000 ≡ (
          if pgnum 0x2000 == pgnum 0x2000
          then pgnum (pte_at memory 4 0x1000) * pgsize + or_flag (user_perm 7) pte_p
          else pte_at memory 7 0x2000)))
    ⊎ ((sys_page_map machine 0 0x1000 4097 0x2000 7 ≡ fails e_no_mem machine) × (free_pages ≡ []))
sys_page_map_lem_example =
    sys_page_map_lem machine 0 0x1000 4097 0x2000 7 0 1 4 7 0x2000 free_pages machine-IsRequest
      writable memory-IsPool empty-IsSpace empty-IsHeld there (omega arith) (omega arith)
  where
    writable : (has_flag 7 pte_w && not (has_flag (pte_at memory 4 0x1000) pte_w)) ≡ false
    writable = rw mapped_word flags

    there : CanMap memory (pgnum (pte_at memory 4 0x1000)) free_pages
    there = rw (mapped_word, page_number) page_six-CanMap

-- Environment 0 calls, 1 is free and all the others are in use.
abbrev forking_envs : ℕ → Env
forking_envs i =
    if i == 0
    then env_at 0
    else if i == 1
    then record (env_at 1) { env_status = env_free }
    else env_at 2

abbrev forking : Machine
forking = record {
  kern = record kernel { envs = forking_envs; env_free_list = some 1 };
  phys = memory;
  kern_pgdir = 3;
}

abbrev free_envs : List ℕ
free_envs = 1 ∷ []

forking-IsEnvPool : IsEnvPool forking.kern free_envs
forking-IsEnvPool = record {
  chain = (refl, tt, refl);
  inside = (omega arith, tt);
  free = (refl, tt);
  used = λ i h o. ground arith;
}

sys_exofork_lem_example :
    ((free_envs ≡ []) × (sys_exofork forking ≡ fails e_no_free_env forking))
    ⊎ (((free_pages ≡ []) × (sys_exofork forking ≡ fails e_no_mem forking))
        ⊎ ((i : ℕ) × (p : ℕ) × (is : List ℕ) × (ps : List ℕ) × (m2 : Machine) × (free_envs ≡ i ∷ is)
            × (free_pages ≡ p ∷ ps)
            × (sys_exofork forking ≡ returns ((m2.kern.envs i).env_id) m2)
            × IsChild forking m2 0 i p is ps))
sys_exofork_lem_example =
    sys_exofork_lem forking 0 free_envs free_pages refl (λ e. cc) (λ j. ground arith)
      forking-IsEnvPool memory-IsPool ((λ e. omega arith), ((λ e. omega arith), tt)) (λ d h. refl)
