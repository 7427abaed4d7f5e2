-- ===== src/Kern/Syscall/Permission.antt =====
-- 3-sched/kern/syscall.c: who may act on an environment.
use sistemas_operativos_fiub.Common.{ℕ, ◌≡◌, ◌≢◌, Bool, true, false, some, arith, refl}
use sistemas_operativos_fiub.Kern.Env.{envx, Status, Kernel, envid2env, check_permission}
use sistemas_operativos_fiub.Kern.Sched.{Outcome}
use sistemas_operativos_fiub.Kern.Machine.{Machine, e_bad_env, fails, returns, and_then}
use sistemas_operativos_fiub.Kern.Syscall.Envs.{
  target, settable_status, sys_env_destroy, sys_env_set_status, sys_env_set_pgfault_upcall,
}
use sistemas_operativos_fiub.Kern.Syscall.Pages.{
  is_bad_va, sys_page_alloc, sys_page_map, sys_page_unmap,
}
use sistemas_operativos_fiub.Kern.Syscall.Dispatch.{syscall}

target-foreign :
    (m : Machine) (envid c : ℕ)
    → m.kern.curenv ≡ some c
    → envid ≢ 0
    → envx envid ≢ c
    → (m.kern.envs (envx envid)).env_parent_id ≢ (m.kern.envs c).env_id
    → target m envid true ≡ fails e_bad_env m
unfolding target envid2env check_permission
target-foreign m envid c cur nonzero other foreign = ground (arith, cur)

target_self : (m : Machine) (c : ℕ) (b : Bool) → m.kern.curenv ≡ some c → target m 0 b ≡ returns c m
unfolding target envid2env
target_self m c b cur = ground (arith, cur)

set_status-foreign :
    (m : Machine) (envid status : ℕ) (s : Status)
    → settable_status status ≡ some s
    → target m envid true ≡ fails e_bad_env m
    → sys_env_set_status m envid status ≡ fails e_bad_env m
unfolding sys_env_set_status and_then
set_status-foreign m envid status s settable t = rw (sys_env_set_status, settable, t) refl

-- An environment that is neither the caller nor its child is out of reach: each call that would
-- destroy it, set its status, its pages or its handler, or map a page from it or into it, fails with
-- -E_BAD_ENV and changes nothing, for arguments that are right otherwise.
pub syscall-foreign :
    (sched_yield : Kernel → Outcome) (input : ℕ) (m : Machine) (envid c status func va va2 perm : ℕ)
    (s : Status)
    → m.kern.curenv ≡ some c
    → envid ≢ 0
    → envx envid ≢ c
    → (m.kern.envs (envx envid)).env_parent_id ≢ (m.kern.envs c).env_id
    → settable_status status ≡ some s
    → is_bad_va va ≡ false
    → is_bad_va va2 ≡ false
    → (syscall sched_yield input m 3 envid 0 0 0 0 ≡ fails e_bad_env m)
      × (syscall sched_yield input m 4 envid va perm 0 0 ≡ fails e_bad_env m)
      × (syscall sched_yield input m 5 envid va 0 va2 perm ≡ fails e_bad_env m)
      × (syscall sched_yield input m 5 0 va envid va2 perm ≡ fails e_bad_env m)
      × (syscall sched_yield input m 6 envid va 0 0 0 ≡ fails e_bad_env m)
      × (syscall sched_yield input m 8 envid status 0 0 0 ≡ fails e_bad_env m)
      × (syscall sched_yield input m 9 envid func 0 0 0 ≡ fails e_bad_env m)
unfolding syscall sys_env_destroy sys_env_set_status sys_env_set_pgfault_upcall sys_page_alloc
    sys_page_map sys_page_unmap and_then
syscall-foreign sched_yield input m envid c status func va va2 perm s cur nonzero other foreign
      settable good good2 =
    let t = target-foreign m envid c cur nonzero other foreign in
    let self = target_self m c true cur in
    (
      rw t refl,
      rw (good, t) refl,
      rw (good, good2, t) refl,
      rw (good, good2, self, and_then, t) refl,
      rw (good, t) refl,
      set_status-foreign m envid status s settable t,
      rw t refl,
    )
