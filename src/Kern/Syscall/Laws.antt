-- ===== src/Kern/Syscall/Laws.antt =====
-- 3-sched/kern/syscall.c: what a caller can do to priorities.
use sistemas_operativos_fiub.Common.{ℕ, ◌≡◌, ◌⊎◌, ◌<◌, ◌≤◌, some, arith, update}
use sistemas_operativos_fiub.Kern.Env.{Kernel, set_priority}
use sistemas_operativos_fiub.Kern.Sched.{max_priority}
use sistemas_operativos_fiub.Kern.Syscall.{replies, refuses, sys_get_priority, sys_set_priority}

-- A caller sets its priority to a number below the limit that is not above its priority, which a
-- get then gives; any other argument, a negative one included, fails and changes nothing.
pub sys_set_priority_lem :
    (k : Kernel) (c p : ℕ)
    → k.curenv ≡ some c
    → (sys_set_priority k p ≡ refuses k) × ((max_priority ≤ p) ⊎ ((k.envs c).env_priority < p))
      ⊎ ((k' : Kernel) × (sys_set_priority k p ≡ replies p k')
          × (p < max_priority)
          × (p ≤ (k.envs c).env_priority)
          × (sys_get_priority k' ≡ replies p k'))
unfolding sys_set_priority sys_get_priority set_priority update
sys_set_priority_lem k c p e = ground (arith, e)

-- No call raises a priority, of the caller or of another environment.
pub sys_set_priority-no_raise :
    (k k' : Kernel) (p q j : ℕ)
    → sys_set_priority k p ≡ replies q k'
    → (k'.envs j).env_priority ≤ (k.envs j).env_priority
unfolding sys_set_priority set_priority update
sys_set_priority-no_raise k k' p q j e = ground (arith, e)
