-- ===== src/Kern/Syscall.antt =====
-- 3-sched/kern/syscall.c: the system calls on the caller's priority.
pub mod Laws
pub mod Envs
pub mod Pages
pub mod Ipc
pub mod Dispatch
pub mod Permission
pub mod SameIds
pub mod Messages
pub mod Sharing
pub mod Fork
use sistemas_operativos_fiub.Common.{ℕ, ◌^◌, ◌&&◌, none, some, ltb, leb, if◌then◌else◌}
use sistemas_operativos_fiub.Kern.Env.{Env, Kernel, set_priority}
use sistemas_operativos_fiub.Kern.Sched.{max_priority}

-- What a call gives: a number that is not negative, -1, or it follows a null `curenv`.
pub data Reply : Type 0 where
  replies : ℕ → Kernel → Reply
  refuses : Kernel → Reply
  no_curenv : Reply

unfoldable pub sys_get_priority : Kernel → Reply
sys_get_priority k = elim k.curenv [
  | none ↦ no_curenv
  | some c ↦ replies ((k.envs c).env_priority) k
]

-- The argument is the 32-bit pattern of an int, which is below 2 ^ 31 where the int is not
-- negative.
unfoldable pub sys_set_priority : Kernel → ℕ → Reply
sys_set_priority k new_priority = elim k.curenv [
  | none ↦ no_curenv
  | some c ↦
      if ltb new_priority (2 ^ 31)
        && (ltb new_priority max_priority && leb new_priority ((k.envs c).env_priority))
      then replies new_priority (set_priority k c new_priority)
      else refuses k
]
