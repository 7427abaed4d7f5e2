-- ===== src/Kern/Env/Ids.antt =====
-- 3-sched/kern/env.c: environment ids lead back to their slot and are not used twice in a row, and
-- `envid2env` accepts a live id alone.
use sistemas_operativos_fiub.Common.{ℕ, ◌^◌, ◌≡◌, ◌≢◌, ◌<◌, ◌≤◌, ◌⊎◌, ◌↔◌, true, some, arith}
use sistemas_operativos_fiub.Kern.Env.{
  nenv, envx, env_free, Kernel, found, check_permission, envid2env, next_env_id,
}

-- The id that a slot gets is a positive int with a generation in it, its index bits are the slot,
-- and it is not the id that the slot had.
pub next_env_id_lem :
    (old i : ℕ)
    → old < 2 ^ 31
    → i < nenv
    → (envx (next_env_id old i) ≡ i)
      × (nenv ≤ next_env_id old i)
      × (next_env_id old i < 2 ^ 31)
      × (next_env_id old i ≢ old)
unfolding next_env_id envx
next_env_id_lem old i small inside = ground arith

-- With the permission check, a nonzero id leads to environment `i` exactly if `i` is the slot of
-- its index bits, in use under this very id, and is the current environment or a child of it.
pub envid2env-found :
    (k : Kernel) (envid c i : ℕ)
    → k.curenv ≡ some c
    → envid ≢ 0
    → (envid2env k envid true ≡ found (some i)) ↔ (
        (i ≡ envx envid)
        × ((k.envs i).env_status ≢ env_free)
        × ((k.envs i).env_id ≡ envid)
        × ((i ≡ c) ⊎ ((k.envs i).env_parent_id ≡ (k.envs c).env_id)))
unfolding envid2env check_permission
envid2env-found k envid c i cur nonzero = (λ e. ground (arith, cur), λ e. ground (arith, cur))
