-- ===== src/Kern/Env/Run.antt =====
-- 3-sched/kern/env.c: who runs after `env_run`.
use sistemas_operativos_fiub.Common.{
  ℕ, ◌≡◌, refl, ◌≢◌, ◌⊎◌, inl, inr, some, arith, update, Option-cases,
}
use sistemas_operativos_fiub.Kern.Env.{
  env_running, env_runnable, Kernel, set_status, preempt, env_run,
}

-- No environment but the current one runs.
abbrev pub OnlyCurrent : Kernel → Type 0
OnlyCurrent k = (j : ℕ) → (k.envs j).env_status ≡ env_running → k.curenv ≡ some j

preempt-no_running :
    (k : Kernel) (j : ℕ) → OnlyCurrent k → ((preempt k).envs j).env_status ≢ env_running
unfolding preempt set_status update
preempt-no_running k j o r = elim (Option-cases k.curenv) [
  | inl e ↦ ground (arith, e, o j)
  | inr (c, e) ↦ ground (arith, e, o j)
]

-- What `env_run` leaves of the environments that it does not choose.
pub env_run-other :
    (k : Kernel) (i j : ℕ)
    → i ≢ j
    → ((env_run k i).envs j ≡ k.envs j)
      ⊎ ((k.curenv ≡ some j)
          × ((k.envs j).env_status ≡ env_running)
          × ((env_run k i).envs j ≡ record (k.envs j) { env_status = env_runnable }))
unfolding env_run preempt set_status update
env_run-other k i j ne = ground arith

-- If no environment but the current one runs, then after `env_run` the chosen one runs, and it
-- is the current one, and still no other runs.
pub env_run-OnlyCurrent :
    (k : Kernel) (i : ℕ)
    → OnlyCurrent k
    → OnlyCurrent (env_run k i)
      × ((env_run k i).curenv ≡ some i)
      × (((env_run k i).envs i).env_status ≡ env_running)
unfolding env_run update
env_run-OnlyCurrent k i o = (λ j r. ground (arith, preempt-no_running k j o), refl, ground arith)

pub env_run-env_id : (k : Kernel) (i j : ℕ) → ((env_run k i).envs j).env_id ≡ (k.envs j).env_id
unfolding env_run preempt set_status update
env_run-env_id k i j = ground arith
