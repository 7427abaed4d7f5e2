-- ===== src/Kern/Sched/Boost.antt =====
-- 3-sched/kern/sched.c: what a boost does to every environment.
use sistemas_operativos_fiub.Common.{
  ℕ, zero, suc, ◌+◌, ◌≡◌, ◌≢◌, ◌<◌, ◌≤◌, ◌⊎◌, inl, ◌∙◌, refl, arith, update,
}
use native.Mathlib.Decide.{ℕ_discrete}
use sistemas_operativos_fiub.Kern.Env.{nenv, env_free, Env, Kernel, set_priority}
use sistemas_operativos_fiub.Kern.Sched.{max_priority, boost_env, boost_envs, boost_all_envs}

-- What a boost makes of an environment.
abbrev pub Boosted : Env → Env → Type 0
Boosted before after =
    ((before.env_status ≢ env_free)
      × (before.env_priority < max_priority)
      × (after ≡ record before { env_priority = before.env_priority + 1 }))
    ⊎ (((before.env_status ≡ env_free) ⊎ (max_priority ≤ before.env_priority)) × (after ≡ before))

boost_env_self : (k : Kernel) (i : ℕ) → Boosted (k.envs i) ((boost_env k i).envs i)
unfolding boost_env set_priority update
boost_env_self k i = ground arith

boost_env-other : (k : Kernel) (i j : ℕ) → i ≢ j → (boost_env k i).envs j ≡ k.envs j
unfolding boost_env set_priority update
boost_env-other k i j ne = ground arith

boost_envs-outside :
    (n i j : ℕ) (k : Kernel) → (j < i) ⊎ (i + n ≤ j) → (boost_envs n i k).envs j ≡ k.envs j
unfolding boost_envs
boost_envs-outside zero i j k o = refl
boost_envs-outside (suc n) i j k o =
    boost_envs-outside n (suc i) j (boost_env k i) (ground arith)
    ∙ boost_env-other k i j (omega arith)

boost_envs-inside :
    (n i j : ℕ) (k : Kernel) → i ≤ j → j < i + n → Boosted (k.envs j) ((boost_envs n i k).envs j)
unfolding boost_envs
boost_envs-inside zero i j k a b = absurd (omega arith)
boost_envs-inside (suc n) i j k a b = elim (ℕ_discrete i j) [
  | yes e ↦
      rw (← e, boost_envs-outside n (suc i) i (boost_env k i) (inl (omega arith)))
        (boost_env_self k i)
  | no ne ↦
      rw (← boost_env-other k i j ne)
        (boost_envs-inside n (suc i) j (boost_env k i) (omega arith) (omega arith))
]

-- A boost raises by one the priority of every environment of the table that is not free and is
-- below the limit, and leaves every other environment of the table as it is.
pub boost_all_envs_lem :
    (k : Kernel) (j : ℕ) → j < nenv → Boosted (k.envs j) ((boost_all_envs k).envs j)
unfolding boost_all_envs
boost_all_envs_lem k j inside = boost_envs-inside nenv 0 j k (omega arith) (omega arith)
