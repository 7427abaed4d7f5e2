-- ===== src/Kern/Sched/Progress.antt =====
-- 3-sched/kern/sched.c: how a yield of the round-robin scheduler shortens the wait of the others.
use sistemas_operativos_fiub.Common.{ℕ, ◌≡◌, ◌≢◌, ◌⊎◌, ◌<◌, ◌≤◌, inl, inr, some, arith, ◌∙◌, ap}
use native.Mathlib.Decide.{ℕ_discrete}
use sistemas_operativos_fiub.Kern.Env.{
  nenv, envx, env_running, env_runnable, Kernel, SchedStats, env_run,
}
use sistemas_operativos_fiub.Kern.Env.Run.{env_run-other, env_run-env_id}
use sistemas_operativos_fiub.Kern.Sched.{runs, start_index, sched_yield_round_robin}
use sistemas_operativos_fiub.Kern.Sched.Counts.{CanCount}
use sistemas_operativos_fiub.Kern.Sched.RoundRobin.{
  rounds, start_index-below, CanBeRun, IsNext, sched_yield_round_robin-IsNext,
}

stats-IsNext :
    (k : Kernel) (s : SchedStats) (i : ℕ) → IsNext k i → IsNext (record k { sched_stats = s }) i
unfolding start_index
stats-IsNext k s i n = record {
  can = record { inside = n.can.inside; runnable = n.can.runnable };
  next = λ j c. n.next j (record { inside = c.inside; runnable = c.runnable });
}

start_index-env_run :
    (k : Kernel) (i : ℕ) → envx ((k.envs i).env_id) ≡ i → start_index (env_run k i) ≡ i
unfolding start_index env_run
start_index-env_run k i id = ap envx (env_run-env_id k i i) ∙ id

-- A choice brings the others nearer.
round_robin-progress :
    (k : Kernel) (i j : ℕ)
    → IsNext k i
    → envx ((k.envs i).env_id) ≡ i
    → ¬ CanBeRun k (start_index k)
    → CanBeRun k j
    → i ≢ j
    → CanBeRun (env_run k i) j × (rounds (start_index (env_run k i)) j < rounds (start_index k) j)
unfolding rounds
round_robin-progress k i j next id not_start can ne = (
  record { inside = can.inside; runnable = still (env_run-other k i j ne) },
  rw (start_index-env_run k i id) (nearer (next.next j can) next.can.inside can.inside not_same),
)
  where
    not_same : start_index k ≢ i
    not_same e = not_start (rw e next.can)

    still :
        ((env_run k i).envs j ≡ k.envs j)
          ⊎ ((k.curenv ≡ some j)
              × ((k.envs j).env_status ≡ env_running)
              × ((env_run k i).envs j ≡ record (k.envs j) { env_status = env_runnable }))
        → ((env_run k i).envs j).env_status ≡ env_runnable
    still (inl e) = rw e can.runnable
    still (inr (e, running, f)) = rw f

    nearer :
        rounds (start_index k) i ≤ rounds (start_index k) j
        → i < nenv
        → j < nenv
        → start_index k ≢ i
        → rounds i j < rounds (start_index k) j
    nearer le a b ne' = let c = start_index-below k in omega arith

-- While the counters have room, ids lead to their slots and the environment that the search starts
-- at cannot be run, the round-robin `sched_yield` runs an environment `j` that can be run, or it
-- brings `j` nearer: `j` can still be run, and the next search comes to it in an earlier round.
pub sched_yield_round_robin-progress :
    (k : Kernel) (j : ℕ)
    → CanCount k
    → ((i : ℕ) → i < nenv → envx ((k.envs i).env_id) ≡ i)
    → ¬ CanBeRun k (start_index k)
    → CanBeRun k j
    → (i : ℕ) × (k' : Kernel) × (sched_yield_round_robin k ≡ runs i k')
      × ((i ≡ j) ⊎ (CanBeRun k' j × (rounds (start_index k') j < rounds (start_index k) j)))
unfolding start_index
sched_yield_round_robin-progress k j c ids not_start can =
    let (i, s, e, next) = sched_yield_round_robin-IsNext k j c can in
    (
      i,
      env_run (record k { sched_stats = s }) i,
      e,
      elim (ℕ_discrete i j) [ yes same ↦ inl same | no ne ↦ inr (progress i s next ne) ],
    )
  where
    progress :
        (i : ℕ) (s : SchedStats)
        → IsNext k i
        → i ≢ j
        → let k' = env_run (record k { sched_stats = s }) i in
          CanBeRun k' j × (rounds (start_index k') j < rounds (start_index k) j)
    progress i s next ne =
        round_robin-progress (record k { sched_stats = s }) i j (stats-IsNext k s i next)
          (ids i next.can.inside)
          (λ b. not_start (record { inside = b.inside; runnable = b.runnable }))
          (record { inside = can.inside; runnable = can.runnable }) ne
