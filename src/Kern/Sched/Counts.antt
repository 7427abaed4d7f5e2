-- ===== src/Kern/Sched/Counts.antt =====
-- 3-sched/kern/sched.c: the statistics, which no choice of the scheduler depends on while they have
-- room.
use sistemas_operativos_fiub.Common.{
  inc_int, ℕ, ◌+◌, ◌^◌, ◌≡◌, ◌<◌, some, arith, Option-cases, inl, inr,
}
use sistemas_operativos_fiub.Kern.Env.{nenv, envx, Kernel, SchedStats}
use sistemas_operativos_fiub.Kern.Sched.{count_run, add_counts_to_sched, count_call}

-- No counter is at its end, and the history has a free entry.
pub record CanCount (k : Kernel) : Type 0 where
  pub calls : k.sched_stats.scheduler_calls + 1 < 2 ^ 31
  pub runs_left : (i : ℕ) → k.sched_stats.process_execution_count i + 1 < 2 ^ 31
  pub history_left : k.sched_stats.history_index < nenv

-- The statistics have room for a run, whatever the number of calls.
pub record CanRun (s : SchedStats) : Type 0 where
  pub runs_room : (i : ℕ) → s.process_execution_count i + 1 < 2 ^ 31
  pub history_room : s.history_index < nenv

count_run_lem : (s : SchedStats) (i : ℕ) → CanRun s → (s' : SchedStats) × (count_run s i ≡ some s')
unfolding count_run inc_int
count_run_lem s i c = elim (Option-cases (count_run s i)) [
  | inl e ↦ ground (arith, c, c.runs_room i)
  | inr (s', e) ↦ (s', e)
]

pub add_counts_lem :
    (k : Kernel) (index : ℕ)
    → CanRun k.sched_stats
    → index < nenv
    → (s : SchedStats) × (add_counts_to_sched k index ≡ some (record k { sched_stats = s }))
unfolding add_counts_to_sched
add_counts_lem k index c inside =
    let (s, e) = count_run_lem k.sched_stats (envx ((k.envs index).env_id)) c in
    (s, ground (arith, e))

pub count_call_lem :
    (k : Kernel)
    → CanCount k
    → (s : SchedStats) × (count_call k ≡ some (record k { sched_stats = s })) × CanRun s
unfolding count_call inc_int
count_call_lem k c = (
  record k.sched_stats { scheduler_calls = k.sched_stats.scheduler_calls + 1 },
  ground (arith, c),
  record { runs_room = c.runs_left; history_room = c.history_left },
)
