-- ===== src/Kern/Sched.antt =====
-- 3-sched/kern/sched.c: the two schedulers, of which the build takes one, and the halt behind them.
pub mod Counts
pub mod RoundRobin
pub mod Progress
pub mod Switch
pub mod Boost
pub mod Select
pub mod Priority
use sistemas_operativos_fiub.Common.{
  inc_int, ℕ, zero, suc, ◌+◌, ◌-◌, ◌%◌, ◌^◌, Bool, true, false, ◌&&◌, ◌||◌, not, Option, none, some,
  ◌==◌, ltb, leb, if◌then◌else◌, update, first,
}
use sistemas_operativos_fiub.Kern.Env.{
  nenv, envx, Status, env_free, env_dying, is_free, is_dying, is_runnable, is_running, Env,
  SchedStats, Kernel, env_run, set_priority,
}

abbrev pub min_priority : ℕ
min_priority = 0

abbrev pub max_priority : ℕ
max_priority = 5

abbrev pub boost_interval : ℕ
boost_interval = 20

abbrev pub max_executions_slice : ℕ
max_executions_slice = 3

-- How a call ends, which never returns: it runs environment `i`, halts the processor, stays in the
-- monitor, or does something that C leaves undefined (an index out of range, an int that overflows).
pub data Outcome : Type 0 where
  runs : ℕ → Kernel → Outcome
  halts : Kernel → Outcome
  monitors : Outcome
  undefined : Outcome

-- The counts of `add_counts_to_sched`, for the index bits `i`.
unfoldable pub count_run : SchedStats → ℕ → Option SchedStats
count_run s i = elim (inc_int (s.process_execution_count i)) [
  | none ↦ none
  | some n ↦
      if ltb s.history_index nenv
      then some (record s {
        process_execution_count = update s.process_execution_count i n;
        history = update s.history s.history_index i;
        history_index = s.history_index + 1;
      })
      else none
]

unfoldable pub add_counts_to_sched : Kernel → ℕ → Option Kernel
add_counts_to_sched k index =
    if ltb index nenv
    then elim (count_run k.sched_stats (envx ((k.envs index).env_id))) [
      | none ↦ none
      | some s ↦ some (record k { sched_stats = s })
    ]
    else none

unfoldable pub count_call : Kernel → Option Kernel
count_call k = elim (inc_int (k.sched_stats.scheduler_calls)) [
  | none ↦ none
  | some n ↦ some (record k { sched_stats = record k.sched_stats { scheduler_calls = n } })
]

-- The index where the search starts.
unfoldable pub start_index : Kernel → ℕ
start_index k = elim k.curenv [ none ↦ 0 | some c ↦ envx ((k.envs c).env_id) ]

-- The test of `sched_halt`'s loop.
unfoldable pub is_alive : Kernel → ℕ → Bool
is_alive k i = let s = (k.envs i).env_status in is_runnable s || is_running s || is_dying s

unfoldable pub sched_halt : Kernel → Outcome
sched_halt k = elim (first (is_alive k) nenv 0) [
  | none ↦ monitors
  | some i ↦ halts (record k { curenv = none })
]

-- The end of `sched_yield`: a current environment that still runs goes on.
unfoldable pub keep_or_halt : Kernel → Outcome
keep_or_halt k = elim k.curenv [
  | none ↦ sched_halt k
  | some c ↦ if is_running ((k.envs c).env_status) then runs c (env_run k c) else sched_halt k
]

-- The test of the loop of the round-robin search, in its round `i`.
unfoldable pub is_candidate : Kernel → ℕ → ℕ → Bool
is_candidate k start i = is_runnable ((k.envs ((start + i) % nenv)).env_status)

-- The search and what follows it under SCHED_ROUND_ROBIN.
unfoldable pub round_robin : Kernel → Outcome
round_robin k = elim (first (is_candidate k (start_index k)) nenv 0) [
  | none ↦ keep_or_halt k
  | some i ↦
      let index = (start_index k + i) % nenv in
      elim (add_counts_to_sched k index) [
        | none ↦ undefined
        | some k' ↦ runs index (env_run k' index)
      ]
]

-- `sched_yield` under SCHED_ROUND_ROBIN
unfoldable pub sched_yield_round_robin : Kernel → Outcome
sched_yield_round_robin k = elim (count_call k) [ none ↦ undefined | some k' ↦ round_robin k' ]

unfoldable pub boost_env : Kernel → ℕ → Kernel
boost_env k i =
    let e = k.envs i in
    if not (is_free e.env_status) && ltb e.env_priority max_priority
    then set_priority k i (e.env_priority + 1)
    else k

-- The loop of `boost_all_envs` over `n` indices from `i`.
unfoldable pub boost_envs : ℕ → ℕ → Kernel → Kernel
boost_envs zero i k = k
boost_envs (suc n) i k = boost_envs n (suc i) (boost_env k i)

unfoldable pub boost_all_envs : Kernel → Kernel
boost_all_envs k = boost_envs nenv 0 k

-- Both locals of the search by priority.
pub record Best : Type 0 where
  pub env_best_priority : Option ℕ  -- the environment's index
  pub best_priority : ℕ

unfoldable pub is_better : Kernel → ℕ → Best → Bool
is_better k index b = elim b.env_best_priority [
  | none ↦ true
  | some j ↦ ltb b.best_priority ((k.envs index).env_priority)
]

unfoldable pub consider : Kernel → ℕ → Best → Best
consider k index b =
    if is_runnable ((k.envs index).env_status) && is_better k index b
    then record { env_best_priority = some index; best_priority = (k.envs index).env_priority }
    else b

-- `n` rounds of the search from round `i`.
unfoldable pub select : Kernel → ℕ → ℕ → ℕ → Best → Best
select k start zero i b = b
select k start (suc n) i b = select k start n (suc i) (consider k ((start + i) % nenv) b)

abbrev pub no_best : Best
no_best = record { env_best_priority = none; best_priority = min_priority }

-- The boost at the top, once enough calls were made.
unfoldable pub maybe_boost : Kernel → Option Kernel
maybe_boost k =
    if leb boost_interval (k.sched_stats.scheduler_calls)
    then (let b = boost_all_envs k in
        elim (inc_int (b.sched_stats.total_boots)) [
          | none ↦ none
          | some n ↦ some (record b { sched_stats = record b.sched_stats { total_boots = n } })
        ])
    else some k

-- A third execution lowers the priority; the count is read at the environment's id.
unfoldable pub lower_priority : Kernel → ℕ → Kernel
lower_priority k i =
    let e = k.envs i in
    if k.sched_stats.process_execution_count e.env_id % max_executions_slice == 0
      && ltb min_priority e.env_priority
    then set_priority k i (e.env_priority - 1)
    else k

-- The search and what follows it under SCHED_PRIORITIES. The counts are kept at the environment's
-- id, and an id out of their range is found by `add_counts_to_sched` first.
unfoldable pub priorities : Kernel → Outcome
priorities k = elim ((select k (start_index k) nenv 0 no_best).env_best_priority) [
  | none ↦ keep_or_halt k
  | some i ↦ elim (add_counts_to_sched k ((k.envs i).env_id)) [
    | none ↦ undefined
    | some k' ↦ let l = lower_priority k' i in runs i (env_run l i)
  ]
]

-- `sched_yield` under SCHED_PRIORITIES. The start is computed before the boost, which changes
-- nothing that it reads.
unfoldable pub sched_yield_priorities : Kernel → Outcome
sched_yield_priorities k = elim (count_call k) [
  | none ↦ undefined
  | some k' ↦ elim (maybe_boost k') [ none ↦ undefined | some b ↦ priorities b ]
]
