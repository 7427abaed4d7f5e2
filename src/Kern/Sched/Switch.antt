-- ===== src/Kern/Sched/Switch.antt =====
-- 3-sched/kern/sched.c: what holds of the environments when `sched_yield` is done.
use sistemas_operativos_fiub.Common.{
  inc_int, ℕ, ◌≡◌, ◌+◌, refl, ◌≢◌, ◌%◌, none, some, arith, Option-cases, Bool-cases, inl, inr,
  first,
}
use sistemas_operativos_fiub.Kern.Env.{nenv, envx, env_running, is_running, Kernel, env_run}
use sistemas_operativos_fiub.Kern.Env.Run.{OnlyCurrent, env_run-OnlyCurrent}
use sistemas_operativos_fiub.Kern.Sched.{
  Outcome, runs, halts, monitors, undefined, add_counts_to_sched, count_run, count_call,
  start_index, is_alive, is_candidate, round_robin, sched_yield_round_robin, keep_or_halt,
  sched_halt,
}

-- The environment that is run is the current one and runs, and no other does; on a processor that
-- halts there is no current one and none runs.
abbrev pub Settled : Outcome → Type 0
Settled (runs i k) = OnlyCurrent k × (k.curenv ≡ some i) × ((k.envs i).env_status ≡ env_running)
Settled (halts k) = (k.curenv ≡ none) × ((j : ℕ) → (k.envs j).env_status ≢ env_running)
Settled monitors = Unit {0}
Settled undefined = Unit {0}

sched_halt-Settled :
    (k : Kernel) → ((j : ℕ) → (k.envs j).env_status ≢ env_running) → Settled (sched_halt k)
unfolding sched_halt
sched_halt-Settled k none_run = elim (Option-cases (first (is_alive k) nenv 0)) [
  | inl e ↦ rw (e, sched_halt) tt
  | inr (i, e) ↦ rw (e, sched_halt) (refl, none_run)
]

keep_or_halt-Settled : (k : Kernel) → OnlyCurrent k → Settled (keep_or_halt k)
unfolding keep_or_halt
keep_or_halt-Settled k o = elim (Option-cases k.curenv) [
  | inl e ↦ rw (e, keep_or_halt) (sched_halt-Settled k (λ j r. ground (arith, e, o j r)))
  | inr (c, e) ↦ elim (Bool-cases (is_running ((k.envs c).env_status))) [
    | inl r ↦ rw (e, r, keep_or_halt) (env_run-OnlyCurrent k c o)
    | inr r ↦ rw (e, r, keep_or_halt) (sched_halt-Settled k (λ j s. ground (arith, e, o j s)))
  ]
]

OnlyCurrent-add_counts :
    (k : Kernel) (i : ℕ) (k' : Kernel)
    → add_counts_to_sched k i ≡ some k'
    → OnlyCurrent k
    → OnlyCurrent k'
unfolding add_counts_to_sched
OnlyCurrent-add_counts k i k' e o j r =
    elim (Option-cases (count_run k.sched_stats (envx ((k.envs i).env_id)))) [
      | inl f ↦ ground (arith, e, f)
      | inr (s, f) ↦ ground (arith, e, f, o j)
    ]

round_robin-Settled : (k : Kernel) → OnlyCurrent k → Settled (round_robin k)
unfolding round_robin
round_robin-Settled k o =
    let start = start_index k in
    elim (Option-cases (first (is_candidate k start) nenv 0)) [
      | inl e ↦ rw (e, round_robin) (keep_or_halt-Settled k o)
      | inr (r, e) ↦ rw (e, round_robin) (counted ((start + r) % nenv))
    ]
  where
    counted :
        (i : ℕ)
        → Settled
            (elim (add_counts_to_sched k i) [ none ↦ undefined | some k' ↦ runs i (env_run k' i) ])
    counted i = elim (Option-cases (add_counts_to_sched k i)) [
      | inl e ↦ rw e tt
      | inr (k', e) ↦ rw e (env_run-OnlyCurrent k' i (OnlyCurrent-add_counts k i k' e o))
    ]

-- If no environment but the current one runs, then when the round-robin `sched_yield` is done the
-- one that it runs is the current one and the only one that runs, and none runs when it halts.
pub sched_yield_round_robin-Settled :
    (k : Kernel) → OnlyCurrent k → Settled (sched_yield_round_robin k)
unfolding sched_yield_round_robin count_call
sched_yield_round_robin-Settled k o =
    elim (Option-cases (inc_int (k.sched_stats.scheduler_calls))) [
      | inl e ↦ rw (e, sched_yield_round_robin) tt
      | inr (n, e) ↦ rw (e, sched_yield_round_robin) (round_robin-Settled (called n) o)
    ]
  where
    called : ℕ → Kernel
    called n = record k { sched_stats = record k.sched_stats { scheduler_calls = n } }
