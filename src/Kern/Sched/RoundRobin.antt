-- ===== src/Kern/Sched/RoundRobin.antt =====
-- 3-sched/kern/sched.c: whom the round-robin scheduler chooses.
use sistemas_operativos_fiub.Common.{
  ℕ, ◌+◌, ◌-◌, ◌%◌, ◌≡◌, ◌<◌, ◌≤◌, inl, inr, true, some, arith, Option-cases, first, IsFirst,
  first-IsFirst, first-none, true≢false,
}
use native.Mathlib.Decide.{dec_lt}
use sistemas_operativos_fiub.Kern.Env.{nenv, envx, env_runnable, Kernel, SchedStats, env_run}
use sistemas_operativos_fiub.Kern.Sched.{
  runs, start_index, is_candidate, round_robin, sched_yield_round_robin,
}
use sistemas_operativos_fiub.Kern.Sched.Counts.{CanCount, CanRun, add_counts_lem, count_call_lem}

-- The round in which a search that starts at `s` comes to index `j`.
unfoldable pub rounds : ℕ → ℕ → ℕ
rounds s j = (j + nenv - s) % nenv

pub start_index-below : (k : Kernel) → start_index k < nenv
unfolding start_index envx
start_index-below k = elim (Option-cases k.curenv) [
  | inl e ↦ ground (arith, e)
  | inr (c, e) ↦ ground (arith, e)
]

rounds-below : (s j : ℕ) → rounds s j < 0 + nenv
unfolding rounds
rounds-below s j = omega arith

-- The environments that can run: those in the table with this status.
pub record CanBeRun (k : Kernel) (j : ℕ) : Type 0 where
  pub inside : j < nenv
  pub runnable : (k.envs j).env_status ≡ env_runnable

is_candidate-rounds :
    (k : Kernel) (s j : ℕ) → s < nenv → CanBeRun k j → is_candidate k s (rounds s j) ≡ true
unfolding is_candidate rounds
is_candidate-rounds k s j b c =
    let e : (s + (j + nenv - s) % nenv) % nenv ≡ j = omega (arith, c.inside) in rw (e, c.runnable)

candidate-CanBeRun :
    (k : Kernel) (s i : ℕ) → is_candidate k s i ≡ true → CanBeRun k ((s + i) % nenv)
unfolding is_candidate
candidate-CanBeRun k s i e = record { inside = omega arith; runnable = ground arith }

-- The choice `i` of the search: it can be run, and no environment that can comes before it.
pub record IsNext (k : Kernel) (i : ℕ) : Type 0 where
  pub can : CanBeRun k i
  pub next : (j : ℕ) → CanBeRun k j → rounds (start_index k) i ≤ rounds (start_index k) j

search-IsNext :
    (k : Kernel) (r : ℕ)
    → first (is_candidate k (start_index k)) nenv 0 ≡ some r
    → IsNext k ((start_index k + r) % nenv)
unfolding rounds
search-IsNext k r e =
    let f = first-IsFirst (is_candidate k (start_index k)) nenv 0 r e in
    record { can = candidate-CanBeRun k (start_index k) r f.passes; next = λ j c. least j c f }
  where
    least :
        (j : ℕ)
        → CanBeRun k j
        → IsFirst (is_candidate k (start_index k)) 0 nenv r
        → rounds (start_index k) ((start_index k + r) % nenv) ≤ rounds (start_index k) j
    least j c f =
        let passes = is_candidate-rounds k (start_index k) j (start_index-below k) c in
        elim (dec_lt (rounds (start_index k) j) r) [
          | yes q ↦ absurd (true≢false passes (f.least (rounds (start_index k) j) (omega arith) q))
          | no q ↦ let b = start_index-below k in let inside = f.below in omega arith
        ]

round_robin-IsNext :
    (k : Kernel) (j : ℕ)
    → CanRun k.sched_stats
    → CanBeRun k j
    → (i : ℕ) × (s : SchedStats) × (round_robin k
        ≡ runs i (env_run (record k { sched_stats = s }) i))
      × IsNext k i
unfolding round_robin
round_robin-IsNext k j c can =
    let start = start_index k in
    elim (Option-cases (first (is_candidate k start) nenv 0)) [
      | inl e ↦ absurd (
          true≢false (is_candidate-rounds k start j (start_index-below k) can) (
            first-none (is_candidate k start) nenv 0 e (rounds start j) (omega arith)
              (rounds-below start j)))
      | inr (r, e) ↦
          let next = search-IsNext k r e in
          let (s, f) = add_counts_lem k ((start + r) % nenv) c next.can.inside in
          ((start + r) % nenv, s, rw (e, f, round_robin), next)
    ]

IsNext-stats :
    (k : Kernel) (s : SchedStats) (i : ℕ) → IsNext (record k { sched_stats = s }) i → IsNext k i
unfolding start_index
IsNext-stats k s i n = record {
  can = record { inside = n.can.inside; runnable = n.can.runnable };
  next = λ j c. n.next j (record { inside = c.inside; runnable = c.runnable });
}

-- While the counters have room and some environment can be run, the round-robin `sched_yield`
-- runs the one that its search comes to first, and leaves the environments as `env_run` does. The
-- search goes round the table from the current environment itself, or from 0 where there is none.
pub sched_yield_round_robin-IsNext :
    (k : Kernel) (j : ℕ)
    → CanCount k
    → CanBeRun k j
    → (i : ℕ) × (s : SchedStats) × (sched_yield_round_robin k
        ≡ runs i (env_run (record k { sched_stats = s }) i))
      × IsNext k i
unfolding sched_yield_round_robin
sched_yield_round_robin-IsNext k j c can =
    let (s, e, room) = count_call_lem k c in
    let (i, s', f, next) =
      round_robin-IsNext (record k { sched_stats = s }) j room
        (record { inside = can.inside; runnable = can.runnable }) in
    (i, s', rw (e, f, sched_yield_round_robin), IsNext-stats k s i next)
