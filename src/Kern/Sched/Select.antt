-- ===== src/Kern/Sched/Select.antt =====
-- 3-sched/kern/sched.c: the search by priority finds an environment of the highest priority, and
-- the first one of those from where it starts.
use sistemas_operativos_fiub.Common.{
  ℕ, zero, suc, ◌+◌, ◌%◌, ◌≡◌, ◌≢◌, ◌<◌, ◌≤◌, ◌⊎◌, inl, inr, refl, some, none, arith, Bool-cases,
  sym, ltb, ltb→lt,
}
use native.Mathlib.Decide.{ℕ_discrete}
use sistemas_operativos_fiub.Kern.Env.{nenv, is_runnable, env_runnable, Kernel}
use sistemas_operativos_fiub.Kern.Sched.{Best, is_better, consider, select, no_best, start_index}
use sistemas_operativos_fiub.Kern.Sched.RoundRobin.{CanBeRun, rounds, start_index-below}

-- The environment that the search meets in its round `r`, from `s`.
abbrev pub met : ℕ → ℕ → ℕ
met s r = (s + r) % nenv

-- What is known after the rounds below `i`: nobody was met that can be run, or the best one was
-- met in round `r`, after lower priorities and before others that are not higher.
pub record FoundBest (k : Kernel) (s : ℕ) (i : ℕ) (b : Best) (r : ℕ) : Type 0 where
  pub env : b.env_best_priority ≡ some (met s r)
  pub prio : b.best_priority ≡ (k.envs (met s r)).env_priority
  pub round : r < i
  pub can : (k.envs (met s r)).env_status ≡ env_runnable
  pub highest :
      (q : ℕ)
      → q < i
      → (k.envs (met s q)).env_status ≡ env_runnable
      → (k.envs (met s q)).env_priority ≤ b.best_priority
  pub earliest :
      (q : ℕ)
      → q < r
      → (k.envs (met s q)).env_status ≡ env_runnable
      → (k.envs (met s q)).env_priority < b.best_priority

abbrev pub Searched : Kernel → ℕ → ℕ → Best → Type 0
Searched k s i b =
    ((b.env_best_priority ≡ none)
      × ((q : ℕ) → q < i → (k.envs (met s q)).env_status ≢ env_runnable))
    ⊎ ((r : ℕ) × FoundBest k s i b r)

-- One more round.
up_to : (P : ℕ → Type 0) (i : ℕ) → ((q : ℕ) → q < i → P q) → P i → (q : ℕ) → q < suc i → P q
up_to P i before here q h = elim (ℕ_discrete i q) [
  | yes e ↦ rw (← e) here
  | no ne ↦ before q (omega arith)
]

-- The environment of round `i` is not above the priority `p`, if it can be run.
abbrev NotAbove : Kernel → ℕ → ℕ → ℕ → Type 0
NotAbove k s p q =
    (k.envs (met s q)).env_status ≡ env_runnable → (k.envs (met s q)).env_priority ≤ p

first_met :
    (k : Kernel) (s i : ℕ)
    → ((q : ℕ) → q < i → (k.envs (met s q)).env_status ≢ env_runnable)
    → (k.envs (met s i)).env_status ≡ env_runnable
    → FoundBest k s
        (suc i)
        (record {
          env_best_priority = some (met s i);
          best_priority = (k.envs (met s i)).env_priority;
        })
        i
first_met k s i none_yet t = record {
  env = refl;
  prio = refl;
  round = omega arith;
  can = t;
  highest =
      up_to (NotAbove k s ((k.envs (met s i)).env_priority)) i (λ q h r. absurd (none_yet q h r))
        (λ r. omega arith);
  earliest = λ q h r. absurd (none_yet q h r);
}

better_met :
    (k : Kernel) (s i : ℕ) (b : Best) (r : ℕ)
    → FoundBest k s i b r
    → (k.envs (met s i)).env_status ≡ env_runnable
    → b.best_priority < (k.envs (met s i)).env_priority
    → FoundBest k s
        (suc i)
        (record {
          env_best_priority = some (met s i);
          best_priority = (k.envs (met s i)).env_priority;
        })
        i
better_met k s i b r f t more = record {
  env = refl;
  prio = refl;
  round = omega arith;
  can = t;
  highest =
      up_to (NotAbove k s ((k.envs (met s i)).env_priority)) i
        (λ q h c. let le = f.highest q h c in omega arith) (λ c. omega arith);
  earliest = λ q h c. let le = f.highest q h c in omega arith;
}

same_met :
    (k : Kernel) (s i : ℕ) (b : Best) (r : ℕ)
    → FoundBest k s i b r
    → NotAbove k s b.best_priority i
    → FoundBest k s (suc i) b r
same_met k s i b r f not_above = record {
  env = f.env;
  prio = f.prio;
  round = omega (arith, f.round);
  can = f.can;
  highest = up_to (NotAbove k s b.best_priority) i f.highest not_above;
  earliest = f.earliest;
}

consider-Searched :
    (k : Kernel) (s i : ℕ) (b : Best)
    → Searched k s i b
    → Searched k s (suc i) (consider k (met s i) b)
unfolding consider is_better
consider-Searched k s i b (inl (e, none_yet)) =
    elim (Bool-cases (is_runnable ((k.envs (met s i)).env_status))) [
      | inl t ↦ rw (t, e, consider, is_better) (inr (i, first_met k s i none_yet (ground arith)))
      | inr t ↦
          rw (t, consider)
            (inl (
              e,
              up_to (λ q. (k.envs (met s q)).env_status ≢ env_runnable) i none_yet
                  (λ r. ground arith),
            ))
    ]
consider-Searched k s i b (inr (r, f)) =
    elim (Bool-cases (is_runnable ((k.envs (met s i)).env_status))) [
      | inl t ↦ elim (Bool-cases (ltb b.best_priority ((k.envs (met s i)).env_priority))) [
        | inl more ↦
            rw (t, f.env, more, consider, is_better)
              (inr (i, better_met k s i b r f (ground arith) (ltb→lt b.best_priority _ more)))
        | inr less ↦
            let same : consider k (met s i) b ≡ b = ground (arith, t, f.env, less) in
            rw same (inr (r, same_met k s i b r f (λ c. ground arith)))
      ]
      | inr t ↦ rw (t, consider) (inr (r, same_met k s i b r f (λ c. ground arith)))
    ]

select-Searched :
    (k : Kernel) (s n i m : ℕ) (b : Best)
    → i + n ≡ m
    → Searched k s i b
    → Searched k s m (select k s n i b)
unfolding select
select-Searched k s zero i m b e h = rw (sym (e' e)) h
  where
    e' : i + 0 ≡ m → i ≡ m
    e' q = omega arith
select-Searched k s (suc n) i m b e h =
    select-Searched k s n (suc i) m (consider k (met s i) b) (omega arith)
      (consider-Searched k s i b h)

-- The search's choice: it can be run, no environment that can has a higher priority, and of those
-- with the highest it is the one that the search meets first.
pub record IsBest (k : Kernel) (i : ℕ) : Type 0 where
  pub can : CanBeRun k i
  pub highest : (j : ℕ) → CanBeRun k j → (k.envs j).env_priority ≤ (k.envs i).env_priority
  pub earliest :
      (j : ℕ)
      → CanBeRun k j
      → rounds (start_index k) j < rounds (start_index k) i
      → (k.envs j).env_priority < (k.envs i).env_priority

met-rounds : (s j : ℕ) → s < nenv → j < nenv → met s (rounds s j) ≡ j
unfolding rounds
met-rounds s j a b = omega arith

rounds-met : (s r : ℕ) → s < nenv → r < nenv → rounds s (met s r) ≡ r
unfolding rounds
rounds-met s r a b = omega arith

rounds-inside : (s j : ℕ) → rounds s j < nenv
unfolding rounds
rounds-inside s j = omega arith

FoundBest-IsBest :
    (k : Kernel) (b : Best) (r : ℕ)
    → FoundBest k (start_index k) nenv b r
    → IsBest k (met (start_index k) r)
FoundBest-IsBest k b r f = record {
  can = record { inside = omega arith; runnable = f.can };
  highest = λ j c.
      let at_j = met-rounds start j below c.inside in
      let le = f.highest (rounds start j) (rounds-inside start j) (rw at_j c.runnable) in
      rw (at_j, f.prio) at le;
  earliest = λ j c h.
      let at_j = met-rounds start j below c.inside in
      let h' : rounds start j < r = rw (rounds-met start r below f.round) at h in
      let lt = f.earliest (rounds start j) h' (rw at_j c.runnable) in rw (at_j, f.prio) at lt;
}
  where
    start : ℕ
    start = start_index k

    below : start_index k < nenv
    below = start_index-below k

-- If some environment can be run, the search by priority finds one that can, of the highest
-- priority among those, and the first of these in circular order from where it starts.
pub select-IsBest :
    (k : Kernel) (j : ℕ)
    → CanBeRun k j
    → (i : ℕ) × ((select k (start_index k) nenv 0 no_best).env_best_priority ≡ some i) × IsBest k i
select-IsBest k j c = found (select-Searched k start nenv 0 nenv no_best refl (inl (refl, nobody)))
  where
    start : ℕ
    start = start_index k

    nobody : (q : ℕ) → q < 0 → (k.envs (met (start_index k) q)).env_status ≢ env_runnable
    nobody q h = absurd (omega arith)

    found :
        Searched k (start_index k) nenv (select k (start_index k) nenv 0 no_best)
        → (i : ℕ) × ((select k (start_index k) nenv 0 no_best).env_best_priority ≡ some i)
          × IsBest k i
    found (inl (e, none_met)) = absurd (
        none_met (rounds start j) (rounds-inside start j)
          (rw (met-rounds start j (start_index-below k) c.inside) c.runnable))
    found (inr (r, f)) = (met start r, f.env, FoundBest-IsBest k _ r f)
