-- ===== src/Kern/Sched/Priority.antt =====
-- 3-sched/kern/sched.c: `sched_yield` under SCHED_PRIORITIES.
use sistemas_operativos_fiub.Common.{
  inc_int, ℕ, ◌≡◌, ◌<◌, ◌≤◌, refl, sym, ◌∙◌, none, some, arith, Option-cases, inl, inr,
}
use sistemas_operativos_fiub.Kern.Env.{nenv, Kernel}
use sistemas_operativos_fiub.Kern.Sched.{
  undefined, add_counts_to_sched, count_call, maybe_boost, priorities, sched_yield_priorities,
}
use sistemas_operativos_fiub.Kern.Sched.RoundRobin.{CanBeRun}
use sistemas_operativos_fiub.Kern.Sched.Boost.{boost_all_envs_lem}
use sistemas_operativos_fiub.Kern.Sched.Select.{select-IsBest}

-- The id of every environment that can be run has a generation above its index bits, as `env_alloc`
-- makes it.
abbrev pub IdsAreLarge : Kernel → Type 0
IdsAreLarge k = (i : ℕ) → CanBeRun k i → nenv ≤ (k.envs i).env_id

priorities-undefined :
    (k : Kernel) (j : ℕ) → IdsAreLarge k → CanBeRun k j → priorities k ≡ undefined
unfolding priorities add_counts_to_sched
priorities-undefined k j large c =
    let (i, e, best) = select-IsBest k j c in
    let outside : add_counts_to_sched k ((k.envs i).env_id) ≡ none =
      ground (arith, large i best.can) in
    rw (e, outside, priorities) refl

maybe_boost-keeps :
    (k b : Kernel) (j : ℕ)
    → maybe_boost k ≡ some b
    → j < nenv
    → ((b.envs j).env_id ≡ (k.envs j).env_id) × ((b.envs j).env_status ≡ (k.envs j).env_status)
unfolding maybe_boost
maybe_boost-keeps k b j e inside = let boosted = boost_all_envs_lem k j inside in ground arith

count_call-keeps : (k k' : Kernel) → count_call k ≡ some k' → k'.envs ≡ k.envs
unfolding count_call
count_call-keeps k k' e = elim (Option-cases (inc_int (k.sched_stats.scheduler_calls))) [
  | inl f ↦ ground (arith, e, f)
  | inr (n, f) ↦ ground (arith, e, f)
]

boosted-undefined :
    (k b : Kernel) (j : ℕ)
    → IdsAreLarge k
    → CanBeRun k j
    → maybe_boost k ≡ some b
    → priorities b ≡ undefined
boosted-undefined k b j large c e =
    priorities-undefined b j
      (λ i can.
        let kept = maybe_boost-keeps k b i e can.inside in
        rw (kept.0)
          (large i (record { inside = can.inside; runnable = sym kept.1 ∙ can.runnable })))
      (record { inside = c.inside; runnable = (maybe_boost-keeps k b j e c.inside).1 ∙ c.runnable })

-- Under SCHED_PRIORITIES, where the environments that can be run have ids as `env_alloc` makes them,
-- `sched_yield` has undefined behaviour as soon as there is one of them: it uses an id as an index, outside of the table.
pub sched_yield_priorities-undefined :
    (k : Kernel) (j : ℕ) → IdsAreLarge k → CanBeRun k j → sched_yield_priorities k ≡ undefined
unfolding sched_yield_priorities
sched_yield_priorities-undefined k j large c = elim (Option-cases (count_call k)) [
  | inl e ↦ rw (e, sched_yield_priorities) refl
  | inr (k', e) ↦
      let same = count_call-keeps k k' e in
      elim (Option-cases (maybe_boost k')) [
        | inl f ↦ rw (e, f, sched_yield_priorities) refl
        | inr (b, f) ↦
            rw (e, f, sched_yield_priorities)
              (boosted-undefined k' b j
                (λ i can.
                  rw same
                    (large i (record { inside = can.inside; runnable = rw (← same) can.runnable })))
                (record { inside = c.inside; runnable = rw same c.runnable }) f)
      ]
]
