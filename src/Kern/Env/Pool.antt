-- ===== src/Kern/Env/Pool.antt =====
-- 3-sched/kern/env.c: the free list of the environment table.
use sistemas_operativos_fiub.Common.{
  ℕ, zero, suc, ◌+◌, ◌≡◌, refl, sym, ◌∙◌, ◌≢◌, ◌<◌, Option, none, some, List, [], ◌∷◌, arith,
  update, update_self, ap, update_ne,
}
use native.Mathlib.Decide.{ℕ_discrete}
use sistemas_operativos_fiub.Kern.Chain.{Outside, Chain, All, Chain-cong, All-Outside, Outside-All}
use sistemas_operativos_fiub.Kern.Env.{nenv, env_free, Env, Kernel, init_env, init_envs, env_init}

-- The abstract view: the free environments, the next one to be allocated first.
pub record IsEnvPool (k : Kernel) (xs : List ℕ) : Type 0 where
  pub chain : Chain (λ i. (k.envs i).env_link) k.env_free_list xs
  pub inside : All (λ i. i < nenv) xs
  pub free : All (λ i. (k.envs i).env_status ≡ env_free) xs
  pub used : (i : ℕ) → i < nenv → Outside i xs → (k.envs i).env_status ≢ env_free

-- `n` indices in order from `i`.
abbrev pub in_order : ℕ → ℕ → List ℕ
in_order zero i = []
in_order (suc n) i = i ∷ in_order n (i + 1)

-- What the rounds of the loop leave of an environment.
init_envs-below : (n i j : ℕ) (k : Kernel) → j < i → (init_envs n i k).envs j ≡ k.envs j
unfolding init_envs init_env
init_envs-below zero i j k h = refl
init_envs-below (suc n) i j k h =
    init_envs-below n (i + 1) j (init_env k i) (omega arith)
    ∙ update_ne k.envs i j _ (λ e. omega arith)

init_env-here :
    (i : ℕ) (k : Kernel)
    → (((init_env k i).envs i).env_status ≡ env_free)
      × (((init_env k i).envs i).env_link ≡ some (i + 1))
unfolding init_env
init_env-here i k = rw (update_self k.envs i _) (refl, refl)

init_envs-inside :
    (n i j : ℕ) (k : Kernel)
    → i < j + 1
    → j < i + n
    → (((init_envs n i k).envs j).env_status ≡ env_free)
      × (((init_envs n i k).envs j).env_link ≡ some (j + 1))
unfolding init_envs
init_envs-inside zero i j k h l = absurd (omega arith)
init_envs-inside (suc n) i j k h l = elim (ℕ_discrete i j) [
  | yes e ↦ rw (← e, init_envs-below n (i + 1) i (init_env k i) (omega arith)) (init_env-here i k)
  | no ne ↦ init_envs-inside n (i + 1) j (init_env k i) (omega arith) (omega arith)
]

in_order-Outside : (n i j : ℕ) → j < i → Outside j (in_order n i)
in_order-Outside zero i j h = tt
in_order-Outside (suc n) i j h = ((λ e. omega arith), in_order-Outside n (i + 1) j (omega arith))

in_order-All :
    (P : ℕ → Type 0) (n i k : ℕ)
    → i + n ≡ k
    → ((j : ℕ) → i < j + 1 → j < k → P j)
    → All P (in_order n i)
in_order-All P zero i k e f = tt
in_order-All P (suc n) i k e f = (
  f i (omega arith) (omega arith),
  in_order-All P n (i + 1) k (omega arith) (λ j h l. f j (omega arith) l),
)

-- Links from each index to the next one, to the last of them.
in_order-Chain :
    (next : ℕ → Option ℕ) (n i k : ℕ)
    → i + suc n ≡ k
    → ((j : ℕ) → i < j + 1 → j + 1 < k → next j ≡ some (j + 1))
    → ((j : ℕ) → j + 1 ≡ k → next j ≡ none)
    → Chain next (some i) (in_order (suc n) i)
in_order-Chain next zero i k e f last = (refl, tt, last i (omega (arith, e)))
in_order-Chain next (suc n) i k e f last = (
  refl,
  in_order-Outside (suc n) (i + 1) i (omega arith),
  rw (f i (omega arith) (omega arith))
      (in_order-Chain next n (i + 1) k (omega arith) (λ j h l. f j (omega arith) l) last),
)

in_order-covers : (n i j : ℕ) → i < j + 1 → j < i + n → ¬ Outside j (in_order n i)
in_order-covers zero i j h l o = absurd (omega arith)
in_order-covers (suc n) i j h l (ne, o) = in_order-covers n (i + 1) j (omega arith) (omega arith) o

-- The links and the statuses after `env_init`, for a table of `suc n` environments.
module _ (n : ℕ) (k : Kernel) where
  ends : ℕ → Env
  ends =
      update (init_envs (suc n) 0 k).envs n
        (record ((init_envs (suc n) 0 k).envs n) { env_link = none })

  ends-link : (j : ℕ) → j < n → (ends j).env_link ≡ some (j + 1)
  unfolding ends
  ends-link j h =
      rw (update_ne (init_envs (suc n) 0 k).envs n j _ (λ e. omega arith))
        ((init_envs-inside (suc n) 0 j k (omega arith) (omega arith)).1)

  ends-last : (j : ℕ) → j + 1 ≡ suc n → (ends j).env_link ≡ none
  unfolding ends
  ends-last j e =
      let same : j ≡ n = omega (arith, e) in
      rw (same, update_self (init_envs (suc n) 0 k).envs n _) refl

  ends-free : (j : ℕ) → j < suc n → (ends j).env_status ≡ env_free
  unfolding ends
  ends-free j h = elim (ℕ_discrete n j) [
    | yes e ↦
        rw (← e, update_self (init_envs (suc n) 0 k).envs n _)
          ((init_envs-inside (suc n) 0 n k (omega arith) (omega arith)).0)
    | no ne ↦
        rw (update_ne (init_envs (suc n) 0 k).envs n j _ ne)
          ((init_envs-inside (suc n) 0 j k (omega arith) (omega arith)).0)
  ]

  ends-Chain : Chain (λ j. (ends j).env_link) (some 0) (in_order (suc n) 0)
  ends-Chain =
      in_order-Chain (λ j. (ends j).env_link) n 0 (suc n) (omega arith)
        (λ j h l. ends-link j (omega arith)) ends-last

-- After `env_init` all environments are free, and they stand in the free list in the order of the
-- table.
pub env_init-IsEnvPool : (k : Kernel) → IsEnvPool (env_init k) (in_order nenv 0)
unfolding env_init ends
env_init-IsEnvPool k = record {
  chain = ends-Chain 1023 k;
  inside = in_order-All (λ i. i < nenv) nenv 0 nenv refl (λ j h l. l);
  free =
      in_order-All (λ i. ((env_init k).envs i).env_status ≡ env_free) nenv 0 nenv refl
        (λ j h l. ends-free 1023 k j l);
  used = λ i h o. absurd (in_order-covers nenv 0 i (omega arith) (omega arith) o);
}

-- The first free environment is taken off the list and put to use.
pub IsEnvPool-pop :
    (k k2 : Kernel) (i : ℕ) (xs : List ℕ)
    → IsEnvPool k (i ∷ xs)
    → ((j : ℕ) → i ≢ j → k2.envs j ≡ k.envs j)
    → k2.env_free_list ≡ (k.envs i).env_link
    → (k2.envs i).env_status ≢ env_free
    → IsEnvPool k2 xs
IsEnvPool-pop k k2 i xs r same e busy =
    let (_, fresh, c) = r.chain in
    record {
      chain = rw e (
          Chain-cong (λ j. (k.envs j).env_link) (λ j. (k2.envs j).env_link) ((k.envs i).env_link) xs
            i (λ j ne. ap (λ (x : Env). x.env_link) (same j ne)) fresh c);
      inside = r.inside.1;
      free =
          All-Outside (λ j. (k.envs j).env_status ≡ env_free)
            (λ j. (k2.envs j).env_status ≡ env_free) i xs (λ j ne z. rw (same j ne) z) fresh
            r.free.1;
      used = λ j h o. elim (ℕ_discrete i j) [
        | yes q ↦ rw (← q) busy
        | no ne ↦ λ z.
            r.used j h ((λ q. ne (sym q)), o) (sym (ap (λ (x : Env). x.env_status) (same j ne)) ∙ z)
      ];
    }

-- An environment in use is freed and put before the others.
pub IsEnvPool-push :
    (k k2 : Kernel) (i : ℕ) (xs : List ℕ)
    → IsEnvPool k xs
    → i < nenv
    → (k.envs i).env_status ≢ env_free
    → ((j : ℕ) → i ≢ j → k2.envs j ≡ k.envs j)
    → (k2.envs i).env_link ≡ k.env_free_list
    → k2.env_free_list ≡ some i
    → (k2.envs i).env_status ≡ env_free
    → IsEnvPool k2 (i ∷ xs)
IsEnvPool-push k k2 i xs r h busy same link e free =
    let fresh = Outside-All (λ j. (k.envs j).env_status ≡ env_free) i xs r.free busy in
    record {
      chain = (
        e,
        fresh,
        rw link (
            Chain-cong (λ j. (k.envs j).env_link) (λ j. (k2.envs j).env_link) k.env_free_list xs i
              (λ j ne. ap (λ (x : Env). x.env_link) (same j ne)) fresh r.chain),
      );
      inside = (h, r.inside);
      free = (
        free,
        All-Outside (λ j. (k.envs j).env_status ≡ env_free) (λ j. (k2.envs j).env_status ≡ env_free)
            i xs (λ j ne z. rw (same j ne) z) fresh r.free,
      );
      used = λ j l (ne, o) z.
          r.used j l o (sym (ap (λ (x : Env). x.env_status) (same j (λ q. ne (sym q)))) ∙ z);
    }
