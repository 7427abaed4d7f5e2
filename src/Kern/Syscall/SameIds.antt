-- ===== src/Kern/Syscall/SameIds.antt =====
-- 3-sched/kern/syscall.c: a message leaves the ids of the environments as they are.
use sistemas_operativos_fiub.Common.{
  ℕ, ◌≡◌, refl, ap, ◌∙◌, inl, inr, Bool, false, some, arith, ◌==◌, update, Bool-cases, Option-cases,
}
use sistemas_operativos_fiub.Kern.Env.{is_free, envx, Kernel, envid2env}
use sistemas_operativos_fiub.Kern.Machine.{
  Machine, Call, returns, fails, leaves, panics, undefined, and_then, set_env, set_phys,
}
use sistemas_operativos_fiub.Kern.Syscall.Envs.{target, with_curenv}
use sistemas_operativos_fiub.Kern.Syscall.Pages.{insert_page, env_page_alloc, env_page_map}
use sistemas_operativos_fiub.Kern.Syscall.Ipc.{set_ipc_perm, deliver, send_page, check_source}

-- A sequence that returns has steps that return.
pub and_then-returns :
    {A B : Type 0} (call : Call A) (f : A → Machine → Call B) (b : B) (m2 : Machine)
    → and_then call f ≡ returns b m2
    → (a : A) × (m1 : Machine) × (call ≡ returns a m1) × (f a m1 ≡ returns b m2)
unfolding and_then
and_then-returns (returns a m) f b m2 e = (a, m, refl, e)
and_then-returns (fails x m) f b m2 e = absurd (ground (arith, e))
and_then-returns (leaves o p) f b m2 e = absurd (ground (arith, e))
and_then-returns panics f b m2 e = absurd (ground (arith, e))
and_then-returns undefined f b m2 e = absurd (ground (arith, e))

-- Calls on pages leave the environments alone.
insert_page-kern :
    (m : Machine) (i page va perm r : ℕ) (m2 : Machine)
    → insert_page m i page va perm ≡ returns r m2
    → m2.kern ≡ m.kern
unfolding insert_page set_phys
insert_page-kern m i page va perm r m2 e = ground (arith, e)

env_page_alloc-kern :
    (m : Machine) (i va perm r : ℕ) (m2 : Machine)
    → env_page_alloc m i va perm ≡ returns r m2
    → m2.kern ≡ m.kern
unfolding env_page_alloc insert_page set_phys
env_page_alloc-kern m i va perm r m2 e = ground (arith, e)

env_page_map-kern :
    (m : Machine) (src srcva dst dstva perm r : ℕ) (m2 : Machine)
    → env_page_map m src srcva dst dstva perm ≡ returns r m2
    → m2.kern ≡ m.kern
unfolding env_page_map insert_page set_phys
env_page_map-kern m src srcva dst dstva perm r m2 e = ground (arith, e)

pub check_source-kern :
    (m : Machine) (c srcva perm : ℕ) (m2 : Machine)
    → check_source m c srcva perm ≡ returns tt m2
    → m2 ≡ m
unfolding check_source
check_source-kern m c srcva perm m2 e = ground (arith, e)

-- The tables give the same environment for each id.
pub record SameIds (k k2 : Kernel) : Type 0 where
  pub current : k2.curenv ≡ k.curenv
  pub ids : (j : ℕ) → (k2.envs j).env_id ≡ (k.envs j).env_id
  pub in_use :
      (j : ℕ) → is_free ((k.envs j).env_status) ≡ false → is_free ((k2.envs j).env_status) ≡ false

SameIds-kern : (k k2 : Kernel) → k2 ≡ k → SameIds k k2
SameIds-kern k k2 e = record {
  current = ap (λ (x : Kernel). x.curenv) e;
  ids = λ j. ap (λ (x : Kernel). (x.envs j).env_id) e;
  in_use = λ j u. ap (λ (x : Kernel). is_free ((x.envs j).env_status)) e ∙ u;
}

pub SameIds-trans : (k k2 k3 : Kernel) → SameIds k k2 → SameIds k2 k3 → SameIds k k3
SameIds-trans k k2 k3 s t = record {
  current = t.current ∙ s.current;
  ids = λ j. t.ids j ∙ s.ids j;
  in_use = λ j u. t.in_use j (s.in_use j u);
}

pub set_ipc_perm-SameIds :
    (m : Machine) (dst perm : ℕ) → SameIds m.kern (set_ipc_perm m dst perm).kern
unfolding set_ipc_perm set_env update
set_ipc_perm-SameIds m dst perm = record {
  current = refl;
  ids = λ j. ground arith;
  in_use = λ j u. ground arith;
}

pub deliver-SameIds : (m : Machine) (c dst value : ℕ) → SameIds m.kern (deliver m c dst value).kern
unfolding deliver set_env update
deliver-SameIds m c dst value = record {
  current = refl;
  ids = λ j. ground arith;
  in_use = λ j u. ground arith;
}

pub send_page-SameIds :
    (m : Machine) (c dst srcva perm : ℕ) (m2 : Machine)
    → send_page m c dst srcva perm ≡ returns tt m2
    → SameIds m.kern m2.kern
unfolding send_page
send_page-SameIds m c dst srcva perm m2 e =
    elim (Bool-cases ((m.kern.envs dst).env_ipc_dstva == 0)) [
      | inl z ↦ SameIds-kern m.kern m2.kern (ground (arith, e, z))
      | inr nz ↦ page (rw nz at e)
    ]
  where
    page :
        and_then (env_page_alloc m dst ((m.kern.envs dst).env_ipc_dstva) perm) (λ _ m1.
          and_then
            (env_page_map m1 c srcva dst ((m.kern.envs dst).env_ipc_dstva) perm)
            (λ _ m3. returns tt (set_ipc_perm m3 dst perm)))
          ≡ returns tt m2
        → SameIds m.kern m2.kern
    page e =
        let (r1, m1, alloc, e1) = and_then-returns _ _ tt m2 e in
        let (r2, m3, map, e2) = and_then-returns _ _ tt m2 e1 in
        let last : m2 ≡ set_ipc_perm m3 dst perm = ground (arith, e2) in
        rw last (
          SameIds-trans m.kern m3.kern (set_ipc_perm m3 dst perm).kern
            (SameIds-kern m.kern m3.kern (
              env_page_map-kern m1 c srcva dst ((m.kern.envs dst).env_ipc_dstva) perm r2 m3 map
              ∙ env_page_alloc-kern m dst ((m.kern.envs dst).env_ipc_dstva) perm r1 m1 alloc))
            (set_ipc_perm-SameIds m3 dst perm))

pub target-SameIds :
    (m m2 : Machine) (envid dst : ℕ)
    → SameIds m.kern m2.kern
    → target m envid false ≡ returns dst m
    → target m2 envid false ≡ returns dst m2
unfolding target envid2env
target-SameIds m m2 envid dst s e =
    ground (arith, e, s.current, s.ids (envx envid), s.in_use (envx envid))

pub target-machine :
    (m : Machine) (envid dst : ℕ) (b : Bool) (m1 : Machine)
    → target m envid b ≡ returns dst m1
    → m1 ≡ m
unfolding target
target-machine m envid dst b m1 e = ground (arith, e)

pub with_curenv-returns :
    (m : Machine) (f : ℕ → Call ℕ) (r : ℕ) (m2 : Machine)
    → with_curenv m f ≡ returns r m2
    → (c : ℕ) × (m.kern.curenv ≡ some c) × (f c ≡ returns r m2)
unfolding with_curenv
with_curenv-returns m f r m2 e = elim (Option-cases m.kern.curenv) [
  | inl z ↦ absurd (ground (arith, e, z))
  | inr (c, q) ↦ (c, q, rw q at e)
]
