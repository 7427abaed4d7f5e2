-- ===== src/Kern/Machine/Alloc.antt =====
-- 3-sched/kern/env.c: the environment that `env_alloc` makes.
use sistemas_operativos_fiub.Common.{
  ℕ, ◌+◌, ◌*◌, ◌≡◌, refl, ap, ◌∙◌, ◌≢◌, ◌<◌, ◌⊎◌, inl, inr, true, false, none, some, List, [], ◌∷◌,
  arith, update, update_self, update_ne,
}
use sistemas_operativos_fiub.Kern.Words.{pgsize, utop, uvpt, pdx, pte_p, pte_u}
use sistemas_operativos_fiub.Kern.Chain.{Outside}
use sistemas_operativos_fiub.Kern.Env.{env_runnable, Env, next_env_id}
use sistemas_operativos_fiub.Kern.Env.Pool.{IsEnvPool, IsEnvPool-pop}
use sistemas_operativos_fiub.Kern.Pmap.{Phys, page_alloc}
use sistemas_operativos_fiub.Kern.Pmap.Pool.{IsPool, page_alloc-IsPool}
use sistemas_operativos_fiub.Kern.Pmap.View.{pte_at, IsSpace, user_tables, pdx-user, pte_at-none}
use sistemas_operativos_fiub.Kern.Machine.{
  Machine, e_no_mem, e_no_free_env, returns, fails, and_then, set_env, set_phys, copy_directory,
  env_setup_vm, user_trapframe, parent_priority, name_env, reset_env, pop_env, env_alloc,
}
use sistemas_operativos_fiub.Kern.Machine.Directory.{
  directory_zero, directory_own, copy_directory-IsPool, copy_directory-ref, zero-IsSpace,
}

-- Environment `i` is new, with page `p` as its directory.
pub record IsNew (m m2 : Machine) (i p parent_id : ℕ) (xs ys : List ℕ) : Type 0 where
  pub envs_left : IsEnvPool m2.kern xs
  pub pages_left : IsPool m2.phys ys
  pub same_caller : m2.kern.curenv ≡ m.kern.curenv
  pub other_envs : (j : ℕ) → i ≢ j → m2.kern.envs j ≡ m.kern.envs j
  pub fresh_id : (m2.kern.envs i).env_id ≡ next_env_id ((m.kern.envs i).env_id) i
  pub parent : (m2.kern.envs i).env_parent_id ≡ parent_id
  pub runnable : (m2.kern.envs i).env_status ≡ env_runnable
  pub registers : (m2.kern.envs i).env_tf ≡ user_trapframe
  pub not_receiving : (m2.kern.envs i).env_ipc_recving ≡ false
  pub directory : (m2.kern.envs i).env_pgdir ≡ some p
  pub counted : m2.phys.pp_ref p ≡ 1
  pub own_view : m2.phys.mem p (pdx uvpt) ≡ p * pgsize + (pte_p + pte_u)
  pub space : IsSpace m2.phys p ys
  pub empty : (va : ℕ) → va < utop → pte_at m2.phys p va ≡ 0

-- The machine that `env_alloc` leaves once it has the memory `q` and the page `p`.
abbrev made : Machine → Phys → ℕ → ℕ → ℕ → Machine
made m q i p parent_id =
    let named =
      name_env
        (set_env (set_phys m (copy_directory q p m.kern_pgdir)) i
          (record (m.kern.envs i) { env_pgdir = some p }))
        i parent_id in
    pop_env (reset_env named i (parent_priority named.kern parent_id)) i

-- The environment that it makes.
abbrev new_env : Machine → ℕ → ℕ → ℕ → ℕ → Env
new_env m i p parent_id priority = record (m.kern.envs i) {
  env_pgdir = some p;
  env_id = next_env_id ((m.kern.envs i).env_id) i;
  env_parent_id = parent_id;
  env_status = env_runnable;
  env_runs = 0;
  env_priority = priority;
  env_tf = user_trapframe;
  env_pgfault_upcall = 0;
  env_ipc_recving = false;
}

-- What the later steps of `env_alloc` make of an environment.
abbrev named_env : Env → ℕ → ℕ → Env
named_env e i parent_id = record e {
  env_id = next_env_id e.env_id i;
  env_parent_id = parent_id;
  env_status = env_runnable;
  env_runs = 0;
}

abbrev fresh_env : Env → ℕ → Env
fresh_env e priority = record e {
  env_priority = priority;
  env_tf = user_trapframe;
  env_pgfault_upcall = 0;
  env_ipc_recving = false;
}

name_env-here :
    (m : Machine) (i parent_id : ℕ)
    → (name_env m i parent_id).kern.envs i ≡ named_env (m.kern.envs i) i parent_id
unfolding name_env set_env
name_env-here m i parent_id = update_self m.kern.envs i (named_env (m.kern.envs i) i parent_id)

reset_env-here :
    (m : Machine) (i priority : ℕ)
    → (pop_env (reset_env m i priority) i).kern.envs i ≡ fresh_env (m.kern.envs i) priority
unfolding reset_env set_env pop_env
reset_env-here m i priority = update_self m.kern.envs i (fresh_env (m.kern.envs i) priority)

set_env-here : (m : Machine) (i : ℕ) (e : Env) → (set_env m i e).kern.envs i ≡ e
unfolding set_env
set_env-here m i e = update_self m.kern.envs i e

made-here :
    (m : Machine) (q : Phys) (i p parent_id : ℕ)
    → (priority : ℕ) × ((made m q i p parent_id).kern.envs i ≡ new_env m i p parent_id priority)
made-here m q i p parent_id = (
  _,
  reset_env-here (name_env setup i parent_id) i
        (parent_priority ((name_env setup i parent_id).kern) parent_id)
      ∙ ap (λ e. fresh_env e (parent_priority ((name_env setup i parent_id).kern) parent_id))
          (name_env-here setup i parent_id
            ∙ ap (λ e. named_env e i parent_id)
                (set_env-here (set_phys m (copy_directory q p m.kern_pgdir)) i
                  (record (m.kern.envs i) { env_pgdir = some p }))),
)
  where
    setup : Machine
    setup =
        set_env (set_phys m (copy_directory q p m.kern_pgdir)) i
          (record (m.kern.envs i) { env_pgdir = some p })

made-other :
    (m : Machine) (q : Phys) (i p parent_id j : ℕ)
    → i ≢ j
    → (made m q i p parent_id).kern.envs j ≡ m.kern.envs j
unfolding name_env reset_env pop_env set_env set_phys
made-other m q i p parent_id j ne =
    update_ne _ i j _ ne ∙ (update_ne _ i j _ ne ∙ update_ne m.kern.envs i j _ ne)

made-caller :
    (m : Machine) (q : Phys) (i p parent_id : ℕ)
    → (made m q i p parent_id).kern.curenv ≡ m.kern.curenv
unfolding name_env reset_env pop_env set_env set_phys
made-caller m q i p parent_id = refl

made-list :
    (m : Machine) (q : Phys) (i p parent_id : ℕ)
    → (made m q i p parent_id).kern.env_free_list ≡ ((made m q i p parent_id).kern.envs i).env_link
unfolding name_env reset_env pop_env set_env set_phys
made-list m q i p parent_id = refl

made-phys :
    (m : Machine) (q : Phys) (i p parent_id : ℕ)
    → (made m q i p parent_id).phys ≡ copy_directory q p m.kern_pgdir
unfolding name_env reset_env pop_env set_env set_phys
made-phys m q i p parent_id = refl

env_alloc-made :
    (m : Machine) (q : Phys) (i p parent_id : ℕ)
    → m.kern.env_free_list ≡ some i
    → page_alloc true m.phys ≡ some (some p, q)
    → env_alloc m parent_id ≡ returns i (made m q i p parent_id)
unfolding env_alloc env_setup_vm and_then
env_alloc-made m q i p parent_id e f = rw (e, env_setup_vm, f, and_then) refl

made-IsNew :
    (m : Machine) (q : Phys) (i p parent_id : ℕ) (is ps : List ℕ)
    → IsEnvPool m.kern (i ∷ is)
    → IsPool q ps
    → Outside p ps
    → m.kern_pgdir ≢ p
    → q.mem ≡ update m.phys.mem p (λ j. 0)
    → q.pp_ref p ≡ 0
    → ((d : ℕ) → d < user_tables → m.phys.mem m.kern_pgdir d ≡ 0)
    → IsNew m (made m q i p parent_id) i p parent_id is ps
made-IsNew m q i p parent_id is ps envs pages fresh ne mem unused unmapped =
    let (priority, here) = made-here m q i p parent_id in
    let words : (d : ℕ) → d < user_tables → (copy_directory q p m.kern_pgdir).mem p d ≡ 0 =
      λ d h. directory_zero m.phys q p m.kern_pgdir d mem ne h (unmapped d h) in
    record {
      envs_left =
          IsEnvPool-pop m.kern (made m q i p parent_id).kern i is envs
            (made-other m q i p parent_id)
            (made-list m q i p parent_id ∙ ap (λ (e : Env). e.env_link) here)
            (λ z. absurd (ground (arith, ap (λ (e : Env). e.env_status) here)));
      pages_left =
          rw (made-phys m q i p parent_id) (copy_directory-IsPool q p m.kern_pgdir ps fresh pages);
      same_caller = made-caller m q i p parent_id;
      other_envs = made-other m q i p parent_id;
      fresh_id = ap (λ (e : Env). e.env_id) here;
      parent = ap (λ (e : Env). e.env_parent_id) here;
      runnable = ap (λ (e : Env). e.env_status) here;
      registers = ap (λ (e : Env). e.env_tf) here;
      not_receiving = ap (λ (e : Env). e.env_ipc_recving) here;
      directory = ap (λ (e : Env). e.env_pgdir) here;
      counted = rw (made-phys m q i p parent_id) (copy_directory-ref q p m.kern_pgdir unused);
      own_view = rw (made-phys m q i p parent_id) (directory_own q p m.kern_pgdir);
      space =
          rw (made-phys m q i p parent_id)
            (zero-IsSpace (copy_directory q p m.kern_pgdir) p ps fresh words);
      empty = λ va h.
          rw (made-phys m q i p parent_id)
            (pte_at-none (copy_directory q p m.kern_pgdir) p va (words (pdx va) (pdx-user va h)));
    }

page_alloc-empty : (q : Phys) → q.page_free_list ≡ none → page_alloc true q ≡ some (none, q)
unfolding page_alloc
page_alloc-empty q e = ground (arith, e)

env_alloc-none :
    (m : Machine) (parent_id : ℕ)
    → m.kern.env_free_list ≡ none
    → env_alloc m parent_id ≡ fails e_no_free_env m
unfolding env_alloc
env_alloc-none m parent_id e = ground (arith, e)

env_alloc-empty :
    (m : Machine) (i parent_id : ℕ)
    → m.kern.env_free_list ≡ some i
    → page_alloc true m.phys ≡ some (none, m.phys)
    → env_alloc m parent_id ≡ fails e_no_mem m
unfolding env_alloc env_setup_vm and_then set_phys
env_alloc-empty m i parent_id e f = ground (arith, e, f)

-- Where no environment is free, or else no page is, `env_alloc` fails and changes nothing. Otherwise
-- it makes the first free environment new, with the first free page for its directory, in which
-- nothing is mapped below UTOP. The directory of the kernel is a page in use without tables there.
pub env_alloc_lem :
    (m : Machine) (parent_id : ℕ) (xs ys : List ℕ)
    → IsEnvPool m.kern xs
    → IsPool m.phys ys
    → Outside m.kern_pgdir ys
    → ((d : ℕ) → d < user_tables → m.phys.mem m.kern_pgdir d ≡ 0)
    → ((xs ≡ []) × (env_alloc m parent_id ≡ fails e_no_free_env m))
      ⊎ (((ys ≡ []) × (env_alloc m parent_id ≡ fails e_no_mem m))
          ⊎ ((i : ℕ) × (p : ℕ) × (is : List ℕ) × (ps : List ℕ) × (m2 : Machine) × (xs ≡ i ∷ is)
              × (ys ≡ p ∷ ps)
              × (env_alloc m parent_id ≡ returns i m2)
              × IsNew m m2 i p parent_id is ps))
env_alloc_lem m parent_id [] ys envs pages kern unmapped =
    inl (refl, env_alloc-none m parent_id envs.chain)
env_alloc_lem m parent_id (i ∷ is) [] envs pages kern unmapped =
    inr
      (inl (refl, env_alloc-empty m i parent_id envs.chain.0 (page_alloc-empty m.phys pages.chain)))
env_alloc_lem m parent_id (i ∷ is) (p ∷ ps) envs pages (ne, kern) unmapped =
    let (q, e, pool, cleared, refs, same_pages) = page_alloc-IsPool true m.phys (p ∷ ps) pages in
    inr (
      inr (
        i,
        p,
        is,
        ps,
        made m q i p parent_id,
        refl,
        refl,
        env_alloc-made m q i p parent_id envs.chain.0 e,
        made-IsNew m q i p parent_id is ps envs pool pages.chain.1 ne cleared
            (ap (λ (f : ℕ → ℕ). f p) refs ∙ pages.unused.0) unmapped,
      ))
