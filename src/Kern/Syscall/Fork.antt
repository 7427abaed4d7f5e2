-- ===== src/Kern/Syscall/Fork.antt =====
-- 3-sched/kern/syscall.c: the child that `sys_exofork` makes, and what its parent may do with it.
use sistemas_operativos_fiub.Common.{
  ℕ, ◌^◌, ◌≡◌, refl, sym, ap, ◌∙◌, ◌≢◌, ◌<◌, ◌≤◌, ◌⊎◌, inl, inr, true, some, List, [], ◌∷◌, arith,
  update, update_self, update_ne,
}
use sistemas_operativos_fiub.Kern.Chain.{Outside, Chain-cong, All-Outside, Outside-All}
use sistemas_operativos_fiub.Kern.Env.{
  nenv, envx, env_free, env_runnable, env_not_runnable, Trapframe, Env, envid2env, check_permission,
  next_env_id,
}
use sistemas_operativos_fiub.Kern.Env.Ids.{next_env_id_lem}
use sistemas_operativos_fiub.Kern.Env.Pool.{IsEnvPool}
use sistemas_operativos_fiub.Kern.Words.{utop}
use sistemas_operativos_fiub.Kern.Pmap.Pool.{IsPool}
use sistemas_operativos_fiub.Kern.Pmap.View.{pte_at, user_tables}
use sistemas_operativos_fiub.Kern.Machine.{
  Machine, Error, e_no_mem, e_no_free_env, returns, fails, and_then, set_env, env_alloc,
}
use sistemas_operativos_fiub.Kern.Machine.Alloc.{IsNew, env_alloc_lem}
use sistemas_operativos_fiub.Kern.Syscall.Envs.{
  target, with_curenv, copy_registers, sys_exofork, settable_status, sys_env_set_status,
}

-- The registers of the caller, with 0 for the answer.
abbrev pub child_registers : Trapframe → Trapframe
child_registers tf = record tf { tf_regs = record tf.tf_regs { reg_eax = 0 } }

copy_registers-here :
    (m : Machine) (c i : ℕ)
    → (copy_registers m c i).kern.envs i ≡ record (m.kern.envs i) {
      env_status = env_not_runnable;
      env_tf = child_registers ((m.kern.envs c).env_tf);
    }
unfolding copy_registers set_env
copy_registers-here m c i = update_self m.kern.envs i _

copy_registers-other :
    (m : Machine) (c i j : ℕ) → i ≢ j → (copy_registers m c i).kern.envs j ≡ m.kern.envs j
unfolding copy_registers set_env
copy_registers-other m c i j ne = update_ne m.kern.envs i j _ ne

copy_registers-caller : (m : Machine) (c i : ℕ) → (copy_registers m c i).kern.curenv ≡ m.kern.curenv
unfolding copy_registers set_env
copy_registers-caller m c i = refl

copy_registers-used :
    (m : Machine) (c i j : ℕ)
    → (m.kern.envs j).env_status ≢ env_free
    → ((copy_registers m c i).kern.envs j).env_status ≢ env_free
unfolding copy_registers set_env update
copy_registers-used m c i j ne e = ne (ground (arith, e))

copy_registers-IsEnvPool :
    (m : Machine) (c i : ℕ) (xs : List ℕ)
    → (m.kern.envs i).env_status ≡ env_runnable
    → IsEnvPool m.kern xs
    → IsEnvPool (copy_registers m c i).kern xs
unfolding copy_registers set_env
copy_registers-IsEnvPool m c i xs run pool = record {
  chain =
      Chain-cong (λ j. (m.kern.envs j).env_link)
        (λ j. ((copy_registers m c i).kern.envs j).env_link) m.kern.env_free_list xs i
        (λ j ne. ap (λ (e : Env). e.env_link) (copy_registers-other m c i j ne)) outside pool.chain;
  inside = pool.inside;
  free =
      All-Outside (λ j. (m.kern.envs j).env_status ≡ env_free)
        (λ j. ((copy_registers m c i).kern.envs j).env_status ≡ env_free) i xs
        (λ j ne e. ap (λ (e : Env). e.env_status) (copy_registers-other m c i j ne) ∙ e) outside
        pool.free;
  used = λ j h o. copy_registers-used m c i j (pool.used j h o);
}
  where
    outside : Outside i xs
    outside =
        Outside-All (λ j. (m.kern.envs j).env_status ≡ env_free) i xs pool.free (λ e. cc (run, e))

-- The parent reaches its child by the child's id.
target_child :
    (m : Machine) (c i : ℕ)
    → m.kern.curenv ≡ some c
    → envx ((m.kern.envs i).env_id) ≡ i
    → nenv ≤ (m.kern.envs i).env_id
    → (m.kern.envs i).env_status ≡ env_not_runnable
    → (m.kern.envs i).env_parent_id ≡ (m.kern.envs c).env_id
    → target m ((m.kern.envs i).env_id) true ≡ returns i m
unfolding target envid2env check_permission
target_child m c i cur index large status parent = ground (arith, cur, index, status, parent)

-- The child is the first of the free environments, with a new id, and its directory `p` the first of
-- the free pages; nothing is mapped below UTOP there, and every other environment is as it was. It
-- stands stopped with the registers of its parent, but for the answer 0, and its parent
-- can start it by the id that it got.
pub record IsChild (m m2 : Machine) (c i p : ℕ) (is ps : List ℕ) : Type 0 where
  pub envs_left : IsEnvPool m2.kern is
  pub pages_left : IsPool m2.phys ps
  pub same_caller : m2.kern.curenv ≡ m.kern.curenv
  pub other_envs : (j : ℕ) → i ≢ j → m2.kern.envs j ≡ m.kern.envs j
  pub fresh_id : (m2.kern.envs i).env_id ≡ next_env_id ((m.kern.envs i).env_id) i
  pub parent : (m2.kern.envs i).env_parent_id ≡ (m.kern.envs c).env_id
  pub directory : (m2.kern.envs i).env_pgdir ≡ some p
  pub empty : (va : ℕ) → va < utop → pte_at m2.phys p va ≡ 0
  pub stopped : (m2.kern.envs i).env_status ≡ env_not_runnable
  pub registers : (m2.kern.envs i).env_tf ≡ child_registers ((m.kern.envs c).env_tf)
  pub positive : (0 < (m2.kern.envs i).env_id) × ((m2.kern.envs i).env_id < 2 ^ 31)
  pub starts :
      sys_env_set_status m2 ((m2.kern.envs i).env_id) 2
      ≡ returns 0 (set_env m2 i (record (m2.kern.envs i) { env_status = env_runnable }))

starts_target :
    (m : Machine) (i envid : ℕ)
    → target m envid true ≡ returns i m
    → sys_env_set_status m envid 2
      ≡ returns 0 (set_env m i (record (m.kern.envs i) { env_status = env_runnable }))
unfolding sys_env_set_status settable_status and_then
starts_target m i envid t = rw t refl

copied-IsChild :
    (m m1 : Machine) (c i p : ℕ) (is ps : List ℕ)
    → IsNew m m1 i p ((m.kern.envs c).env_id) is ps
    → m.kern.curenv ≡ some c
    → i ≢ c
    → i < nenv
    → (m.kern.envs i).env_id < 2 ^ 31
    → IsChild m (copy_registers m1 c i) c i p is ps
copied-IsChild m m1 c i p is ps new cur ne inside small =
    let (index, large, bound, fresh) = next_env_id_lem ((m.kern.envs i).env_id) i small inside in
    let here = copy_registers-here m1 c i in
    let same = copy_registers-other m1 c i c ne ∙ new.other_envs c ne in
    let id : ((copy_registers m1 c i).kern.envs i).env_id ≡ next_env_id ((m.kern.envs i).env_id) i =
      ap (λ (e : Env). e.env_id) here ∙ new.fresh_id in
    record {
      envs_left = copy_registers-IsEnvPool m1 c i is new.runnable new.envs_left;
      pages_left = unfold copy_registers set_env in new.pages_left;
      same_caller = copy_registers-caller m1 c i ∙ new.same_caller;
      other_envs = λ j other. copy_registers-other m1 c i j other ∙ new.other_envs j other;
      fresh_id = id;
      parent = ap (λ (e : Env). e.env_parent_id) here ∙ new.parent;
      directory = ap (λ (e : Env). e.env_pgdir) here ∙ new.directory;
      empty = unfold copy_registers set_env in new.empty;
      stopped = ap (λ (e : Env). e.env_status) here;
      registers =
          ap (λ (e : Env). e.env_tf) here
          ∙ ap (λ (e : Env). child_registers e.env_tf) (new.other_envs c ne);
      positive = rw id (omega (arith, large), bound);
      starts =
          starts_target (copy_registers m1 c i) i (((copy_registers m1 c i).kern.envs i).env_id) (
            target_child (copy_registers m1 c i) c i
              (copy_registers-caller m1 c i ∙ (new.same_caller ∙ cur)) (rw id index) (rw id large)
              (ap (λ (e : Env). e.env_status) here)
              (ap (λ (e : Env). e.env_parent_id) here
                ∙ (new.parent ∙ sym (ap (λ (e : Env). e.env_id) same))));
    }

exofork_after :
    (m m1 : Machine) (c i : ℕ)
    → m.kern.curenv ≡ some c
    → env_alloc m ((m.kern.envs c).env_id) ≡ returns i m1
    → sys_exofork m ≡ returns (((copy_registers m1 c i).kern.envs i).env_id) (copy_registers m1 c i)
unfolding sys_exofork with_curenv and_then
exofork_after m m1 c i cur e = ground (arith, cur, e)

exofork_fails :
    (m m1 : Machine) (c : ℕ) (x : Error)
    → m.kern.curenv ≡ some c
    → env_alloc m ((m.kern.envs c).env_id) ≡ fails x m1
    → sys_exofork m ≡ fails x m1
unfolding sys_exofork with_curenv and_then
exofork_fails m m1 c x cur e = ground (arith, cur, e)

-- Where no environment is free, or else no page is, `sys_exofork` fails and changes nothing.
-- Otherwise it gives the id of the first free environment, a new one and a positive int; this one has
-- the first free page for its directory, with nothing mapped below UTOP, is stopped, is a child of the
-- caller, has the registers of the caller with 0 for the answer, and can be started by the caller with
-- this id; every other environment stays as it was. The caller is in use, and ids are not negative as
-- ints.
pub sys_exofork_lem :
    (m : Machine) (c : ℕ) (xs ys : List ℕ)
    → m.kern.curenv ≡ some c
    → (m.kern.envs c).env_status ≢ env_free
    → ((j : ℕ) → (m.kern.envs j).env_id < 2 ^ 31)
    → IsEnvPool m.kern xs
    → IsPool m.phys ys
    → Outside m.kern_pgdir ys
    → ((d : ℕ) → d < user_tables → m.phys.mem m.kern_pgdir d ≡ 0)
    → ((xs ≡ []) × (sys_exofork m ≡ fails e_no_free_env m))
      ⊎ (((ys ≡ []) × (sys_exofork m ≡ fails e_no_mem m))
          ⊎ ((i : ℕ) × (p : ℕ) × (is : List ℕ) × (ps : List ℕ) × (m2 : Machine) × (xs ≡ i ∷ is)
              × (ys ≡ p ∷ ps)
              × (sys_exofork m ≡ returns ((m2.kern.envs i).env_id) m2)
              × IsChild m m2 c i p is ps))
sys_exofork_lem m c xs ys cur busy ids envs pages kern unmapped =
    elim (env_alloc_lem m ((m.kern.envs c).env_id) xs ys envs pages kern unmapped) [
      | inl (none_left, e) ↦ inl (none_left, exofork_fails m m c e_no_free_env cur e)
      | inr (inl (none_left, e)) ↦ inr (inl (none_left, exofork_fails m m c e_no_mem cur e))
      | inr (inr (i, p, is, ps, m1, same_list, same_pages, e, new)) ↦
          let pool = rw same_list at envs in
          inr (
            inr (
              i,
              p,
              is,
              ps,
              copy_registers m1 c i,
              same_list,
              same_pages,
              exofork_after m m1 c i cur e,
              copied-IsChild m m1 c i p is ps new cur (λ q. busy (rw q at pool.free.0))
                  pool.inside.0 (ids i),
            ))
    ]
