-- ===== src/Kern/Machine/Directory.antt =====
-- 3-sched/kern/env.c: the page directory of a new environment.
use sistemas_operativos_fiub.Common.{
  ℕ, ◌+◌, ◌*◌, ◌≡◌, sym, ◌∙◌, ◌≢◌, ◌<◌, inr, List, arith, update, update_self, update_ne,
}
use sistemas_operativos_fiub.Kern.Words.{pgsize, uvpt, pdx, pte_p, pte_u}
use sistemas_operativos_fiub.Kern.Chain.{Outside}
use sistemas_operativos_fiub.Kern.Pmap.{Phys, set_word, incref}
use sistemas_operativos_fiub.Kern.Pmap.Pool.{IsPool}
use sistemas_operativos_fiub.Kern.Pmap.View.{mem-set_word_ne, IsSpace, user_tables}
use sistemas_operativos_fiub.Kern.Pmap.Insert.{incref-IsPool}
use sistemas_operativos_fiub.Kern.Pmap.Remove.{IsPool-mem}
use sistemas_operativos_fiub.Kern.Machine.{copy_directory}

-- The words of the new directory for a process's own memory.
pub directory_zero :
    (m q : Phys) (p kern_pgdir d : ℕ)
    → q.mem ≡ update m.mem p (λ i. 0)
    → kern_pgdir ≢ p
    → d < user_tables
    → m.mem kern_pgdir d ≡ 0
    → (copy_directory q p kern_pgdir).mem p d ≡ 0
unfolding copy_directory incref pdx
directory_zero m q p kern_pgdir d e ne h z =
    mem-set_word_ne (incref (record q { mem = update q.mem p (q.mem kern_pgdir) }) p) p (pdx uvpt)
      (p * pgsize + (pte_p + pte_u)) p d (inr (λ s. omega (arith, s)))
    ∙ rw
        (
          update_self q.mem p (q.mem kern_pgdir),
          e,
          update_ne m.mem p kern_pgdir (λ i. 0) (λ s. ne (sym s)),
        )
        z

pub directory_own :
    (q : Phys) (p kern_pgdir : ℕ)
    → (copy_directory q p kern_pgdir).mem p (pdx uvpt) ≡ p * pgsize + (pte_p + pte_u)
unfolding copy_directory set_word incref update
directory_own q p kern_pgdir = ground arith

pub copy_directory-IsPool :
    (q : Phys) (p kern_pgdir : ℕ) (ys : List ℕ)
    → Outside p ys
    → IsPool q ys
    → IsPool (copy_directory q p kern_pgdir) ys
unfolding copy_directory
copy_directory-IsPool q p kern_pgdir ys o r =
    IsPool-mem _ p (pdx uvpt) (p * pgsize + (pte_p + pte_u)) ys (
      incref-IsPool _ p ys o
        (record { chain = r.chain; inside = r.inside; unused = r.unused; unlinked = r.unlinked }))

pub copy_directory-ref :
    (q : Phys) (p kern_pgdir : ℕ) → q.pp_ref p ≡ 0 → (copy_directory q p kern_pgdir).pp_ref p ≡ 1
unfolding copy_directory set_word incref update
copy_directory-ref q p kern_pgdir e = ground (arith, e)

pub zero-IsSpace :
    (q : Phys) (p : ℕ) (ys : List ℕ)
    → Outside p ys
    → ((d : ℕ) → d < user_tables → q.mem p d ≡ 0)
    → IsSpace q p ys
zero-IsSpace q p ys o z = record {
  directory = o;
  table_inside = λ d h ne. absurd (ne (z d h));
  table_used = λ d h ne. absurd (ne (z d h));
  table_not_directory = λ d h ne. absurd (ne (z d h));
  tables_differ = λ d e h h2 ne ne2 differ. absurd (ne (z d h));
}
