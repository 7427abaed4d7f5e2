-- ===== src/Kern/Pmap/Table.antt =====
-- 3-sched/kern/pmap.c: the new page table that a walk makes, and mapping a page as a whole.
use sistemas_operativos_fiub.Common.{
  ℕ, ◌+◌, ◌*◌, ◌%◌, ◌^◌, ◌≡◌, sym, ◌∙◌, ◌≢◌, ◌<◌, List, ◌∷◌, arith, update, update_self, update_ne,
  inl, inr, ap,
}
use native.Mathlib.Decide.{ℕ_discrete}
use sistemas_operativos_fiub.Kern.Words.{pgsize, utop, pgnum, pdx, ptx}
use sistemas_operativos_fiub.Kern.Chain.{Outside}
use sistemas_operativos_fiub.Kern.Pmap.{Phys, set_word, incref, install_table}
use sistemas_operativos_fiub.Kern.Pmap.Pool.{IsPool}
use sistemas_operativos_fiub.Kern.Pmap.View.{
  user_tables, pte_at, IsSpace, pdx-user, pte_at-none, pte_at-table, pte_at-cong, mem-set_word_self,
  mem-set_word_ne,
}
use sistemas_operativos_fiub.Kern.Pmap.Remove.{IsPool-mem}
use sistemas_operativos_fiub.Kern.Pmap.Insert.{CanMap, incref-IsPool}

-- A new table `x`, taken from the pool and cleared, for an address without a table.
module _ (m m1 : Phys) (pgdir va x : ℕ) (rest : List ℕ) (s : IsSpace m pgdir (x ∷ rest))
    (fresh : Outside x rest) (inside : x < m.npages) (below : va < utop)
    (e : m.mem pgdir (pdx va) ≡ 0) (cleared : m1.mem ≡ update m.mem x (λ i. 0))
    (pages : m1.npages ≡ m.npages) (refs : m1.pp_ref ≡ m.pp_ref) where
  -- The words of the memory with the new table in it.
  words-page : (p i : ℕ) → p ≢ x → p ≢ pgdir → (install_table pgdir va x m1).mem p i ≡ m.mem p i
  unfolding install_table incref
  words-page p i ne nd =
      mem-set_word_ne (incref m1 x) pgdir (pdx va) (x * pgsize + 7) p i (inl (λ q. nd (sym q)))
      ∙ ap (λ (k : ℕ → ℕ → ℕ). k p i) cleared
      ∙ ap (λ (k : ℕ → ℕ). k i) (update_ne m.mem x p (λ j. 0) (λ q. ne (sym q)))

  words-directory : (d : ℕ) → d ≢ pdx va → (install_table pgdir va x m1).mem pgdir d ≡ m.mem pgdir d
  unfolding install_table incref
  words-directory d ne =
      mem-set_word_ne (incref m1 x) pgdir (pdx va) (x * pgsize + 7) pgdir d (inr (λ q. ne (sym q)))
      ∙ ap (λ (k : ℕ → ℕ → ℕ). k pgdir d) cleared
      ∙ ap (λ (k : ℕ → ℕ). k d) (update_ne m.mem x pgdir (λ j. 0) (λ q. s.directory.0 (sym q)))

  words-new : (install_table pgdir va x m1).mem pgdir (pdx va) ≡ x * pgsize + 7
  unfolding install_table
  words-new = mem-set_word_self (incref m1 x) pgdir (pdx va) (x * pgsize + 7)

  words-table : (i : ℕ) → (install_table pgdir va x m1).mem x i ≡ 0
  unfolding install_table incref
  words-table i =
      mem-set_word_ne (incref m1 x) pgdir (pdx va) (x * pgsize + 7) x i (inl s.directory.0)
      ∙ ap (λ (k : ℕ → ℕ → ℕ). k x i) cleared
      ∙ ap (λ (k : ℕ → ℕ). k i) (update_self m.mem x (λ j. 0))

  same_pages : (install_table pgdir va x m1).npages ≡ m.npages
  unfolding install_table incref set_word
  same_pages = pages

  frame-new : pgnum ((install_table pgdir va x m1).mem pgdir (pdx va)) ≡ x
  unfolding pgnum
  frame-new = let w = words-new in omega arith

  pub nonzero : (install_table pgdir va x m1).mem pgdir (pdx va) ≢ 0
  nonzero z = let w = words-new in absurd (omega arith)

  -- A table that was there is another page.
  old_table :
      (d : ℕ)
      → d < user_tables
      → d ≢ pdx va
      → (install_table pgdir va x m1).mem pgdir d ≢ 0
      → m.mem pgdir d ≢ 0
  old_table d h ne n = λ z. n (words-directory d ne ∙ z)

  pub install_table-pte_at :
      (va2 : ℕ) → va2 < utop → pte_at (install_table pgdir va x m1) pgdir va2 ≡ pte_at m pgdir va2
  install_table-pte_at va2 h2 = elim (ℕ_discrete (pdx va2) (pdx va)) [
    | yes same ↦
        pte_at-table (install_table pgdir va x m1) pgdir va2 (rw same nonzero)
        ∙ (rw (same, frame-new) (words-table (ptx va2)) ∙ sym (pte_at-none m pgdir va2 (rw same e)))
    | no far ↦
        pte_at-cong m (install_table pgdir va x m1) pgdir va2 (words-directory (pdx va2) far) (λ ne.
          words-page (pgnum (m.mem pgdir (pdx va2))) (ptx va2)
            (λ q. (s.table_used (pdx va2) (pdx-user va2 h2) ne).0 q)
            (s.table_not_directory (pdx va2) (pdx-user va2 h2) ne))
  ]

  -- The tables are still in order, and the pool is what is left of it.
  pub install_table-IsSpace : IsSpace (install_table pgdir va x m1) pgdir rest
  install_table-IsSpace = record {
    directory = s.directory.1;
    table_inside = λ d h n. rw (same_pages) (elim (ℕ_discrete d (pdx va)) [
      | yes q ↦ rw (q, frame-new) inside
      | no far ↦ rw (words-directory d far) (s.table_inside d h (old_table d h far n))
    ]);
    table_used = λ d h n. elim (ℕ_discrete d (pdx va)) [
      | yes q ↦ rw (q, frame-new) fresh
      | no far ↦ rw (words-directory d far) ((s.table_used d h (old_table d h far n)).1)
    ];
    table_not_directory = λ d h n. elim (ℕ_discrete d (pdx va)) [
      | yes q ↦ rw (q, frame-new) (λ w. s.directory.0 (sym w))
      | no far ↦ rw (words-directory d far) (s.table_not_directory d h (old_table d h far n))
    ];
    tables_differ = λ d c h k n l ne. elim (ℕ_discrete d (pdx va)) [
      | yes q ↦ elim (ℕ_discrete c (pdx va)) [
        | yes w ↦ absurd (ne (q ∙ sym w))
        | no far ↦
            rw (q, frame-new, words-directory c far)
              (λ w. (s.table_used c k (old_table c k far l)).0 (sym w))
      ]
      | no away ↦ elim (ℕ_discrete c (pdx va)) [
        | yes w ↦
            rw (w, frame-new, words-directory d away) (s.table_used d h (old_table d h away n)).0
        | no far ↦
            rw (words-directory d away, words-directory c far)
              (s.tables_differ d c h k (old_table d h away n) (old_table c k far l) ne)
      ]
    ];
  }

  pub install_table-IsPool : IsPool m1 rest → IsPool (install_table pgdir va x m1) rest
  unfolding install_table
  install_table-IsPool r =
      IsPool-mem (incref m1 x) pgdir (pdx va) (x * pgsize + 7) rest
        (incref-IsPool m1 x rest fresh r)

  pub install_table-CanMap :
      (pp : ℕ) → CanMap m pp (x ∷ rest) → CanMap (install_table pgdir va x m1) pp rest
  unfolding install_table incref set_word
  install_table-CanMap pp c = record {
    inside = rw pages c.inside;
    outside = c.outside.1;
    room =
        rw (update_ne m1.pp_ref x pp ((m1.pp_ref x + 1) % 2 ^ 16) (λ q. c.outside.0 (sym q)), refs)
          c.room;
  }
