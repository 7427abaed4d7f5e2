-- ===== src/Kern/Pmap/Map.antt =====
-- 3-sched/kern/pmap.c: mapping a page as a whole.
use sistemas_operativos_fiub.Common.{
  ℕ, ◌≡◌, refl, ◌∙◌, ◌≢◌, ◌<◌, Bool, true, false, List, [], ◌∷◌, arith, ◌==◌, if◌then◌else◌, ==-ne,
  ◌⊎◌, inl, inr, ap, Option, some, none,
}
use native.Mathlib.Decide.{ℕ_discrete}
use sistemas_operativos_fiub.Kern.Words.{utop, pgnum, pdx, ptx, pte_p, or_flag, or_perm}
use sistemas_operativos_fiub.Kern.Pmap.{
  Phys, install_table, walk_new, insert_at, page_insert, page_alloc, set_word, find_entry, entry_at,
  pgdir_walk,
}
use sistemas_operativos_fiub.Kern.Pmap.Pool.{IsPool, page_alloc-IsPool}
use sistemas_operativos_fiub.Kern.Pmap.View.{pte_at, IsSpace, find_entry-table, pte_at-none}
use sistemas_operativos_fiub.Kern.Pmap.Remove.{IsHeld}
use sistemas_operativos_fiub.Kern.Pmap.Insert.{CanMap, insert_at_lem}
use sistemas_operativos_fiub.Kern.Pmap.Table.{
  install_table-pte_at, install_table-IsSpace, install_table-IsPool, install_table-CanMap, nonzero,
}

-- The page is mapped at `va` with the permissions, the rest of the view stays, and what is left is
-- a pool.
abbrev pub Mapped : Phys → Option (Bool × Phys) → ℕ → ℕ → ℕ → ℕ → ℕ → Type 0
Mapped m r pgdir pp va va2 perm =
    (m' : Phys) × (ys : List ℕ) × (r ≡ some (true, m'))
    × IsPool m' ys
    × (pte_at m' pgdir va2
        ≡ (if pgnum va2 == pgnum va then or_flag (or_perm pp perm) pte_p else pte_at m pgdir va2))

module _ (m : Phys) (pgdir pp va va2 perm : ℕ) (below : va < utop) (below2 : va2 < utop) where
  -- A walk that ends at the entry in a memory with the same view.
  from_walk :
      (k : Phys) (xs : List ℕ)
      → page_insert pgdir pp va perm m
        ≡ insert_at pgdir pp va perm (entry_at (pgnum (k.mem pgdir (pdx va))) (ptx va), k)
      → IsPool k xs
      → IsSpace k pgdir xs
      → IsHeld k pgdir va xs
      → CanMap k pp xs
      → k.mem pgdir (pdx va) ≢ 0
      → pte_at k pgdir va2 ≡ pte_at m pgdir va2
      → Mapped m (page_insert pgdir pp va perm m) pgdir pp va va2 perm
  from_walk k xs walk r s held c ne same =
      let (m', e, pool, view) =
        insert_at_lem k pgdir pp va va2 perm xs r s held c below below2 ne in
      (
        m',
        _,
        walk ∙ e,
        pool,
        view
            ∙ ap (λ (w : ℕ). if pgnum va2 == pgnum va then or_flag (or_perm pp perm) pte_p else w)
                same,
      )

  with_table :
      (xs : List ℕ)
      → IsPool m xs
      → IsSpace m pgdir xs
      → IsHeld m pgdir va xs
      → CanMap m pp xs
      → m.mem pgdir (pdx va) ≢ 0
      → Mapped m (page_insert pgdir pp va perm m) pgdir pp va va2 perm
  unfolding page_insert pgdir_walk pgnum ptx
  with_table xs r s held c ne =
      from_walk m xs (ap (insert_at pgdir pp va perm) walk) r s held c ne refl
    where
      walk : pgdir_walk pgdir va true m ≡ (entry_at (pgnum (m.mem pgdir (pdx va))) (ptx va), m)
      walk =
          rw
            (
              pgdir_walk,
              ==-ne (m.mem pgdir (pdx va)) 0 ne,
              find_entry-table m pgdir va xs s below ne,
            )
            refl

  new_table :
      (x : ℕ) (xs : List ℕ)
      → IsPool m (x ∷ xs)
      → IsSpace m pgdir (x ∷ xs)
      → CanMap m pp (x ∷ xs)
      → m.mem pgdir (pdx va) ≡ 0
      → Mapped m (page_insert pgdir pp va perm m) pgdir pp va va2 perm
  unfolding page_insert pgdir_walk pgnum ptx install_table walk_new set_word
  new_table x xs r s c e =
      let (m1, alloc, pool, cleared, refs, pages) = page_alloc-IsPool true m (x ∷ xs) r in
      let fresh = r.chain.1 in
      let k = install_table pgdir va x m1 in
      let ne = nonzero m m1 pgdir va x xs s fresh r.inside.0 below e cleared pages refs in
      let space =
        install_table-IsSpace m m1 pgdir va x xs s fresh r.inside.0 below e cleared pages refs in
      let view =
        install_table-pte_at m m1 pgdir va x xs s fresh r.inside.0 below e cleared pages refs in
      let none_mapped : pte_at k pgdir va ≡ 0 = view va below ∙ pte_at-none m pgdir va e in
      from_walk k xs
        (ap (insert_at pgdir pp va perm)
          (rw (pgdir_walk, e, alloc, walk_new, find_entry-table k pgdir va xs space below ne) refl))
        (install_table-IsPool m m1 pgdir va x xs s fresh r.inside.0 below e cleared pages refs pool)
        space
        (record {
          inside = λ n. absurd (n none_mapped);
          outside = λ n. absurd (n none_mapped);
          counted = λ n. absurd (n none_mapped);
          small = λ n. absurd (n none_mapped);
        })
        (install_table-CanMap m m1 pgdir va x xs s fresh r.inside.0 below e cleared pages refs pp c)
        ne (view va2 below2)

  no_memory :
      m.page_free_list ≡ none
      → m.mem pgdir (pdx va) ≡ 0
      → page_insert pgdir pp va perm m ≡ some (false, m)
  unfolding page_insert pgdir_walk page_alloc walk_new find_entry insert_at
  no_memory f e = ground (arith, e, f)

  -- In an address space whose tables are in order, whose page at `va` is held, and for a page in use
  -- whose count has room: `page_insert` maps it at `va` and leaves the view of the other pages as it
  -- was, making a table if there is none; where a table is wanted and the pool is empty it fails and
  -- changes nothing.
  pub page_insert_lem :
      (xs : List ℕ)
      → IsPool m xs
      → IsSpace m pgdir xs
      → IsHeld m pgdir va xs
      → CanMap m pp xs
      → Mapped m (page_insert pgdir pp va perm m) pgdir pp va va2 perm
        ⊎ ((page_insert pgdir pp va perm m ≡ some (false, m))
            × (m.mem pgdir (pdx va) ≡ 0)
            × (xs ≡ []))
  page_insert_lem xs r s held c = elim (ℕ_discrete (m.mem pgdir (pdx va)) 0) [
    | no ne ↦ inl (with_table xs r s held c ne)
    | yes e ↦ by_pool xs r s c e
  ]
    where
      by_pool :
          (ys : List ℕ)
          → IsPool m ys
          → IsSpace m pgdir ys
          → CanMap m pp ys
          → m.mem pgdir (pdx va) ≡ 0
          → Mapped m (page_insert pgdir pp va perm m) pgdir pp va va2 perm
            ⊎ ((page_insert pgdir pp va perm m ≡ some (false, m))
                × (m.mem pgdir (pdx va) ≡ 0)
                × (ys ≡ []))
      by_pool [] r' s' c' e = inr (no_memory r'.chain e, e, refl)
      by_pool (y ∷ ys) r' s' c' e = inl (new_table y ys r' s' c' e)
