-- ===== src/Kern/Pmap/Remove.antt =====
-- 3-sched/kern/pmap.c: what unmapping a page does to an address space and to the pool.
use sistemas_operativos_fiub.Common.{
  ℕ, ◌+◌, ◌-◌, ◌%◌, ◌^◌, ◌≡◌, refl, sym, ◌∙◌, ◌≢◌, ◌<◌, List, ◌∷◌, arith, ◌==◌, if◌then◌else◌,
  update, update_self, update_ne, ==-ne, ==_refl, ◌⊎◌, inl, inr, ap, some,
}
use native.Mathlib.Decide.{ℕ_discrete}
use sistemas_operativos_fiub.Kern.Words.{utop, pgnum, pdx, ptx}
use sistemas_operativos_fiub.Kern.Chain.{Outside, All-Outside}
use sistemas_operativos_fiub.Kern.Pmap.{
  Phys, set_word, decref, page_decref, page_free, find_entry, pgdir_walk, page_at, no_page,
  page_lookup, page_remove,
}
use sistemas_operativos_fiub.Kern.Pmap.Pool.{IsPool, page_free-IsPool}
use sistemas_operativos_fiub.Kern.Pmap.View.{
  pte_at, IsSpace, find_entry-table, pte_at-none, pte_at-table, pte_at-page, pte_at-set_word,
}

-- A pool does not depend on the words of memory.
pub IsPool-mem :
    (m : Phys) (page index v : ℕ) (xs : List ℕ) → IsPool m xs → IsPool (set_word m page index v) xs
unfolding set_word
IsPool-mem m page index v xs r = record {
  chain = r.chain;
  inside = r.inside;
  unused = r.unused;
  unlinked = r.unlinked;
}

-- Nor on the counts of pages outside of it.
pub IsPool-ref :
    (m : Phys) (q v : ℕ) (xs : List ℕ)
    → Outside q xs
    → IsPool m xs
    → IsPool (record m { pp_ref = update m.pp_ref q v }) xs
IsPool-ref m q v xs o r = record {
  chain = r.chain;
  inside = r.inside;
  unused =
      All-Outside (λ p. m.pp_ref p ≡ 0) (λ p. update m.pp_ref q v p ≡ 0) q xs
        (λ x ne z. update_ne m.pp_ref q x v ne ∙ z) o r.unused;
  unlinked = r.unlinked;
}

-- The pool after a reference to page `q` is given up.
abbrev pub returned : Phys → ℕ → List ℕ → List ℕ
returned m q xs = if m.pp_ref q == 1 then q ∷ xs else xs

-- A page outside the pool loses a reference, and with its last one it becomes the first of the pool.
pub page_decref_lem :
    (q : ℕ) (m : Phys) (xs : List ℕ)
    → IsPool m xs
    → q < m.npages
    → Outside q xs
    → 0 < m.pp_ref q
    → m.pp_ref q < 2 ^ 16
    → (m' : Phys) × (page_decref q m ≡ some m')
      × IsPool m' (returned m q xs)
      × (m'.mem ≡ m.mem)
      × (m'.npages ≡ m.npages)
      × (m'.pp_ref ≡ update m.pp_ref q (m.pp_ref q - 1))
unfolding page_decref decref
page_decref_lem q m xs r inside o pos small = elim (ℕ_discrete (m.pp_ref q) 1) [
  | yes e ↦
      freed e
        (page_free-IsPool q low xs (IsPool-ref m q (m.pp_ref q - 1) xs o r) inside o (low_zero e))
  | no ne ↦ (low, kept ne, pool_kept ne, refl, refl, refl)
]
  where
    low : Phys
    low = record m { pp_ref = update m.pp_ref q (m.pp_ref q - 1) }

    decref_low : decref m q ≡ low
    decref_low =
        ap (λ (v : ℕ). record m { pp_ref = update m.pp_ref q v }) (wrapped (m.pp_ref q) pos small)
      where
        wrapped : (v : ℕ) → 0 < v → v < 2 ^ 16 → (v + (2 ^ 16 - 1)) % 2 ^ 16 ≡ v - 1
        wrapped v a b = omega arith

    stepped : page_decref q m ≡ (if low.pp_ref q == 0 then page_free q low else some low)
    stepped = ap (λ (k : Phys). if k.pp_ref q == 0 then page_free q k else some k) decref_low

    low_zero : m.pp_ref q ≡ 1 → low.pp_ref q ≡ 0
    low_zero e = update_self m.pp_ref q (m.pp_ref q - 1) ∙ ap (λ (v : ℕ). v - 1) e

    still : low.pp_ref q ≡ 0 → m.pp_ref q ≡ 1
    still z =
        let e : m.pp_ref q - 1 ≡ 0 = sym (update_self m.pp_ref q (m.pp_ref q - 1)) ∙ z in
        omega arith

    kept : m.pp_ref q ≢ 1 → page_decref q m ≡ some low
    kept ne = stepped ∙ rw (==-ne (low.pp_ref q) 0 (λ z. ne (still z))) refl

    pool_kept : m.pp_ref q ≢ 1 → IsPool low (returned m q xs)
    pool_kept ne = rw (==-ne (m.pp_ref q) 1 ne) (IsPool-ref m q (m.pp_ref q - 1) xs o r)

    freed :
        m.pp_ref q ≡ 1
        → (m' : Phys) × (page_free q low ≡ some m')
          × IsPool m' (q ∷ xs)
          × (m'.mem ≡ m.mem)
          × (m'.pp_ref ≡ low.pp_ref)
          × (m'.npages ≡ m.npages)
        → (m' : Phys) × (page_decref q m ≡ some m')
          × IsPool m' (returned m q xs)
          × (m'.mem ≡ m.mem)
          × (m'.npages ≡ m.npages)
          × (m'.pp_ref ≡ low.pp_ref)
    freed e (m', f, pool, mem, refs, pages) =
        (m', stepped ∙ (rw (low_zero e) f), rw e pool, mem, pages, refs)

-- The page that is mapped at an address, if any, is in use and its references are counted.
pub record IsHeld (m : Phys) (pgdir : ℕ) (va : ℕ) (xs : List ℕ) : Type 0 where
  pub inside : pte_at m pgdir va ≢ 0 → pgnum (pte_at m pgdir va) < m.npages
  pub outside : pte_at m pgdir va ≢ 0 → Outside (pgnum (pte_at m pgdir va)) xs
  pub counted : pte_at m pgdir va ≢ 0 → 0 < m.pp_ref (pgnum (pte_at m pgdir va))
  pub small : pte_at m pgdir va ≢ 0 → m.pp_ref (pgnum (pte_at m pgdir va)) < 2 ^ 16

pub page_lookup-none :
    (m : Phys) (pgdir va : ℕ) (xs : List ℕ)
    → IsSpace m pgdir xs
    → va < utop
    → pte_at m pgdir va ≡ 0
    → page_lookup pgdir va m ≡ no_page
unfolding page_lookup pgdir_walk find_entry
page_lookup-none m pgdir va xs s h z = elim (ℕ_discrete (m.mem pgdir (pdx va)) 0) [
  | yes e ↦ ground (arith, e)
  | no ne ↦ ground (arith, pte_at-table m pgdir va ne, find_entry-table m pgdir va xs s h ne)
]

pub page_lookup-some :
    (m : Phys) (pgdir va : ℕ) (xs : List ℕ)
    → IsSpace m pgdir xs
    → va < utop
    → pte_at m pgdir va ≢ 0
    → pgnum (pte_at m pgdir va) < m.npages
    → page_lookup pgdir va m
      ≡ page_at (pgnum (pte_at m pgdir va)) (pgnum (m.mem pgdir (pdx va))) (ptx va)
unfolding page_lookup pgdir_walk
page_lookup-some m pgdir va xs s h ne inside = elim (ℕ_discrete (m.mem pgdir (pdx va)) 0) [
  | yes e ↦ absurd (ne (pte_at-none m pgdir va e))
  | no ne2 ↦ ground (arith, pte_at-table m pgdir va ne2, find_entry-table m pgdir va xs s h ne2)
]

-- The view sees the words of memory alone.
pub pte_at-mem :
    (m m2 : Phys) (pgdir va : ℕ) → m2.mem ≡ m.mem → pte_at m2 pgdir va ≡ pte_at m pgdir va
unfolding pte_at
pte_at-mem m m2 pgdir va e = rw e refl

-- The entry for `va` after a write to it, in a memory like that of `m`.
pub pte_at-written :
    (m m2 : Phys) (pgdir va va2 v : ℕ) (xs : List ℕ)
    → m2.mem ≡ m.mem
    → IsSpace m pgdir xs
    → va < utop
    → va2 < utop
    → m.mem pgdir (pdx va) ≢ 0
    → pte_at (set_word m2 (pgnum (m.mem pgdir (pdx va))) (ptx va) v) pgdir va2
      ≡ (if pgnum va2 == pgnum va then v else pte_at m pgdir va2)
unfolding set_word
pte_at-written m m2 pgdir va va2 v xs e s h h2 ne =
    pte_at-mem (set_word m (pgnum (m.mem pgdir (pdx va))) (ptx va) v)
      (set_word m2 (pgnum (m.mem pgdir (pdx va))) (ptx va) v) pgdir va2
      (ap
        (λ (k : ℕ → ℕ → ℕ).
          update k (pgnum (m.mem pgdir (pdx va)))
            (update (k (pgnum (m.mem pgdir (pdx va)))) (ptx va) v))
        e)
    ∙ pte_at-set_word m pgdir va va2 v xs s h h2 ne

-- The pool and the counts after a removal: the page that was mapped loses a reference.
abbrev pub removed_pool : Phys → ℕ → ℕ → List ℕ → List ℕ
removed_pool m pgdir va xs =
    if pte_at m pgdir va == 0 then xs else returned m (pgnum (pte_at m pgdir va)) xs

-- No word of memory is written but the entry for the address, which is cleared.
abbrev pub OnlyEntry : Phys → Phys → ℕ → ℕ → Type 0
OnlyEntry m m' pgdir va =
    (m'.mem ≡ m.mem) ⊎ (m'.mem ≡ (set_word m (pgnum (m.mem pgdir (pdx va))) (ptx va) 0).mem)

-- In an address space whose tables are in order and whose page at `va` is held, `page_remove`
-- unmaps this page and no other, and writes no other word of memory; the page that was mapped, if any, loses a reference, and goes back
-- to the pool with its last one.
pub page_remove_lem :
    (m : Phys) (pgdir va va2 : ℕ) (xs : List ℕ)
    → IsPool m xs
    → IsSpace m pgdir xs
    → IsHeld m pgdir va xs
    → va < utop
    → va2 < utop
    → (m' : Phys) × (page_remove pgdir va m ≡ some m')
      × IsPool m' (removed_pool m pgdir va xs)
      × (pte_at m' pgdir va2 ≡ (if pgnum va2 == pgnum va then 0 else pte_at m pgdir va2))
      × (m'.npages ≡ m.npages)
      × OnlyEntry m m' pgdir va
unfolding page_remove set_word
page_remove_lem m pgdir va va2 xs r s held h h2 = elim (ℕ_discrete (pte_at m pgdir va) 0) [
  | yes z ↦ (
    m,
    rw (page_remove, page_lookup-none m pgdir va xs s h z) refl,
    rw z r,
    unmapped z,
    refl,
    inl refl,
  )
  | no ne ↦ mapped ne (
      page_decref_lem (pgnum (pte_at m pgdir va)) m xs r (held.inside ne) (held.outside ne)
        (held.counted ne) (held.small ne))
]
  where
    unmapped :
        pte_at m pgdir va ≡ 0
        → pte_at m pgdir va2 ≡ (if pgnum va2 == pgnum va then 0 else pte_at m pgdir va2)
    unmapped z = elim (ℕ_discrete (pgnum va2) (pgnum va)) [
      | yes e ↦ rw (e, ==_refl (pgnum va)) (pte_at-page m pgdir va va2 e ∙ z)
      | no ne ↦ rw (==-ne (pgnum va2) (pgnum va) ne) refl
    ]

    mapped :
        pte_at m pgdir va ≢ 0
        → (m' : Phys) × (page_decref (pgnum (pte_at m pgdir va)) m ≡ some m')
          × IsPool m' (returned m (pgnum (pte_at m pgdir va)) xs)
          × (m'.mem ≡ m.mem)
          × (m'.npages ≡ m.npages)
          × (m'.pp_ref
              ≡ update m.pp_ref
                  (pgnum (pte_at m pgdir va))
                  (m.pp_ref (pgnum (pte_at m pgdir va)) - 1))
        → (m' : Phys) × (page_remove pgdir va m ≡ some m')
          × IsPool m' (removed_pool m pgdir va xs)
          × (pte_at m' pgdir va2 ≡ (if pgnum va2 == pgnum va then 0 else pte_at m pgdir va2))
          × (m'.npages ≡ m.npages)
          × OnlyEntry m m' pgdir va
    mapped ne (m', f, pool, mem, pages, refs) =
        let ne2 : m.mem pgdir (pdx va) ≢ 0 = λ z. ne (pte_at-none m pgdir va z) in
        (
          set_word m' (pgnum (m.mem pgdir (pdx va))) (ptx va) 0,
          rw (page_remove, page_lookup-some m pgdir va xs s h ne (held.inside ne), f) refl,
          rw (==-ne (pte_at m pgdir va) 0 ne) (
              IsPool-mem m' (pgnum (m.mem pgdir (pdx va))) (ptx va) 0
                (returned m (pgnum (pte_at m pgdir va)) xs) pool),
          pte_at-written m m' pgdir va va2 0 xs mem s h h2 ne2,
          pages,
          inr (
              ap
                (λ (k : ℕ → ℕ → ℕ).
                  update k (pgnum (m.mem pgdir (pdx va)))
                    (update (k (pgnum (m.mem pgdir (pdx va)))) (ptx va) 0))
                mem),
        )
