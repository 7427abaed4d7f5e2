-- ===== src/Kern/Pmap/Insert.antt =====
-- 3-sched/kern/pmap.c: what mapping a page does to an address space.
use sistemas_operativos_fiub.Common.{
  ℕ, ◌+◌, ◌%◌, ◌^◌, ◌≡◌, refl, ◌∙◌, ◌≢◌, ◌<◌, true, List, arith, ◌==◌, if◌then◌else◌, update,
  update_self, ◌⊎◌, inl, inr, ap, fun_ext, some,
}
use sistemas_operativos_fiub.Kern.Words.{utop, pgnum, pdx, ptx, pte_p, or_flag, or_perm}
use sistemas_operativos_fiub.Kern.Chain.{Outside}
use sistemas_operativos_fiub.Kern.Pmap.{Phys, set_word, incref, insert_at, entry_at, page_remove}
use sistemas_operativos_fiub.Kern.Pmap.Pool.{IsPool}
use sistemas_operativos_fiub.Kern.Pmap.View.{pte_at, IsSpace, pte_at-set_word}
use sistemas_operativos_fiub.Kern.Pmap.Remove.{
  IsPool-mem, IsPool-ref, IsHeld, pte_at-mem, OnlyEntry, removed_pool, page_remove_lem,
}

-- One reference more for a page outside the pool.
pub incref-IsPool :
    (m : Phys) (p : ℕ) (xs : List ℕ) → Outside p xs → IsPool m xs → IsPool (incref m p) xs
unfolding incref
incref-IsPool m p xs o r = IsPool-ref m p ((m.pp_ref p + 1) % 2 ^ 16) xs o r

incref-IsSpace :
    (m : Phys) (p pgdir : ℕ) (xs : List ℕ) → IsSpace m pgdir xs → IsSpace (incref m p) pgdir xs
unfolding incref
incref-IsSpace m p pgdir xs s = record {
  directory = s.directory;
  table_inside = s.table_inside;
  table_used = s.table_used;
  table_not_directory = s.table_not_directory;
  tables_differ = s.tables_differ;
}

-- The counts of the new page and of the one that it replaces have room.
pub record CanMap (m : Phys) (pp : ℕ) (xs : List ℕ) : Type 0 where
  pub inside : pp < m.npages
  pub outside : Outside pp xs
  pub room : m.pp_ref pp + 1 < 2 ^ 16

incref-IsHeld :
    (m : Phys) (p pgdir va : ℕ) (xs : List ℕ)
    → CanMap m p xs
    → IsHeld m pgdir va xs
    → IsHeld (incref m p) pgdir va xs
unfolding incref pte_at update
incref-IsHeld m p pgdir va xs c h = record {
  inside = h.inside;
  outside = h.outside;
  counted = λ ne. let k = h.counted ne in let room = c.room in ground arith;
  small = λ ne. let k = h.small ne in let room = c.room in ground arith;
}

update-update :
    {A : Type 0} (f : ℕ → A) (i : ℕ) (a b : A) → update (update f i a) i b ≡ update f i b
unfolding update
update-update f i a b = fun_ext λ j. ground arith

-- Writing an entry hides what was written to it before.
overwritten :
    (m m' : Phys) (pgdir va v : ℕ)
    → OnlyEntry m m' pgdir va
    → (set_word m' (pgnum (m.mem pgdir (pdx va))) (ptx va) v).mem
      ≡ (set_word m (pgnum (m.mem pgdir (pdx va))) (ptx va) v).mem
unfolding set_word
overwritten m m' pgdir va v o = over (pgnum (m.mem pgdir (pdx va))) (ptx va) o
  where
    write : (ℕ → ℕ → ℕ) → ℕ → ℕ → ℕ → ℕ → ℕ → ℕ
    write k t i x = update k t (update (k t) i x)

    over :
        (t i : ℕ)
        → (m'.mem ≡ m.mem) ⊎ (m'.mem ≡ write m.mem t i 0)
        → write m'.mem t i v ≡ write m.mem t i v
    over t i (inl e) = ap (λ (k : ℕ → ℕ → ℕ). write k t i v) e
    over t i (inr e) =
        ap (λ (k : ℕ → ℕ → ℕ). write k t i v) e
        ∙ rw
            (
              update-update m.mem t (update (m.mem t) i 0)
                  (update (update m.mem t (update (m.mem t) i 0) t) i v),
              update_self m.mem t (update (m.mem t) i 0),
              update-update (m.mem t) i 0 v,
            )
            refl

-- Where the table of `va` is there, `page_insert` maps the page with the permissions.
pub insert_at_lem :
    (m : Phys) (pgdir pp va va2 perm : ℕ) (xs : List ℕ)
    → IsPool m xs
    → IsSpace m pgdir xs
    → IsHeld m pgdir va xs
    → CanMap m pp xs
    → va < utop
    → va2 < utop
    → m.mem pgdir (pdx va) ≢ 0
    → (m' : Phys) × (insert_at pgdir pp va perm
          (entry_at (pgnum (m.mem pgdir (pdx va))) (ptx va), m)
        ≡ some (true, m'))
      × IsPool m' (removed_pool (incref m pp) pgdir va xs)
      × (pte_at m' pgdir va2
          ≡ (if pgnum va2 == pgnum va then or_flag (or_perm pp perm) pte_p else pte_at m pgdir va2))
unfolding insert_at incref set_word
insert_at_lem m pgdir pp va va2 perm xs r s held c h h2 ne = written (
    page_remove_lem (incref m pp) pgdir va va2 xs (incref-IsPool m pp xs c.outside r)
      (incref-IsSpace m pp pgdir xs s) (incref-IsHeld m pp pgdir va xs c held) h h2)
  where
    table : ℕ
    table = pgnum (m.mem pgdir (pdx va))

    pte : ℕ
    pte = or_flag (or_perm pp perm) pte_p

    written :
        (m' : Phys) × (page_remove pgdir va (incref m pp) ≡ some m')
          × IsPool m' (removed_pool (incref m pp) pgdir va xs)
          × (pte_at m' pgdir va2
              ≡ (if pgnum va2 == pgnum va then 0 else pte_at (incref m pp) pgdir va2))
          × (m'.npages ≡ m.npages)
          × OnlyEntry m m' pgdir va
        → (m' : Phys) × (insert_at pgdir pp va perm (entry_at table (ptx va), m) ≡ some (true, m'))
          × IsPool m' (removed_pool (incref m pp) pgdir va xs)
          × (pte_at m' pgdir va2 ≡ (if pgnum va2 == pgnum va then pte else pte_at m pgdir va2))
    written (m', e, pool, view, pages, only) = (
      set_word m' table (ptx va) pte,
      rw (insert_at, e) refl,
      IsPool-mem m' table (ptx va) pte (removed_pool (incref m pp) pgdir va xs) pool,
      pte_at-mem (set_word m table (ptx va) pte) (set_word m' table (ptx va) pte) pgdir va2
            (overwritten m m' pgdir va pte only)
          ∙ pte_at-set_word m pgdir va va2 pte xs s h h2 ne,
    )
