-- ===== src/Kern/Pmap/View.antt =====
-- 3-sched/kern/pmap.c: an address space as a map from linear addresses to words, and when its
-- tables are in order.
use sistemas_operativos_fiub.Common.{
  ℕ, ◌^◌, ◌≡◌, refl, sym, ◌∙◌, ◌≢◌, ◌<◌, List, arith, ◌==◌, if◌then◌else◌, ap, update, ==-ne,
  ==_refl, ◌⊎◌, inl, inr,
}
use native.Mathlib.Decide.{ℕ_discrete}
use sistemas_operativos_fiub.Kern.Words.{utop, pgnum, pdx, ptx}
use sistemas_operativos_fiub.Kern.Chain.{Outside}
use sistemas_operativos_fiub.Kern.Pmap.{Phys, set_word, find_entry, entry_at}

-- The abstract view: the word of the page table for an address, 0 where there is no table.
unfoldable pub pte_at : Phys → ℕ → ℕ → ℕ
pte_at m pgdir va =
    let pde = m.mem pgdir (pdx va) in if pde == 0 then 0 else m.mem (pgnum pde) (ptx va)

-- The indices of the directory that lead to the tables of a process's own memory.
abbrev pub user_tables : ℕ
user_tables = 955

-- The directory and its tables are pages that are in use, and no two of them are the same.

pub record IsSpace (m : Phys) (pgdir : ℕ) (xs : List ℕ) : Type 0 where
  pub directory : Outside pgdir xs
  pub table_inside :
      (d : ℕ) → d < user_tables → m.mem pgdir d ≢ 0 → pgnum (m.mem pgdir d) < m.npages
  pub table_used :
      (d : ℕ) → d < user_tables → m.mem pgdir d ≢ 0 → Outside (pgnum (m.mem pgdir d)) xs
  pub table_not_directory :
      (d : ℕ) → d < user_tables → m.mem pgdir d ≢ 0 → pgnum (m.mem pgdir d) ≢ pgdir
  pub tables_differ :
      (d e : ℕ)
      → d < user_tables
      → e < user_tables
      → m.mem pgdir d ≢ 0
      → m.mem pgdir e ≢ 0
      → d ≢ e
      → pgnum (m.mem pgdir d) ≢ pgnum (m.mem pgdir e)

pub pdx-user : (va : ℕ) → va < utop → pdx va < user_tables
unfolding pdx
pdx-user va h = omega arith

-- A word of memory after a write.
pub mem-set_word_self : (m : Phys) (page index v : ℕ) → (set_word m page index v).mem page index ≡ v
unfolding set_word update
mem-set_word_self m page index v = ground arith

pub mem-set_word_ne :
    (m : Phys) (page index v p i : ℕ)
    → (page ≢ p) ⊎ (index ≢ i)
    → (set_word m page index v).mem p i ≡ m.mem p i
unfolding set_word update
mem-set_word_ne m page index v p i h = ground arith

-- Where there is a table the walk leads to the entry in it.
pub find_entry-table :
    (m : Phys) (pgdir va : ℕ) (xs : List ℕ)
    → IsSpace m pgdir xs
    → va < utop
    → m.mem pgdir (pdx va) ≢ 0
    → find_entry pgdir va m ≡ entry_at (pgnum (m.mem pgdir (pdx va))) (ptx va)
unfolding find_entry
find_entry-table m pgdir va xs s h ne = ground (arith, s.table_inside (pdx va) (pdx-user va h) ne)

same_page :
    (va va2 : ℕ)
    → va < 2 ^ 32
    → va2 < 2 ^ 32
    → (pdx va2 ≡ pdx va) × (ptx va2 ≡ ptx va)
    → pgnum va2 ≡ pgnum va
unfolding pdx ptx pgnum
same_page va va2 h h2 (e, f) = omega (arith, e, f)

same_index : (va va2 : ℕ) → pgnum va2 ≡ pgnum va → (pdx va2 ≡ pdx va) × (ptx va2 ≡ ptx va)
unfolding pdx ptx pgnum
same_index va va2 e = (omega (arith, e), omega (arith, e))

pub pte_at-none : (m : Phys) (pgdir va : ℕ) → m.mem pgdir (pdx va) ≡ 0 → pte_at m pgdir va ≡ 0
unfolding pte_at
pte_at-none m pgdir va e = rw e refl

pub pte_at-table :
    (m : Phys) (pgdir va : ℕ)
    → m.mem pgdir (pdx va) ≢ 0
    → pte_at m pgdir va ≡ m.mem (pgnum (m.mem pgdir (pdx va))) (ptx va)
unfolding pte_at
pte_at-table m pgdir va ne = rw (==-ne (m.mem pgdir (pdx va)) 0 ne) refl

-- Two memories that agree on the directory's word and, where there is a table, on its word.
pub pte_at-cong :
    (m m2 : Phys) (pgdir va : ℕ)
    → m2.mem pgdir (pdx va) ≡ m.mem pgdir (pdx va)
    → (m.mem pgdir (pdx va) ≢ 0
        → m2.mem (pgnum (m.mem pgdir (pdx va))) (ptx va)
          ≡ m.mem (pgnum (m.mem pgdir (pdx va))) (ptx va))
    → pte_at m2 pgdir va ≡ pte_at m pgdir va
pte_at-cong m m2 pgdir va e f = elim (ℕ_discrete (m.mem pgdir (pdx va)) 0) [
  | yes z ↦ pte_at-none m2 pgdir va (e ∙ z) ∙ sym (pte_at-none m pgdir va z)
  | no ne ↦
      pte_at-table m2 pgdir va (λ z. ne (sym e ∙ z))
      ∙ (rw e (f ne) ∙ sym (pte_at-table m pgdir va ne))
]

-- Addresses of one page have one word.
pub pte_at-page :
    (m : Phys) (pgdir va va2 : ℕ) → pgnum va2 ≡ pgnum va → pte_at m pgdir va2 ≡ pte_at m pgdir va
unfolding pte_at
pte_at-page m pgdir va va2 e = let (f, g) = same_index va va2 e in rw (f, g) refl

-- Writing the entry of an address in its table changes the view at this page alone.
pub pte_at-set_word :
    (m : Phys) (pgdir va va2 v : ℕ) (xs : List ℕ)
    → IsSpace m pgdir xs
    → va < utop
    → va2 < utop
    → m.mem pgdir (pdx va) ≢ 0
    → pte_at (set_word m (pgnum (m.mem pgdir (pdx va))) (ptx va) v) pgdir va2
      ≡ (if pgnum va2 == pgnum va then v else pte_at m pgdir va2)
pte_at-set_word m pgdir va va2 v xs s h h2 ne = elim (ℕ_discrete (pgnum va2) (pgnum va)) [
  | yes e ↦
      let (same_pdx, same_ptx) = same_index va va2 e in
      rw (e, ==_refl (pgnum va))
        (pte_at-table m' pgdir va2 (λ z. ne (sym (dir (pdx va2) ∙ ap (m.mem pgdir) same_pdx) ∙ z))
          ∙ rw (dir (pdx va2), same_pdx, same_ptx) (mem-set_word_self m table (ptx va) v))
  | no differ ↦ rw (==-ne (pgnum va2) (pgnum va) differ) (
      pte_at-cong m m' pgdir va2 (dir (pdx va2)) (λ ne2.
        mem-set_word_ne m table (ptx va) v (pgnum (m.mem pgdir (pdx va2))) (ptx va2)
          (elim (ℕ_discrete (pdx va) (pdx va2)) [
            | no far ↦
                inl
                  (s.tables_differ (pdx va) (pdx va2) (pdx-user va h) (pdx-user va2 h2) ne ne2 far)
            | yes near ↦
                inr (λ q. differ (same_page va va2 (omega arith) (omega arith) (sym near, sym q)))
          ])))
]
  where
    table : ℕ
    table = pgnum (m.mem pgdir (pdx va))

    m' : Phys
    m' = set_word m (pgnum (m.mem pgdir (pdx va))) (ptx va) v

    dir : (d : ℕ) → m'.mem pgdir d ≡ m.mem pgdir d
    dir d =
        mem-set_word_ne m table (ptx va) v pgdir d
          (inl (s.table_not_directory (pdx va) (pdx-user va h) ne))
