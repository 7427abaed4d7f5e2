-- ===== src/Kern/Tests/Memory.antt =====
-- A small memory, and the theorems on memory there.
use sistemas_operativos_fiub.Common.{
  ℕ, ◌+◌, ◌-◌, ◌^◌, ◌≡◌, ◌<◌, ◌≤◌, ◌⊎◌, ◌↔◌, refl, false, none, some, List, [], ◌∷◌, ◌==◌,
  if◌then◌else◌, arith,
}
use sistemas_operativos_fiub.Kern.Words.{utop, pgnum, pdx, ptx, pte_u}
use sistemas_operativos_fiub.Kern.Pmap.{Phys, page_insert}
use sistemas_operativos_fiub.Kern.Pmap.Pool.{IsPool}
use sistemas_operativos_fiub.Kern.Pmap.View.{pte_at, IsSpace}
use sistemas_operativos_fiub.Kern.Pmap.Remove.{IsHeld}
use sistemas_operativos_fiub.Kern.Pmap.Insert.{CanMap}
use sistemas_operativos_fiub.Kern.Pmap.Map.{Mapped, page_insert_lem}
use sistemas_operativos_fiub.Kern.Pmap.Check.{access_ok, user_mem_check}
use sistemas_operativos_fiub.Kern.Pmap.Check.Range.{
  Allowed, user_mem_check_lem, user_mem_check-wraps,
}

-- Page 4 is a directory with its table in page 5, where page 6 is mapped at 0x1000; page 7 is an
-- empty directory. Pages 8 and 9 are free.
abbrev words : ℕ → ℕ → ℕ
words page i =
    if page == 4
    then (if i == 0 then 0x5007 else 0)
    else if page == 5
    then (if i == 1 then 0x6007 else 0)
    else 0

abbrev pub memory : Phys
memory = record {
  npages = 16;
  pp_link = λ p. if p == 8 then some 9 else none;
  pp_ref = λ p. if p == 8 then 0 else if p == 9 then 0 else 1;
  page_free_list = some 8;
  mem = words;
}

abbrev pub free_pages : List ℕ
free_pages = 8 ∷ 9 ∷ []

pub memory-IsPool : IsPool memory free_pages
memory-IsPool = record {
  chain = (refl, ((λ e. omega arith), tt), (refl, tt, refl));
  inside = (omega arith, (omega arith, tt));
  unused = (refl, (refl, tt));
  unlinked = λ p h o. ground arith;
}

pub memory-IsSpace : IsSpace memory 4 free_pages
unfolding pgnum
memory-IsSpace = record {
  directory = ((λ e. omega arith), ((λ e. omega arith), tt));
  table_inside = λ d h ne. ground arith;
  table_used = λ d h ne. ((λ e. ground arith), ((λ e. ground arith), tt));
  table_not_directory = λ d h ne. ground arith;
  tables_differ = λ d e h h2 ne ne2 differ. ground arith;
}

pub empty-IsSpace : IsSpace memory 7 free_pages
empty-IsSpace = record {
  directory = ((λ e. omega arith), ((λ e. omega arith), tt));
  table_inside = λ d h ne. absurd (ne refl);
  table_used = λ d h ne. absurd (ne refl);
  table_not_directory = λ d h ne. absurd (ne refl);
  tables_differ = λ d e h h2 ne ne2 differ. absurd (ne refl);
}

pub mapped_word : pte_at memory 4 0x1000 ≡ 0x6007
unfolding pte_at pgnum pdx ptx
mapped_word = refl

memory-IsHeld : IsHeld memory 4 0x1000 free_pages
unfolding pte_at pgnum pdx ptx
memory-IsHeld = record {
  inside = λ ne. omega arith;
  outside = λ ne. ((λ e. omega arith), ((λ e. omega arith), tt));
  counted = λ ne. omega arith;
  small = λ ne. omega arith;
}

pub empty-IsHeld : IsHeld memory 7 0x2000 free_pages
unfolding pte_at
empty-IsHeld = record {
  inside = λ ne. absurd (ne refl);
  outside = λ ne. absurd (ne refl);
  counted = λ ne. absurd (ne refl);
  small = λ ne. absurd (ne refl);
}

pub page_six-CanMap : CanMap memory 6 free_pages
page_six-CanMap = record {
  inside = omega arith;
  outside = ((λ e. omega arith), ((λ e. omega arith), tt));
  room = omega arith;
}

page_insert_lem_example :
    Mapped memory (page_insert 7 6 0x2000 7 memory) 7 6 0x2000 0x2000 7
    ⊎ ((page_insert 7 6 0x2000 7 memory ≡ some (false, memory))
        × (memory.mem 7 (pdx 0x2000) ≡ 0)
        × (free_pages ≡ []))
page_insert_lem_example =
    page_insert_lem memory 7 6 0x2000 0x2000 7 (omega arith) (omega arith) free_pages memory-IsPool
      empty-IsSpace empty-IsHeld page_six-CanMap

user_mem_check_lem_example :
    (user_mem_check memory 4 0x1010 16 pte_u ≡ access_ok)
    ↔ ((0x1010 + 16 ≤ utop) × ((a : ℕ) → 0x1010 ≤ a → a < 0x1010 + 16 → Allowed memory 4 pte_u a))
user_mem_check_lem_example =
    user_mem_check_lem memory 4 0x1010 16 pte_u free_pages memory-IsSpace (omega arith)
      (omega arith)

user_mem_check-wraps_example :
    user_mem_check memory 4 0xF0000000 (2 ^ 32 - 0xF0000000) 7 ≡ access_ok
user_mem_check-wraps_example =
    user_mem_check-wraps memory 4 0xF0000000 7 (omega arith) (omega arith)
