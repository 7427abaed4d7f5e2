-- ===== src/Kern/Syscall/Sharing.antt =====
-- 3-sched/kern/syscall.c: what `sys_page_map` does to the address space that a page is mapped into.
use sistemas_operativos_fiub.Common.{
  ℕ, ◌+◌, ◌*◌, ◌≡◌, refl, sym, ap, ◌∙◌, ◌≢◌, ◌<◌, ◌⊎◌, inl, inr, Bool, true, false, some, not, ◌&&◌,
  arith, ◌==◌, if◌then◌else◌, List, [],
}
use native.Mathlib.Decide.{ℕ_discrete}
use sistemas_operativos_fiub.Kern.Words.{
  utop, pgnum, pdx, ptx, pte_p, pte_w, has_flag, or_flag, or_perm, or_perm_low, pgsize,
}
use sistemas_operativos_fiub.Kern.Pmap.{Phys, page_lookup, page_at, page_insert}
use sistemas_operativos_fiub.Kern.Pmap.Pool.{IsPool}
use sistemas_operativos_fiub.Kern.Pmap.View.{pte_at, IsSpace, pte_at-table, pte_at-none}
use sistemas_operativos_fiub.Kern.Pmap.Remove.{IsHeld, page_lookup-some}
use sistemas_operativos_fiub.Kern.Pmap.Insert.{CanMap}
use sistemas_operativos_fiub.Kern.Pmap.Map.{page_insert_lem}
use sistemas_operativos_fiub.Kern.Machine.{
  Machine, e_inval, e_no_mem, returns, fails, and_then, set_phys,
}
use sistemas_operativos_fiub.Kern.Syscall.Envs.{target}
use sistemas_operativos_fiub.Kern.Syscall.Pages.{
  insert_page, env_page_map, is_bad_va, user_perm, sys_page_map,
}

good_va-below : (va : ℕ) → is_bad_va va ≡ false → va < utop
unfolding is_bad_va
good_va-below va e = ground (arith, e)

-- The bits that `user_perm` adds are not PTE_W.
has_flag-user_perm : (perm : ℕ) → has_flag (user_perm perm) pte_w ≡ has_flag perm pte_w
unfolding has_flag user_perm or_flag
has_flag-user_perm perm = ground arith

-- The call for two environments and a page that is there.
sys_page_map-lookup :
    (m : Machine) (srcenvid srcva dstenvid dstva perm src dst pgdir page table index : ℕ)
    → is_bad_va srcva ≡ false
    → is_bad_va dstva ≡ false
    → target m srcenvid true ≡ returns src m
    → target m dstenvid true ≡ returns dst m
    → (m.kern.envs src).env_pgdir ≡ some pgdir
    → page_lookup pgdir srcva m.phys ≡ page_at page table index
    → sys_page_map m srcenvid srcva dstenvid dstva perm ≡ (
        if has_flag perm pte_w && not (has_flag (m.phys.mem table index) pte_w)
        then fails e_inval m
        else insert_page m dst page dstva (user_perm perm))
unfolding sys_page_map and_then env_page_map
sys_page_map-lookup m srcenvid srcva dstenvid dstva perm src dst pgdir page table index good good2 t
      t2 space found =
    rw (good, good2, t, and_then, t2, env_page_map, space, found, has_flag-user_perm perm) refl

-- The caller names the two environments rightly, and the page at the start of `srcva` is there.
pub record IsRequest (m : Machine) (srcenvid srcva dstenvid dstva src dst s d : ℕ) (xs : List ℕ)
    : Type 0 where
  pub good_source : is_bad_va srcva ≡ false
  pub good_target : is_bad_va dstva ≡ false
  pub source : target m srcenvid true ≡ returns src m
  pub destination : target m dstenvid true ≡ returns dst m
  pub source_directory : (m.kern.envs src).env_pgdir ≡ some s
  pub destination_directory : (m.kern.envs dst).env_pgdir ≡ some d
  pub space : IsSpace m.phys s xs
  pub mapped : pte_at m.phys s srcva ≢ 0
  pub inside : pgnum (pte_at m.phys s srcva) < m.phys.npages

table_there :
    (p : Phys) (pgdir va : ℕ)
    → pte_at p pgdir va ≢ 0
    → p.mem (pgnum (p.mem pgdir (pdx va))) (ptx va) ≡ pte_at p pgdir va
table_there p pgdir va ne = elim (ℕ_discrete (p.mem pgdir (pdx va)) 0) [
  | yes e ↦ absurd (ne (pte_at-none p pgdir va e))
  | no there ↦ sym (pte_at-table p pgdir va there)
]

sys_page_map-view :
    (m : Machine) (srcenvid srcva dstenvid dstva perm src dst s d : ℕ) (xs : List ℕ)
    → IsRequest m srcenvid srcva dstenvid dstva src dst s d xs
    → sys_page_map m srcenvid srcva dstenvid dstva perm ≡ (
        if has_flag perm pte_w && not (has_flag (pte_at m.phys s srcva) pte_w)
        then fails e_inval m
        else insert_page m dst (pgnum (pte_at m.phys s srcva)) dstva (user_perm perm))
sys_page_map-view m srcenvid srcva dstenvid dstva perm src dst s d xs r =
    sys_page_map-lookup m srcenvid srcva dstenvid dstva perm src dst s
      (pgnum (pte_at m.phys s srcva)) (pgnum (m.phys.mem s (pdx srcva))) (ptx srcva) r.good_source
      r.good_target r.source r.destination r.source_directory
      (page_lookup-some m.phys s srcva xs r.space (good_va-below srcva r.good_source) r.mapped
        r.inside)
    ∙ rw (table_there m.phys s srcva r.mapped) refl

insert_page-some :
    (m : Machine) (i pgdir page va perm : ℕ) (b : Bool) (p : Phys)
    → (m.kern.envs i).env_pgdir ≡ some pgdir
    → page_insert pgdir page va perm m.phys ≡ some (b, p)
    → insert_page m i page va perm
      ≡ (if b then returns 0 (set_phys m p) else fails e_no_mem (set_phys m p))
unfolding insert_page
insert_page-some m i pgdir page va perm true p e f = ground (arith, e, f)
insert_page-some m i pgdir page va perm false p e f = ground (arith, e, f)

-- The entry for a page, with a `perm` that has no address bits.
mapped_entry :
    (page perm : ℕ)
    → perm < pgsize
    → or_flag (or_perm page (user_perm perm)) pte_p ≡ page * pgsize + or_flag (user_perm perm) pte_p
unfolding user_perm or_flag
mapped_entry page perm low =
    rw (or_perm_low page (user_perm perm) (unfold user_perm or_flag in ground (arith, low)))
      (ground arith)

-- A page that is mapped read-only at its source is not mapped writable: the call fails with -E_INVAL
-- and changes nothing.
pub sys_page_map-read_only :
    (m : Machine) (srcenvid srcva dstenvid dstva perm src dst s d : ℕ) (xs : List ℕ)
    → IsRequest m srcenvid srcva dstenvid dstva src dst s d xs
    → has_flag perm pte_w ≡ true
    → has_flag (pte_at m.phys s srcva) pte_w ≡ false
    → sys_page_map m srcenvid srcva dstenvid dstva perm ≡ fails e_inval m
sys_page_map-read_only m srcenvid srcva dstenvid dstva perm src dst s d xs r write read_only =
    sys_page_map-view m srcenvid srcva dstenvid dstva perm src dst s d xs r
    ∙ rw (write, read_only) refl

-- A call whose `perm` has no address bits and has PTE_W only if the source has it, for a page whose
-- count has room and over a page that is held, maps the page of `srcva` at `dstva` in the address space
-- of the destination, with the flags of `perm`, PTE_U and PTE_P; the address space else stays, as do the
-- environments; where a table is wanted and no page is free it fails with
-- -E_NO_MEM and changes nothing.
pub sys_page_map_lem :
    (m : Machine) (srcenvid srcva dstenvid dstva perm src dst s d va2 : ℕ) (xs : List ℕ)
    → IsRequest m srcenvid srcva dstenvid dstva src dst s d xs
    → (has_flag perm pte_w && not (has_flag (pte_at m.phys s srcva) pte_w)) ≡ false
    → IsPool m.phys xs
    → IsSpace m.phys d xs
    → IsHeld m.phys d dstva xs
    → CanMap m.phys (pgnum (pte_at m.phys s srcva)) xs
    → perm < pgsize
    → va2 < utop
    → ((m2 : Machine) × (sys_page_map m srcenvid srcva dstenvid dstva perm ≡ returns 0 m2)
        × (m2.kern ≡ m.kern)
        × (pte_at m2.phys d va2 ≡ (
            if pgnum va2 == pgnum dstva
            then pgnum (pte_at m.phys s srcva) * pgsize + or_flag (user_perm perm) pte_p
            else pte_at m.phys d va2)))
      ⊎ ((sys_page_map m srcenvid srcva dstenvid dstva perm ≡ fails e_no_mem m) × (xs ≡ []))
unfolding insert_page set_phys
sys_page_map_lem m srcenvid srcva dstenvid dstva perm src dst s d va2 xs r granted pool space held
      room low below =
    elim (page_insert_lem m.phys d (pgnum (pte_at m.phys s srcva)) dstva va2 (user_perm perm)
      (good_va-below dstva r.good_target) below xs pool space held room) [
        | inl (p2, ys, e, pool2, view) ↦ inl (
          set_phys m p2,
          call ∙ insert_page-some m dst d _ dstva _ true p2 r.destination_directory e,
          refl,
          view ∙ ap (λ (e : ℕ). if pgnum va2 == pgnum dstva then e else pte_at m.phys d va2) entry,
        )
        | inr (e, unmapped, empty) ↦ inr (
          call ∙ insert_page-some m dst d _ dstva _ false m.phys r.destination_directory e,
          empty,
        )
      ]
  where
    entry :
        or_flag (or_perm (pgnum (pte_at m.phys s srcva)) (user_perm perm)) pte_p
        ≡ pgnum (pte_at m.phys s srcva) * pgsize + or_flag (user_perm perm) pte_p
    entry = mapped_entry (pgnum (pte_at m.phys s srcva)) perm low

    call :
        sys_page_map m srcenvid srcva dstenvid dstva perm
        ≡ insert_page m dst (pgnum (pte_at m.phys s srcva)) dstva (user_perm perm)
    call = sys_page_map-view m srcenvid srcva dstenvid dstva perm src dst s d xs r ∙ rw granted refl
