-- ===== src/Kern/Pmap/Init.antt =====
-- 3-sched/kern/pmap.c: the pool that `page_init` sets up.
use sistemas_operativos_fiub.Common.{
  ℕ, zero, suc, ◌+◌, ◌≡◌, refl, sym, ◌∙◌, ◌<◌, none, List, [], ◌∷◌, arith, update, update_self,
  update_ne, if◌then◌else◌, Bool-cases, inl, inr,
}
use native.Mathlib.Decide.{ℕ_discrete}
use sistemas_operativos_fiub.Kern.Chain.{Outside, Chain, All, Chain-update, All-mono, All-Outside}
use sistemas_operativos_fiub.Kern.Pmap.{Phys, is_usable, init_page, init_pages, page_init}
use sistemas_operativos_fiub.Kern.Pmap.Pool.{IsPool}

-- The usable pages of `n` from page `i` on, put before `xs` one by one.
abbrev pub usable_from : ℕ → ℕ → ℕ → List ℕ → List ℕ
usable_from kernel_end zero i xs = xs
usable_from kernel_end (suc n) i xs =
    usable_from kernel_end n (i + 1) (if is_usable kernel_end i then i ∷ xs else xs)

-- What holds when the rounds below `i` are done.
record UpTo (m : Phys) (i : ℕ) (xs : List ℕ) : Type 0 where
  pub chain : Chain m.pp_link m.page_free_list xs
  pub below : All (λ p. p < i) xs
  pub unused : All (λ p. m.pp_ref p ≡ 0) xs
  pub unlinked : (p : ℕ) → p < i → Outside p xs → m.pp_link p ≡ none

below-Outside : (i : ℕ) (xs : List ℕ) → All (λ p. p < i) xs → Outside i xs
below-Outside i [] h = tt
below-Outside i (x ∷ xs) (lt, h) = ((λ e. omega arith), below-Outside i xs h)

init_page-UpTo :
    (kernel_end i : ℕ) (m : Phys) (xs : List ℕ)
    → UpTo m i xs
    → UpTo (init_page kernel_end i m) (i + 1) (if is_usable kernel_end i then i ∷ xs else xs)
unfolding init_page
init_page-UpTo kernel_end i m xs u = elim (Bool-cases (is_usable kernel_end i)) [
  | inl e ↦
      rw (e, init_page)
        (record {
          chain = (
            refl,
            out,
            rw (update_self m.pp_link i m.page_free_list)
                (Chain-update m.pp_link m.page_free_list xs i m.page_free_list out u.chain),
          );
          below =
              (omega arith, All-mono (λ p. p < i) (λ p. p < i + 1) xs (λ x h. omega arith) u.below);
          unused = (
            update_self m.pp_ref i 0,
            All-Outside (λ p. m.pp_ref p ≡ 0) (λ p. update m.pp_ref i 0 p ≡ 0) i xs
                (λ x ne z. update_ne m.pp_ref i x 0 ne ∙ z) out u.unused,
          );
          unlinked = λ p h (ne, o).
              update_ne m.pp_link i p m.page_free_list (λ s. ne (sym s))
              ∙ u.unlinked p (omega arith) o;
        })
  | inr e ↦
      rw (e, init_page)
        (record {
          chain = Chain-update m.pp_link m.page_free_list xs i none out u.chain;
          below = All-mono (λ p. p < i) (λ p. p < i + 1) xs (λ x h. omega arith) u.below;
          unused = u.unused;
          unlinked = λ p h o. elim (ℕ_discrete i p) [
            | yes s ↦ rw (← s) (update_self m.pp_link i none)
            | no ne ↦ update_ne m.pp_link i p none ne ∙ u.unlinked p (omega arith) o
          ];
        })
]
  where
    out : Outside i xs
    out = below-Outside i xs u.below

npages-init_page : (kernel_end i : ℕ) (m : Phys) → (init_page kernel_end i m).npages ≡ m.npages
unfolding init_page
npages-init_page kernel_end i m = ground arith

init_pages-UpTo :
    (kernel_end n i k : ℕ) (m : Phys) (xs : List ℕ)
    → i + n ≡ k
    → UpTo m i xs
    → UpTo (init_pages kernel_end n i m) k (usable_from kernel_end n i xs)
      × ((init_pages kernel_end n i m).npages ≡ m.npages)
unfolding init_pages
init_pages-UpTo kernel_end zero i k m xs e u = (rw (sym (at_end e)) u, refl)
  where
    at_end : i + 0 ≡ k → i ≡ k
    at_end q = omega arith
init_pages-UpTo kernel_end (suc n) i k m xs e u =
    let (r, same) =
      init_pages-UpTo kernel_end n (i + 1) k (init_page kernel_end i m)
        (if is_usable kernel_end i then i ∷ xs else xs) (omega arith)
        (init_page-UpTo kernel_end i m xs u) in
    (r, same ∙ npages-init_page kernel_end i m)

-- From an empty free list `page_init` makes the pool of the usable pages, the last one first: those
-- that are not page 0, not the page where other processors start, not in the hole for devices, and
-- not in use by the kernel.
pub page_init-IsPool :
    (kernel_end : ℕ) (m : Phys)
    → m.page_free_list ≡ none
    → IsPool (page_init kernel_end m) (usable_from kernel_end m.npages 0 [])
unfolding page_init
page_init-IsPool kernel_end m e =
    let (u, same) =
      init_pages-UpTo kernel_end m.npages 0 m.npages m [] (omega arith)
        (record { chain = e; below = tt; unused = tt; unlinked = λ p h o. absurd (omega arith) }) in
    record {
      chain = u.chain;
      inside = rw same u.below;
      unused = u.unused;
      unlinked = λ p h o. u.unlinked p (rw same at h) o;
    }
