-- ===== src/Kern/Pmap/Pool.antt =====
-- 3-sched/kern/pmap.c: the page allocator keeps a pool of free pages, as a stack.
use sistemas_operativos_fiub.Common.{
  ℕ, ◌≡◌, refl, sym, ◌<◌, Bool, true, false, Option, none, some, List, [], ◌∷◌, arith, update,
  update_self, update_ne,
}
use native.Mathlib.Decide.{ℕ_discrete}
use sistemas_operativos_fiub.Kern.Chain.{Outside, Chain, All, Chain-update}
use sistemas_operativos_fiub.Kern.Pmap.{Phys, take_page, zero_page, page_alloc, page_free}

-- The abstract view: the pages of the pool, the next one to be handed out first.
pub record IsPool (m : Phys) (xs : List ℕ) : Type 0 where
  pub chain : Chain m.pp_link m.page_free_list xs
  pub inside : All (λ p. p < m.npages) xs
  pub unused : All (λ p. m.pp_ref p ≡ 0) xs
  pub unlinked : (p : ℕ) → p < m.npages → Outside p xs → m.pp_link p ≡ none

abbrev pub head_of : List ℕ → Option ℕ
head_of [] = none
head_of (x ∷ xs) = some x

abbrev pub rest_of : List ℕ → List ℕ
rest_of [] = []
rest_of (x ∷ xs) = xs

-- The words of the memory, but for those of a page that is handed out cleared.
abbrev pub cleared : Bool → Option ℕ → (ℕ → ℕ → ℕ) → ℕ → ℕ → ℕ
cleared false o mem = mem
cleared true none mem = mem
cleared true (some p) mem = update mem p (λ i. 0)

take_page-IsPool : (m : Phys) (x : ℕ) (xs : List ℕ) → IsPool m (x ∷ xs) → IsPool (take_page m x) xs
unfolding take_page update
take_page-IsPool m x xs r =
    let (e, fresh, c) = r.chain in
    record {
      chain = Chain-update m.pp_link (m.pp_link x) xs x none fresh c;
      inside = r.inside.1;
      unused = r.unused.1;
      unlinked = λ p b o. elim (ℕ_discrete x p) [
        | yes same ↦ ground (arith, same)
        | no ne ↦ ground (arith, r.unlinked p b ((λ q. ne (sym q)), o))
      ];
    }

zero_page-IsPool : (m : Phys) (x : ℕ) (xs : List ℕ) → IsPool m xs → IsPool (zero_page m x) xs
unfolding zero_page
zero_page-IsPool m x xs r = record {
  chain = r.chain;
  inside = r.inside;
  unused = r.unused;
  unlinked = r.unlinked;
}

-- `page_alloc` takes the first page of the pool, cleared if that is asked for, and gives NULL where
-- the pool is empty; the rest of the pool, the counts and the other pages stay.
pub page_alloc-IsPool :
    (zeroed : Bool) (m : Phys) (xs : List ℕ)
    → IsPool m xs
    → (m' : Phys) × (page_alloc zeroed m ≡ some (head_of xs, m'))
      × IsPool m' (rest_of xs)
      × (m'.mem ≡ cleared zeroed (head_of xs) m.mem)
      × (m'.pp_ref ≡ m.pp_ref)
      × (m'.npages ≡ m.npages)
unfolding page_alloc take_page zero_page
page_alloc-IsPool zeroed m [] r =
    (m, ground (arith, r.chain), r, none_cleared zeroed m.mem, refl, refl)
  where
    none_cleared : (b : Bool) (mem : ℕ → ℕ → ℕ) → mem ≡ cleared b none mem
    none_cleared true mem = refl
    none_cleared false mem = refl
page_alloc-IsPool true m (x ∷ xs) r = (
  zero_page (take_page m x) x,
  ground (arith, r.chain.0, r.inside.0),
  zero_page-IsPool (take_page m x) x xs (take_page-IsPool m x xs r),
  refl,
  refl,
  refl,
)
page_alloc-IsPool false m (x ∷ xs) r =
    (take_page m x, ground (arith, r.chain.0), take_page-IsPool m x xs r, refl, refl, refl)

-- `page_free` puts a page that is not in the pool and has no references back as its first.
pub page_free-IsPool :
    (p : ℕ) (m : Phys) (xs : List ℕ)
    → IsPool m xs
    → p < m.npages
    → Outside p xs
    → m.pp_ref p ≡ 0
    → (m' : Phys) × (page_free p m ≡ some m')
      × IsPool m' (p ∷ xs)
      × (m'.mem ≡ m.mem)
      × (m'.pp_ref ≡ m.pp_ref)
      × (m'.npages ≡ m.npages)
unfolding page_free update
page_free-IsPool p m xs r inside o e = (
  record m { pp_link = update m.pp_link p m.page_free_list; page_free_list = some p },
  ground (arith, e, r.unlinked p inside o),
  record {
    chain = (
      refl,
      o,
      rw (update_self m.pp_link p m.page_free_list)
          (Chain-update m.pp_link m.page_free_list xs p m.page_free_list o r.chain),
    );
    inside = (inside, r.inside);
    unused = (e, r.unused);
    unlinked = λ q b (ne, oq).
        rw (update_ne m.pp_link p q m.page_free_list (λ s. ne (sym s))) (r.unlinked q b oq);
  },
  refl,
  refl,
  refl,
)
