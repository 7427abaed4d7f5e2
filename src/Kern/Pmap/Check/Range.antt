-- ===== src/Kern/Pmap/Check/Range.antt =====
-- 3-sched/kern/pmap.c: what `user_mem_check` says about a range of user memory.
use sistemas_operativos_fiub.Common.{
  ℕ, zero, suc, ◌+◌, ◌-◌, ◌*◌, ◌/◌, ◌%◌, ◌^◌, ◌≡◌, refl, sym, ◌∙◌, ◌<◌, ◌≤◌, ◌↔◌, true, false, List,
  arith, if◌then◌else◌, inl, inr, Bool-cases, ltb,
}
use Prim.Native.Nat.{bit_and, bit_and-bitwise}
use native.Mathlib.Decide.{ℕ_discrete, dec_lt}
use sistemas_operativos_fiub.Kern.Words.{
  pgsize, utop, pte_p, or_flag, pgnum, pdx, round_down, round_up,
}
use sistemas_operativos_fiub.Kern.Pmap.{Phys, pgdir_walk, find_entry}
use sistemas_operativos_fiub.Kern.Pmap.View.{
  pte_at-page, pte_at, IsSpace, find_entry-table, pte_at-table, pte_at-none,
}
use sistemas_operativos_fiub.Kern.Pmap.Check.{
  access_ok, access_fault, allows, check_pages, user_mem_check,
}

-- The entry for the address has the permissions.
abbrev pub Allowed : Phys → ℕ → ℕ → ℕ → Type 0
Allowed m pgdir perm a = allows (pte_at m pgdir a) perm ≡ true

zero-bit_and : (b : ℕ) → bit_and 0 b ≡ 0
zero-bit_and b = bit_and-bitwise 0 b

allows_zero : (perm : ℕ) → allows 0 perm ≡ false
unfolding allows or_flag
allows_zero perm = rw (zero-bit_and (or_flag perm pte_p)) (ground arith)

-- A round in terms of the view.
check_round :
    (m : Phys) (pgdir perm va_lo n va : ℕ) (xs : List ℕ)
    → IsSpace m pgdir xs
    → va < utop
    → check_pages m pgdir perm va_lo (suc n) va ≡ (
        if allows (pte_at m pgdir va) perm
        then check_pages m pgdir perm va_lo n (va + pgsize)
        else access_fault (if ltb va_lo va then va else va_lo))
unfolding check_pages pgdir_walk find_entry
check_round m pgdir perm va_lo n va xs s h = elim (ℕ_discrete (m.mem pgdir (pdx va)) 0) [
  | yes e ↦ rw (pte_at-none m pgdir va e, allows_zero perm) (ground (arith, e))
  | no ne ↦ rw (pte_at-table m pgdir va ne) (ground (arith, find_entry-table m pgdir va xs s h ne))
]

-- One more page at the front of a range of pages.
first_pages :
    (P : ℕ → Type 0) (n va : ℕ)
    → P va
    → ((k : ℕ) → k < n → P (va + pgsize + k * pgsize))
    → (k : ℕ) → k < suc n
    → P (va + k * pgsize)
first_pages P n va p f zero h = let e : va + 0 * pgsize ≡ va = omega arith in rw e p
first_pages P n va p f (suc k) h =
    let e : va + suc k * pgsize ≡ va + pgsize + k * pgsize = omega arith in rw e (f k (omega arith))

later_pages :
    (P : ℕ → Type 0) (n va : ℕ)
    → ((k : ℕ) → k < suc n → P (va + k * pgsize))
    → (k : ℕ) → k < n
    → P (va + pgsize + k * pgsize)
later_pages P n va f k h =
    let e : va + pgsize + k * pgsize ≡ va + suc k * pgsize = omega arith in
    rw e (f (suc k) (omega arith))

-- One more round.
another_round :
    (m : Phys) (pgdir perm va_lo n va : ℕ) (xs : List ℕ)
    → IsSpace m pgdir xs
    → va < utop
    → (check_pages m pgdir perm va_lo n (va + pgsize) ≡ access_ok)
      ↔ ((k : ℕ) → k < n → Allowed m pgdir perm (va + pgsize + k * pgsize))
    → (check_pages m pgdir perm va_lo (suc n) va ≡ access_ok)
      ↔ ((k : ℕ) → k < suc n → Allowed m pgdir perm (va + k * pgsize))
another_round m pgdir perm va_lo n va xs s h rest =
    elim (Bool-cases (allows (pte_at m pgdir va) perm)) [
      | inl ok ↦
          let round : check_pages m pgdir perm va_lo (suc n) va
              ≡ check_pages m pgdir perm va_lo n (va + pgsize) =
            ground (arith, check_round m pgdir perm va_lo n va xs s h) in
          (
            λ e. first_pages (Allowed m pgdir perm) n va ok (rest.0 (sym round ∙ e)),
            λ f. round ∙ rest.1 (later_pages (Allowed m pgdir perm) n va f),
          )
      | inr bad ↦ (
        λ e. absurd (ground (arith, check_round m pgdir perm va_lo n va xs s h)),
        λ f. absurd (ground (arith, f 0 (omega arith))),
      )
    ]

-- The loop is content where each page's entry is.
check_pages_lem :
    (m : Phys) (pgdir perm va_lo n va : ℕ) (xs : List ℕ)
    → IsSpace m pgdir xs
    → va + n * pgsize ≤ utop
    → (check_pages m pgdir perm va_lo n va ≡ access_ok)
      ↔ ((k : ℕ) → k < n → Allowed m pgdir perm (va + k * pgsize))
unfolding check_pages
check_pages_lem m pgdir perm va_lo zero va xs s h = (λ e k l. absurd (omega arith), λ f. refl)
check_pages_lem m pgdir perm va_lo (suc n) va xs s h =
    another_round m pgdir perm va_lo n va xs s (omega arith)
      (check_pages_lem m pgdir perm va_lo n (va + pgsize) xs s (omega arith))

-- The pages of a range are those of its addresses.
pages_of_range :
    (m : Phys) (pgdir perm va len : ℕ)
    → 0 < len
    → ((k : ℕ)
        → k < ((va + len + (pgsize - 1)) / pgsize * pgsize - va / pgsize * pgsize) / pgsize
        → Allowed m pgdir perm (va / pgsize * pgsize + k * pgsize))
      ↔ ((a : ℕ) → va ≤ a → a < va + len → Allowed m pgdir perm a)
unfolding pgnum
pages_of_range m pgdir perm va len pos = (
  λ f a low high.
      let e : pgnum (va / pgsize * pgsize + (a / pgsize - va / pgsize) * pgsize) ≡ pgnum a =
        omega arith in
      rw
        (sym (pte_at-page m pgdir a (va / pgsize * pgsize + (a / pgsize - va / pgsize) * pgsize) e))
        (f (a / pgsize - va / pgsize) (omega arith)),
  λ f k h. elim (dec_lt 0 k) [
    | yes later ↦ f (va / pgsize * pgsize + k * pgsize) (omega arith) (omega arith)
    | no first ↦
        let e : pgnum va ≡ pgnum (va / pgsize * pgsize + k * pgsize) = omega arith in
        rw (sym (pte_at-page m pgdir (va / pgsize * pgsize + k * pgsize) va e))
          (f va (omega arith) (omega arith))
  ],
)

range_below :
    (m : Phys) (pgdir va len perm : ℕ)
    → va + len ≤ utop
    → user_mem_check m pgdir va len perm
      ≡ check_pages m pgdir perm va
          (((va + len + (pgsize - 1)) / pgsize * pgsize - va / pgsize * pgsize) / pgsize)
          (va / pgsize * pgsize)
unfolding user_mem_check round_down round_up
range_below m pgdir va len perm h =
    let sum : (va + len) % 2 ^ 32 ≡ va + len = omega arith in
    let up : (va + len + (pgsize - 1)) % 2 ^ 32 ≡ va + len + (pgsize - 1) = omega arith in
    rw (sum, up) (ground arith)

range_above :
    (m : Phys) (pgdir va len perm : ℕ)
    → utop < va + len
    → va + len + pgsize ≤ 2 ^ 32
    → user_mem_check m pgdir va len perm ≡ access_fault va
unfolding user_mem_check round_up
range_above m pgdir va len perm h small =
    let sum : (va + len) % 2 ^ 32 ≡ va + len = omega arith in
    let up : (va + len + (pgsize - 1)) % 2 ^ 32 ≡ va + len + (pgsize - 1) = omega arith in
    rw (sum, up) (ground arith)

-- In an address space whose tables are in order, for a range of one byte or more that does not wrap
-- around with its last page: `user_mem_check` gives 0 just if the range of `len` bytes from `va` ends at
-- UTOP or before and the entry of each of its addresses has the permissions.
pub user_mem_check_lem :
    (m : Phys) (pgdir va len perm : ℕ) (xs : List ℕ)
    → IsSpace m pgdir xs
    → 0 < len
    → va + len + pgsize ≤ 2 ^ 32
    → (user_mem_check m pgdir va len perm ≡ access_ok)
      ↔ ((va + len ≤ utop) × ((a : ℕ) → va ≤ a → a < va + len → Allowed m pgdir perm a))
user_mem_check_lem m pgdir va len perm xs s pos small =
    let pages = pages_of_range m pgdir perm va len pos in
    elim (dec_lt utop (va + len)) [
      | yes above ↦ (
        λ e. absurd (ground (arith, range_above m pgdir va len perm above small)),
        λ h. absurd (omega (arith, h.0)),
      )
      | no below ↦
          let loop =
            check_pages_lem m pgdir perm va
              (((va + len + (pgsize - 1)) / pgsize * pgsize - va / pgsize * pgsize) / pgsize)
              (va / pgsize * pgsize) xs s (omega arith) in
          let e = range_below m pgdir va len perm (omega arith) in
          (λ ok. (omega arith, pages.0 (loop.0 (sym e ∙ ok))), λ h. e ∙ loop.1 (pages.1 h.1))
    ]

-- A range that ends at the top of the 32-bit addresses passes, whatever is mapped in it: the sum of
-- its start and its length wraps around to 0.
pub user_mem_check-wraps :
    (m : Phys) (pgdir va perm : ℕ)
    → 0 < va
    → va < 2 ^ 32
    → user_mem_check m pgdir va (2 ^ 32 - va) perm ≡ access_ok
unfolding user_mem_check check_pages round_down round_up
user_mem_check-wraps m pgdir va perm pos small = ground arith
