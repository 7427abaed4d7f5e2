-- ===== src/Kern/Words.antt =====
-- 3-sched/inc/mmu.h, inc/types.h and inc/memlayout.h: page table words, linear addresses and the
-- layout of memory. A word is a number below 2 ^ 32; a flag of it is one binary digit.
use sistemas_operativos_fiub.Common.{
  ℕ, zero, suc, ◌+◌, ◌-◌, ◌*◌, ◌/◌, ◌%◌, ◌^◌, ◌≤◌, ◌<◌, ◌≡◌, refl, Bool, arith, ◌==◌, if◌then◌else◌,
}
use Prim.Native.Nat.{max, bit_or, digits, bit_or-bitwise}

abbrev pub pgsize : ℕ
pgsize = 4096

abbrev pub npdentries : ℕ
npdentries = 1024

abbrev pub utop : ℕ
utop = 0xEEC00000

abbrev pub mmiobase : ℕ
mmiobase = 0xEF800000

abbrev pub mmiolim : ℕ
mmiolim = 0xEFC00000

abbrev pub uvpt : ℕ
uvpt = 0xEF400000

-- `PGNUM`, `PDX` and `PTX`
unfoldable pub pgnum : ℕ → ℕ
pgnum la = la / pgsize

unfoldable pub pdx : ℕ → ℕ
pdx la = la / 2 ^ 22 % npdentries

unfoldable pub ptx : ℕ → ℕ
ptx la = la / 2 ^ 12 % npdentries

-- `ROUNDDOWN` and `ROUNDUP` to a page; the sum of the latter wraps around.
unfoldable pub round_down : ℕ → ℕ
round_down a = a / pgsize * pgsize

unfoldable pub round_up : ℕ → ℕ
round_up a = (a + (pgsize - 1)) % 2 ^ 32 / pgsize * pgsize

-- The flags, as the numbers of which they are the one digit.
abbrev pub pte_p : ℕ
pte_p = 1

abbrev pub pte_w : ℕ
pte_w = 2

abbrev pub pte_u : ℕ
pte_u = 4

abbrev pub pte_pwt : ℕ
pte_pwt = 8

abbrev pub pte_pcd : ℕ
pte_pcd = 16

-- `w & flag`, and `w | flag`
unfoldable pub has_flag : ℕ → ℕ → Bool
has_flag w flag = w / flag % 2 == 1

unfoldable pub or_flag : ℕ → ℕ → ℕ
or_flag w flag = if w / flag % 2 == 1 then w else w + flag

-- `page2pa(pp) | perm`, where the low twelve digits of the address are 0 and `perm` is any word.
unfoldable pub or_perm : ℕ → ℕ → ℕ
or_perm pp perm = bit_or pp (perm / pgsize) * pgsize + perm % pgsize

digits_zero : (n a : ℕ) → a ≤ n → digits (λ b. b) max n a 0 ≡ a
digits_zero zero zero h = refl
digits_zero zero (suc a) h = absurd (omega arith)
digits_zero (suc n) zero h = refl
digits_zero (suc n) (suc a) h = omega (arith, digits_zero n (suc a / 2) (omega arith))

bit_or_zero : (a : ℕ) → bit_or a 0 ≡ a
bit_or_zero a = omega (arith, bit_or-bitwise a 0, digits_zero a a (omega arith))

-- A `perm` without address bits only fills in the low digits.
pub or_perm_low : (pp perm : ℕ) → perm < pgsize → or_perm pp perm ≡ pp * pgsize + perm
unfolding or_perm
or_perm_low pp perm h =
    let e : perm / pgsize ≡ 0 = omega arith in rw (e, bit_or_zero pp) (omega arith)
