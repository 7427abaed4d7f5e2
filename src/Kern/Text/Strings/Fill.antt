-- ===== src/Kern/Text/Strings/Fill.antt =====
-- 3-sched/lib/string.c: what `memset` leaves in memory.
use sistemas_operativos_fiub.Common.{
  ℕ, zero, suc, ◌+◌, ◌*◌, ◌/◌, ◌%◌, ◌^◌, ◌≡◌, ap, ◌∙◌, ◌<◌, inl, inr, ◌&&◌, arith, ◌==◌, ltb, leb,
  if◌then◌else◌, update, Bool-cases, ==-ne,
}
use sistemas_operativos_fiub.Kern.Text.Strings.{
  rep_stosb, store_word, rep_stosl, four_times, memset,
}

-- The low byte in the range, the others as they were.
abbrev pub filled : ℕ → ℕ → ℕ → (ℕ → ℕ) → ℕ → ℕ
filled v c n m j = if leb v j && ltb j (v + n) then c % 2 ^ 8 else m j

rep_stosb_lem : (n p c : ℕ) (m : ℕ → ℕ) (j : ℕ) → rep_stosb n p c m j ≡ filled p c n m j
unfolding rep_stosb update
rep_stosb_lem zero p c m j = ground arith
rep_stosb_lem (suc n) p c m j = ground (arith, rep_stosb_lem n (p + 1) c (update m p (c % 2 ^ 8)) j)

stored :
    (p c : ℕ) (m : ℕ → ℕ) (j w : ℕ)
    → w % 2 ^ 8 ≡ c % 2 ^ 8
    → w / 2 ^ 8 % 2 ^ 8 ≡ c % 2 ^ 8
    → w / 2 ^ 16 % 2 ^ 8 ≡ c % 2 ^ 8
    → w / 2 ^ 24 % 2 ^ 8 ≡ c % 2 ^ 8
    → store_word p w m j ≡ filled p c 4 m j
unfolding store_word update
stored p c m j w b0 b1 b2 b3 = rw (b0, b1, b2, b3) (ground arith)

-- All four bytes of the word are the byte.
store_word-four_times :
    (p c : ℕ) (m : ℕ → ℕ) (j : ℕ) → c < 2 ^ 8 → store_word p (four_times c) m j ≡ filled p c 4 m j
unfolding store_word four_times update
store_word-four_times p c m j h =
    let w : ℕ = c * 2 ^ 24 + c * 2 ^ 16 + c * 2 ^ 8 + c in
    let b0 : w % 2 ^ 8 ≡ c % 2 ^ 8 = omega arith in
    let b1 : w / 2 ^ 8 % 2 ^ 8 ≡ c % 2 ^ 8 = omega arith in
    let b2 : w / 2 ^ 16 % 2 ^ 8 ≡ c % 2 ^ 8 = omega arith in
    let b3 : w / 2 ^ 24 % 2 ^ 8 ≡ c % 2 ^ 8 = omega arith in stored p c m j w b0 b1 b2 b3

rep_stosl_lem :
    (n p c : ℕ) (m : ℕ → ℕ) (j : ℕ)
    → c < 2 ^ 8
    → rep_stosl n p (four_times c) m j ≡ filled p c (4 * n) m j
unfolding rep_stosl
rep_stosl_lem zero p c m j h = ground arith
rep_stosl_lem (suc n) p c m j h = ground (
  arith,
  rep_stosl_lem n (p + 4) c (store_word p (four_times c) m) j h,
  store_word-four_times p c m j h,
)

memset_words :
    (v c n : ℕ) (m : ℕ → ℕ) (j : ℕ)
    → n % 4 ≡ 0
    → rep_stosl (n / 4) v (four_times (c % 2 ^ 8)) m j ≡ filled v c n m j
memset_words v c n m j h =
    let e : 4 * (n / 4) ≡ n = omega (arith, h) in
    rep_stosl_lem (n / 4) v (c % 2 ^ 8) m j (omega arith)
    ∙ ap (λ (k : ℕ). filled v (c % 2 ^ 8) k m j) e
    ∙ ap (λ (b : ℕ). if leb v j && ltb j (v + n) then b else m j) (omega arith)

-- `memset` fills the range with the low byte of its argument, by words where the range starts and ends
-- at words, and leaves the rest of memory as it was.
pub memset_lem : (v c n : ℕ) (m : ℕ → ℕ) (j : ℕ) → memset v c n m j ≡ filled v c n m j
unfolding memset
memset_lem v c zero m j = ground arith
memset_lem v c (suc n) m j = elim (Bool-cases (v % 4 == 0 && suc n % 4 == 0)) [
  | inl q ↦
      rw (memset, ==-ne (suc n) 0 (omega arith), q)
        (memset_words v c (suc n) m j (ground (arith, q)))
  | inr q ↦ rw (memset, ==-ne (suc n) 0 (omega arith), q) (rep_stosb_lem (suc n) v c m j)
]
