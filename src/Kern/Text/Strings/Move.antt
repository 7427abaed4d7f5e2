-- ===== src/Kern/Text/Strings/Move.antt =====
-- 3-sched/lib/string.c: what `memmove` leaves in memory.
use sistemas_operativos_fiub.Common.{
  ℕ, zero, suc, ◌+◌, ◌-◌, ◌*◌, ◌/◌, ◌%◌, ◌≡◌, refl, sym, ap, ◌∙◌, ◌<◌, ◌≤◌, ◌⊎◌, inl, inr, Bool,
  true, false, ◌&&◌, arith, ◌==◌, ltb, leb, if◌then◌else◌, Bool-cases,
}
use native.Mathlib.Decide.{dec_lt}
use sistemas_operativos_fiub.Kern.Text.Strings.{movs, rep_movs_up, rep_movs_down, memmove}

-- The bytes of a number of units.
abbrev span : ℕ → ℕ → ℕ
span unit zero = 0
span unit (suc n) = unit + span unit n

span_bytes : (n : ℕ) → span 1 n ≡ n
span_bytes zero = refl
span_bytes (suc n) = omega (arith, span_bytes n)

span_words : (n : ℕ) → span 4 n ≡ 4 * n
span_words zero = refl
span_words (suc n) = omega (arith, span_words n)

-- The bytes from `s` on at `d`, the others as they were.
abbrev pub moved : ℕ → ℕ → ℕ → (ℕ → ℕ) → ℕ → ℕ
moved d s n m j = if leb d j && ltb j (d + n) then m (s + (j - d)) else m j

-- A unit that is moved leaves what is outside its target.
movs-outside : (u d s a : ℕ) (m : ℕ → ℕ) → (a < d) ⊎ (d + u ≤ a) → movs u d s m a ≡ m a
unfolding movs
movs-outside u d s a m h = ground arith

movs-inside : (u d s a : ℕ) (m : ℕ → ℕ) → d ≤ a → a < d + u → movs u d s m a ≡ m (s + (a - d))
unfolding movs
movs-inside u d s a m h l = ground arith

moved-outside : (d s n j : ℕ) (m : ℕ → ℕ) → (j < d) ⊎ (d + n ≤ j) → moved d s n m j ≡ m j
moved-outside d s n j m h = ground arith

moved-inside : (d s n j : ℕ) (m : ℕ → ℕ) → d ≤ j → j < d + n → moved d s n m j ≡ m (s + (j - d))
moved-inside d s n j m h l = ground arith

-- The units above the first one, and then the first one.
up_step :
    (u r d s : ℕ) (m : ℕ → ℕ) (j : ℕ)
    → (d ≤ s) ⊎ (s + (u + r) ≤ d)
    → moved (d + u) (s + u) r (movs u d s m) j ≡ moved d s (u + r) m j
up_step u r d s m j h = elim (dec_lt j (d + u)) [
  | yes below ↦
      moved-outside (d + u) (s + u) r j (movs u d s m) (inl below) ∙ first_unit u r d s m j below
  | no above ↦ elim (dec_lt j (d + u + r)) [
    | yes l ↦
        moved-inside (d + u) (s + u) r j (movs u d s m) (omega arith) l
        ∙ movs-outside u d s (s + u + (j - (d + u))) m (unread u r d s j h above l)
        ∙ ap m (omega arith)
        ∙ sym (moved-inside d s (u + r) j m (omega arith) (omega arith))
    | no out ↦
        moved-outside (d + u) (s + u) r j (movs u d s m) (inr (omega arith))
        ∙ movs-outside u d s j m (inr (omega arith))
        ∙ sym (moved-outside d s (u + r) j m (inr (omega arith)))
  ]
]
  where
    first_unit :
        (u r d s : ℕ) (m : ℕ → ℕ) (j : ℕ) → j < d + u → movs u d s m j ≡ moved d s (u + r) m j
    first_unit u r d s m j below = elim (dec_lt j d) [
      | yes l ↦ movs-outside u d s j m (inl l) ∙ sym (moved-outside d s (u + r) j m (inl l))
      | no n ↦
          movs-inside u d s j m (omega arith) below
          ∙ sym (moved-inside d s (u + r) j m (omega arith) (omega arith))
    ]

    unread :
        (u r d s j : ℕ)
        → (d ≤ s) ⊎ (s + (u + r) ≤ d)
        → (j < d + u → ⊥)
        → j < d + u + r
        → (s + u + (j - (d + u)) < d) ⊎ (d + u ≤ s + u + (j - (d + u)))
    unread u r d s j (inl h) above l = inr (omega arith)
    unread u r d s j (inr h) above l = inl (omega arith)

-- Upwards nothing is read after it was written.
rep_movs_up_lem :
    (unit n d s : ℕ) (m : ℕ → ℕ) (j : ℕ)
    → (d ≤ s) ⊎ (s + span unit n ≤ d)
    → rep_movs_up unit n d s m j ≡ moved d s (span unit n) m j
unfolding rep_movs_up
rep_movs_up_lem unit zero d s m j h = ground arith
rep_movs_up_lem unit (suc n) d s m j h =
    rep_movs_up_lem unit n (d + unit) (s + unit) (movs unit d s m) j
      (apart unit (span unit n) d s h)
    ∙ up_step unit (span unit n) d s m j h
  where
    apart : (u r d s : ℕ) → (d ≤ s) ⊎ (s + (u + r) ≤ d) → (d + u ≤ s + u) ⊎ (s + u + r ≤ d + u)
    apart u r d s (inl h) = inl (omega arith)
    apart u r d s (inr h) = inr (omega arith)

-- The last unit, and then the units below it.
down_step :
    (u r d s : ℕ) (m : ℕ → ℕ) (j : ℕ)
    → s ≤ d
    → moved d s r (movs u (d + r) (s + r) m) j ≡ moved d s (u + r) m j
down_step u r d s m j h = elim (dec_lt j (d + r)) [
  | yes below ↦ elim (dec_lt j d) [
    | yes l ↦
        moved-outside d s r j (movs u (d + r) (s + r) m) (inl l)
        ∙ movs-outside u (d + r) (s + r) j m (inl (omega arith))
        ∙ sym (moved-outside d s (u + r) j m (inl l))
    | no n ↦
        moved-inside d s r j (movs u (d + r) (s + r) m) (omega arith) below
        ∙ movs-outside u (d + r) (s + r) (s + (j - d)) m (inl (omega arith))
        ∙ sym (moved-inside d s (u + r) j m (omega arith) (omega arith))
  ]
  | no above ↦
      moved-outside d s r j (movs u (d + r) (s + r) m) (inr (omega arith))
      ∙ last_unit u r d s m j above
]
  where
    last_unit :
        (u r d s : ℕ) (m : ℕ → ℕ) (j : ℕ)
        → (j < d + r → ⊥)
        → movs u (d + r) (s + r) m j ≡ moved d s (u + r) m j
    last_unit u r d s m j above = elim (dec_lt j (d + r + u)) [
      | yes l ↦
          movs-inside u (d + r) (s + r) j m (omega arith) l
          ∙ ap m (omega arith)
          ∙ sym (moved-inside d s (u + r) j m (omega arith) (omega arith))
      | no n ↦
          movs-outside u (d + r) (s + r) j m (inr (omega arith))
          ∙ sym (moved-outside d s (u + r) j m (inr (omega arith)))
    ]

-- Downwards nothing is read after it was written where the target is above.
rep_movs_down_lem :
    (unit n d s : ℕ) (m : ℕ → ℕ) (j : ℕ)
    → s ≤ d
    → rep_movs_down unit n (d + span unit n) (s + span unit n) m j ≡ moved d s (span unit n) m j
unfolding rep_movs_down
rep_movs_down_lem unit zero d s m j h = ground arith
rep_movs_down_lem unit (suc n) d s m j h =
    rw (below d (span unit n) unit, below s (span unit n) unit)
      (rep_movs_down_lem unit n d s (movs unit (d + span unit n) (s + span unit n) m) j h
        ∙ down_step unit (span unit n) d s m j h)
  where
    below : (d r u : ℕ) → d + (u + r) - u ≡ d + r
    below d r u = omega arith

words_span : (n : ℕ) → n % 4 ≡ 0 → span 4 (n / 4) ≡ n
words_span n h = let e = span_words (n / 4) in omega (arith, e, h)

down_any :
    (unit k n d s : ℕ) (m : ℕ → ℕ) (j : ℕ)
    → span unit k ≡ n
    → s ≤ d
    → rep_movs_down unit k (d + n) (s + n) m j ≡ moved d s n m j
down_any unit k n d s m j e h = rw (sym e) (rep_movs_down_lem unit k d s m j h)

up_any :
    (unit k n d s : ℕ) (m : ℕ → ℕ) (j : ℕ)
    → span unit k ≡ n
    → (d ≤ s) ⊎ (s + n ≤ d)
    → rep_movs_up unit k d s m j ≡ moved d s n m j
up_any unit k n d s m j e h =
    rep_movs_up_lem unit k d s m j (rw e h) ∙ ap (λ (r : ℕ). moved d s r m j) e

memmove_down :
    (dst src n : ℕ) (m : ℕ → ℕ) (j : ℕ)
    → src < dst
    → dst < src + n
    → memmove dst src n m j ≡ moved dst src n m j
unfolding memmove
memmove_down dst src n m j h l = elim (Bool-cases (words dst src n)) [
  | inl q ↦
      rw (memmove, overlaps dst src n h l, q)
        (down_any 4 (n / 4) n dst src m j (words_span n (whole_words dst src n q)) (omega arith))
  | inr q ↦
      rw (memmove, overlaps dst src n h l, q)
        (down_any 1 n n dst src m j (span_bytes n) (omega arith))
]
  where
    words : ℕ → ℕ → ℕ → Bool
    words dst src n = (src + n) % 4 == 0 && ((dst + n) % 4 == 0 && n % 4 == 0)

    whole_words : (dst src n : ℕ) → words dst src n ≡ true → n % 4 ≡ 0
    whole_words dst src n q = ground (arith, q)

    overlaps :
        (dst src n : ℕ) → src < dst → dst < src + n → (ltb src dst && ltb dst (src + n)) ≡ true
    overlaps dst src n h l = ground arith

memmove_up :
    (dst src n : ℕ) (m : ℕ → ℕ) (j : ℕ)
    → (dst ≤ src) ⊎ (src + n ≤ dst)
    → memmove dst src n m j ≡ moved dst src n m j
unfolding memmove
memmove_up dst src n m j h = elim (Bool-cases (words dst src n)) [
  | inl q ↦
      rw (memmove, apart dst src n h, q)
        (up_any 4 (n / 4) n dst src m j (words_span n (whole_words dst src n q)) h)
  | inr q ↦ rw (memmove, apart dst src n h, q) (up_any 1 n n dst src m j (span_bytes n) h)
]
  where
    words : ℕ → ℕ → ℕ → Bool
    words dst src n = src % 4 == 0 && (dst % 4 == 0 && n % 4 == 0)

    whole_words : (dst src n : ℕ) → words dst src n ≡ true → n % 4 ≡ 0
    whole_words dst src n q = ground (arith, q)

    apart :
        (dst src n : ℕ) → (dst ≤ src) ⊎ (src + n ≤ dst) → (ltb src dst && ltb dst (src + n)) ≡ false
    apart dst src n h = ground arith

-- `memmove` copies the range, as it was before, also where the two ranges overlap, and leaves the rest
-- of memory as it was.
pub memmove_lem : (dst src n : ℕ) (m : ℕ → ℕ) (j : ℕ) → memmove dst src n m j ≡ moved dst src n m j
memmove_lem dst src n m j = elim (dec_lt src dst) [
  | no n1 ↦ memmove_up dst src n m j (inl (omega arith))
  | yes l ↦ elim (dec_lt dst (src + n)) [
    | no n2 ↦ memmove_up dst src n m j (inr (omega arith))
    | yes l2 ↦ memmove_down dst src n m j l l2
  ]
]
