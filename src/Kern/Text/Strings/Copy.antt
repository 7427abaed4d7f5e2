-- ===== src/Kern/Text/Strings/Copy.antt =====
-- 3-sched/lib/string.c: what the copies of strings leave in memory.
use sistemas_operativos_fiub.Common.{
  ℕ, zero, suc, ◌+◌, ◌-◌, ◌≡◌, ap, ◌∙◌, ◌<◌, List, [], ◌∷◌, arith, ◌==◌, if◌then◌else◌, update,
  length,
}
use Prim.Native.Nat.{min}
use sistemas_operativos_fiub.Kern.Text.Bytes.{written, written-cons}
use sistemas_operativos_fiub.Kern.Text.Strings.{strncpy, strlcpy_loop, strlcpy}

written-zero :
    (lo hi : ℕ) (old : ℕ → ℕ) (j : ℕ)
    → lo < hi
    → written [] (lo + 1) hi (update old lo 0) j ≡ written [] lo hi old j
unfolding update
written-zero lo hi old j h = ground arith

-- `strncpy` writes the string and zeros behind it, as many bytes as it is told to, which are all bytes
-- of the string where it has as many or more, and leaves the rest of memory as it was.
pub strncpy_lem :
    (dst : ℕ) (src : List ℕ) (size : ℕ) (m : ℕ → ℕ) (j : ℕ)
    → strncpy dst src size m j ≡ written src dst (dst + size) m j
unfolding strncpy
strncpy_lem dst src zero m j = ground arith
strncpy_lem dst [] (suc size) m j =
    strncpy_lem (dst + 1) [] size (update m dst 0) j
    ∙ ap (λ (hi : ℕ). written [] (dst + 1) hi (update m dst 0) j) (omega arith)
    ∙ written-zero dst (dst + suc size) m j (omega arith)
strncpy_lem dst (c ∷ src) (suc size) m j =
    strncpy_lem (dst + 1) src size (update m dst c) j
    ∙ ap (λ (hi : ℕ). written src (dst + 1) hi (update m dst c) j) (omega arith)
    ∙ written-cons c dst (dst + suc size) src m j (omega arith)

strlcpy_loop_lem :
    (dst : ℕ) (src : List ℕ) (n : ℕ) (m : ℕ → ℕ) (j : ℕ)
    → ((strlcpy_loop dst src n m).0 ≡ dst + min (length src) n)
      × ((strlcpy_loop dst src n m).1 j ≡ written src dst (dst + min (length src) n) m j)
unfolding strlcpy_loop
strlcpy_loop_lem dst src zero m j = (omega arith, ground arith)
strlcpy_loop_lem dst [] (suc n) m j = (omega arith, ground arith)
strlcpy_loop_lem dst (c ∷ src) (suc n) m j =
    let (e, b) = strlcpy_loop_lem (dst + 1) src n (update m dst c) j in
    (
      omega (arith, e),
      b
          ∙ ap (λ (hi : ℕ). written src (dst + 1) hi (update m dst c) j) (omega arith)
          ∙ written-cons c dst (dst + min (suc (length src)) (suc n)) src m j (omega arith),
    )

closed :
    (f old : ℕ → ℕ) (src : List ℕ) (dst end a b j : ℕ)
    → a ≡ b
    → end ≡ a
    → f j ≡ written src dst a old j
    → update f end 0 j ≡ (if j == b then 0 else written src dst b old j)
unfolding update
closed f old src dst end a b j same e h = ground (arith, same, e, h)

-- `strlcpy` to a buffer of one byte or more writes the start of the string that fits before a NUL, and
-- the NUL, leaves the rest of memory as it was, and returns the number of bytes before the NUL.
pub strlcpy_lem :
    (dst : ℕ) (src : List ℕ) (size : ℕ) (m : ℕ → ℕ) (j : ℕ)
    → 0 < size
    → ((strlcpy dst src size m).0 ≡ min (length src) (size - 1))
      × ((strlcpy dst src size m).1 j ≡ (
          if j == dst + min (length src) (size - 1)
          then 0
          else written src dst (dst + min (length src) (size - 1)) m j))
unfolding strlcpy update
strlcpy_lem dst src zero m j pos = absurd (omega arith)
strlcpy_lem dst src (suc n) m j pos =
    let (e, b) = strlcpy_loop_lem dst src n m j in
    (
      omega (arith, e),
      closed (strlcpy_loop dst src n m).1 m src dst (strlcpy_loop dst src n m).0
          (dst + min (length src) n) (dst + min (length src) (suc n - 1)) j (omega arith) e b,
    )
