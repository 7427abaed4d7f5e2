-- ===== src/Fs/Strings/Laws.antt =====
-- Laws of the string functions: what string a field holds after a copy, and what a `blit` leaves.
use sistemas_operativos_fiub.Common.{
  ℕ, zero, suc, ◌+◌, ◌≤◌, ◌<◌, ◌≡◌, refl, ap, ◌∙◌, List, [], ◌∷◌, ◌++◌, arith, length, take, drop,
  ==-ne, length-append, take-all,
}
use native.Mathlib.Nat.{zero-add, suc-add}
use sistemas_operativos_fiub.Fs.Strings.{c_str, zeros, strncpy, blit, IsText}
use sistemas_operativos_fiub.Fs.State.{path_field}

pub c_str-append : (s t : List ℕ) → IsText s → c_str (s ++ (0 ∷ t)) ≡ s
unfolding c_str
c_str-append [] t h = refl
c_str-append (x ∷ s) t h = rw (==-ne x 0 h.0) (ap (λ l. x ∷ l) (c_str-append s t h.1))

pub c_str_text : (s : List ℕ) → IsText s → c_str s ≡ s
unfolding c_str
c_str_text [] h = refl
c_str_text (x ∷ s) h = rw (==-ne x 0 h.0) (ap (λ l. x ∷ l) (c_str_text s h.1))

pub c_str-IsText : (s : List ℕ) → IsText (c_str s)
unfolding c_str
c_str-IsText [] = tt
c_str-IsText (x ∷ s) = ground (arith, c_str-IsText s)

pub length-c_str : (s : List ℕ) → length (c_str s) ≤ length s
unfolding c_str
length-c_str [] = omega arith
length-c_str (x ∷ s) = ground (arith, length-c_str s)

pub length-strncpy : (n : ℕ) (s : List ℕ) → length (strncpy n s) ≡ n
unfolding strncpy
length-strncpy zero s = refl
length-strncpy (suc n) [] = ap suc (length-strncpy n [])
length-strncpy (suc n) (x ∷ s) = ap suc (length-strncpy n s)

pub length-zeros : (n : ℕ) → length (zeros n) ≡ n
unfolding zeros
length-zeros zero = refl
length-zeros (suc n) = ap suc (length-zeros n)

pub take-IsText : (n : ℕ) (s : List ℕ) → IsText s → IsText (take n s)
take-IsText zero s h = tt
take-IsText (suc n) [] h = tt
take-IsText (suc n) (x ∷ s) h = (h.0, take-IsText n s h.1)

-- The string behind a `strncpy` of a string: the string, cut at `n` bytes.
pub c_str-strncpy : (n : ℕ) (s t : List ℕ) → IsText s → c_str (strncpy n s ++ (0 ∷ t)) ≡ take n s
unfolding c_str strncpy
c_str-strncpy zero s t h = refl
c_str-strncpy (suc n) [] t h = refl
c_str-strncpy (suc n) (x ∷ s) t h = rw (==-ne x 0 h.0) (ap (λ l. x ∷ l) (c_str-strncpy n s t h.1))

-- The same where `strncpy` fills the whole buffer.
pub c_str-strncpy_full : (n : ℕ) (s : List ℕ) → IsText s → c_str (strncpy n s) ≡ take n s
unfolding c_str strncpy
c_str-strncpy_full zero s h = refl
c_str-strncpy_full (suc n) [] h = refl
c_str-strncpy_full (suc n) (x ∷ s) h =
    rw (==-ne x 0 h.0) (ap (λ l. x ∷ l) (c_str-strncpy_full n s h.1))

pub strncpy_exact : (s : List ℕ) → strncpy (length s) s ≡ s
unfolding strncpy
strncpy_exact [] = refl
strncpy_exact (x ∷ s) = ap (λ l. x ∷ l) (strncpy_exact s)

-- A path field holds the path, if it fits.
pub c_str-path_field : (s : List ℕ) → IsText s → length s < 128 → c_str (path_field s) ≡ s
unfolding path_field
c_str-path_field s h fits = c_str-strncpy 127 s [] h ∙ take-all 127 s (omega arith)

pub length-path_field : (s : List ℕ) → length (path_field s) ≡ 128
unfolding path_field
length-path_field s = omega (arith, length-append (strncpy 127 s) (0 ∷ []), length-strncpy 127 s)

pub c_str-take-append :
    (n : ℕ) (s t : List ℕ) → IsText s → c_str (take n (s ++ (0 ∷ t)) ++ (0 ∷ [])) ≡ take n s
unfolding c_str
c_str-take-append zero s t h = refl
c_str-take-append (suc n) [] t h = refl
c_str-take-append (suc n) (x ∷ s) t h =
    rw (==-ne x 0 h.0) (ap (λ l. x ∷ l) (c_str-take-append n s t h.1))

pub length-blit : (d : List ℕ) (off : ℕ) (bs : List ℕ) → length (blit d off bs) ≡ length d
unfolding blit
length-blit [] off bs = refl
length-blit (d ∷ ds) zero [] = refl
length-blit (d ∷ ds) zero (b ∷ bs) = ap suc (length-blit ds zero bs)
length-blit (d ∷ ds) (suc off) bs = ap suc (length-blit ds off bs)

-- What was written is read back.
pub drop-blit :
    (d : List ℕ) (off : ℕ) (bs : List ℕ)
    → off + length bs ≤ length d
    → take (length bs) (drop off (blit d off bs)) ≡ bs
unfolding blit
drop-blit [] zero [] h = refl
drop-blit [] zero (b ∷ bs) h = absurd (omega arith)
drop-blit [] (suc off) bs h = absurd (omega arith)
drop-blit (d ∷ ds) zero [] h = refl
drop-blit (d ∷ ds) zero (b ∷ bs) h = ap (λ l. b ∷ l) (drop-blit ds zero bs (omega arith))
drop-blit (d ∷ ds) (suc off) bs h = drop-blit ds off bs (omega arith)

-- A later write leaves the bytes before it.
pub take-drop-blit :
    (d : List ℕ) (n off at : ℕ) (bs : List ℕ)
    → off + n ≤ at
    → take n (drop off (blit d at bs)) ≡ take n (drop off d)
unfolding blit
take-drop-blit [] n off at bs h = refl
take-drop-blit (d ∷ ds) zero off at bs h = refl
take-drop-blit (d ∷ ds) (suc n) zero zero bs h = absurd (omega arith)
take-drop-blit (d ∷ ds) (suc n) (suc off) zero bs h = absurd (omega arith)
take-drop-blit (d ∷ ds) (suc n) zero (suc at) bs h =
    ap (λ l. d ∷ l) (take-drop-blit ds n zero at bs (omega arith))
take-drop-blit (d ∷ ds) (suc n) (suc off) (suc at) bs h =
    take-drop-blit ds (suc n) off at bs (omega arith)

-- A NUL ends the string that stands before it.
pub length-c_str-blit :
    (d : List ℕ) (at : ℕ) → at < length d → length (c_str (blit d at (0 ∷ []))) ≤ at
unfolding c_str blit
length-c_str-blit [] at h = absurd (omega arith)
length-c_str-blit (d ∷ ds) zero h = omega arith
length-c_str-blit (d ∷ ds) (suc at) h = ground (arith, length-c_str-blit ds at)

pub length-c_str-blit-zeros :
    (d : List ℕ) (at n : ℕ) → length (c_str (blit d at (zeros n))) ≤ length (c_str d)
unfolding c_str blit zeros
length-c_str-blit-zeros [] at n = omega arith
length-c_str-blit-zeros (d ∷ ds) zero zero = omega arith
length-c_str-blit-zeros (d ∷ ds) zero (suc n) = omega arith
length-c_str-blit-zeros (d ∷ ds) (suc at) n = ground (arith, length-c_str-blit-zeros ds at n)

-- A `blit` inside the buffer: the bytes before it, then those that it writes.
pub take-blit :
    (d : List ℕ) (off : ℕ) (bs : List ℕ)
    → off + length bs ≤ length d
    → take (off + length bs) (blit d off bs) ≡ take off d ++ bs
unfolding blit
take-blit [] zero [] h = refl
take-blit [] zero (b ∷ bs) h = absurd (omega arith)
take-blit [] (suc off) bs h = absurd (omega arith)
take-blit (d ∷ ds) zero [] h = refl
take-blit (d ∷ ds) zero (b ∷ bs) h =
    rw zero-add (ap (λ l. b ∷ l) (rw zero-add at (take-blit ds zero bs (omega arith))))
take-blit (d ∷ ds) (suc off) bs h = rw suc-add (ap (λ l. d ∷ l) (take-blit ds off bs (omega arith)))

pub take-blit_before :
    (d : List ℕ) (n off : ℕ) (bs : List ℕ) → n ≤ off → take n (blit d off bs) ≡ take n d
unfolding blit
take-blit_before [] n off bs h = refl
take-blit_before (d ∷ ds) zero off bs h = refl
take-blit_before (d ∷ ds) (suc n) zero bs h = absurd (omega arith)
take-blit_before (d ∷ ds) (suc n) (suc off) bs h =
    ap (λ l. d ∷ l) (take-blit_before ds n off bs (omega arith))

zeros-strncpy : (n : ℕ) → strncpy n [] ≡ zeros n
unfolding strncpy zeros
zeros-strncpy zero = refl
zeros-strncpy (suc n) = ap (λ l. 0 ∷ l) (zeros-strncpy n)

-- Where a NUL stands in a buffer, `strncpy` writes zeros from there on.
pub strncpy_text : (a b : List ℕ) → strncpy (length (a ++ (0 ∷ b))) a ≡ a ++ zeros (suc (length b))
unfolding strncpy zeros
strncpy_text [] b = ap (λ l. 0 ∷ l) (zeros-strncpy (length b))
strncpy_text (x ∷ a) b = ap (λ l. x ∷ l) (strncpy_text a b)

pub take-strncpy :
    (m n : ℕ) (s t : List ℕ) → m ≤ n → m ≤ length s → take m (strncpy n s ++ t) ≡ take m s
unfolding strncpy
take-strncpy zero n s t h k = refl
take-strncpy (suc m) zero s t h k = absurd (omega arith)
take-strncpy (suc m) (suc n) [] t h k = absurd (omega arith)
take-strncpy (suc m) (suc n) (x ∷ s) t h k =
    ap (λ l. x ∷ l) (take-strncpy m n s t (omega arith) (omega arith))
