-- ===== src/Kern/Text/Strings.antt =====
-- 3-sched/lib/string.c: strings and memory. Memory is a function from addresses to bytes; a string
-- that is only read is the list of its bytes before the NUL. The ranges do not pass the end of
-- memory, and what is read as a string is not written.
pub mod Move
pub mod Fill
pub mod Compare
pub mod Copy
use sistemas_operativos_fiub.Common.{
  ℕ, zero, suc, ◌+◌, ◌-◌, ◌*◌, ◌/◌, ◌%◌, ◌^◌, Bool, true, false, ◌&&◌, Option, none, some, List, [],
  ◌∷◌, ◌==◌, ltb, leb, if◌then◌else◌, update,
}

-- The loop of `strlen`, with the count so far.
unfoldable pub strlen_from : ℕ → List ℕ → ℕ
strlen_from n [] = n
strlen_from n (c ∷ s) = strlen_from (n + 1) s

unfoldable pub strlen : List ℕ → ℕ
strlen s = strlen_from 0 s

unfoldable pub strnlen_from : ℕ → List ℕ → ℕ → ℕ
strnlen_from n s zero = n
strnlen_from n [] (suc size) = n
strnlen_from n (c ∷ s) (suc size) = strnlen_from (n + 1) s size

unfoldable pub strnlen : List ℕ → ℕ → ℕ
strnlen s size = strnlen_from 0 s size

unfoldable pub strcpy : ℕ → List ℕ → (ℕ → ℕ) → ℕ → ℕ
strcpy dst [] m = update m dst 0
strcpy dst (c ∷ src) m = strcpy (dst + 1) src (update m dst c)

-- For the string `old` at `dst`.
unfoldable pub strcat : ℕ → List ℕ → List ℕ → (ℕ → ℕ) → ℕ → ℕ
strcat dst old src m = strcpy (dst + strlen old) src m

unfoldable pub strncpy : ℕ → List ℕ → ℕ → (ℕ → ℕ) → ℕ → ℕ
strncpy dst src zero m = m
strncpy dst [] (suc size) m = strncpy (dst + 1) [] size (update m dst 0)
strncpy dst (c ∷ src) (suc size) m = strncpy (dst + 1) src size (update m dst c)

-- The loop of `strlcpy` with the rounds that `size` still allows: the end and the memory.
unfoldable pub strlcpy_loop : ℕ → List ℕ → ℕ → (ℕ → ℕ) → ℕ × (ℕ → ℕ)
strlcpy_loop dst src zero m = (dst, m)
strlcpy_loop dst [] (suc n) m = (dst, m)
strlcpy_loop dst (c ∷ src) (suc n) m = strlcpy_loop (dst + 1) src n (update m dst c)

-- What `strlcpy` returns, and the memory.
unfoldable pub strlcpy : ℕ → List ℕ → ℕ → (ℕ → ℕ) → ℕ × (ℕ → ℕ)
strlcpy dst src zero m = (0, m)
strlcpy dst src (suc n) m = let (end, m') = strlcpy_loop dst src n m in (end - dst, update m' end 0)

-- The difference of two bytes: whether it is below 0, and its size.
unfoldable pub difference : ℕ → ℕ → Bool × ℕ
difference p q = if ltb p q then (true, q - p) else (false, p - q)

unfoldable pub strcmp : List ℕ → List ℕ → Bool × ℕ
strcmp [] [] = difference 0 0
strcmp [] (d ∷ q) = difference 0 d
strcmp (c ∷ p) [] = difference c 0
strcmp (c ∷ p) (d ∷ q) = let rest = strcmp p q in if c == d then rest else difference c d

unfoldable pub strncmp : List ℕ → List ℕ → ℕ → Bool × ℕ
strncmp p q zero = (false, 0)
strncmp [] [] (suc n) = difference 0 0
strncmp [] (d ∷ q) (suc n) = difference 0 d
strncmp (c ∷ p) [] (suc n) = difference c 0
strncmp (c ∷ p) (d ∷ q) (suc n) =
    let rest = strncmp p q n in if c == d then rest else difference c d

-- The index of the byte; `none` for NULL.
unfoldable pub strchr_from : ℕ → List ℕ → ℕ → Option ℕ
strchr_from i [] c = none
strchr_from i (x ∷ s) c = let rest = strchr_from (i + 1) s c in if x == c then some i else rest

unfoldable pub strchr : List ℕ → ℕ → Option ℕ
strchr s c = strchr_from 0 s c

-- The index of the byte, or of the NUL.
unfoldable pub strfind_from : ℕ → List ℕ → ℕ → ℕ
strfind_from i [] c = i
strfind_from i (x ∷ s) c = let rest = strfind_from (i + 1) s c in if x == c then i else rest

unfoldable pub strfind : List ℕ → ℕ → ℕ
strfind s c = strfind_from 0 s c

-- `rep stosb`, and `rep stosl` for a word, whose low byte is first in memory.
unfoldable pub rep_stosb : ℕ → ℕ → ℕ → (ℕ → ℕ) → ℕ → ℕ
rep_stosb zero p c m = m
rep_stosb (suc n) p c m = rep_stosb n (p + 1) c (update m p (c % 2 ^ 8))

unfoldable pub store_word : ℕ → ℕ → (ℕ → ℕ) → ℕ → ℕ
store_word p w m =
    update
      (update (update (update m p (w % 2 ^ 8)) (p + 1) (w / 2 ^ 8 % 2 ^ 8)) (p + 2)
        (w / 2 ^ 16 % 2 ^ 8))
      (p + 3) (w / 2 ^ 24 % 2 ^ 8)

unfoldable pub rep_stosl : ℕ → ℕ → ℕ → (ℕ → ℕ) → ℕ → ℕ
rep_stosl zero p w m = m
rep_stosl (suc n) p w m = rep_stosl n (p + 4) w (store_word p w m)

-- The word `(c << 24) | (c << 16) | (c << 8) | c` of a byte.
unfoldable pub four_times : ℕ → ℕ
four_times c = c * 2 ^ 24 + c * 2 ^ 16 + c * 2 ^ 8 + c

unfoldable pub memset : ℕ → ℕ → ℕ → (ℕ → ℕ) → ℕ → ℕ
memset v c n m =
    if n == 0
    then m
    else if v % 4 == 0 && n % 4 == 0
    then rep_stosl (n / 4) v (four_times (c % 2 ^ 8)) m
    else rep_stosb n v c m

-- `movsb` and `movsl` move a unit of 1 or 4 bytes.
unfoldable pub movs : ℕ → ℕ → ℕ → (ℕ → ℕ) → ℕ → ℕ
movs unit d s m j = if leb d j && ltb j (d + unit) then m (s + (j - d)) else m j

-- `cld; rep movs`
unfoldable pub rep_movs_up : ℕ → ℕ → ℕ → ℕ → (ℕ → ℕ) → ℕ → ℕ
rep_movs_up unit zero d s m = m
rep_movs_up unit (suc n) d s m = rep_movs_up unit n (d + unit) (s + unit) (movs unit d s m)

-- `std; rep movs`, for the ends of the ranges: it starts one unit below.
unfoldable pub rep_movs_down : ℕ → ℕ → ℕ → ℕ → (ℕ → ℕ) → ℕ → ℕ
rep_movs_down unit zero d s m = m
rep_movs_down unit (suc n) d s m =
    rep_movs_down unit n (d - unit) (s - unit) (movs unit (d - unit) (s - unit) m)

unfoldable pub memmove : ℕ → ℕ → ℕ → (ℕ → ℕ) → ℕ → ℕ
memmove dst src n m =
    if ltb src dst && ltb dst (src + n)
    then (if (src + n) % 4 == 0 && ((dst + n) % 4 == 0 && n % 4 == 0)
        then rep_movs_down 4 (n / 4) (dst + n) (src + n) m
        else rep_movs_down 1 n (dst + n) (src + n) m)
    else if src % 4 == 0 && (dst % 4 == 0 && n % 4 == 0)
    then rep_movs_up 4 (n / 4) dst src m
    else rep_movs_up 1 n dst src m

unfoldable pub memcpy : ℕ → ℕ → ℕ → (ℕ → ℕ) → ℕ → ℕ
memcpy dst src n m = memmove dst src n m

unfoldable pub memcmp : ℕ → ℕ → ℕ → (ℕ → ℕ) → Bool × ℕ
memcmp s1 s2 zero m = (false, 0)
memcmp s1 s2 (suc n) m =
    let rest = memcmp (s1 + 1) (s2 + 1) n m in
    if m s1 == m s2 then rest else difference (m s1) (m s2)

-- The address of the byte, or the end of the range.
unfoldable pub memfind : ℕ → ℕ → ℕ → (ℕ → ℕ) → ℕ
memfind s c zero m = s
memfind s c (suc n) m = let rest = memfind (s + 1) c n m in if m s == c % 2 ^ 8 then s else rest
