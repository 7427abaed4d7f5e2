-- ===== src/Kern/Text/Output/Buffer.antt =====
-- 3-sched/lib/printfmt.c and lib/printf.c: what the buffers hold.
use sistemas_operativos_fiub.Common.{
  ℕ, suc, ◌+◌, ◌-◌, ◌^◌, ◌⊎◌, inl, inr, Option, none, ◌||◌, leb, ◌≡◌, refl, ap, ◌∙◌, ◌<◌, ◌≤◌,
  false, some, List, [], ◌∷◌, arith, ◌==◌, ltb, if◌then◌else◌, length, update,
}
use Prim.Native.Nat.{min}
use native.Mathlib.Decide.{dec_lt}
use mathlib.Core.Option
use sistemas_operativos_fiub.Kern.Text.Bytes.{nth, written, written-cons}
use sistemas_operativos_fiub.Kern.Text.Escape.{Arg}
use sistemas_operativos_fiub.Kern.Text.Format.{vprintfmt}
use sistemas_operativos_fiub.Kern.Text.Output.{
  SprintBuf, sprintputch, sprint_all, vsnprintf, count_up, PrintBuf, put_all, vcprintf,
}
use sistemas_operativos_fiub.Kern.Text.Output.Count.{
  sprint_all-cnt, sprint_all-overflows, put_all-cnt, put_all-overflows,
}
use sistemas_operativos_fiub.Kern.Text.Output.Flush.{put_all-IsFlushed, flatten, AllShort}

abbrev Sprinted : ℕ → List ℕ → SprintBuf → SprintBuf → ℕ → Type 0
Sprinted ebuf out b r j =
    (r.buf ≡ min (b.buf + length out) ebuf)
    × (r.bytes j ≡ written out b.buf (min (b.buf + length out) ebuf) b.bytes j)

same_end : (i n e : ℕ) → min (i + 1 + n) e ≡ min (i + suc n) e
same_end i n e = omega arith

none_written :
    (ch lo ebuf : ℕ) (out : List ℕ) (old : ℕ → ℕ) (j : ℕ)
    → ebuf ≤ lo
    → written out lo (min (lo + length out) ebuf) old j
      ≡ written (ch ∷ out) lo (min (lo + suc (length out)) ebuf) old j
none_written ch lo ebuf out old j h = ground arith

with_room :
    (ebuf ch : ℕ) (out : List ℕ) (b : SprintBuf)
    → b.buf < ebuf
    → sprint_all ebuf (ch ∷ out) b
      ≡ sprint_all ebuf out
          (record { buf = b.buf + 1; bytes = update b.bytes b.buf ch; cnt = count_up b.cnt })
unfolding sprint_all sprintputch
with_room ebuf ch out b l = ground arith

when_full :
    (ebuf ch : ℕ) (out : List ℕ) (b : SprintBuf)
    → ebuf ≤ b.buf
    → sprint_all ebuf (ch ∷ out) b ≡ sprint_all ebuf out (record b { cnt = count_up b.cnt })
unfolding sprint_all sprintputch
when_full ebuf ch out b n = ground arith

sprint_all_lem :
    (ebuf : ℕ) (out : List ℕ) (b : SprintBuf)
    → b.buf ≤ ebuf
    → (j : ℕ) → Sprinted ebuf out b (sprint_all ebuf out b) j
unfolding sprint_all sprintputch
sprint_all_lem ebuf [] b h j = (omega arith, ground arith)
sprint_all_lem ebuf (ch ∷ out) b h j = elim (dec_lt b.buf ebuf) [
  | yes l ↦
      let b' : SprintBuf = record {
        buf = b.buf + 1;
        bytes = update b.bytes b.buf ch;
        cnt = count_up b.cnt;
      } in
      let (p, r) = sprint_all_lem ebuf out b' (omega arith) j in
      rw (with_room ebuf ch out b l) (
        omega (arith, p),
        r
            ∙ ap (λ (hi : ℕ). written out (b.buf + 1) hi (update b.bytes b.buf ch) j)
                (same_end b.buf (length out) ebuf)
            ∙ written-cons ch b.buf (min (b.buf + suc (length out)) ebuf) out b.bytes j
                (omega arith),
      )
  | no n ↦
      let (p, r) = sprint_all_lem ebuf out (record b { cnt = count_up b.cnt }) h j in
      rw (when_full ebuf ch out b (omega arith))
        (omega (arith, p), r ∙ none_written ch b.buf ebuf out b.bytes j (omega arith))
]

-- What is left of the call is the count and the NUL.
vsnprintf_out :
    (bytes : ℕ → ℕ) (n : ℕ) (fmt : List ℕ) (args : List Arg) (out : List ℕ)
    → 0 < n
    → n < 2 ^ 31
    → vprintfmt fmt args ≡ some out
    → let b = sprint_all (n - 1) out (record { buf = 0; bytes = bytes; cnt = some 0 }) in
      vsnprintf false bytes n fmt args
      ≡ Option.map (λ (cnt : ℕ). (some cnt, update b.bytes b.buf 0)) b.cnt
unfolding vsnprintf
vsnprintf_out bytes n fmt args out pos int e = rw (vsnprintf, has_room n pos int, e) refl
  where
    has_room : (n : ℕ) → 0 < n → n < 2 ^ 31 → (ltb n 1 || leb (2 ^ 31) n) ≡ false
    has_room n pos int = ground arith

ended :
    (f old : ℕ → ℕ) (out : List ℕ) (buf m k j : ℕ)
    → m ≡ k
    → buf ≡ m
    → f j ≡ written out 0 m old j
    → update f buf 0 j ≡ (if ltb j k then nth out j else if j == k then 0 else old j)
unfolding update
ended f old out buf m k j e2 e h =
    let z : j - 0 ≡ j = omega arith in ground (arith, e, e2, h, ap (nth out) z)

-- `vsnprintf` with room for a byte or more: of an output below 2 ^ 31 bytes it returns the length,
-- writes the start of the output that fits before a NUL, and the NUL, and leaves every other byte, also
-- each one behind the buffer, as it was; a longer output overflows the count and is undefined.
pub vsnprintf_lem :
    (bytes : ℕ → ℕ) (n : ℕ) (fmt : List ℕ) (args : List Arg) (out : List ℕ)
    → 0 < n
    → n < 2 ^ 31
    → vprintfmt fmt args ≡ some out
    → ((length out < 2 ^ 31)
        × (after : ℕ → ℕ) × (vsnprintf false bytes n fmt args ≡ some (some (length out), after))
        × ((j : ℕ)
            → after j ≡ (
                if ltb j (min (length out) (n - 1))
                then nth out j
                else if j == min (length out) (n - 1)
                then 0
                else bytes j)))
      ⊎ ((2 ^ 31 ≤ length out) × (vsnprintf false bytes n fmt args ≡ none))
vsnprintf_lem bytes n fmt args out pos int e =
    let start : SprintBuf = record { buf = 0; bytes = bytes; cnt = some 0 } in
    let r = sprint_all (n - 1) out start in
    let parts : (j : ℕ) → Sprinted (n - 1) out start r j =
      sprint_all_lem (n - 1) out start (omega arith) in
    let finish : Option ℕ → Option (Option ℕ × (ℕ → ℕ)) =
      Option.map (λ (cnt : ℕ). (some cnt, update r.bytes r.buf 0)) in
    elim (dec_lt (length out) (2 ^ 31)) [
      | yes short ↦ inl (
        short,
        update r.bytes r.buf 0,
        vsnprintf_out bytes n fmt args out pos int e
            ∙ ap finish (sprint_all-cnt (n - 1) out start refl short),
        λ j.
            ended r.bytes bytes out r.buf (min (0 + length out) (n - 1)) (min (length out) (n - 1))
              j (omega arith) (parts j).0 (parts j).1,
      )
      | no long ↦ inr (
        omega arith,
        vsnprintf_out bytes n fmt args out pos int e
            ∙ ap finish (sprint_all-overflows (n - 1) out start refl (omega arith)),
      )
    ]

-- `vcprintf` of a program gives the system, in calls of less than 256 bytes, the bytes of the output
-- in their order, and returns their number, where that is below 2 ^ 31; a longer output overflows the
-- count and is undefined.
pub vcprintf_lem :
    (fmt : List ℕ) (args : List Arg) (out : List ℕ)
    → vprintfmt fmt args ≡ some out
    → ((length out < 2 ^ 31)
        × (calls : List (List ℕ)) × (vcprintf fmt args ≡ some (length out, calls))
        × AllShort calls
        × (flatten calls ≡ out))
      ⊎ ((2 ^ 31 ≤ length out) × (vcprintf fmt args ≡ none))
unfolding vcprintf
vcprintf_lem fmt args out e =
    let start : PrintBuf = record { waiting = []; cnt = some 0; calls = [] } in
    let f = put_all-IsFlushed out start (omega arith) tt in
    let r = put_all out start in
    let finish : Option ℕ → Option (ℕ × List (List ℕ)) =
      Option.map (λ (cnt : ℕ). (cnt, r.waiting ∷ r.calls)) in
    let long_lem : ¬ (length out < 2 ^ 31) → 2 ^ 31 ≤ length out = λ h. omega arith in
    elim (dec_lt (length out) (2 ^ 31)) [
      | yes short ↦ inl (
        short,
        r.waiting ∷ r.calls,
        rw (vcprintf, e) (ap finish (put_all-cnt out start refl short)),
        (omega (arith, f.waits), f.short),
        f.printed,
      )
      | no long ↦ inr (
        long_lem long,
        rw (vcprintf, e) (ap finish (put_all-overflows out start refl (long_lem long))),
      )
    ]
