-- ===== src/Kern/Console/Ring.antt =====
-- 3-sched/kern/console.c: the buffer of input characters is a queue.
use sistemas_operativos_fiub.Common.{
  ℕ, zero, suc, ◌+◌, ◌%◌, ◌^◌, ◌≡◌, ◌≢◌, refl, sym, ap, ◌∙◌, ◌<◌, true, List, [], ◌∷◌, ◌++◌, arith,
  ◌==◌, if◌then◌else◌, update, length, length-append, ==-ne, ==_refl,
}
use mathlib.Core.List.{append_assoc, append-nil}
use native.Mathlib.Decide.{ℕ_discrete, dec_lt}
use sistemas_operativos_fiub.Kern.Chain.{All}
use sistemas_operativos_fiub.Kern.Text.Bytes.{nth}
use sistemas_operativos_fiub.Kern.Console.{
  consbufsize, Cons, wrapped, cons_put, cons_intr, cons_take, cons_getc,
}

-- The characters that wait, from `rpos` on around the buffer.
pub record Holds (k : Cons) (q : List ℕ) : Type 0 where
  pub reads : k.rpos < consbufsize
  pub fits : length q < consbufsize
  pub place : k.wpos ≡ (k.rpos + length q) % consbufsize
  pub bytes : (i : ℕ) → i < length q → k.buf ((k.rpos + i) % consbufsize) ≡ nth q i

-- The characters of a device but for those that are 0.
abbrev pub kept : List ℕ → List ℕ
kept [] = []
kept (c ∷ proc) = let rest = kept proc in if c == 0 then rest else c ∷ rest

abbrev pub IsByte : ℕ → Type 0
IsByte c = c < 2 ^ 8

nth-append : (q : List ℕ) (c i : ℕ) → i < length q → nth (q ++ (c ∷ [])) i ≡ nth q i
nth-append [] c i h = absurd (omega arith)
nth-append (x ∷ q) c zero h = refl
nth-append (x ∷ q) c (suc i) h = nth-append q c i (omega arith)

nth_last : (q : List ℕ) (c : ℕ) → nth (q ++ (c ∷ [])) (length q) ≡ c
nth_last [] c = refl
nth_last (x ∷ q) c = nth_last q c

cons_put-some :
    (c : ℕ) (k : Cons)
    → c ≢ 0
    → c < 2 ^ 8
    → cons_put c k ≡ record k { buf = update k.buf k.wpos c; wpos = wrapped (k.wpos + 1) }
unfolding cons_put
cons_put-some c k ne h = let e : c % 2 ^ 8 ≡ c = omega arith in rw (cons_put, ==-ne c 0 ne, e) refl

next_place :
    (r n w : ℕ) → r < 512 → n < 511 → w ≡ (r + n) % 512 → wrapped (w + 1) ≡ (r + suc n) % 512
next_place r n w h l e = ground (arith, e)

put-Holds :
    (c : ℕ) (k : Cons) (q : List ℕ)
    → Holds k q
    → length q < 511
    → Holds (record k { buf = update k.buf k.wpos c; wpos = wrapped (k.wpos + 1) }) (q ++ (c ∷ []))
unfolding update
put-Holds c k q h l = record {
  reads = h.reads;
  fits = omega (arith, l, length-append q (c ∷ []));
  place =
      next_place k.rpos (length q) k.wpos h.reads l h.place
      ∙ ap (λ (n : ℕ). (k.rpos + n) % 512) (omega (arith, length-append q (c ∷ [])));
  bytes = λ i below. elim (dec_lt i (length q)) [
    | yes low ↦
        rw (==-ne k.wpos ((k.rpos + i) % 512) (other k.rpos i (length q) k.wpos l low h.place))
          (h.bytes i low ∙ sym (nth-append q c i low))
    | no high ↦
        let e : i ≡ length q = omega (arith, below, length-append q (c ∷ [])) in
        rw (e, sym h.place, ==_refl k.wpos) (sym (nth_last q c))
  ];
}
  where
    other : (r i n w : ℕ) → n < 511 → i < n → w ≡ (r + n) % 512 → w ≢ (r + i) % 512
    other r i n w l low e = λ f. omega (arith, e, f, l, low)

==-yes : (c : ℕ) → c ≡ 0 → (c == 0) ≡ true
==-yes c e = rw e refl

cons_put-zero : (c : ℕ) (k : Cons) → c ≡ 0 → cons_put c k ≡ k
unfolding cons_put
cons_put-zero c k e = rw e refl

kept-zero : (c : ℕ) (proc : List ℕ) → c ≡ 0 → kept (c ∷ proc) ≡ kept proc
kept-zero c proc e = rw e refl

kept-some : (c : ℕ) (proc : List ℕ) → c ≢ 0 → kept (c ∷ proc) ≡ c ∷ kept proc
kept-some c proc ne = rw (==-ne c 0 ne) refl

cons_intr-Holds :
    (proc : List ℕ) (k : Cons) (q : List ℕ)
    → All IsByte proc
    → Holds k q
    → length q + length (kept proc) < consbufsize
    → Holds (cons_intr proc k) (q ++ kept proc)
unfolding cons_intr
cons_intr-Holds [] k q b h l = rw (append-nil q) h
cons_intr-Holds (c ∷ proc) k q (s, b) h l = elim (ℕ_discrete c 0) [
  | yes e ↦
      rw (==-yes c e, cons_put-zero c k e)
        (cons_intr-Holds proc k q b h (omega (arith, l, ap length (kept-zero c proc e))))
  | no ne ↦
      let room : length q + suc (length (kept proc)) < consbufsize =
        omega (arith, l, ap length (kept-some c proc ne)) in
      let next = put-Holds c k q h (omega (arith, room)) in
      rw (==-ne c 0 ne, cons_put-some c k ne s, sym (append_assoc q (c ∷ []) (kept proc)))
        (cons_intr-Holds proc
          (record k { buf = update k.buf k.wpos c; wpos = wrapped (k.wpos + 1) }) (q ++ (c ∷ [])) b
          next (omega (arith, room, length-append q (c ∷ []))))
]

-- What a read gives and leaves, for the characters that wait.
abbrev pub Takes : ℕ → Cons → List ℕ → Type 0
Takes c k [] = (c ≡ 0) × Holds k []
Takes c k (x ∷ q) = (c ≡ x) × Holds k q

wrapped-below : (r : ℕ) → r < 512 → wrapped (r + 1) < 512
wrapped-below r h = ground arith

shifted : (r i : ℕ) → r < 512 → (wrapped (r + 1) + i) % 512 ≡ (r + suc i) % 512
shifted r i h = elim (ℕ_discrete (r + 1) 512) [
  | yes e ↦ rw (e) (around r i e)
  | no ne ↦ rw (==-ne (r + 1) 512 ne) (ap (λ (n : ℕ). n % 512) (omega arith))
]
  where
    around : (r i : ℕ) → r + 1 ≡ 512 → (0 + i) % 512 ≡ (r + suc i) % 512
    around r i e = omega (arith, e)

take_first :
    (k : Cons) (x : ℕ) (q : List ℕ)
    → Holds k (x ∷ q)
    → (k.rpos ≢ k.wpos) × (k.buf k.rpos ≡ x) × Holds (record k { rpos = wrapped (k.rpos + 1) }) q
take_first k x q h = (
  (λ e. let p = h.place in let f = h.fits in omega (arith, e, p, f, h.reads)),
  (let e : (k.rpos + 0) % 512 ≡ k.rpos = omega (arith, h.reads) in
      ap k.buf (sym e) ∙ h.bytes 0 (omega arith)),
  record {
    reads = wrapped-below k.rpos h.reads;
    fits = omega (arith, h.fits);
    place = h.place ∙ sym (shifted k.rpos (length q) h.reads);
    bytes = λ i l. ap k.buf (shifted k.rpos i h.reads) ∙ h.bytes (suc i) (omega (arith, l));
  },
)

nothing_waits : (k : Cons) → Holds k [] → k.rpos ≡ k.wpos
nothing_waits k h = let p = h.place in omega (arith, p, h.reads)

empty : (k : Cons) → Holds k [] → cons_take k ≡ (0, k)
unfolding cons_take
empty k h = rw (cons_take, nothing_waits k h, ==_refl k.wpos) refl

taken : (k : Cons) (xs : List ℕ) → Holds k xs → Takes (cons_take k).0 (cons_take k).1 xs
unfolding cons_take
taken k [] h = rw (empty k h) (refl, h)
taken k (x ∷ xs) h =
    let (ne, first, rest) = take_first k x xs h in
    rw (cons_take, ==-ne k.rpos k.wpos ne) (first, rest)

-- `cons_getc` is the read of a queue: with less than 512 characters in the buffer and from the devices
-- it returns the first one that waits, those of the serial port before those of the keyboard, and
-- leaves the others in their order, or it returns 0 if there is none.
pub cons_getc-Takes :
    (serial kbd : List ℕ) (k : Cons) (q : List ℕ)
    → All IsByte serial
    → All IsByte kbd
    → Holds k q
    → length q + length (kept serial) + length (kept kbd) < consbufsize
    → Takes (cons_getc serial kbd k).0 (cons_getc serial kbd k).1 ((q ++ kept serial) ++ kept kbd)
unfolding cons_getc
cons_getc-Takes serial kbd k q bs bk h l =
    let h1 = cons_intr-Holds serial k q bs h (omega (arith, l)) in
    let h2 =
      cons_intr-Holds kbd (cons_intr serial k) (q ++ kept serial) bk h1
        (omega (arith, l, length-append q (kept serial))) in
    taken (cons_intr kbd (cons_intr serial k)) ((q ++ kept serial) ++ kept kbd) h2
