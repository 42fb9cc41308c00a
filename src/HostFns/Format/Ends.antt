-- ===== src/HostFns/Format/Ends.antt =====
-- The end of the loop of `format_guest`.
use reversetta.Prelude.{
  ℕ, zero, suc, ◌+◌, ◌≤◌, ◌<◌, List, [], ◌∷◌, ◌≡◌, refl, Bool, Option, none, some, ◌==◌, arith, u64,
  length, by_bool,
}
use reversetta.Memory.{Memory}
use reversetta.HostFns.Common.{Libc}
use reversetta.HostFns.Format.{
  Format, resize, conversion, directive, Formatted, formatted, throws, round, format_loop,
}
use reversetta.HostFns.Format.Reading.{
  Count, span, count, precision, read_spec, among, flag_chars, length_chars, isdigit,
}

span-length : (test : ℕ → Bool) (l : List ℕ) → length (span test l).1 ≤ length l
unfolding span
span-length test [] = omega arith
span-length test (c ∷ l) =
    by_bool (λ (r : List ℕ × List ℕ). length r.1 ≤ length (c ∷ l)) (test c)
      (omega (arith, span-length test l)) (omega arith)

count-length : (m : Memory) (f : List ℕ) (va : ℕ) → length (count m f va).rest ≤ length f
unfolding count
count-length m [] va = omega arith
count-length m (c ∷ l) va =
    by_bool (λ (r : Count). length r.rest ≤ length (c ∷ l)) (c == b'*') (omega arith)
      (span-length isdigit (c ∷ l))

precision-length : (m : Memory) (f : List ℕ) (va : ℕ) → length (precision m f va).rest ≤ length f
unfolding precision
precision-length m [] va = omega arith
precision-length m (c ∷ l) va =
    by_bool (λ (r : Count). length r.rest ≤ length (c ∷ l)) (c == b'.')
      (omega (arith, count-length m l va)) (omega arith)

read_spec-length : (m : Memory) (f : List ℕ) (va : ℕ) → length (read_spec m f va).rest ≤ length f
unfolding read_spec
read_spec-length m f va =
    let flags = span (among flag_chars) f in
    let w = count m flags.1 va in
    let p = precision m w.rest w.va in
    omega (
      arith,
      span-length (among flag_chars) f,
      count-length m flags.1 va,
      precision-length m w.rest w.va,
      span-length (among length_chars) p.rest,
    )

not_below : (n : ℕ) → ¬ (n < 0)
not_below n h = omega arith

-- a round that goes on with at most n bytes
abbrev LeavesAtMost : ℕ → Option (List ℕ × Format) → Type 0
LeavesAtMost n none = Unit
LeavesAtMost n (some (l, s)) = length l ≤ n

on_success :
    (n : ℕ) (o : Option Format) (f : Format → Option (List ℕ × Format))
    → ((s : Format) → LeavesAtMost n (f s))
    → LeavesAtMost n (elim o [ none ↦ none | some s ↦ f s ])
on_success n none f k = tt
on_success n (some s) f k = k s

-- a list that is split, with its length at hand
by_rest :
    (n : ℕ) (e : Option (List ℕ × Format)) (f : ℕ → List ℕ → Option (List ℕ × Format)) (l : List ℕ)
    → length l ≤ suc n
    → LeavesAtMost n e
    → ((b : ℕ) (k : List ℕ) → length k ≤ n → LeavesAtMost n (f b k))
    → LeavesAtMost n (elim l [ [] ↦ e | b ∷ k ↦ f b k ])
by_rest n e f [] h c k = c
by_rest n e f (b ∷ l) h c k = k b l (omega (arith, h))

directive-LeavesAtMost :
    (c : Libc) (f : List ℕ) (s : Format) (n : ℕ) → length f ≤ n → LeavesAtMost n (directive c f s)
unfolding directive
directive-LeavesAtMost c f s n h =
    let p = read_spec s.memory f s.va in
    let need = u64 (p.width + p.prec + 64) in
    let s1 = record s { va = p.va } in
    by_rest n _ _ p.rest (omega (arith, read_spec-length s.memory f s.va)) (omega arith)
      λ conv l le.
        on_success n (resize c need s1) _
          λ s2. on_success n (conversion c p need conv _ s2) _ λ s3. le

round-LeavesAtMost :
    (c : Libc) (b : ℕ) (f : List ℕ) (s : Format) → LeavesAtMost (length f) (round c b f s)
unfolding round
round-LeavesAtMost c b [] s =
    by_bool (LeavesAtMost 0) (b == b'%') (directive-LeavesAtMost c [] s 0 (omega arith))
      (omega arith)
round-LeavesAtMost c b (d ∷ l) s =
    let n = length (d ∷ l) in
    by_bool (LeavesAtMost n) (b == b'%')
      (by_bool (LeavesAtMost n) (d == b'%') (omega arith)
        (directive-LeavesAtMost c (d ∷ l) s n (omega arith)))
      (omega arith)

Terminates : Option Formatted → Type 0
Terminates o = (r : Formatted) × (o ≡ some r)

goes_on :
    (n : ℕ) (o : Option (List ℕ × Format)) (f : List ℕ → Format → Option Formatted)
    → LeavesAtMost n o
    → ((l : List ℕ) (s : Format) → length l ≤ n → Terminates (f l s))
    → Terminates (elim o [ none ↦ some throws | some (l, s) ↦ f l s ])
unfolding Terminates
goes_on n none f k rest = (throws, refl)
goes_on n (some (l, s)) f k rest = rest l s k

-- With more fuel than bytes in the format, the loop ends, with a text or with an exception.
pub format_loop_ends :
    (fuel : ℕ) (c : Libc) (f : List ℕ) (s : Format)
    → length f < fuel
    → (r : Formatted) × (format_loop fuel c f s ≡ some r)
unfolding format_loop Terminates
format_loop_ends zero c f s h = absurd (not_below (length f) h)
format_loop_ends (suc fuel) c [] s h = (formatted s, refl)
format_loop_ends (suc fuel) c (b ∷ f) s h =
    goes_on (length f) (round c b f s) (format_loop fuel c) (round-LeavesAtMost c b f s)
      λ l s' le. format_loop_ends fuel c l s' (omega (arith, le, h))
