-- ===== src/HostFns/Format/Plain.antt =====
-- Text that the format holds as it is.
use reversetta.Prelude.{
  ℕ, zero, suc, ◌<◌, ◌≡◌, refl, sym, ap, ◌∙◌, List, [], ◌∷◌, ◌++◌, Option, some, false, Bool-cases,
  inl, inr, if◌then◌else◌, ◌==◌, arith, length, ==_iff,
}
use mathlib.Core.List.{append_assoc, append-nil}
use reversetta.HostFns.Common.{Libc}
use reversetta.HostFns.Format.{Format, Formatted, formatted, round, format_loop}

-- a text as a format: each percent sign is written twice
pub escape : List ℕ → List ℕ
escape [] = []
escape (b ∷ l) = let rest = escape l in if b == b'%' then b'%' ∷ b'%' ∷ rest else b ∷ rest

-- the step of the induction, once the byte is out
abbrev done : List ℕ → Format → Option Formatted
done l s = some (formatted (record s { out = s.out ++ l }))

done-cons :
    (b : ℕ) (l : List ℕ) (s : Format) → done l (record s { out = s.out ++ b ∷ [] }) ≡ done (b ∷ l) s
done-cons b l s = ap (λ o. some (formatted (record s { out = o }))) (append_assoc s.out (b ∷ []) l)

not_below : (n : ℕ) → ¬ (n < 0)
not_below n h = omega arith

escape_plain : (b : ℕ) (l : List ℕ) → (b == b'%') ≡ false → escape (b ∷ l) ≡ b ∷ escape l
unfolding escape
escape_plain b l q = simp q

round_plain :
    (c : Libc) (b : ℕ) (f : List ℕ) (s : Format)
    → (b == b'%') ≡ false
    → round c b f s ≡ some (f, record s { out = s.out ++ b ∷ [] })
unfolding round
round_plain c b f s q = simp q

round_percent :
    (c : Libc) (f : List ℕ) (s : Format)
    → round c b'%' (b'%' ∷ f) s ≡ some (f, record s { out = s.out ++ b'%' ∷ [] })
unfolding round
round_percent c f s = refl

escape_percent : (b : ℕ) (l : List ℕ) → b ≡ b'%' → escape (b ∷ l) ≡ b'%' ∷ b'%' ∷ escape l
unfolding escape
escape_percent b l e = rw e refl

format_loop-round :
    (fuel : ℕ) (c : Libc) (b : ℕ) (f : List ℕ) (s : Format) {l : List ℕ} {s' : Format}
    → round c b f s ≡ some (l, s')
    → format_loop (suc fuel) c (b ∷ f) s ≡ format_loop fuel c l s'
unfolding format_loop
format_loop-round fuel c b f s h = rw (format_loop, h) refl

-- An escaped text comes out as it is, behind what is there already, and takes no argument.
pub format_loop-escape :
    (fuel : ℕ) (c : Libc) (l : List ℕ) (s : Format)
    → length l < fuel
    → format_loop fuel c (escape l) s ≡ done l s
unfolding format_loop escape
format_loop-escape zero c l s h = absurd (not_below (length l) h)
format_loop-escape (suc fuel) c [] s h =
    ap (λ o. some (formatted (record s { out = o }))) (sym (append-nil s.out))
format_loop-escape (suc fuel) c (b ∷ l) s h =
    let rest =
      format_loop-escape fuel c l (record s { out = s.out ++ b ∷ [] }) (omega (arith, h)) in
    elim (Bool-cases (b == b'%')) [
      | inl q ↦
          (let e = (==_iff b b'%').0 q in
            ap (λ f. format_loop (suc fuel) c f s) (escape_percent b l e)
            ∙ format_loop-round fuel c b'%' (b'%' ∷ escape l) s (round_percent c (escape l) s)
            ∙ ap (λ d. format_loop fuel c (escape l) (record s { out = s.out ++ d ∷ [] })) (sym e)
            ∙ rest
            ∙ done-cons b l s)
      | inr q ↦
          (ap (λ f. format_loop (suc fuel) c f s) (escape_plain b l q)
            ∙ format_loop-round fuel c b (escape l) s (round_plain c b (escape l) s q)
            ∙ rest
            ∙ done-cons b l s)
    ]
