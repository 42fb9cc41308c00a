-- ===== src/Emitter/Fusion.antt =====
-- The condition tables of `take_fused_cond`: the x86 condition that replaces an ARM one.
use reversetta.Prelude.{
  ℕ, zero, suc, ◌+◌, List, [], ◌∷◌, true, false, not, Option, none, some, ◌≡◌, refl, ap, ◌∙◌, subst,
  arith,
}
use native.Mathlib.Nat.{add-zero, zero-add}
use reversetta.Arm.{Nzcv, cond_holds}
use reversetta.X86.{CondCode, overflow, not_overflow}
use reversetta.X86.Machine.{Flags, eval_cc}
use reversetta.Emitter.State.{FlagSrc, Builder, from_none, from_add, from_sub, from_logic}
use reversetta.Emitter.Flags.{inv_cc, at_or_none, map_of, take_fused_cond}

-- RFLAGS stand for the guest flags, by what produced them: after a subtraction the carry is
-- inverted, and after a logical operation C and V, and with them CF and OF, are clear.
abbrev pub Represents : FlagSrc → Flags → Nzcv → Type 0
Represents from_sub f g = (f.sf ≡ g.n) × (f.zf ≡ g.z) × (not f.cf ≡ g.c) × (f.ovf ≡ g.v)
Represents from_add f g = (f.sf ≡ g.n) × (f.zf ≡ g.z) × (f.cf ≡ g.c) × (f.ovf ≡ g.v)
Represents from_logic f g =
    (f.sf ≡ g.n) × (f.zf ≡ g.z) × (f.cf ≡ false) × (g.c ≡ false) × (f.ovf ≡ false) × (g.v ≡ false)
Represents from_none f g = ⊥

pub eval_cc-inv_cc : (cc : CondCode) (f : Flags) → eval_cc (inv_cc cc) f ≡ not (eval_cc cc f)
unfolding eval_cc inv_cc
eval_cc-inv_cc overflow f = refl
eval_cc-inv_cc not_overflow f = ground arith
eval_cc-inv_cc _ f = ground arith

-- Each entry of a table, from condition k on, is the x86 condition of its ARM one.
abbrev Agrees : Flags → Nzcv → ℕ → List (Option CondCode) → Type 0
Agrees f g k [] = Unit
Agrees f g k (none ∷ l) = Agrees f g (k + 1) l
Agrees f g k (some cc ∷ l) = (eval_cc cc f ≡ cond_holds k g) × Agrees f g (k + 1) l

add_suc : (k i : ℕ) → k + suc i ≡ k + 1 + i
add_suc k i = omega arith

map_of-Agrees :
    (src : FlagSrc) (f : Flags) (g : Nzcv) → Represents src f g → Agrees f g 0 (map_of src)
unfolding map_of eval_cc cond_holds
map_of-Agrees from_sub f g r = ground arith
map_of-Agrees from_add f g r = ground arith
map_of-Agrees from_logic f g r = ground arith
map_of-Agrees from_none f g r = absurd r

at_or_none-Agrees :
    (f : Flags) (g : Nzcv) (l : List (Option CondCode)) (k i : ℕ) (x : CondCode)
    → Agrees f g k l
    → at_or_none l i ≡ some x
    → eval_cc x f ≡ cond_holds (k + i) g
at_or_none-Agrees f g [] k i x a e = cc
at_or_none-Agrees f g (none ∷ l) k zero x a e = cc
at_or_none-Agrees f g (none ∷ l) k (suc i) x a e =
    rw (add_suc k i) (at_or_none-Agrees f g l (k + 1) i x a e)
at_or_none-Agrees f g (some c ∷ l) k zero x a e =
    let same : c ≡ x = cc in rw add-zero (subst (λ y. eval_cc y f ≡ cond_holds k g) same a.0)
at_or_none-Agrees f g (some c ∷ l) k (suc i) x a e =
    rw (add_suc k i) (at_or_none-Agrees f g l (k + 1) i x a.1 e)

pub take_fused_cond-some :
    (cond : ℕ) (b : Builder) (x : CondCode)
    → (take_fused_cond cond b).0 ≡ some x
    → (b.flags_pending ≡ true)
      × (at_or_none (map_of b.flag_src) cond ≡ some x)
      × ((take_fused_cond cond b).1.flags_pending ≡ false)
unfolding take_fused_cond
take_fused_cond-some cond b x e = ground arith

-- Whenever the condition of a conditional instruction is taken from RFLAGS, the x86 condition that
-- replaces it holds exactly when the ARM one does, for every condition and every kind of producer,
-- provided RFLAGS represent the guest flags. The inverted condition, by which B.cond jumps over
-- its exit, holds exactly when the ARM one does not.
pub take_fused_cond-cond_holds :
    (cond : ℕ) (b : Builder) (f : Flags) (g : Nzcv) (x : CondCode)
    → Represents b.flag_src f g
    → (take_fused_cond cond b).0 ≡ some x
    → (eval_cc x f ≡ cond_holds cond g) × (eval_cc (inv_cc x) f ≡ not (cond_holds cond g))
take_fused_cond-cond_holds cond b f g x r e =
    let found = take_fused_cond-some cond b x e in
    let same =
      at_or_none-Agrees f g (map_of b.flag_src) 0 cond x (map_of-Agrees b.flag_src f g r) found.1 in
    let here : eval_cc x f ≡ cond_holds cond g = rw zero-add at same in
    (here, eval_cc-inv_cc x f ∙ ap not here)
