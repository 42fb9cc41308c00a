-- ===== src/Emitter/Reading/Loads.antt =====
-- `ld_r` as a whole: from the context, from a pin, and number 31.
use reversetta.Prelude.{
  ℕ, ◌%◌, [], ◌∷◌, Bool, true, false, none, some, ◌==◌, ◌≡◌, refl, arith, Bool-cases, Option-cases,
  inl, inr, subst,
}
use reversetta.Arm.{Nzcv}
use reversetta.Layout.{roff}
use reversetta.X86.{Gp, Insn, same_id, mov}
use reversetta.X86.Machine.{Machine, running, run, value, modulus}
use reversetta.Emitter.State.{Builder, emit}
use reversetta.Emitter.Regs.{pin_of, ld_r, gp, ctx, width}
use reversetta.Emitter.Conditions.{ready}
use reversetta.Emitter.Spill.{Tracks, SameLabels, dirty_flags-SameLabels}
use reversetta.Emitter.Reading.{guest_x, Loaded, load_zero, load_move}

ld_r_pinned :
    (dst : Gp) (r : ℕ) (sf : Bool) (b : Builder) (pin : Gp)
    → (r == 31) ≡ false
    → pin_of r ≡ some pin
    → same_id dst pin ≡ false
    → let o = ld_r dst r sf b in
      (o.2 ≡ mov (gp sf dst) (gp sf pin) ∷ []) × (o.1 ≡ (emit (mov (gp sf dst) (gp sf pin)) b).1)
unfolding ld_r emit
ld_r_pinned dst r sf b pin n p apart = simp (n, p, apart) (refl, refl)

ld_r_plain :
    (dst : Gp) (r : ℕ) (sf : Bool) (b : Builder)
    → (r == 31) ≡ false
    → pin_of r ≡ none
    → let o = ld_r dst r sf b in
      (o.2 ≡ mov (gp sf dst) (ctx (width sf) (roff r)) ∷ [])
      × (o.1 ≡ (emit (mov (gp sf dst) (ctx (width sf) (roff r))) b).1)
unfolding ld_r emit
ld_r_plain dst r sf b n p = simp (n, p) (refl, refl)

pub value-gp :
    (sf : Bool) (g : Gp) (m : Machine) → value m (gp sf g) ≡ m.regs g % modulus (width sf)
unfolding value
value-gp sf g m = refl

value-ctx :
    (sf : Bool) (d : ℕ) (m : Machine) → value m (ctx (width sf) d) ≡ m.ctx d % modulus (width sf)
unfolding value
value-ctx sf d m = refl

is_31 : (r : ℕ) → (r == 31) ≡ true → 31 ≡ r
is_31 r e = ground arith

pub guest_x_pinned :
    (m : Machine) (r : ℕ) (pin : Gp)
    → (r == 31) ≡ false
    → pin_of r ≡ some pin
    → guest_x m r ≡ m.regs pin
unfolding guest_x
guest_x_pinned m r pin n p = rw (n, p, guest_x)

pub guest_x_plain :
    (m : Machine) (r : ℕ) → (r == 31) ≡ false → pin_of r ≡ none → guest_x m r ≡ m.ctx (roff r)
unfolding guest_x
guest_x_plain m r n p = rw (n, p, guest_x)

zero_cut : (sf : Bool) → 0 % modulus (width sf) ≡ 0
zero_cut true = refl
zero_cut false = refl

Loaded-emit :
    (dst : Gp) (v : ℕ) (m n : Machine) (b : Builder) (g : Nzcv) (i : Insn)
    → Loaded dst v m n b g
    → Loaded dst v m n (emit i b).1 g
unfolding emit
Loaded-emit dst v m n b g i l = record {
  loaded = l.loaded;
  is_running = l.is_running;
  tracks = l.tracks;
  other_regs = l.other_regs;
  same_host = l.same_host;
  same_ctx = l.same_ctx;
}

-- Reading a guest register into a host register that is not the pin of it: `dst` holds it, cut to 32
-- bits if asked to, for every number; number 31 reads as zero. The guest flags stay where the builder
-- has them, and no other host register, no host memory and no field of the context before the flags
-- changes.
pub ld_r-Loaded :
    (dst : Gp) (r : ℕ) (sf : Bool) (b : Builder) (m : Machine) (g : Nzcv)
    → m.status ≡ running
    → Tracks b m g
    → ((pin : Gp) → pin_of r ≡ some pin → same_id dst pin ≡ false)
    → Loaded dst
        (guest_x m r % modulus (width sf))
        m
        (run (ld_r dst r sf b).2 m)
        (ld_r dst r sf b).1
        g
unfolding guest_x
ld_r-Loaded dst r sf b m g run_m t apart = elim (Bool-cases (r == 31)) [
  | inl e ↦
      subst
        (λ k.
          Loaded dst (guest_x m k % modulus (width sf)) m (run (ld_r dst k sf b).2 m)
            (ld_r dst k sf b).1 g)
        (is_31 r e) (rw (zero_cut sf) (load_zero dst sf b m g run_m t))
  | inr n ↦ elim (Option-cases (pin_of r)) [
    | inl p ↦
        let o = ld_r_plain dst r sf b n p in
        rw (guest_x_plain m r n p, o.0, o.1)
          (Loaded-emit dst _ m _ b g _ (
            load_move dst sf b (ctx (width sf) (roff r)) m g (m.ctx (roff r)) run_m t
              (value-ctx sf (roff r) (ready m))))
    | inr (pin, p) ↦
        let o = ld_r_pinned dst r sf b pin n p (apart pin p) in
        rw (guest_x_pinned m r pin n p, o.0, o.1)
          (Loaded-emit dst _ m _ b g _
            (load_move dst sf b (gp sf pin) m g (m.regs pin) run_m t (value-gp sf pin (ready m))))
  ]
]

-- Reading a register makes no label.
pub ld_r-SameLabels :
    (dst : Gp) (r : ℕ) (sf : Bool) (b : Builder) → SameLabels b (ld_r dst r sf b).1
unfolding ld_r emit
ld_r-SameLabels dst r sf b = ground (arith, dirty_flags-SameLabels b)
