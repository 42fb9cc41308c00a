-- ===== src/Emitter/Writing.antt =====
-- `st_r`: a host register into a guest register, the two forms of its code, and the one to a pin.
pub mod Stores
use reversetta.Prelude.{
  ℕ, ◌<◌, ◌%◌, ◌^◌, [], ◌∷◌, Bool, true, false, Option, none, some, ◌==◌, ◌≡◌, ◌≢◌, refl, arith,
  if◌then◌else◌, Bool-cases, Option-cases, inl, inr, ◌∙◌, ap,
}
use reversetta.Arm.{Nzcv}
use reversetta.Layout.{roff, n_off, z_off, c_off, v_off}
use reversetta.X86.{Gp, Insn, Operand, same_id, mov}
use reversetta.X86.Machine.{Machine, running, run, value, modulus}
use reversetta.Emitter.State.{Builder, emit}
use reversetta.Emitter.Regs.{pin_of, pin_sp, st_r, gp, reg_mem, width, base_invalidate}
use reversetta.Emitter.Conditions.{HoldsFlags, ready, eq_ready}
use reversetta.Emitter.Spill.{Tracks}
use reversetta.Emitter.Reading.{guest_x, keep-HoldsFlags, load_move}
use reversetta.Emitter.Reading.Loads.{guest_x_pinned, guest_x_plain, value-gp}

-- The guest's register r holds v, unless it is number 31; the other guest registers, SP among them,
-- are as before, and the guest flags are where the builder has them.
pub record Stored (r v : ℕ) (before after : Machine) (b : Builder) (g : Nzcv) : Type 0 where
  pub stored : guest_x after r ≡ (if r == 31 then 0 else v)
  pub other_x : (k : ℕ) → k < 32 → k ≢ r → guest_x after k ≡ guest_x before k
  pub same_sp : after.regs pin_sp ≡ before.regs pin_sp
  pub is_running : after.status ≡ running
  pub tracks : Tracks b after g
  pub same_host : after.host ≡ before.host

pub pins_differ :
    (k r : ℕ) (q p : Gp) → k ≢ r → pin_of k ≡ some q → pin_of r ≡ some p → same_id q p ≡ false
unfolding pin_of
pins_differ k r q p ne kq rp = ground arith

sp_is_no_pin : (r : ℕ) (p : Gp) → pin_of r ≡ some p → same_id pin_sp p ≡ false
unfolding pin_of
sp_is_no_pin r p e = ground arith

pub st_r_pinned :
    (r : ℕ) (src : Gp) (sf : Bool) (b : Builder) (pin : Gp)
    → (r == 31) ≡ false
    → pin_of r ≡ some pin
    → same_id src pin ≡ false
    → let o = st_r r src sf b in
      (o.2 ≡ mov (gp sf pin) (gp sf src) ∷ [])
      × (o.1.flags_pending ≡ b.flags_pending)
      × (o.1.flag_src ≡ b.flag_src)
unfolding st_r emit base_invalidate
st_r_pinned r src sf b pin n p apart = ground arith

pub st_r_plain :
    (r : ℕ) (src : Gp) (sf : Bool) (b : Builder)
    → (r == 31) ≡ false
    → pin_of r ≡ none
    → let o = st_r r src sf b in
      (o.2 ≡ mov (reg_mem r) (gp true src) ∷ [])
      × (o.1.flags_pending ≡ b.flags_pending)
      × (o.1.flag_src ≡ b.flag_src)
unfolding st_r emit base_invalidate
st_r_plain r src sf b n p = ground arith

pub st_r_zero : (src : Gp) (sf : Bool) (b : Builder) → st_r 31 src sf b ≡ (tt, b, [])
unfolding st_r
st_r_zero src sf b = refl

pub guest_x_zero : (m : Machine) (r : ℕ) → (r == 31) ≡ true → guest_x m r ≡ 0
unfolding guest_x
guest_x_zero m r e = rw (e, guest_x)

-- registers that neither a pin nor the context has lost
pub same_guest_x :
    (m n : Machine) (k : ℕ)
    → ((q : Gp) → pin_of k ≡ some q → n.regs q ≡ m.regs q)
    → n.ctx (roff k) ≡ m.ctx (roff k)
    → guest_x n k ≡ guest_x m k
same_guest_x m n k pins ctx = elim (Bool-cases (k == 31)) [
  | inl e ↦ rw (guest_x_zero n k e, guest_x_zero m k e)
  | inr d ↦ elim (Option-cases (pin_of k)) [
    | inl p ↦ rw (guest_x_plain n k d p, guest_x_plain m k d p) ctx
    | inr (q, p) ↦ rw (guest_x_pinned n k q d p, guest_x_pinned m k q d p) (pins q p)
  ]
]

pub Tracks-same :
    (b b' : Builder) (n : Machine) (g : Nzcv)
    → b'.flags_pending ≡ b.flags_pending
    → b'.flag_src ≡ b.flag_src
    → Tracks b n g
    → Tracks b' n g
Tracks-same b b' n g p s t = rw (p, s) t

below : (sf : Bool) (x : ℕ) → x < modulus (width sf) → x % modulus (width sf) ≡ x
below true x h = omega arith
below false x h = omega arith

pub store_pinned :
    (r : ℕ) (src : Gp) (sf : Bool) (b b' : Builder) (m : Machine) (g : Nzcv) (pin : Gp)
    → (r == 31) ≡ false
    → pin_of r ≡ some pin
    → m.status ≡ running
    → Tracks b m g
    → m.regs src < modulus (width sf)
    → b'.flags_pending ≡ b.flags_pending
    → b'.flag_src ≡ b.flag_src
    → Stored r (m.regs src) m (run (mov (gp sf pin) (gp sf src) ∷ []) m) b' g
store_pinned r src sf b b' m g pin n p run_m t fits same_pending same_src =
    let after = run (mov (gp sf pin) (gp sf src) ∷ []) m in
    let l = load_move pin sf b (gp sf src) m g (m.regs src) run_m t (value-gp sf src (ready m)) in
    let cut : m.regs src % modulus (width sf) ≡ m.regs src = below sf (m.regs src) fits in
    record {
      stored = rw (n, guest_x_pinned after r pin n p) (l.loaded ∙ cut);
      other_x = λ k low ne.
          same_guest_x m after k (λ q kq. l.other_regs q (pins_differ k r q pin ne kq p))
            (l.same_ctx (roff k) (omega arith));
      same_sp = l.other_regs pin_sp (sp_is_no_pin r pin p);
      is_running = l.is_running;
      tracks = Tracks-same b b' after g same_pending same_src l.tracks;
      same_host = l.same_host;
    }
