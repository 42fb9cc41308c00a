-- ===== src/Emitter/Writing/Stores.antt =====
-- `st_r` as a whole: to the context, to a pin, and to number 31.
use reversetta.Prelude.{
  ℕ, ◌<◌, ◌%◌, ◌^◌, [], ◌∷◌, Bool, true, false, none, some, ◌==◌, ◌≡◌, ◌≢◌, refl, arith,
  if◌then◌else◌, Bool-cases, Option-cases, inl, inr, ◌∙◌, ap, sym, subst,
}
use reversetta.Arm.{Nzcv}
use reversetta.Layout.{roff, n_off, z_off, c_off, v_off}
use reversetta.X86.{Gp, same_id, mov}
use reversetta.X86.Machine.{Machine, running, run, value, modulus}
use reversetta.Emitter.State.{Builder}
use reversetta.Emitter.Regs.{pin_of, pin_sp, st_r, gp, reg_mem, width}
use reversetta.Emitter.Conditions.{HoldsFlags, ready, eq_ready}
use reversetta.Emitter.Spill.{Tracks}
use reversetta.Emitter.Reading.Loads.{guest_x_plain}
use reversetta.Emitter.Writing.{
  Stored, st_r_pinned, st_r_plain, st_r_zero, guest_x_zero, same_guest_x, Tracks-same, store_pinned,
}

abbrev put : ℕ → Gp → Machine → Machine
put r src m = run (mov (reg_mem r) (gp true src) ∷ []) (ready m)

put_ctx :
    (r : ℕ) (src : Gp) (m : Machine)
    → (put r src m).ctx ≡ λ d. if d == roff r then m.regs src % 2 ^ 64 else m.ctx d
unfolding run value
put_ctx r src m = refl

put_rest :
    (r : ℕ) (src : Gp) (m : Machine)
    → let n = put r src m in
      (n.status ≡ running) × (n.regs ≡ m.regs) × (n.flags ≡ m.flags) × (n.host ≡ m.host)
unfolding run
put_rest r src m = (refl, refl, refl, refl)

put_other : (r d : ℕ) (src : Gp) (m : Machine) → d ≢ roff r → (put r src m).ctx d ≡ m.ctx d
put_other r d src m ne = rw (put_ctx r src m) (ground arith)

put_here : (r : ℕ) (src : Gp) (m : Machine) → (put r src m).ctx (roff r) ≡ m.regs src % 2 ^ 64
put_here r src m = rw (put_ctx r src m) (ground arith)

put-HoldsFlags :
    (r : ℕ) (src : Gp) (m : Machine) (g : Nzcv)
    → r < 32
    → HoldsFlags m g
    → HoldsFlags (put r src m) g
put-HoldsFlags r src m g low h = record {
  n_byte = put_other r n_off src m (omega arith) ∙ h.n_byte;
  z_byte = put_other r z_off src m (omega arith) ∙ h.z_byte;
  c_byte = put_other r c_off src m (omega arith) ∙ h.c_byte;
  v_byte = put_other r v_off src m (omega arith) ∙ h.v_byte;
}

put-Tracks :
    (r : ℕ) (src : Gp) (b : Builder) (m : Machine) (g : Nzcv)
    → r < 32
    → Tracks b m g
    → Tracks b (put r src m) g
put-Tracks r src b m g low t = elim (Bool-cases b.flags_pending) [
  | inl e ↦ rw (e, (put_rest r src m).2) (rw e at t)
  | inr e ↦ rw e (put-HoldsFlags r src m g low (rw e at t))
]

put-Stored :
    (r : ℕ) (src : Gp) (b b' : Builder) (m : Machine) (g : Nzcv)
    → r < 32
    → (r == 31) ≡ false
    → pin_of r ≡ none
    → Tracks b m g
    → m.regs src < 2 ^ 64
    → b'.flags_pending ≡ b.flags_pending
    → b'.flag_src ≡ b.flag_src
    → Stored r (m.regs src) m (put r src m) b' g
put-Stored r src b b' m g low n p t fits same_pending same_src =
    let after = put r src m in
    let rest = put_rest r src m in
    let cut : m.regs src % 2 ^ 64 ≡ m.regs src = omega arith in
    record {
      stored = rw (n, guest_x_plain after r n p) (put_here r src m ∙ cut);
      other_x = λ k low' ne.
          same_guest_x m after k (λ q kq. ap (λ f. f q) rest.1)
            (put_other r (roff k) src m (omega arith));
      same_sp = ap (λ f. f pin_sp) rest.1;
      is_running = rest.0;
      tracks = Tracks-same b b' after g same_pending same_src (put-Tracks r src b m g low t);
      same_host = rest.3;
    }

store_none :
    (r v : ℕ) (b : Builder) (m : Machine) (g : Nzcv)
    → (r == 31) ≡ true
    → m.status ≡ running
    → Tracks b m g
    → Stored r v m m b g
store_none r v b m g e run_m t = record {
  stored = rw (e, guest_x_zero m r e);
  other_x = λ k low ne. refl;
  same_sp = refl;
  is_running = run_m;
  tracks = t;
  same_host = refl;
}

pub below_64 : (sf : Bool) (x : ℕ) → x < modulus (width sf) → x < 2 ^ 64
below_64 true x h = h
below_64 false x h = omega arith

is_31 : (r : ℕ) → (r == 31) ≡ true → r ≡ 31
is_31 r e = ground arith

-- Writing a guest register from a host register that is no pin and whose value fits the width: the
-- guest register holds the value, all 64 bits of it, and number 31 takes none; no other guest
-- register, SP or host memory changes, and the guest flags stay where the builder has them.
pub st_r-Stored :
    (r : ℕ) (src : Gp) (sf : Bool) (b : Builder) (m : Machine) (g : Nzcv)
    → r < 32
    → m.status ≡ running
    → Tracks b m g
    → m.regs src < modulus (width sf)
    → ((pin : Gp) → pin_of r ≡ some pin → same_id src pin ≡ false)
    → let o = st_r r src sf b in Stored r (m.regs src) m (run o.2 m) o.1 g
unfolding run
st_r-Stored r src sf b m g low run_m t fits apart = elim (Bool-cases (r == 31)) [
  | inl e ↦
      subst (λ k. let o = st_r k src sf b in Stored k (m.regs src) m (run o.2 m) o.1 g)
        (sym (is_31 r e)) (rw (st_r_zero src sf b) (store_none 31 (m.regs src) b m g refl run_m t))
  | inr n ↦ elim (Option-cases (pin_of r)) [
    | inl p ↦
        let o = st_r_plain r src sf b n p in
        rw o.0 (
          subst
            (λ q.
              Stored r (m.regs src) m (run (mov (reg_mem r) (gp true src) ∷ []) q)
                (st_r r src sf b).1 g)
            (sym (eq_ready m run_m))
            (put-Stored r src b (st_r r src sf b).1 m g low n p t (below_64 sf _ fits) o.1 o.2))
    | inr (pin, p) ↦
        let o = st_r_pinned r src sf b pin n p (apart pin p) in
        rw o.0 (store_pinned r src sf b (st_r r src sf b).1 m g pin n p run_m t fits o.1 o.2)
  ]
]
