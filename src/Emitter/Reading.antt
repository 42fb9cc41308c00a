-- ===== src/Emitter/Reading.antt =====
-- Guest registers, and the instructions that `ld_r` loads one by: a mov, and the zeroing of a register.
pub mod Loads
use reversetta.Prelude.{
  ◌<◌, ℕ, ◌%◌, ◌^◌, [], ◌∷◌, ◌++◌, Bool, true, false, none, some, ◌==◌, ◌≡◌, refl, arith,
  if◌then◌else◌, Bool-cases, Option-cases, inl, inr, bit_xor, ◌∙◌, ap, subst,
}
use reversetta.Arm.{Nzcv}
use reversetta.Bits.Self.{bit_xor_self}
use reversetta.Layout.{roff, n_off}
use reversetta.X86.{Gp, Insn, same_id, Alu, Operand, mov, alu}
use reversetta.X86.Machine.{Machine, running, run, run-append, value, modulus, exec_alu}
use reversetta.Emitter.State.{Builder, emit}
use reversetta.Emitter.Flags.{dirty_flags}
use reversetta.Emitter.Regs.{pin_of, ld_r, gp, ctx, width}
use reversetta.Emitter.Conditions.{HoldsFlags, ready, eq_ready}
use reversetta.Emitter.Spill.{
  Tracks, SameLabels, dirty_flags-Spilled, dirty_flags-SameLabels, dirty_flags_clean,
}

-- The guest's register r, where number 31 reads as zero: in its pin, or in the context
unfoldable pub guest_x : Machine → ℕ → ℕ
guest_x m r =
    if r == 31 then 0 else elim (pin_of r) [ some pin ↦ m.regs pin | none ↦ m.ctx (roff r) ]

-- `dst` holds v; the guest flags are where the builder has them, and no other register is lost.
pub record Loaded (dst : Gp) (v : ℕ) (before after : Machine) (b : Builder) (g : Nzcv)
    : Type 0 where
  pub loaded : after.regs dst ≡ v
  pub is_running : after.status ≡ running
  pub tracks : Tracks b after g
  pub other_regs : (h : Gp) → same_id h dst ≡ false → after.regs h ≡ before.regs h
  pub same_host : after.host ≡ before.host
  pub same_ctx : (d : ℕ) → d < n_off → after.ctx d ≡ before.ctx d

abbrev scratch_xor : Gp → Machine → ℕ
scratch_xor dst m = bit_xor (m.regs dst % 2 ^ 32) (m.regs dst % 2 ^ 32 % 2 ^ 32)

scratch_xor_zero : (dst : Gp) (m : Machine) → scratch_xor dst m % 2 ^ 32 ≡ 0
scratch_xor_zero dst m =
    let twice : m.regs dst % 2 ^ 32 % 2 ^ 32 ≡ m.regs dst % 2 ^ 32 = omega arith in
    rw (twice, bit_xor_self)

pub same_id_self : (g : Gp) → same_id g g ≡ true
same_id_self g = ground arith

-- flags in the context are kept by what keeps the context
pub keep-HoldsFlags : (m n : Machine) (g : Nzcv) → n.ctx ≡ m.ctx → HoldsFlags m g → HoldsFlags n g
keep-HoldsFlags m n g e h = record {
  n_byte = rw e h.n_byte;
  z_byte = rw e h.z_byte;
  c_byte = rw e h.c_byte;
  v_byte = rw e h.v_byte;
}

module _ (dst : Gp) (sf : Bool) (b : Builder) where
  zero_code :
      (ld_r dst 31 sf b).2 ≡ (dirty_flags b).2 ++ alu Alu.xor (gp false dst) (gp false dst) ∷ []
  unfolding ld_r emit
  zero_code = refl

  zero_state : (ld_r dst 31 sf b).1.flags_pending ≡ false
  unfolding ld_r emit
  zero_state = dirty_flags_clean b

  abbrev zeroed : Machine → Machine
  zeroed m = run (alu Alu.xor (gp false dst) (gp false dst) ∷ []) (ready m)

  zeroed_value : (m : Machine) → (zeroed m).regs dst ≡ 0
  unfolding run value exec_alu
  zeroed_value m = simp (same_id_self dst) (scratch_xor_zero dst m)

  zeroed_rest :
      (m : Machine)
      → let n = zeroed m in
        (n.status ≡ running)
        × (n.ctx ≡ m.ctx)
        × (n.host ≡ m.host)
        × ((h : Gp) → same_id h dst ≡ false → n.regs h ≡ m.regs h)
  unfolding run value exec_alu
  zeroed_rest m = (refl, refl, refl, λ h ne. simp ne)

  pub load_zero :
      (m : Machine) (g : Nzcv)
      → m.status ≡ running
      → Tracks b m g
      → Loaded dst 0 m (run (ld_r dst 31 sf b).2 m) (ld_r dst 31 sf b).1 g
  load_zero m g r t =
      let s = (dirty_flags-Spilled b m g r t).0 in
      let n = run (dirty_flags b).2 m in
      let rest = zeroed_rest n in
      rw (zero_code, run-append, eq_ready n s.is_running)
        (record {
          loaded = zeroed_value n;
          is_running = rest.0;
          tracks = rw zero_state (keep-HoldsFlags n (zeroed n) g rest.1 s.holds);
          other_regs = λ h ne. rest.3 h ne ∙ ap (λ f. f h) s.same_regs;
          same_host = rest.2 ∙ s.same_host;
          same_ctx = λ d low. ap (λ f. f d) rest.1 ∙ s.same_ctx d (inl low);
        })

  -- a mov of a value of the width into dst
  abbrev moved : Operand → Machine → Machine
  moved src m = run (mov (gp sf dst) src ∷ []) (ready m)

  moved_rest :
      (src : Operand) (m : Machine)
      → let n = moved src m in
        (n.status ≡ running)
        × (n.ctx ≡ m.ctx)
        × (n.host ≡ m.host)
        × (n.flags ≡ m.flags)
        × ((h : Gp) → same_id h dst ≡ false → n.regs h ≡ m.regs h)
  unfolding run
  moved_rest src m = (refl, refl, refl, refl, λ h ne. simp ne)

  moved-value :
      (src : Operand) (m : Machine) (v : ℕ)
      → value (ready m) src ≡ v % modulus (width sf)
      → (moved src m).regs dst ≡ v % modulus (width sf)
  unfolding run
  moved-value src m v e = elim (Bool-cases sf) [
    | inl q ↦ rw q (simp (same_id_self dst) (rw q at e))
    | inr d ↦ rw d (
        simp (same_id_self dst)
          (let low : value (ready m) src ≡ v % 2 ^ 32 = rw d at e in omega (arith, low)))
  ]

  keep-Tracks :
      (m n : Machine) (g : Nzcv) → n.ctx ≡ m.ctx → n.flags ≡ m.flags → Tracks b m g → Tracks b n g
  keep-Tracks m n g c f t = elim (Bool-cases b.flags_pending) [
    | inl e ↦ rw (e, f) (rw e at t)
    | inr e ↦ rw e (keep-HoldsFlags m n g c (rw e at t))
  ]

  pub load_move :
      (src : Operand) (m : Machine) (g : Nzcv) (v : ℕ)
      → m.status ≡ running
      → Tracks b m g
      → value (ready m) src ≡ v % modulus (width sf)
      → Loaded dst (v % modulus (width sf)) m (run (mov (gp sf dst) src ∷ []) m) b g
  load_move src m g v r t e =
      let rest = moved_rest src m in
      rw (eq_ready m r) (record {
        loaded = moved-value src m v e;
        is_running = rest.0;
        tracks = keep-Tracks m (moved src m) g rest.1 rest.3 t;
        other_regs = rest.4;
        same_host = rest.2;
        same_ctx = λ d low. ap (λ f. f d) rest.1;
      })
