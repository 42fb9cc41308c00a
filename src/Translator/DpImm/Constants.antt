-- ===== src/Translator/DpImm/Constants.antt =====
-- Instructions that write a constant: ADR, ADRP, MOVZ and MOVN.
use reversetta.Prelude.{
  ℕ, zero, suc, ◌-◌, ◌*◌, ◌<◌, ◌%◌, ◌^◌, [], ◌∷◌, ◌++◌, Bool, true, false, not, ◌&&◌, some, ◌==◌,
  ltb, ◌≡◌, ◌⊎◌, refl, arith, if◌then◌else◌, ◌∙◌, subst,
}
use mathlib.Core.List.{append-nil}
use reversetta.Arm.{Nzcv}
use reversetta.Bits.{bits, bit}
use reversetta.X86.{Gp, rax, same_id, mov, imm}
use reversetta.X86.Machine.{Machine, running, run, value, modulus}
use reversetta.Emitter.State.{Builder, next, emit}
use reversetta.Emitter.Regs.{pin_of, pin_sp, st_r, gp, width}
use reversetta.Emitter.Conditions.{ready}
use reversetta.Emitter.Spill.{Tracks}
use reversetta.Emitter.Reading.{load_move}
use reversetta.Emitter.Writing.{Stored, same_guest_x}
use reversetta.Emitter.Writing.Stores.{st_r-Stored, below_64}
use reversetta.Translator.Branch.Compare.{rax_is_no_pin}
use reversetta.Translator.DpImm.Address.{adr_target, adr_value-target}
use reversetta.Translator.DpImm.{adr_value, tr_adr, move_wide_value, tr_move_wide}

bits_5 : (insn : ℕ) → bits insn 4 0 < 32
unfolding bits
bits_5 insn = omega arith

pin_is_not_rax : (r : ℕ) (pin : Gp) → pin_of r ≡ some pin → same_id pin rax ≡ false
unfolding pin_of
pin_is_not_rax r pin e = ground arith

abbrev behind : ℕ → Builder → Builder
behind v b = (emit (mov (gp true rax) (imm v)) b).1

module _ (v r : ℕ) (sf : Bool) (b : Builder) (m : Machine) (g : Nzcv) where
  abbrev with_const : Machine
  with_const = run (mov (gp true rax) (imm v) ∷ []) m

  value_imm : v < 2 ^ 64 → value (ready m) (imm v) ≡ v % 2 ^ 64
  unfolding value
  value_imm fits = omega arith

  behind-Tracks : (n : Machine) → Tracks b n g → Tracks (behind v b) n g
  unfolding emit
  behind-Tracks n t = t

  -- through rax into the guest register
  pub const-Stored :
      r < 32
      → m.status ≡ running
      → Tracks b m g
      → v < modulus (width sf)
      → let o = st_r r rax sf (behind v b) in Stored r v m (run o.2 with_const) o.1 g
  const-Stored low run_m t fits =
      let fits64 = below_64 sf v fits in
      let l = load_move rax true b (imm v) m g v run_m t (value_imm fits64) in
      let holds : with_const.regs rax ≡ v = l.loaded ∙ omega arith in
      let s =
        st_r-Stored r rax sf (behind v b) with_const g low l.is_running
          (behind-Tracks with_const l.tracks) (rw holds fits) (rax_is_no_pin r) in
      record {
        stored = s.stored ∙ rw holds;
        other_x = λ k low' ne.
            s.other_x k low' ne
            ∙ same_guest_x m with_const k (λ q kq. l.other_regs q (pin_is_not_rax k q kq))
                (l.same_ctx _ (omega arith));
        same_sp = s.same_sp ∙ l.other_regs pin_sp refl;
        is_running = s.is_running;
        tracks = s.tracks;
        same_host = s.same_host ∙ l.same_host;
      }

adr_value_fits : (insn pc : ℕ) → adr_value insn pc < 2 ^ 64
unfolding adr_value
adr_value_fits insn pc = ground arith

-- ADR writes its own address plus the signed offset of 21 bits to its register, and ADRP the start
-- of its page of 4 KiB plus the offset in pages, on 64 bits; they change no other guest register,
-- SP and no host memory, and the guest flags stay where the builder has them; number 31 takes no
-- value.
pub tr_adr-Stored :
    (insn pc : ℕ) (b : Builder) (m : Machine) (g : Nzcv)
    → m.status ≡ running
    → Tracks b m g
    → let o = tr_adr insn pc b in
      (o.0 ≡ next) × Stored (bits insn 4 0) (adr_target insn pc) m (run o.2 m) o.1 g
unfolding tr_adr emit run
tr_adr-Stored insn pc b m g r t =
    let v = adr_value insn pc in
    let o = tr_adr insn pc b in
    let stored : Stored (bits insn 4 0) v m (run o.2 m) o.1 g =
      rw append-nil
        (const-Stored v (bits insn 4 0) true b m g (bits_5 insn) r t (adr_value_fits insn pc)) in
    (
      refl,
      subst (λ w. Stored (bits insn 4 0) w m (run o.2 m) o.1 g) (adr_value-target insn pc) stored,
    )

-- the constant of MOVZ and MOVN at a width of w bits
abbrev pub wide_constant : Bool → ℕ → ℕ → ℕ → ℕ
wide_constant negated w imm16 hw =
    if negated then 2 ^ w - 1 - imm16 * 2 ^ (16 * hw) else imm16 * 2 ^ (16 * hw)

bits_hw : (insn : ℕ) → bits insn 22 21 < 4
unfolding bits
bits_hw insn = omega arith

bits_imm16 : (insn : ℕ) → bits insn 20 5 < 2 ^ 16
unfolding bits
bits_imm16 insn = omega arith

abbrev width_bits : Bool → ℕ
width_bits sf = if sf then 64 else 32

move_wide_value-constant :
    (opc imm16 hw : ℕ) (sf : Bool)
    → imm16 < 2 ^ 16
    → hw < 4
    → (sf ≡ true) ⊎ (hw < 2)
    → let v = move_wide_value opc sf imm16 (hw * 16) in
      (v ≡ wide_constant (opc == 0) (width_bits sf) imm16 hw) × (v < modulus (width sf))
unfolding move_wide_value
move_wide_value-constant opc imm16 zero true i h w = ground arith
move_wide_value-constant opc imm16 (suc zero) true i h w = ground arith
move_wide_value-constant opc imm16 (suc (suc zero)) true i h w = ground arith
move_wide_value-constant opc imm16 (suc (suc (suc zero))) true i h w = ground arith
move_wide_value-constant opc imm16 (suc (suc (suc (suc hw)))) sf i h w = omega arith
move_wide_value-constant opc imm16 zero false i h w = ground arith
move_wide_value-constant opc imm16 (suc zero) false i h w = ground arith
move_wide_value-constant opc imm16 (suc (suc hw)) false i h w = ground arith

module _ (insn : ℕ) (b : Builder) where
  abbrev sf : Bool
  sf = bit insn 31 == 1

  abbrev opc : ℕ
  opc = bits insn 30 29

  abbrev hw : ℕ
  hw = bits insn 22 21

  abbrev constant : ℕ
  constant = move_wide_value opc sf (bits insn 20 5) (hw * 16)

  move_wide_code :
      (sf ≡ true) ⊎ (hw < 2)
      → (opc ≡ 0) ⊎ (opc ≡ 2)
      → let o = st_r (bits insn 4 0) rax sf (behind constant b) in
        tr_move_wide insn b ≡ (next, o.1, mov (gp true rax) (imm constant) ∷ (o.2 ++ []))
  unfolding tr_move_wide emit
  move_wide_code w o =
      let in_width : (not sf && ltb 1 hw) ≡ false = ground arith in
      let no_movk : (opc == 3) ≡ false = ground arith in
      let allocated : (not (opc == 0) && not (opc == 2)) ≡ false = ground arith in
      simp (in_width, no_movk, allocated)

  -- MOVZ and MOVN write their constant to the register, of 64 bits or of 32 with the upper half
  -- clear, for every field that the width has; they change no other guest register, SP and no host
  -- memory, and the guest flags stay where the builder has them.
  pub tr_move_wide-Stored :
      (m : Machine) (g : Nzcv)
      → m.status ≡ running
      → Tracks b m g
      → (sf ≡ true) ⊎ (hw < 2)
      → (opc ≡ 0) ⊎ (opc ≡ 2)
      → let o = tr_move_wide insn b in
        (o.0 ≡ next)
        × Stored
            (bits insn 4 0)
            (wide_constant (opc == 0) (width_bits sf) (bits insn 20 5) hw)
            m
            (run o.2 m)
            o.1
            g
  unfolding run
  tr_move_wide-Stored m g r t w o =
      let v =
        move_wide_value-constant opc (bits insn 20 5) hw sf (bits_imm16 insn) (bits_hw insn) w in
      let stores = st_r (bits insn 4 0) rax sf (behind constant b) in
      let s = const-Stored constant (bits insn 4 0) sf b m g (bits_5 insn) r t v.1 in
      rw (move_wide_code w o, append-nil)
        (
          refl,
          subst
              (λ c.
                Stored (bits insn 4 0) c m
                  (run stores.2 (run (mov (gp true rax) (imm constant) ∷ []) m)) stores.1 g)
              v.0 s,
        )
