-- ===== src/Translator/DpReg/Conditional.antt =====
-- CCMP and CCMN, the CSEL family, ADC and SBC.
use reversetta.Prelude.{
  ℕ, ◌/◌, ◌%◌, Bool, true, false, Option, none, some, ◌==◌, ltb, if◌then◌else◌, not, ◌&&◌,
}
use reversetta.Bits.{bits, bit}
use reversetta.Layout.{n_off, z_off, c_off, v_off}
use reversetta.X86.{
  rax, rcx, rdx, r8, byte, reg, imm, Alu, CondCode, equal, not_equal, shr, mov, alu, test, adc, sbb,
  shift, neg, set, cmov, j, jmp, bind, Insn, Operand,
}
use reversetta.Emitter.State.{M, Step, next, bad, ◌>>=◌, ◌>>◌, pure, when, if_m, emit, new_label}
use reversetta.Emitter.Flags.{
  ctx_byte, take_fused_cond, flags_sub, flags_add, dirty_flags, mark_flags, emit_cond, set_pending,
}
use reversetta.Emitter.Regs.{gp, ld_r, st_r, alu_ri}
use reversetta.Translator.DpImm.AddSub.{src_of}

abbrev r8b : Operand
r8b = reg byte r8

-- the condition into r8b, from RFLAGS or from the context
unfoldable pub sample_cond : ℕ → M (Unit {0})
unfolding emit
sample_cond cond = do
  fused ← take_fused_cond cond
  elim fused [ some cc ↦ emit (set cc r8b) | none ↦ (do dirty_flags; emit_cond cond) ]

-- the comparison when the condition holds, with its flags written to the context
unfoldable pub cond_compare_flags : Bool → Bool → Bool → ℕ → M (Unit {0})
unfolding emit
cond_compare_flags sf is_ccmp imm_form rm =
    if_m imm_form
      (if_m is_ccmp (do alu_ri Alu.cmp rax rm sf; flags_sub)
        (do alu_ri Alu.add rax rm sf; flags_add))
      (do
        ld_r rcx rm sf
        if_m is_ccmp (do emit (alu Alu.cmp (gp sf rax) (gp sf rcx)); flags_sub)
            (do emit (alu Alu.add (gp sf rax) (gp sf rcx)); flags_add))

abbrev store_nzcv : ℕ → M (Unit {0})
store_nzcv nzcv = do
  emit (mov (ctx_byte n_off) (imm (nzcv / 8 % 2)))
  emit (mov (ctx_byte z_off) (imm (nzcv / 4 % 2)))
  emit (mov (ctx_byte c_off) (imm (nzcv / 2 % 2)))
  emit (mov (ctx_byte v_off) (imm (nzcv % 2)))

unfoldable pub tr_cond_compare : ℕ → M Step
unfolding emit new_label
tr_cond_compare insn =
    let sf = bit insn 31 == 1 in
    (do
      sample_cond (bits insn 15 12)
      emit (test r8b r8b)
      lelse ← new_label
      ldone ← new_label
      emit (j equal lelse)
      ld_r rax (bits insn 9 5) sf
      cond_compare_flags sf (bit insn 30 == 1) (bit insn 11 == 1) (bits insn 20 16)
      emit (jmp ldone)
      emit (bind lelse)
      store_nzcv (bits insn 3 0)
      emit (bind ldone)
      set_pending false
      pure next)

-- the value when the condition fails: CSEL, CSINC, CSINV or CSNEG of rax
unfoldable pub select_other : Bool → Bool → ℕ → M (Unit {0})
unfolding emit
select_other sf op op2 = if_m (not op && (op2 == 1)) (emit (alu Alu.add (gp sf rax) (imm 1))) (
    if_m (op && (op2 == 0)) (emit (Insn.not (gp sf rax)))
      (when (op && (op2 == 1)) (emit (neg (gp sf rax)))))

abbrev is_fused : Option CondCode → Bool
is_fused none = false
is_fused (some cc) = true

unfoldable pub tr_cond_select : ℕ → M Step
unfolding emit
tr_cond_select insn =
    let sf = bit insn 31 == 1 in
    let cond = bits insn 15 12 in
    let op2 = bits insn 11 10 in
    if_m (ltb 1 op2) (pure bad) (do
      fused ← take_fused_cond cond
      elim fused [ some cc ↦ emit (set cc r8b) | none ↦ dirty_flags ]
      ld_r rax (bits insn 20 16) sf
      select_other sf (bit insn 30 == 1) op2
      ld_r rcx (bits insn 9 5) sf
      when (not (is_fused fused)) (emit_cond cond)
      emit (test r8b r8b)
      emit (cmov not_equal (gp sf rax) (gp sf rcx))
      st_r (bits insn 4 0) rax sf
      pure next)

unfoldable pub tr_add_sub_carry : ℕ → M Step
unfolding emit
tr_add_sub_carry insn =
    let sf = bit insn 31 == 1 in
    let is_sub = bit insn 30 == 1 in
    (do
      dirty_flags
      ld_r rcx (bits insn 20 16) sf
      ld_r rax (bits insn 9 5) sf
      emit (mov (reg byte rdx) (ctx_byte c_off))
      when is_sub (emit (alu Alu.xor (reg byte rdx) (imm 1)))
      emit (shift shr (reg byte rdx) (imm 1))
      emit (if is_sub then sbb (gp sf rax) (gp sf rcx) else adc (gp sf rax) (gp sf rcx))
      when (bit insn 29 == 1) (mark_flags (src_of is_sub))
      st_r (bits insn 4 0) rax sf
      pure next)
