-- ===== src/Translator/DpReg/Shifted.antt =====
-- Logical operations, ADD and SUB with a shifted register.
use reversetta.Prelude.{ℕ, Bool, true, none, some, ◌==◌, leb, if◌then◌else◌, not, ◌&&◌}
use reversetta.Bits.{bits, bit}
use reversetta.X86.{Gp, rax, rcx, Operand, imm, Alu, ShiftOp, shl, shr, sar, ror, alu, shift, Insn}
use reversetta.Emitter.State.{
  M, Step, next, bad, from_add, from_sub, from_logic, ◌>>◌, pure, when, if_m, emit,
}
use reversetta.Emitter.Flags.{dirty_flags, begin_flag_def, mark_flags}
use reversetta.Emitter.Regs.{pin_of_sp, gp, reg_mem, ld_r, st_r, base_invalidate}
use reversetta.Translator.DpImm.AddSub.{add_or_sub, src_of}
use reversetta.Translator.DpImm.{logical_op}

abbrev pub shift_op : ℕ → ShiftOp
shift_op type = if type == 0 then shl else if type == 1 then shr else if type == 2 then sar else ror

-- an ARM shift applied to a register
unfoldable pub do_shift : Bool → Gp → ℕ → ℕ → M (Unit {0})
unfolding emit
do_shift sf r type amount =
    when (not (amount == 0)) (do dirty_flags; emit (shift (shift_op type) (gp sf r) (imm amount)))

-- the pin, or the slot in the context
unfoldable pub pin_or_mem : ℕ → Operand
pin_or_mem r = elim (pin_of_sp r) [ some pin ↦ gp true pin | none ↦ reg_mem r ]

unfoldable pub tr_logical_shifted : ℕ → M Step
unfolding emit
tr_logical_shifted insn =
    let sf = bit insn 31 == 1 in
    let opc = bits insn 30 29 in
    let imm6 = bits insn 15 10 in
    if_m (not sf && leb 32 imm6) (pure bad) (do
      ld_r rcx (bits insn 20 16) sf
      do_shift sf rcx (bits insn 23 22) imm6
      when (bit insn 21 == 1) (emit (Insn.not (gp sf rcx)))
      ld_r rax (bits insn 9 5) sf
      if_m (opc == 3) begin_flag_def dirty_flags
      emit (alu (logical_op opc) (gp sf rax) (gp sf rcx))
      when (opc == 3) (mark_flags from_logic)
      st_r (bits insn 4 0) rax sf
      pure next)

module _ (sf : Bool) (rd rn rm : ℕ) (is_sub setf : Bool) (type amount : ℕ) where
  -- SUBS XZR, Xn, Xm: a comparison with the pin or with memory
  unfoldable pub compare_shifted : M Step
  unfolding emit
  compare_shifted = do
    ld_r rcx rm sf
    do_shift sf rcx type amount
    emit (alu Alu.cmp (pin_or_mem rn) (gp sf rcx))
    mark_flags from_sub
    pure next

  -- Rd = Rn: straight into the pin, or into memory
  unfoldable pub into_rn : M Step
  unfolding emit
  into_rn = do
    ld_r rcx rm sf
    do_shift sf rcx type amount
    when (not setf) dirty_flags
    base_invalidate rn
    emit (alu (add_or_sub is_sub) (pin_or_mem rn) (gp true rcx))
    when setf (mark_flags (src_of is_sub))
    pure next

  -- Rd = Rm of an ADD: Rn is added to Rd.
  unfoldable pub into_rm : M Step
  unfolding emit
  into_rm = do
    ld_r rcx rn sf
    when (not setf) dirty_flags
    base_invalidate rd
    emit (alu Alu.add (pin_or_mem rd) (gp true rcx))
    when setf (mark_flags from_add)
    pure next

  unfoldable pub shifted_through_rax : M Step
  unfolding emit
  shifted_through_rax = do
    ld_r rcx rm sf
    do_shift sf rcx type amount
    ld_r rax rn sf
    emit (alu (add_or_sub is_sub) (gp sf rax) (gp sf rcx))
    when setf (mark_flags (src_of is_sub))
    st_r rd rax sf
    pure next

  unfoldable pub add_sub_shifted : M Step
  add_sub_shifted = do
    when setf begin_flag_def
    if_m (sf && setf && (rd == 31)) compare_shifted (
        if_m (sf && (rd == rn)) into_rn
          (if_m (sf && (rd == rm) && not is_sub) into_rm shifted_through_rax))

unfoldable pub tr_add_sub_shifted : ℕ → M Step
tr_add_sub_shifted insn =
    let sf = bit insn 31 == 1 in
    let type = bits insn 23 22 in
    let imm6 = bits insn 15 10 in
    if_m (type == 3) (pure bad) (
      if_m (not sf && leb 32 imm6) (pure bad) (
        add_sub_shifted sf (bits insn 4 0) (bits insn 9 5) (bits insn 20 16) (bit insn 30 == 1)
          (bit insn 29 == 1) type imm6))
