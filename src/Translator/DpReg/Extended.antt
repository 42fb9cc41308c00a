-- ===== src/Translator/DpReg/Extended.antt =====
-- ADD and SUB with an extended register.
use reversetta.Prelude.{ℕ, true, false, ◌==◌, ltb, not, ◌||◌}
use reversetta.Bits.{bits, bit}
use reversetta.X86.{rax, rcx, byte, word, imm, reg, shl, mov, movzx, movsx, movsxd, alu, shift}
use reversetta.Emitter.State.{M, Step, next, bad, ◌>>◌, pure, when, if_m, emit}
use reversetta.Emitter.Flags.{dirty_flags, begin_flag_def, mark_flags}
use reversetta.Emitter.Regs.{gp, ld_r, ld_rsp, st_r, st_rsp}
use reversetta.Translator.DpImm.AddSub.{add_or_sub, src_of}

unfoldable pub extend_rcx : ℕ → M (Unit {0})
unfolding emit
extend_rcx option = if_m (option == 0) (emit (movzx (gp false rcx) (reg byte rcx))) (
    if_m (option == 1) (emit (movzx (gp false rcx) (reg word rcx))) (
      if_m (option == 2) (emit (mov (gp false rcx) (gp false rcx))) (
        if_m (option == 4) (emit (movsx (gp true rcx) (reg byte rcx))) (
          if_m (option == 5) (emit (movsx (gp true rcx) (reg word rcx)))
            (when (option == 6) (emit (movsxd (gp true rcx) (gp false rcx))))))))

unfoldable pub tr_add_sub_extended : ℕ → M Step
unfolding emit
tr_add_sub_extended insn =
    let sf = bit insn 31 == 1 in
    let is_sub = bit insn 30 == 1 in
    let setf = bit insn 29 == 1 in
    let rd = bits insn 4 0 in
    let imm3 = bits insn 12 10 in
    if_m (not (bits insn 23 22 == 0) || ltb 4 imm3) (pure bad) (do
      if_m setf begin_flag_def dirty_flags
      ld_r rcx (bits insn 20 16) true
      extend_rcx (bits insn 15 13)
      when (not (imm3 == 0)) (emit (shift shl (gp true rcx) (imm imm3)))
      ld_rsp rax (bits insn 9 5) sf
      emit (alu (add_or_sub is_sub) (gp sf rax) (gp sf rcx))
      if_m setf (do mark_flags (src_of is_sub); st_r rd rax sf) (st_rsp rd rax sf)
      pure next)
