-- ===== src/Translator/DpReg/TwoSource.antt =====
-- UDIV, SDIV and the shifts by a register.
use reversetta.Prelude.{ℕ, ◌-◌, ◌^◌, Bool, false, ◌==◌, leb, if◌then◌else◌, ◌&&◌, ◌||◌}
use reversetta.Bits.{bits, bit}
use reversetta.X86.{
  Label, rax, rcx, rdx, byte, reg, imm, Alu, equal, not_equal, alu, test, div, idiv, neg, cqo, cdq,
  shift, j, jmp, bind,
}
use reversetta.Emitter.State.{M, Step, next, bad, ◌>>=◌, ◌>>◌, pure, if_m, emit, new_label}
use reversetta.Emitter.Flags.{dirty_flags}
use reversetta.Emitter.Regs.{gp, ld_r, st_r}
use reversetta.Translator.DpReg.Shifted.{shift_op}

-- the quotient of rax by a nonzero rcx; a divisor of -1 is a negation
unfoldable pub divide : Bool → Bool → Label → Label → M (Unit {0})
unfolding emit
divide sf is_signed done normal =
    if_m is_signed
      (do
        emit (alu Alu.cmp (gp sf rcx) (imm (2 ^ 64 - 1)))
        emit (j not_equal normal)
        emit (neg (gp sf rax))
        emit (jmp done)
        emit (bind normal)
        emit (if sf then cqo else cdq)
        emit (idiv (gp sf rcx)))
      (do emit (alu Alu.xor (gp false rdx) (gp false rdx)); emit (div (gp sf rcx)))

unfoldable pub tr_div : ℕ → Bool → M Step
unfolding emit new_label
tr_div insn is_signed =
    let sf = bit insn 31 == 1 in
    (do
      zero_label ← new_label
      done ← new_label
      normal ← new_label
      ld_r rcx (bits insn 20 16) sf
      ld_r rax (bits insn 9 5) sf
      dirty_flags
      emit (test (gp sf rcx) (gp sf rcx))
      emit (j equal zero_label)
      divide sf is_signed done normal
      emit (jmp done)
      emit (bind zero_label)
      emit (alu Alu.xor (gp false rax) (gp false rax))
      emit (bind done)
      st_r (bits insn 4 0) rax sf
      pure next)

unfoldable pub tr_two_source : ℕ → M Step
unfolding emit
tr_two_source insn =
    let sf = bit insn 31 == 1 in
    let opcode = bits insn 15 10 in
    if_m ((opcode == 2) || (opcode == 3)) (tr_div insn (opcode == 3)) (
      if_m (leb 8 opcode && leb opcode 0xB)
        (do
          ld_r rcx (bits insn 20 16) sf
          ld_r rax (bits insn 9 5) sf
          dirty_flags
          emit (shift (shift_op (opcode - 8)) (gp sf rax) (reg byte rcx))
          st_r (bits insn 4 0) rax sf
          pure next)
        (pure bad))
