-- ===== src/Translator/DpImm/Bitfield.antt =====
-- SBFM, BFM and UBFM: a rotation, the mask wmask & tmask, and for SBFM a sign fill.
use reversetta.Prelude.{
  ℕ, ◌-◌, ◌%◌, ◌^◌, bit_and, Bool, false, none, some, ◌==◌, if◌then◌else◌, not,
}
use reversetta.Bits.{bits, bit, decode_bit_masks}
use reversetta.X86.{rax, rcx, Alu, imm, ror, shr, mov, alu, shift, neg}
use reversetta.Emitter.State.{M, Step, next, bad, ◌>>◌, pure, when, if_m, emit}
use reversetta.Emitter.Flags.{dirty_flags}
use reversetta.Emitter.Regs.{gp, ld_r, st_r, alu_ri}

module _ (sf : Bool) (rd rn r m : ℕ) where
  unfoldable pub ubfm : M Step
  unfolding emit
  ubfm = do
    ld_r rax rn sf
    when (not (r == 0)) (do dirty_flags; emit (shift ror (gp sf rax) (imm r)))
    alu_ri Alu.and rax m sf
    st_r rd rax sf
    pure next

  -- `s` is the place of the field's sign bit in the source.
  unfoldable pub sbfm : ℕ → M Step
  unfolding emit
  sbfm s = do
    ld_r rax rn sf
    emit (mov (gp sf rcx) (gp sf rax))
    when (not (s == 0)) (do dirty_flags; emit (shift shr (gp sf rcx) (imm s)))
    alu_ri Alu.and rcx 1 sf
    emit (neg (gp sf rcx))
    alu_ri Alu.and rcx (2 ^ 64 - 1 - m) sf
    when (not (r == 0)) (emit (shift ror (gp sf rax) (imm r)))
    alu_ri Alu.and rax m sf
    emit (alu Alu.or (gp sf rax) (gp sf rcx))
    st_r rd rax sf
    pure next

  unfoldable pub bfm : M Step
  unfolding emit
  bfm = do
    ld_r rax rn sf
    when (not (r == 0)) (do dirty_flags; emit (shift ror (gp sf rax) (imm r)))
    alu_ri Alu.and rax m sf
    ld_r rcx rd sf
    alu_ri Alu.and rcx (2 ^ 64 - 1 - m) sf
    emit (alu Alu.or (gp sf rax) (gp sf rcx))
    st_r rd rax sf
    pure next

unfoldable pub tr_bitfield : ℕ → M Step
tr_bitfield insn =
    let sf = bit insn 31 == 1 in
    let rd = bits insn 4 0 in
    let rn = bits insn 9 5 in
    let opc = bits insn 30 29 in
    let immr = bits insn 21 16 in
    let imms = bits insn 15 10 in
    let w = if sf then 64 else 32 in
    if_m (not (bit insn 31 == bit insn 22)) (pure bad)
      (elim (decode_bit_masks (bit insn 22) imms immr false w) [
        | none ↦ pure bad
        | some masks ↦
            (let r = immr % w in
              let both = bit_and masks.wmask masks.tmask in
              let m = if sf then both else both % 2 ^ 32 in
              if_m (opc == 2) (ubfm sf rd rn r m) (
                if_m (opc == 0) (sbfm sf rd rn r m (imms % w))
                  (if_m (opc == 1) (bfm sf rd rn r m) (pure bad))))
      ])
