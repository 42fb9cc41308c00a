-- ===== src/Translator/DpImm.antt =====
-- `BlockBuilder::tr_dp_imm`: data processing with an immediate, one function for each group.
pub mod AddSub
pub mod Address
pub mod Bitfield
pub mod Constants
use reversetta.Prelude.{
  ℕ, ◌+◌, ◌-◌, ◌*◌, ◌/◌, ◌%◌, ◌^◌, bit_or, bit_and, Bool, true, false, Option, none, some, ◌==◌,
  ltb, if◌then◌else◌, not, ◌&&◌, ◌||◌, u64,
}
use reversetta.Bits.{bits, bit, sext, decode_bit_masks}
use reversetta.X86.{rax, rcx, imm, Alu, mov, shrd}
use reversetta.Emitter.State.{M, Step, next, bad, FlagSrc, ◌>>=◌, ◌>>◌, pure, when, if_m, emit}
use reversetta.Emitter.Flags.{dirty_flags, begin_flag_def, mark_flags}
use reversetta.Emitter.Regs.{gp, ld_r, st_r, st_rsp, alu_ri}
use AddSub.{tr_add_sub_imm}
use Bitfield.{tr_bitfield}

abbrev is_set : ℕ → ℕ → Bool
is_set insn n = bit insn n == 1

-- the result of ADR or ADRP
unfoldable pub adr_value : ℕ → ℕ → ℕ
adr_value insn pc =
    let imm = sext (bit_or (bits insn 23 5 * 4) (bits insn 30 29)) 21 in
    if is_set insn 31 then u64 (pc / 0x1000 * 0x1000 + u64 (imm * 0x1000)) else u64 (pc + imm)

unfoldable pub tr_adr : ℕ → ℕ → M Step
unfolding emit
tr_adr insn pc = do
  emit (mov (gp true rax) (imm (adr_value insn pc)))
  st_r (bits insn 4 0) rax true
  pure next

-- 0 and 3 are AND, 1 is ORR, 2 is EOR.
unfoldable pub logical_op : ℕ → Alu
logical_op opc = if (opc == 0) || (opc == 3) then Alu.and else if opc == 1 then Alu.or else Alu.xor

unfoldable pub tr_logical_imm : ℕ → M Step
tr_logical_imm insn =
    let sf = is_set insn 31 in
    let rd = bits insn 4 0 in
    let opc = bits insn 30 29 in
    let n = bit insn 22 in
    if_m (not sf && (n == 1)) (pure bad)
      (elim (decode_bit_masks n (bits insn 15 10) (bits insn 21 16) true (if sf then 64 else 32)) [
        | none ↦ pure bad
        | some masks ↦ (do
          ld_r rax (bits insn 9 5) sf
          when (opc == 3) begin_flag_def
          alu_ri (logical_op opc) rax (if sf then masks.wmask else masks.wmask % 2 ^ 32) sf
          if_m (opc == 3) (do mark_flags FlagSrc.from_logic; st_r rd rax sf) (st_rsp rd rax sf)
          pure next)
      ])

-- MOVK: only its own field is rewritten.
unfoldable pub tr_movk : ℕ → Bool → ℕ → ℕ → M Step
tr_movk rd sf imm16 shift = do
  ld_r rax rd sf
  alu_ri Alu.and rax (2 ^ 64 - 1 - u64 (0xFFFF * 2 ^ shift)) sf
  alu_ri Alu.or rax (u64 (imm16 * 2 ^ shift)) sf
  st_r rd rax sf
  pure next

-- the constant of MOVN (opc 0) or MOVZ
unfoldable pub move_wide_value : ℕ → Bool → ℕ → ℕ → ℕ
move_wide_value opc sf imm16 shift =
    let field = u64 (imm16 * 2 ^ shift) in
    let val = if opc == 0 then 2 ^ 64 - 1 - field else field in if sf then val else val % 2 ^ 32

unfoldable pub tr_move_wide : ℕ → M Step
unfolding emit
tr_move_wide insn =
    let sf = is_set insn 31 in
    let rd = bits insn 4 0 in
    let opc = bits insn 30 29 in
    let hw = bits insn 22 21 in
    let imm16 = bits insn 20 5 in
    let shift = hw * 16 in
    if_m (not sf && ltb 1 hw) (pure bad) (
      if_m (opc == 3) (tr_movk rd sf imm16 shift) (
        if_m (not (opc == 0) && not (opc == 2)) (pure bad) (do
          emit (mov (gp true rax) (imm (move_wide_value opc sf imm16 shift)))
          st_r rd rax sf
          pure next)))

unfoldable pub tr_extr : ℕ → M Step
unfolding emit
tr_extr insn =
    let sf = is_set insn 31 in
    let lsb = bits insn 15 10 in
    if_m (not (bits insn 30 29 == 0) || not (bit insn 21 == 0)) (pure bad) (
      if_m (not (bit insn 31 == bit insn 22)) (pure bad) (do
        ld_r rax (bits insn 20 16) sf
        ld_r rcx (bits insn 9 5) sf
        when (not (lsb == 0)) (do dirty_flags; emit (shrd (gp sf rax) (gp sf rcx) lsb))
        st_r (bits insn 4 0) rax sf
        pure next))

unfoldable pub tr_dp_imm : ℕ → ℕ → M Step
tr_dp_imm insn pc =
    let grp = bits insn 25 23 in
    if_m (ltb grp 2) (tr_adr insn pc) (
      if_m (ltb grp 4) (tr_add_sub_imm insn) (
        if_m (grp == 4) (tr_logical_imm insn) (
          if_m (grp == 5) (tr_move_wide insn) (if_m (grp == 6) (tr_bitfield insn) (tr_extr insn)))))
