-- ===== src/Translator/DpReg.antt =====
-- `BlockBuilder::tr_dp_reg`: data processing with registers.
pub mod Shifted
pub mod Extended
pub mod Conditional
pub mod OneSource
pub mod TwoSource
pub mod ThreeSource
use reversetta.Prelude.{ℕ, bit_and, Bool, ◌==◌, ◌&&◌}
use reversetta.Bits.{bit}
use reversetta.Emitter.State.{M, Step, bad, pure, if_m}
use Shifted.{tr_logical_shifted, tr_add_sub_shifted}
use Extended.{tr_add_sub_extended}
use Conditional.{tr_cond_compare, tr_cond_select, tr_add_sub_carry}
use OneSource.{tr_one_source}
use TwoSource.{tr_two_source}
use ThreeSource.{tr_three_source}

abbrev fits : ℕ → ℕ → ℕ → Bool
fits insn mask value = bit_and insn mask == value

unfoldable pub tr_dp_reg : ℕ → M Step
tr_dp_reg insn = if_m (fits insn 0x1F000000 0x0A000000) (tr_logical_shifted insn) (
    if_m (fits insn 0x1F200000 0x0B000000) (tr_add_sub_shifted insn) (
      if_m (fits insn 0x1F200000 0x0B200000) (tr_add_sub_extended insn) (
        if_m (fits insn 0x1FE00000 0x1A400000 && (bit insn 10 == 0) && (bit insn 4 == 0))
          (tr_cond_compare insn)
          (if_m (fits insn 0x1FE00000 0x1A800000) (tr_cond_select insn) (
            if_m (fits insn 0x1FE0FC00 0x1A000000) (tr_add_sub_carry insn) (
              if_m (fits insn 0x5FE00000 0x1AC00000) (tr_two_source insn) (
                if_m (fits insn 0x5FE00000 0x5AC00000) (tr_one_source insn)
                  (if_m (fits insn 0x1F000000 0x1B000000) (tr_three_source insn) (pure bad)))))))))
