-- ===== src/Translator/DpImm/Address.antt =====
-- The addresses that ADR and ADRP stand for, from the fields of the instruction word.
use reversetta.Prelude.{
  ℕ, ◌+◌, ◌-◌, ◌*◌, ◌/◌, ◌%◌, ◌^◌, ◌<◌, bit_or, ◌≡◌, ◌==◌, arith, ltb, if◌then◌else◌, u64, inl, inr,
  Bool-cases,
}
use reversetta.Bits.{bits, bit, sext}
use reversetta.Bits.Fields.{bit_or_pair, flip_top}
use reversetta.Translator.DpImm.{adr_value}

-- the offset of 21 bits, immhi behind immlo
abbrev pub adr_offset : ℕ → ℕ
adr_offset insn = insn / 2 ^ 5 % 2 ^ 19 * 4 + insn / 2 ^ 29 % 4

-- x and a signed offset of 21 bits in units, on 64 bits
abbrev pub moved_by : ℕ → ℕ → ℕ → ℕ
moved_by x units offset =
    if ltb offset (2 ^ 20)
    then (x + offset * units) % 2 ^ 64
    else (x + 2 ^ 64 - (2 ^ 21 - offset) * units) % 2 ^ 64

-- ADR counts bytes from the instruction, ADRP pages of 4 KiB from the page it lies in.
abbrev pub adr_target : ℕ → ℕ → ℕ
adr_target insn pc =
    if insn / 2 ^ 31 % 2 == 1
    then moved_by (pc - pc % 4096) 4096 (adr_offset insn)
    else moved_by pc 1 (adr_offset insn)

join_offset : (insn : ℕ) → bit_or (bits insn 23 5 * 4) (bits insn 30 29) ≡ adr_offset insn
unfolding bits
join_offset insn = bit_or_pair (insn / 2 ^ 5 % 2 ^ 19) (insn / 2 ^ 29 % 4) (omega arith)

sext_21 : (v : ℕ) → v < 2 ^ 21 → sext v 21 ≡ (if ltb v (2 ^ 20) then v else v + 2 ^ 64 - 2 ^ 21)
unfolding sext
sext_21 v h = let low : v % 2 ^ 21 ≡ v = omega arith in rw low (ground (arith, flip_top 20 v h))

abbrev signed : ℕ → ℕ
signed v = if ltb v (2 ^ 20) then v else v + 2 ^ 64 - 2 ^ 21

add_bytes : (x v : ℕ) → v < 2 ^ 21 → u64 (x + signed v) ≡ moved_by x 1 v
add_bytes x v h = ground arith

add_pages : (x v : ℕ) → v < 2 ^ 21 → u64 (x + u64 (signed v * 4096)) ≡ moved_by x 4096 v
add_pages x v h = ground arith

-- The code's value is the address.
pub adr_value-target : (insn pc : ℕ) → adr_value insn pc ≡ adr_target insn pc
unfolding adr_value bit
adr_value-target insn pc =
    let small : adr_offset insn < 2 ^ 21 = omega arith in
    let page : pc / 4096 * 4096 ≡ pc - pc % 4096 = omega arith in
    rw (join_offset insn, sext_21 (adr_offset insn) small, page)
      (elim (Bool-cases (insn / 2 ^ 31 % 2 == 1)) [
        | inl q ↦ rw q (add_pages (pc - pc % 4096) (adr_offset insn) small)
        | inr q ↦ rw q (add_bytes pc (adr_offset insn) small)
      ])
