-- ===== src/X86.antt =====
-- The x86-64 instructions that src/translator.h and src/translator.cpp hand to the assembler, as
-- data: one constructor for each assembler call. AsmJit itself is not modelled; what the
-- translator uses of it is the order of the calls, the labels and the offset of the code so far.

pub mod Machine
use reversetta.Prelude.{ℕ, ◌==◌, Bool, Option, none, some}

pub data Gp : Type 0 where
  rax rcx rdx rbx rsp rbp rsi rdi r8 r9 r10 r11 r12 r13 r14 r15 : Gp

abbrev pub id : Gp → ℕ
id rax = 0
id rcx = 1
id rdx = 2
id rbx = 3
id rsp = 4
id rbp = 5
id rsi = 6
id rdi = 7
id r8 = 8
id r9 = 9
id r10 = 10
id r11 = 11
id r12 = 12
id r13 = 13
id r14 = 14
id r15 = 15

abbrev pub same_id : Gp → Gp → Bool
same_id g h = id g == id h

pub data Width : Type 0 where
  byte word dword qword : Width

-- `asmjit::x86::CondCode`
pub data CondCode : Type 0 where
  overflow not_overflow carry not_carry equal not_equal below_equal above : CondCode
  sign not_sign parity not_parity less greater_equal less_equal greater : CondCode

-- [base + (index << scale) + disp]; the displacement is a 64-bit pattern.
pub record Mem : Type 0 where
  pub base : Gp
  pub index : Option Gp
  pub scale : ℕ
  pub disp : ℕ

abbrev pub Label : Type 0
Label = ℕ

pub data Operand : Type 0 where
  reg : Width → Gp → Operand
  mem : Width → Mem → Operand
  imm : ℕ → Operand

pub data Alu : Type 0 where
  add sub cmp and or xor : Alu

pub data ShiftOp : Type 0 where
  shl shr sar ror : ShiftOp

pub data Insn : Type 0 where
  mov movzx movsx movsxd : Operand → Operand → Insn
  alu : Alu → Operand → Operand → Insn
  adc sbb test imul bsr bt : Operand → Operand → Insn
  shift : ShiftOp → Operand → Operand → Insn
  shrd : Operand → Operand → ℕ → Insn
  not neg bswap imul_wide mul_wide idiv div push pop : Operand → Insn
  cqo cdq ret : Insn
  lea : Operand → Mem → Insn
  lea_label : Gp → Label → Insn
  set : CondCode → Operand → Insn
  cmov : CondCode → Operand → Operand → Insn
  j : CondCode → Label → Insn
  jmp bind : Label → Insn
  jmp_mem : Mem → Insn
