-- ===== src/X86/Machine.antt =====
-- The effect of the instructions on the host: an independent description of the target, which the
-- theorems about emitted code are stated by. The context (at r12) is a store of fields by offset;
-- a read narrower than a field gives its low part. Memory at other bases is host memory. Labels
-- are only jumped to forwards, so a taken jump seeks its `bind` in the code that follows.
-- An instruction outside this set stops the machine in `stuck`.

use reversetta.Prelude.{
  ℕ, zero, suc, ◌+◌, ◌-◌, ◌*◌, ◌/◌, ◌%◌, ◌^◌, bit_and, bit_or, bit_xor, List, [], ◌∷◌, ◌++◌, Bool,
  true, false, not, ◌&&◌, ◌||◌, ◌==◌, leb, ltb, if◌then◌else◌, none, some, of_bool, ◌≡◌, refl,
}
use reversetta.Memory.{load_le, store_le}
use reversetta.X86

pub record Flags : Type 0 where
  pub cf : Bool
  pub zf : Bool
  pub sf : Bool
  pub ovf : Bool
  pub pf : Bool

pub data Status : Type 0 where
  running stopped stuck : Status
  seeking : X86.Label → Status

pub record Machine : Type 0 where
  pub regs : X86.Gp → ℕ
  pub flags : Flags
  pub ctx : ℕ → ℕ
  pub host : ℕ → ℕ
  pub status : Status

-- the conditions, as the instruction set defines them
unfoldable pub eval_cc : X86.CondCode → Flags → Bool
eval_cc X86.CondCode.overflow f = f.ovf
eval_cc X86.CondCode.not_overflow f = not f.ovf
eval_cc X86.CondCode.carry f = f.cf
eval_cc X86.CondCode.not_carry f = not f.cf
eval_cc X86.CondCode.equal f = f.zf
eval_cc X86.CondCode.not_equal f = not f.zf
eval_cc X86.CondCode.below_equal f = f.cf || f.zf
eval_cc X86.CondCode.above f = not (f.cf || f.zf)
eval_cc X86.CondCode.sign f = f.sf
eval_cc X86.CondCode.not_sign f = not f.sf
eval_cc X86.CondCode.parity f = f.pf
eval_cc X86.CondCode.not_parity f = not f.pf
eval_cc X86.CondCode.less f = if f.sf then not f.ovf else f.ovf
eval_cc X86.CondCode.greater_equal f = if f.sf then f.ovf else not f.ovf
eval_cc X86.CondCode.less_equal f = f.zf || (if f.sf then not f.ovf else f.ovf)
eval_cc X86.CondCode.greater f = not f.zf && (if f.sf then f.ovf else not f.ovf)

abbrev pub bits_of : X86.Width → ℕ
bits_of X86.Width.byte = 8
bits_of X86.Width.word = 16
bits_of X86.Width.dword = 32
bits_of X86.Width.qword = 64

abbrev pub modulus : X86.Width → ℕ
modulus w = 2 ^ bits_of w

-- A 32-bit result clears the upper half; a narrower one leaves the rest alone.
abbrev pub merge : X86.Width → ℕ → ℕ → ℕ
merge X86.Width.byte old v = old / 2 ^ 8 * 2 ^ 8 + v % 2 ^ 8
merge X86.Width.word old v = old / 2 ^ 16 * 2 ^ 16 + v % 2 ^ 16
merge X86.Width.dword old v = v % 2 ^ 32
merge X86.Width.qword old v = v

abbrev pub set_reg : X86.Width → X86.Gp → ℕ → Machine → Machine
set_reg w g v m = record m {
  regs = λ h. if X86.same_id h g then merge w (m.regs h) v else m.regs h;
}

abbrev pub set_ctx : ℕ → ℕ → Machine → Machine
set_ctx d v m = record m { ctx = λ e. if e == d then v else m.ctx e }

unfoldable pub address : Machine → X86.Mem → ℕ
address m a =
    let i : ℕ = elim a.index [ none ↦ 0 | some g ↦ m.regs g * 2 ^ a.scale ] in
    (m.regs a.base + i + a.disp) % 2 ^ 64

abbrev pub is_ctx : X86.Mem → Bool
is_ctx a = X86.same_id a.base X86.Gp.r12

unfoldable pub value : Machine → X86.Operand → ℕ
unfolding address load_le
value m (X86.Operand.reg w g) = m.regs g % modulus w
value m (X86.Operand.imm v) = v
value m (X86.Operand.mem w a) =
    if is_ctx a then m.ctx a.disp % modulus w else load_le (bits_of w / 8) m.host (address m a)

unfoldable pub assign : X86.Operand → ℕ → Machine → Machine
unfolding address store_le
assign (X86.Operand.reg w g) v m = set_reg w g v m
assign (X86.Operand.imm _) v m = m
assign (X86.Operand.mem w a) v m =
    if is_ctx a
    then set_ctx a.disp v m
    else record m { host = store_le (bits_of w / 8) m.host (address m a) v }

abbrev pub width_of : X86.Operand → X86.Width
width_of (X86.Operand.reg w g) = w
width_of (X86.Operand.mem w a) = w
width_of (X86.Operand.imm v) = X86.Width.qword

abbrev pub is_neg : X86.Width → ℕ → Bool
is_neg w v = leb (modulus w / 2) v

-- an even number of ones in the low byte
unfoldable pub even_ones : ℕ → ℕ → Bool
even_ones zero v = true
even_ones (suc k) v = if v % 2 == 1 then not (even_ones k (v / 2)) else even_ones k (v / 2)

abbrev pub mk_flags : X86.Width → ℕ → Bool → Bool → Flags
mk_flags w r c v = record { cf = c; zf = r == 0; sf = is_neg w r; ovf = v; pf = even_ones 8 r }

abbrev pub differ : Bool → Bool → Bool
differ true b = not b
differ false b = b

-- a + b + c and a - b - c at a width, and the flags
abbrev pub sum : X86.Width → ℕ → ℕ → ℕ → ℕ
sum w a b c = (a + b + c) % modulus w

abbrev pub sum_flags : X86.Width → ℕ → ℕ → ℕ → Flags
sum_flags w a b c =
    let r = sum w a b c in
    mk_flags w r (leb (modulus w) (a + b + c))
      (not (differ (is_neg w a) (is_neg w b)) && differ (is_neg w r) (is_neg w a))

abbrev pub difference : X86.Width → ℕ → ℕ → ℕ → ℕ
difference w a b c = (a + 2 * modulus w - b - c) % modulus w

abbrev pub difference_flags : X86.Width → ℕ → ℕ → ℕ → Flags
difference_flags w a b c =
    let r = difference w a b c in
    mk_flags w r (ltb a (b + c))
      (differ (is_neg w a) (is_neg w b) && differ (is_neg w r) (is_neg w a))

abbrev pub logic_flags : X86.Width → ℕ → Flags
logic_flags w r = mk_flags w r false false

-- `bt` puts the bit into CF; the flags that it leaves undefined are kept here.
abbrev pub bt_flags : ℕ → ℕ → ℕ → Flags → Flags
bt_flags v pos w f = record f { cf = v / 2 ^ (pos % w) % 2 == 1 }

abbrev pub with_flags : Flags → Machine → Machine
with_flags f m = record m { flags = f }

unfoldable pub exec_alu : X86.Alu → X86.Operand → ℕ → ℕ → Machine → Machine
unfolding assign even_ones
exec_alu X86.Alu.add d a b m =
    let w = width_of d in with_flags (sum_flags w a b 0) (assign d (sum w a b 0) m)
exec_alu X86.Alu.sub d a b m =
    let w = width_of d in with_flags (difference_flags w a b 0) (assign d (difference w a b 0) m)
exec_alu X86.Alu.cmp d a b m = with_flags (difference_flags (width_of d) a b 0) m
exec_alu X86.Alu.and d a b m =
    with_flags (logic_flags (width_of d) (bit_and a b)) (assign d (bit_and a b) m)
exec_alu X86.Alu.or d a b m =
    with_flags (logic_flags (width_of d) (bit_or a b)) (assign d (bit_or a b) m)
exec_alu X86.Alu.xor d a b m =
    with_flags (logic_flags (width_of d) (bit_xor a b)) (assign d (bit_xor a b) m)

abbrev pub jump : Bool → X86.Label → Machine → Machine
jump t l m = if t then record m { status = seeking l } else m

unfoldable pub exec : X86.Insn → Machine → Machine
unfolding exec_alu value assign eval_cc
exec (X86.Insn.mov d s) m = assign d (value m s) m
exec (X86.Insn.movzx d s) m = assign d (value m s) m
exec (X86.Insn.alu op d s) m = exec_alu op d (value m d) (value m s % modulus (width_of d)) m
exec (X86.Insn.test d s) m =
    with_flags (logic_flags (width_of d) (bit_and (value m d) (value m s))) m
exec (X86.Insn.bt d s) m =
    with_flags (bt_flags (value m d) (value m s) (bits_of (width_of d)) m.flags) m
exec (X86.Insn.set cc d) m = assign d (of_bool (eval_cc cc m.flags)) m
exec (X86.Insn.lea d a) m = assign d (address m a) m
exec (X86.Insn.j cc l) m = jump (eval_cc cc m.flags) l m
exec (X86.Insn.jmp l) m = jump true l m
exec (X86.Insn.bind l) m = m
exec (X86.Insn.jmp_mem a) m = record m { status = stopped }
exec X86.Insn.ret m = record m { status = stopped }
exec _ m = record m { status = stuck }

abbrev pub is_bind : X86.Label → X86.Insn → Bool
is_bind l (X86.Insn.bind k) = k == l
is_bind l _ = false

unfoldable pub step : X86.Insn → Machine → Machine
unfolding exec
step i m = elim m.status [
  | running ↦ exec i m
  | seeking l ↦ (if is_bind l i then record m { status = running } else m)
  | _ ↦ m
]

unfoldable pub run : List X86.Insn → Machine → Machine
unfolding step
run [] m = m
run (i ∷ c) m = run c (step i m)

pub run-append : (c d : List X86.Insn) (m : Machine) → run (c ++ d) m ≡ run d (run c m)
unfolding run
run-append [] d m = refl
run-append (i ∷ c) d m = run-append c d (step i m)
