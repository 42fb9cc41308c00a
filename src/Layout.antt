-- ===== src/Layout.antt =====
-- src/common.h: the guest memory layout, the magic addresses, the exit reasons and the byte
-- offsets of the fields of `GuestCpu`, by which generated code addresses them.
use reversetta.Prelude.{ℕ, ◌*◌}

abbrev pub guest_window : ℕ
guest_window = 0x10000000

abbrev pub heap_off : ℕ
heap_off = 0x08000000

abbrev pub heap_size : ℕ
heap_size = 0x02000000

abbrev pub stack_top_off : ℕ
stack_top_off = 0x0F000000

abbrev pub argv_area : ℕ
argv_area = 0x1000

abbrev pub thunk_base : ℕ
thunk_base = 0xF00D000000000000

abbrev pub thunk_exit : ℕ
thunk_exit = thunk_base

abbrev pub max_block_insns : ℕ
max_block_insns = 512

-- 2 GiB of inaccessible pages on each side of the window
abbrev pub guard : ℕ
guard = 0x80000000

pub data ExitReason : Type 0 where
  exit_none exit_mem_fault exit_undef_insn exit_syscall : ExitReason

abbrev pub exit_code_of : ExitReason → ℕ
exit_code_of exit_none = 0
exit_code_of exit_mem_fault = 1
exit_code_of exit_undef_insn = 2
exit_code_of exit_syscall = 3

-- offsetof(GuestCpu, x) is 0, and the other fields follow x[32].
abbrev pub roff : ℕ → ℕ
roff r = r * 8

abbrev pub sp_off : ℕ
sp_off = 256

abbrev pub pc_off : ℕ
pc_off = 264

abbrev pub n_off : ℕ
n_off = 272

abbrev pub z_off : ℕ
z_off = 273

abbrev pub c_off : ℕ
c_off = 274

abbrev pub v_off : ℕ
v_off = 275

abbrev pub mem_bias_off : ℕ
mem_bias_off = 280

abbrev pub exit_reason_off : ℕ
exit_reason_off = 312

abbrev pub exit_info_off : ℕ
exit_info_off = 316
