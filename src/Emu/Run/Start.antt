-- ===== src/Emu/Run/Start.antt =====
-- src/emu.cpp: the first part of `Emu::run`: the arguments on the guest's stack, and its registers.
-- An argument is the list of its bytes, without the NUL behind them.
use reversetta.Prelude.{
  ℕ, ◌+◌, ◌*◌, ◌/◌, List, [], ◌∷◌, ◌++◌, if◌then◌else◌, ◌==◌, leb, length, u64, sub_u64,
}
use reversetta.Layout.{stack_top_off, argv_area, thunk_exit, exit_none}
use reversetta.Memory.{Memory, update, write}
use reversetta.Emu.State.{Emu, Cpu}

-- `memcpy` of bytes to an offset of the window
unfoldable pub store_bytes : List ℕ → ℕ → (ℕ → ℕ) → ℕ → ℕ
store_bytes [] off mem = mem
store_bytes (b ∷ l) off mem = store_bytes l (off + 1) (update mem off b)

-- the memory, the cursor behind the strings, and the address of each string
pub record Args : Type 0 where
  pub memory : Memory
  pub cursor : ℕ
  pub ptrs : List ℕ

abbrev put_string : List ℕ → ℕ → Memory → Memory
put_string s at m = record m { mem = store_bytes (s ++ 0 ∷ []) (sub_u64 at m.base) m.mem }

-- The list is cut at the first argument that does not fit below the top of the stack.
unfoldable pub put_args : List (List ℕ) → ℕ → ℕ → Memory → Args
unfolding store_bytes
put_args [] top cursor m = record { memory = m; cursor = cursor; ptrs = [] }
put_args (s ∷ l) top cursor m =
    let rest = put_args l top (u64 (cursor + (length s + 8) / 8 * 8)) (put_string s cursor m) in
    if leb top (u64 (cursor + length s + 1))
    then record { memory = m; cursor = cursor; ptrs = [] }
    else record rest { ptrs = cursor ∷ rest.ptrs }

-- `for (a : argv_ptrs) { write<uint64_t>(cursor, a); cursor += 8; }`
unfoldable pub put_ptrs : List ℕ → ℕ → Memory → Memory
put_ptrs [] cursor m = m
put_ptrs (p ∷ l) cursor m = put_ptrs l (u64 (cursor + 8)) (write 8 m cursor p)

abbrev pub round_up : ℕ → ℕ
round_up n = u64 (n + 15) / 16 * 16

-- argv with its NULL, the empty environment and the empty list behind it
unfoldable pub put_vectors : List ℕ → ℕ → Memory → Memory
unfolding put_ptrs
put_vectors ptrs argv_addr m =
    let null_addr = u64 (argv_addr + 8 * length ptrs) in
    let envp_addr = u64 (null_addr + 8) in
    write 8 (write 8 (write 8 (put_ptrs ptrs argv_addr m) null_addr 0) envp_addr 0)
      (u64 (envp_addr + 8)) 0

-- x0 to x3 and x30, all else zero
abbrev start_regs : ℕ → ℕ → ℕ → ℕ
start_regs argc argv_addr r =
    if r == 0
    then argc
    else if r == 1
    then argv_addr
    else if r == 2
    then u64 (argv_addr + 8 * argc + 8)
    else if r == 3
    then u64 (argv_addr + 8 * argc + 16)
    else if r == 30
    then thunk_exit
    else 0

unfoldable pub start_cpu : ℕ → ℕ → ℕ → ℕ → Cpu → Cpu
start_cpu entry info argc argv_addr c = record c {
  x = start_regs argc argv_addr;
  sp = info / 16 * 16;
  pc = entry;
  exit_reason = exit_none;
}

unfoldable pub start : ℕ → List (List ℕ) → Emu → Emu
unfolding put_args put_vectors start_cpu
start entry args e =
    let top = u64 (e.memory.base + stack_top_off) in
    let info = sub_u64 top argv_area in
    let a = put_args args top info e.memory in
    let argv_addr = round_up a.cursor in
    record e {
      memory = put_vectors a.ptrs argv_addr a.memory;
      cpu = start_cpu entry info (length a.ptrs) argv_addr e.cpu;
    }
