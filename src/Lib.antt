-- ===== src/Lib.antt =====
-- Reversetta runs arm64 Mach-O programs on x86-64 by translating them, block by block, to native
-- code.
--
-- The program and the files. `BlockBuilder` (src/translator.h, src/translator.cpp) reads guest
-- instructions from the memory window of `Emu` (src/emu.h) and calls an assembler; the dispatcher
-- (src/emu.cpp) runs the blocks, and calls host functions where the guest jumps to a thunk
-- (src/host-fns.cpp).
--   Layout, Bits     src/common.h: constants, offsets in GuestCpu, bits, sext, decode_bit_masks
--   Memory           src/emu.h: in_range, host_ptr, read, write, guest_cstr
--   Emu              src/emu.h, src/emu.cpp, src/host-fns.cpp: heap_alloc, thunk_for,
--                    resolve_import, handle_thunk, handle_syscall, block_for and the links between
--                    blocks (Blocks), run and the fault handler (Run)
--   Loader           src/emu.cpp, src/emu.h, src/mach-o.h: load, map_memory, bind_chained_fixups
--   HostFns          src/host-fns.cpp: the host functions and their table, format_guest (Format)
--   Main             src/main.cpp: the options and the course of a run
--   Emitter          src/translator.h: the state of BlockBuilder (State), lazy flags and
--                    conditions (Flags), guest registers and the base cache (Regs), exits (Exits);
--                    Fusion, Conditions, Spill, Reading, Writing and Leaving hold the
--                    proofs about them
--   Translator       src/translator.cpp: build and translate (Block), tr_dp_imm (DpImm), tr_branch
--                    (Branch), tr_ldst (LdSt) and tr_dp_reg (DpReg)
--   X86, Arm         no code: the instructions that the assembler is called with, their effect on
--                    the host (X86/Machine), and the conditions of the ARM architecture
--   Prelude, Tests   shared helpers; concrete runs and instances
--
-- A method of BlockBuilder is a function from the builder's state to a value, a new state and the
-- list of instructions that it emits. A call of the assembler is a value of `Insn`; the number of
-- bytes that the assembler encodes an instruction with is a parameter of the state, which only the
-- patch sites depend on. Emitted code is run by `run` on a machine with registers, RFLAGS, the
-- context at r12 and host memory; an instruction outside the machine's set stops it as `stuck`, and
-- a taken jump seeks its label forwards, since the code has no backward jump inside a block.
--
-- The dispatcher's loop takes the host as a parameter: the table of host functions, AsmJit, and
-- `execute`, what compiled code does to the state until it returns or faults at a host address. The
-- code of blocks is bytes at host addresses, which linking overwrites. The host's C library is a
-- parameter where C leaves a result open. An exception in a host function sets `thrown`, and the
-- loop then ends as killed. The host's system is a parameter of the loader: whether mmap and
-- mprotect succeed.
--
-- Numbers. A machine word is a natural number with its wrap-around written out (u32, u64, sub_u64);
-- an int64_t is its bit pattern. The tables of Emu are association lists.
--
-- Bounds. `top_bit` has 32 steps, one for each bit of its uint32_t. The loop of `replicate` has 65:
-- it steps by at least 1 up to 64. The loop of `build` runs on the 512 instructions of
-- MAX_BLOCK_INSNS, as in the source. Thunks are counted below 2^57, so that their addresses
-- do not wrap. The dispatcher's loop has fuel without a bound, since a guest may run for ever. A chain
-- of fixups has a round for each four bytes of the window, which it leaves after that. The loop of
-- format_guest has a round for each byte of the format.
--
-- Not modelled: the installation of the signal handlers, the buffering of the host's
-- streams, log messages and statistics. Reads behind the data of a file or of a buffer are undefined
-- in the source; the model has some bytes there. A printf format is read once at the start of the
-- call, so a %n that writes into the format itself is left out. AsmJit is a submodule whose code the
-- repository does not hold.
pub mod Prelude
pub mod Layout
pub mod Bits
pub mod Memory
pub mod X86
pub mod Arm
pub mod Emu
pub mod Loader
pub mod HostFns
pub mod Emitter
pub mod Translator
pub mod Main
pub mod Tests
