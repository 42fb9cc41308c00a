-- ===== src/Emu/Run.antt =====
-- src/emu.cpp: `Emu::run`, the start of a program and the dispatcher's loop, and the handler of
-- faults. What the host's processor does with compiled code is a parameter: `execute` runs the code
-- at an address until it returns, or until a memory access faults at a host address.
pub mod Start
pub mod Rules
pub mod Rounds
pub mod Exit
pub mod Guards
pub mod Reached
use reversetta.Prelude.{
  ℕ, zero, suc, Bool, true, false, Option, none, some, String, List, ◌&&◌, if◌then◌else◌, leb, ltb,
  sub_u64,
}
use reversetta.Layout.{
  thunk_base, ExitReason, exit_none, exit_mem_fault, exit_undef_insn, exit_syscall,
}
use reversetta.Emu.State.{Emu}
use reversetta.Emu.Host.{HostFn, handle_thunk, handle_syscall}
use reversetta.Emu.Blocks.{Jit, block_for}
use reversetta.Emu.Run.Start.{start}

pub data Ran : Type 0 where
  returned : Emu → Ran
  fault : ℕ → Emu → Ran

-- what `run` takes from its surroundings
pub record Host : Type 0 where
  pub host_fns : List (String × HostFn)
  pub jit : Jit
  pub execute : ℕ → Emu → Ran

-- the end of one round of the loop: go on, `break`, a guest's fault, or a fault of the engine,
-- which ends the process
pub data Round : Type 0 where
  go stopped faulted : Emu → Round
  crashed : Round

-- `guest_fault_handler`: an access between the guards is the guest's fault.
unfoldable pub guest_fault_handler : ℕ → Emu → Round
guest_fault_handler addr e =
    let c = e.cpu in
    if leb e.guard_lo addr && ltb addr e.guard_hi
    then faulted (record e {
      cpu = record c { fault_addr = sub_u64 addr c.mem_bias; exit_reason = exit_mem_fault };
    })
    else crashed

-- by the reason that the block left for
unfoldable pub after_block : Ran → Round
unfolding guest_fault_handler
after_block (fault addr e) = guest_fault_handler addr e
after_block (returned e) = elim e.cpu.exit_reason [
  | exit_none ↦ go e
  | exit_mem_fault ↦ faulted e
  | exit_undef_insn ↦ stopped (record e { exit_code = 4 })
  | exit_syscall ↦ go (handle_syscall e)
]

unfoldable pub run_block : Host → Option ℕ × Emu → Round
unfolding after_block
run_block h (none, e) = stopped (record e { exit_code = 70 })
run_block h (some fn, e) = after_block (h.execute fn e)

unfoldable pub after_thunk : Bool × Emu → Round
after_thunk (true, e) = if e.thrown then crashed else go e
after_thunk (false, e) = if e.thrown then crashed else stopped e

-- the body of the loop
unfoldable pub dispatch : Host → Emu → Round
unfolding run_block after_thunk
dispatch h e =
    if leb thunk_base e.cpu.pc
    then after_thunk (handle_thunk h.host_fns e.cpu.pc e)
    else run_block h (block_for h.jit e.cpu.pc e)

pub data Outcome : Type 0 where
  finished : Emu → Outcome
  killed : Outcome

-- `while (running)` and what follows it; `none` is a loop that has not ended within the fuel.
unfoldable pub loop : ℕ → Host → Emu → Option Outcome
loop zero h e = none
loop (suc fuel) h e = elim e.is_running [
  | false ↦ some (finished e)
  | true ↦ (elim (dispatch h e) [
    | go e' ↦ loop fuel h e'
    | stopped e' ↦ some (finished e')
    | faulted e' ↦ some (finished (record e' { exit_code = 139 }))
    | crashed ↦ some killed
  ])
]

-- The result's exit code is that of `run`.
unfoldable pub run : ℕ → Host → ℕ → List (List ℕ) → Emu → Option Outcome
unfolding loop
run fuel h entry args e = loop fuel h (start entry args e)
