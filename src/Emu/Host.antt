-- ===== src/Emu/Host.antt =====
-- src/emu.cpp: `handle_thunk` and `handle_syscall`, what the dispatcher does for the guest.
use reversetta.Prelude.{
  ℕ, zero, suc, ◌+◌, ◌/◌, ◌%◌, ◌^◌, List, [], ◌∷◌, Bool, true, false, none, some, if◌then◌else◌,
  ◌==◌, get_elem?, u32, sub_u64, String,
}
use text.Mathlib.Text.{◌==◌ as str_eq}
use reversetta.Layout.{thunk_base, exit_none}
use reversetta.Memory.{in_range}
use reversetta.Emu.State.{Emu, Stream, stdout, stderr, find, set_x}

abbrev pub HostFn : Type 0
HostFn = Emu → Emu

-- `(pc - THUNK_BASE) / 4`
abbrev pub thunk_index : ℕ → ℕ
thunk_index pc = sub_u64 pc thunk_base / 4

abbrev pub stop : ℕ → Emu → Emu
stop code e = record e { is_running = false; exit_code = code }

abbrev pub set_pc : ℕ → Emu → Emu
set_pc pc e = let c = e.cpu in record e { cpu = record c { pc = pc } }

-- a host function returns through x30
abbrev pub return_to_caller : Emu → Emu
return_to_caller e = set_pc (e.cpu.x 30) e

unfoldable pub call_by_name : List (String × HostFn) → String → Emu → Bool × Emu
call_by_name host_fns name e =
    if str_eq name "__reversetta_exit"
    then (true, stop (u32 (e.cpu.x 0)) e)
    else elim (find name host_fns) [
      | none ↦ (false, stop 127 e)
      | some f ↦ (true, return_to_caller (f e))
    ]

-- `host_fns` is the table `g_host_fns`. The first part of the result is the function's own.
unfoldable pub handle_thunk : List (String × HostFn) → ℕ → Emu → Bool × Emu
handle_thunk host_fns pc e = elim (get_elem? e.thunks (thunk_index pc)) [
  | none ↦ (false, e)
  | some name ↦ call_by_name host_fns name e
]

-- the bytes of the window from an offset on
abbrev pub bytes_at : ℕ → (ℕ → ℕ) → ℕ → List ℕ
bytes_at zero mem off = []
bytes_at (suc n) mem off = mem off ∷ bytes_at n mem (off + 1)

-- `fwrite` of guest memory, skipped where the range is bad
unfoldable pub write_out : Stream → ℕ → ℕ → Emu → Emu
write_out f addr len e =
    if in_range e.memory addr len
    then record e {
      output =
          record { stream = f; bytes = bytes_at len e.memory.mem (sub_u64 addr e.memory.base) }
          ∷ e.output;
    }
    else e

abbrev pub clear_exit : Emu → Emu
clear_exit e = let c = e.cpu in record e { cpu = record c { exit_reason = exit_none } }

unfoldable pub handle_syscall : Emu → Emu
handle_syscall e =
    let nr = e.cpu.x 16 % 2 ^ 24 in
    if nr == 1
    then clear_exit (stop (u32 (e.cpu.x 0)) e)
    else if nr == 4
    then clear_exit (
        set_x 0 (e.cpu.x 2)
          (write_out (if e.cpu.x 0 == 2 then stderr else stdout) (e.cpu.x 1) (e.cpu.x 2) e))
    else clear_exit (stop 127 e)
