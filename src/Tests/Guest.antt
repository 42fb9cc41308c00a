-- ===== src/Tests/Guest.antt =====
-- Concrete runs and instances for the guest memory and heap of src/emu.h and the thunks of
-- src/host-fns.cpp.
use mathlib.Core.Logic.{◌↔◌}
use text.Mathlib.Text.{◌==◌ as str_eq}
use text.Mathlib.TextPositions.{eq_refl}
use reversetta.Prelude.{
  ◌+◌, ◌<◌, ◌≤◌, ◌≡◌, ◌≢◌, refl, ap, sym, [], ◌∷◌, true, some, arith, false, ◌∙◌, inl, inr, ◌⊎◌,
  String,
}
use reversetta.Layout.{exit_none, guest_window, thunk_base}
use reversetta.Memory.{Memory, in_range, read, write}
use reversetta.Memory.Access.{in_range_iff, read-write_self, read-write_other}
use reversetta.Emu.State.{Cpu, Emu, find, set_x}
use reversetta.Emu.Heap.{rounded, heap_alloc}
use reversetta.Emu.Heap.Bounds.{IsHeap, IsBlock, heap_alloc-IsBlock, heap_alloc_wraps}
use reversetta.Emu.Imports.{thunk_for, resolve_import, host_data, symbol_name}
use reversetta.Emu.Imports.Calls.{resolve_import-read, handle_thunk-resolve_import}
use reversetta.Emu.Host.{HostFn, return_to_caller, handle_thunk}
use reversetta.Emu.Imports.Thunks.{
  IsThunks, name_at, thunk_for-name_at, thunk_for-IsThunks, thunk_for_injective, find_other,
}

abbrev pub window : Memory
window = record { mem = λ i. 0; base = 0x100000000; host = 0x700000000000 }

abbrev pub cpu : Cpu
cpu = record {
  x = λ r. 0;
  sp = 0x10F000000;
  pc = 0x100001000;
  exit_reason = exit_none;
  exit_info = 0;
  mem_bias = 0;
  guest_base = 0;
  fault_addr = 0;
}

-- an emulator with a fresh heap and one thunk
abbrev pub emu : Emu
emu = record {
  memory = window;
  cpu = cpu;
  image_end = 0;
  guard_lo = 0;
  guard_hi = 0;
  chain_tbl = 0x600000000000;
  chains = record { blocks = []; block_entry = []; pending_patches = []; code = λ i. 0 };
  thunks = "__reversetta_exit" ∷ [];
  thunk_by_name = ("__reversetta_exit", thunk_base) ∷ [];
  heap_cur = 0x108000000;
  heap_end = 0x10A000000;
  is_running = true;
  exit_code = 0;
  output = [];
  thrown = false;
  hidden = 0;
}

pub emu-IsHeap : IsHeap emu
emu-IsHeap = record {
  fits = omega arith;
  aligned = refl;
  starts = omega arith;
  below_end = omega arith;
  ends = refl;
}

emu-IsThunks : IsThunks emu
unfolding find
emu-IsThunks = record {
  room = omega arith;
  placed = λ name addr found. elim (find_other name "__reversetta_exit" thunk_base [] addr found) [
    | inl (same, here) ↦ (0, ap some (sym same), here)
    | inr older ↦ cc
  ];
}

in_range_iff_example :
    (in_range window 0x100000010 8 ≡ true)
    ↔ ((0x100000000 ≤ 0x100000010) × (0x100000010 + 8 ≤ 0x100000000 + guest_window))
in_range_iff_example = in_range_iff window 0x100000010 8 (omega arith) (omega arith)

read-write_self_example : read 4 (write 4 window 0x100000010 0x123456789A) 0x100000010 ≡ 0x3456789A
unfolding in_range
read-write_self_example = read-write_self 4 window 0x100000010 0x123456789A refl

read-write_other_example :
    read 8 (write 4 window 0x100000010 7) 0x100000018 ≡ read 8 window 0x100000018
read-write_other_example =
    read-write_other 4 8 window 0x100000010 0x100000018 7 (omega arith) (omega arith) (omega arith)
      (inr (omega arith))

heap_alloc-IsBlock_example :
    ((emu.heap_end < emu.heap_cur + rounded 100 + 16) × (heap_alloc 100 emu ≡ (0, emu)))
    ⊎ IsBlock 100 (heap_alloc 100 emu).0 emu (heap_alloc 100 emu).1
heap_alloc-IsBlock_example = heap_alloc-IsBlock 100 emu emu-IsHeap (omega arith)

heap_alloc_wraps_example :
    let r = heap_alloc 0xFFFFFFFFFFFFFFF0 emu in (r.0 ≡ 0x108000010) × (r.1.heap_cur ≤ 0x108000010)
heap_alloc_wraps_example =
    heap_alloc_wraps 0xFFFFFFFFFFFFFFF0 emu emu-IsHeap (omega arith) (omega arith) (omega arith)

thunk_for-name_at_example :
    let r = thunk_for "malloc" emu in
    (thunk_base ≤ r.0) × (name_at r.1 r.0 ≡ some "malloc") × (thunk_for "malloc" r.1 ≡ (r.0, r.1))
thunk_for-name_at_example = thunk_for-name_at "malloc" emu emu-IsThunks

thunk_for-IsThunks_example : IsThunks (thunk_for "malloc" emu).1
thunk_for-IsThunks_example = thunk_for-IsThunks "malloc" emu emu-IsThunks (omega arith)

abbrev malloc : String
malloc = "malloc"

abbrev free : String
free = "free"

malloc_is_not_free : malloc ≢ free
malloc_is_not_free =
    λ e. let same : true ≡ false = sym (eq_refl malloc) ∙ ap (str_eq malloc) e in cc

thunk_for_injective_example : let r = thunk_for malloc emu in (thunk_for free r.1).0 ≢ r.0
thunk_for_injective_example =
    thunk_for_injective malloc free emu emu-IsThunks (omega arith) malloc_is_not_free

-- "___stderrp" with its underscores
resolve_import-read_example :
    let r = resolve_import "___stderrp" emu in
    (r.0 ≡ 0x108000010) × (read 8 r.1.memory r.0 ≡ 0xF11E0003) × IsHeap r.1
unfolding find host_data symbol_name
resolve_import-read_example =
    resolve_import-read "___stderrp" emu 0xF11E0003 emu-IsHeap (omega arith) refl

-- a host function that returns 7
abbrev seven : HostFn
seven e = set_x 0 7 e

handle_thunk-resolve_import_example :
    let r = resolve_import "_malloc" emu in
    handle_thunk ((malloc, seven) ∷ []) r.0 r.1 ≡ (true, return_to_caller (seven r.1))
unfolding find host_data symbol_name
handle_thunk-resolve_import_example =
    handle_thunk-resolve_import ((malloc, seven) ∷ []) "_malloc" seven emu emu-IsThunks refl
      (λ e. let same : true ≡ false = sym (eq_refl malloc) ∙ ap (str_eq malloc) e in cc) refl
