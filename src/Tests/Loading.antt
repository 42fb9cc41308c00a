-- ===== src/Tests/Loading.antt =====
-- Concrete runs and instances for the loader of src/emu.cpp.
use reversetta.Prelude.{
  ℕ, ◌*◌, ◌^◌, List, none, [], ◌∷◌, ◌+◌, ◌≡◌, refl, [], ◌∷◌, Bool, some, true, arith, u64, sub_u64,
}
use reversetta.Memory.{Memory, read, write, load_le, store_le, in_range, host_ptr}
use reversetta.Emu.State.{Emu}
use reversetta.Emu.Heap.Bounds.{IsHeap}
use reversetta.Emu.Run.Start.{store_bytes}
use reversetta.Loader.{find_slice, System, Pass, bind, map_memory}
use reversetta.Loader.Format.{File, name_at}
use reversetta.Loader.Fixups.{fix_chain, bind_chained_fixups}
use reversetta.Loader.Window.{StaysBound, bind-StaysBound}
use reversetta.Loader.Chains.{bind_chained_fixups_returns}
use reversetta.Loader.Mapping.{map_memory-IsHeap, map_memory-host_ptr}
use reversetta.Tests.Guest.{emu, window}

-- a file in which every byte is 1
abbrev ones : File
ones = record { byte = λ i. 1; size = 0x4000 }

abbrev pass : Pass
pass = record {
  emu = emu;
  symtab = some 0x100;
  dysym = some 0x200;
  chained = some 0x300;
  sections = 0x400 ∷ [];
  entry = 0x100001000;
}

bind-StaysBound_example : StaysBound emu (bind ones 0 pass)
bind-StaysBound_example = bind-StaysBound ones 0 pass

bind_chained_fixups_returns_example :
    (r : Bool × Emu) × (bind_chained_fixups ones 0 0x300 emu ≡ some r)
bind_chained_fixups_returns_example = bind_chained_fixups_returns ones 0 0x300 emu (omega arith)

abbrev system : System
system = record { mmap = some 0x700000000000; mprotect_ok = true }

map_memory-IsHeap_example : IsHeap (map_memory system 0x100000000 emu).1
map_memory-IsHeap_example =
    map_memory-IsHeap system 0x100000000 0x700000000000 emu refl refl (omega arith) refl

map_memory-host_ptr_example :
    let d = (map_memory system 0x100000000 emu).1 in
    (host_ptr d.memory 0x100000010 8 ≡ some (u64 (d.cpu.mem_bias + 0x100000010)))
    × (sub_u64 (u64 (d.cpu.mem_bias + 0x100000010)) d.cpu.mem_bias ≡ 0x100000010)
unfolding map_memory in_range
map_memory-host_ptr_example =
    map_memory-host_ptr system 0x100000000 0x700000000000 0x100000010 8 emu refl refl (omega arith)
      (omega arith) refl

-- a chain of two pointers in one page: a bind to import 0, and 8 bytes on a rebase to 0x4000
abbrev chained_window : Memory
chained_window = record window {
  mem = store_le 8 (store_le 8 (λ i. 0) 0x1000 (2 ^ 63 + 2 * 2 ^ 51)) 0x1008 0x4000;
}

fix_chain_runs :
    elim (fix_chain 10 (0xF00D000000000004 ∷ []) true 0x100001000 chained_window) [
      | none ↦ []
      | some m ↦ read 8 m 0x100001000 ∷ read 8 m 0x100001008 ∷ []
    ]
    ≡ 0xF00D000000000004 ∷ 0x100004000 ∷ []
unfolding fix_chain read write in_range load_le store_le
fix_chain_runs = refl

-- a fat header with one arm64 slice at 0x4000
abbrev fat_header : List ℕ
fat_header =
    0xCA ∷ 0xFE ∷ 0xBA ∷ 0xBE ∷ 0 ∷ 0 ∷ 0 ∷ 1 ∷ 1 ∷ 0 ∷ 0 ∷ 12 ∷ 0 ∷ 0 ∷ 0 ∷ 0 ∷ 0 ∷ 0 ∷ 0x40 ∷ 0
    ∷ []

find_slice_runs :
    find_slice (record { byte = store_bytes fat_header 0 (λ i. 0); size = 0x8000 }) ≡ some 0x4000
unfolding find_slice load_le store_bytes
find_slice_runs = refl

name_at_runs :
    name_at (record { byte = store_bytes (b'_' ∷ b'h' ∷ b'i' ∷ []) 4 (λ i. 0); size = 9 }) 4 ≡ "_hi"
unfolding name_at store_bytes
name_at_runs = refl
