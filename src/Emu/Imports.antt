-- ===== src/Emu/Imports.antt =====
-- src/host-fns.cpp: `thunk_for` and `resolve_import`, the value of an imported symbol.
pub mod Thunks
pub mod Calls
use Prim.Native.Char.{Char, code}
use text.Mathlib.Text.{◌==◌ as str_eq}
use reversetta.Prelude.{
  ℕ, ◌+◌, ◌*◌, List, [], ◌∷◌, ◌++◌, Option, none, some, if◌then◌else◌, ◌==◌, length, u64, String,
}
use reversetta.Layout.{thunk_base}
use reversetta.Memory.{write}
use reversetta.Emu.State.{Emu, find}
use reversetta.Emu.Heap.{heap_alloc}

abbrev pub file_stdin : ℕ
file_stdin = 0xF11E0001

abbrev pub file_stdout : ℕ
file_stdout = 0xF11E0002

abbrev pub file_stderr : ℕ
file_stderr = 0xF11E0003

unfoldable pub host_data : List (String × ℕ)
host_data =
    ("__stdinp", file_stdin)
    ∷ ("__stdoutp", file_stdout)
    ∷ ("__stderrp", file_stderr)
    ∷ ("__stack_chk_guard", 0x0000DEADC0DE0000)
    ∷ []

-- the address of a new thunk
abbrev pub next_thunk : Emu → ℕ
next_thunk e = u64 (thunk_base + length e.thunks * 4)

unfoldable pub thunk_for : String → Emu → ℕ × Emu
thunk_for name e = elim (find name e.thunk_by_name) [
  | some addr ↦ (addr, e)
  | none ↦ (
    next_thunk e,
    record e {
      thunks = e.thunks ++ name ∷ [];
      thunk_by_name = (name, next_thunk e) ∷ e.thunk_by_name;
    },
  )
]

-- A leading underscore is dropped.
unfoldable pub symbol_name : String → String
symbol_name String.[] = ""
symbol_name (String.◌∷◌ c s) = if code c == b'_' then s else String.◌∷◌ c s

unfoldable pub resolve_import : String → Emu → ℕ × Emu
resolve_import raw e =
    let name = symbol_name raw in
    elim (find name host_data) [
      | some value ↦
          (let (cell, e') = heap_alloc 8 e in
            (cell, record e' { memory = write 8 e'.memory cell value }))
      | none ↦ thunk_for name e
    ]
