-- ===== src/Emu/Imports/Calls.antt =====
-- What an import turns into: a cell with its value, or an address whose call runs the function.
use text.Mathlib.Text.{◌==◌ as str_eq}
use text.Mathlib.TextEquality.{eq_iff}
use reversetta.Prelude.{
  ℕ, ◌+◌, ◌%◌, ◌^◌, ◌≤◌, ◌<◌, ◌≡◌, ◌≢◌, List, true, false, none, some, arith, inl, inr, String, ◌∙◌,
  Bool-cases,
}
use reversetta.Memory.{read, write, in_range}
use reversetta.Memory.Access.{read-write_self, write-base, in_range_iff}
use reversetta.Emu.State.{Emu, find}
use reversetta.Emu.Heap.{heap_alloc, rounded}
use reversetta.Emu.Heap.Bounds.{IsHeap, IsBlock, heap_alloc-IsBlock}
use reversetta.Emu.Imports.{host_data, symbol_name, thunk_for, resolve_import}
use reversetta.Emu.Imports.Thunks.{IsThunks, name_at, thunk_for-name_at}
use reversetta.Emu.Host.{HostFn, return_to_caller, call_by_name, handle_thunk}

module _ (raw : String) (e : Emu) where
  resolve_data :
      (value : ℕ)
      → find (symbol_name raw) host_data ≡ some value
      → resolve_import raw e ≡ (
        (heap_alloc 8 e).0,
        record (heap_alloc 8 e).1 {
          memory = write 8 (heap_alloc 8 e).1.memory (heap_alloc 8 e).0 value;
        },
      )
  unfolding resolve_import
  resolve_data value found = rw (found, resolve_import)

  pub resolve_function :
      find (symbol_name raw) host_data ≡ none → resolve_import raw e ≡ thunk_for (symbol_name raw) e
  unfolding resolve_import
  resolve_function missing = rw (missing, resolve_import)

IsHeap-write :
    (n addr v : ℕ) (e : Emu) → IsHeap e → IsHeap (record e { memory = write n e.memory addr v })
IsHeap-write n addr v e h =
    let base = write-base n e.memory addr v in
    record {
      fits = omega arith;
      aligned = h.aligned;
      starts = omega arith;
      below_end = h.below_end;
      ends = omega arith;
    }

heap_alloc-base : (size : ℕ) (e : Emu) → (heap_alloc size e).1.memory.base ≡ e.memory.base
unfolding heap_alloc
heap_alloc-base size e = ground (arith, write-base 8 e.memory e.heap_cur (rounded size))

-- the cell is in range of the heap's state after the allocation
cell_in_range :
    (p : ℕ) (e e' : Emu)
    → IsHeap e
    → IsBlock 8 p e e'
    → e'.memory.base ≡ e.memory.base
    → in_range e'.memory p 8 ≡ true
cell_in_range p e e' h block base =
    let heap = block.heap in
    (in_range_iff e'.memory p 8 (omega (arith, h.fits)) (omega arith)).1 (
      omega (arith, h.starts, block.after_header),
      omega (arith, block.inside, heap.below_end, heap.ends),
    )

not_full : (e : Emu) → e.heap_cur + 32 ≤ e.heap_end → e.heap_end < e.heap_cur + rounded 8 + 16 → ⊥
unfolding rounded
not_full e room full = omega arith

-- A symbol of the host's data becomes a cell of the guest's heap that holds its value, as long as
-- the heap has room for it, and the heap stays well-formed.
pub resolve_import-read :
    (raw : String) (e : Emu) (value : ℕ)
    → IsHeap e
    → e.heap_cur + 32 ≤ e.heap_end
    → find (symbol_name raw) host_data ≡ some value
    → let r = resolve_import raw e in
      (r.0 ≡ e.heap_cur + 16) × (read 8 r.1.memory r.0 ≡ value % 256 ^ 8) × IsHeap r.1
resolve_import-read raw e value h room found =
    rw (resolve_data raw e value found) (elim (heap_alloc-IsBlock 8 e h (omega arith)) [
      | inl (full, _) ↦ absurd (not_full e room full)
      | inr block ↦ (
        block.after_header,
        read-write_self 8 (heap_alloc 8 e).1.memory (heap_alloc 8 e).0 value
            (cell_in_range _ e _ h block (heap_alloc-base 8 e)),
        IsHeap-write 8 (heap_alloc 8 e).0 value (heap_alloc 8 e).1 block.heap,
      )
    ])

thunk_calls :
    (host_fns : List (String × HostFn)) (name : String) (pc : ℕ) (e : Emu)
    → name_at e pc ≡ some name
    → handle_thunk host_fns pc e ≡ call_by_name host_fns name e
unfolding handle_thunk
thunk_calls host_fns name pc e at = rw (at, handle_thunk)

is_other : (s t : String) → s ≢ t → str_eq s t ≡ false
is_other s t ne = elim (Bool-cases (str_eq s t)) [
  | inl e ↦ absurd (ne ((eq_iff s t).0 e))
  | inr e ↦ e
]

call_found :
    (host_fns : List (String × HostFn)) (name : String) (f : HostFn) (e : Emu)
    → str_eq name "__reversetta_exit" ≡ false
    → find name host_fns ≡ some f
    → call_by_name host_fns name e ≡ (true, return_to_caller (f e))
unfolding call_by_name
call_found host_fns name f e other found = simp (other, found)

-- With the tables right, a jump to the address that a function's symbol resolves to runs the host
-- function of that name on the state, and goes on at the address that x30 holds then; the name is
-- not that of data and not the one by which a program ends.
pub handle_thunk-resolve_import :
    (host_fns : List (String × HostFn)) (raw : String) (f : HostFn) (e : Emu)
    → IsThunks e
    → find (symbol_name raw) host_data ≡ none
    → symbol_name raw ≢ "__reversetta_exit"
    → find (symbol_name raw) host_fns ≡ some f
    → let r = resolve_import raw e in
      handle_thunk host_fns r.0 r.1 ≡ (true, return_to_caller (f r.1))
handle_thunk-resolve_import host_fns raw f e h function other found =
    let name = symbol_name raw in
    let at = (thunk_for-name_at name e h).1 in
    rw (resolve_function raw e function) (
      thunk_calls host_fns name (thunk_for name e).0 (thunk_for name e).1 at
      ∙ call_found host_fns name f (thunk_for name e).1 (is_other name "__reversetta_exit" other)
          found)
