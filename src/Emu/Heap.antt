-- ===== src/Emu/Heap.antt =====
-- `Emu::heap_alloc`: a bump allocator, with the size in a header of 16 bytes.
pub mod Bounds
use reversetta.Prelude.{ℕ, ◌+◌, ◌*◌, ◌/◌, ◌%◌, ◌^◌, ltb, if◌then◌else◌, u64}
use reversetta.Memory.{write}
use reversetta.Emu.State.{Emu}

-- `(size + 15) & ~15`
unfoldable pub rounded : ℕ → ℕ
rounded size = u64 (size + 15) / 16 * 16

-- the address, 0 if the heap is full
unfoldable pub heap_alloc : ℕ → Emu → ℕ × Emu
unfolding rounded
heap_alloc size e =
    let need = rounded size in
    let p = u64 (e.heap_cur + 16) in
    if ltb e.heap_end (u64 (e.heap_cur + need + 16))
    then (0, e)
    else (p, record e { memory = write 8 e.memory e.heap_cur need; heap_cur = u64 (p + need) })
