-- ===== src/Loader/Mapping.antt =====
-- What `map_memory` sets up.
use reversetta.Prelude.{ℕ, ◌+◌, ◌%◌, ◌^◌, ◌≤◌, ◌<◌, ◌≡◌, refl, ap, true, some, arith, u64, sub_u64}
use reversetta.Layout.{guest_window, guard, heap_off, heap_size}
use reversetta.Memory.{in_range, host_ptr}
use reversetta.Memory.Access.{in_range_iff}
use reversetta.Emu.State.{Emu}
use reversetta.Emu.Heap.Bounds.{IsHeap}
use reversetta.Loader.{System, map_memory}

-- the state that a mapping at p leaves
pub mapped-fields :
    (sys : System) (image_base p : ℕ) (e : Emu)
    → sys.mmap ≡ some p
    → sys.mprotect_ok ≡ true
    → let r = map_memory sys image_base e in
      (r.0 ≡ true)
      × (r.1.memory.base ≡ image_base)
      × (r.1.memory.host ≡ u64 (p + guard))
      × (r.1.cpu.mem_bias ≡ sub_u64 (u64 (p + guard)) image_base)
      × (r.1.heap_cur ≡ u64 (image_base + heap_off))
      × (r.1.heap_end ≡ u64 (image_base + heap_off + heap_size))
      × (r.1.guard_lo ≡ p)
      × (r.1.guard_hi ≡ u64 (p + (guard + guest_window + guard)))
unfolding map_memory
mapped-fields sys image_base p e found ok =
    rw (map_memory, found, ok) (refl, refl, refl, refl, refl, refl, refl, refl)

-- A mapping that succeeds, for an image base that is a multiple of 16 and a window that ends below
-- 2^63, leaves a well-formed heap.
pub map_memory-IsHeap :
    (sys : System) (image_base p : ℕ) (e : Emu)
    → sys.mmap ≡ some p
    → sys.mprotect_ok ≡ true
    → image_base + guest_window ≤ 2 ^ 63
    → image_base % 16 ≡ 0
    → IsHeap (map_memory sys image_base e).1
map_memory-IsHeap sys image_base p e found ok fits aligned =
    let (done, base, host, bias, cur, end, lo, hi) = mapped-fields sys image_base p e found ok in
    record {
      fits = omega (arith, base, fits);
      aligned = omega (arith, cur, fits, aligned);
      starts = omega (arith, base, cur, fits);
      below_end = omega (arith, cur, end, fits);
      ends = omega (arith, base, end, fits);
    }

-- Compiled code, which adds the bias to a guest address, goes to the host address that `host_ptr` has
-- for it, for every address of the window; and the fault handler gives the guest address back.
pub map_memory-host_ptr :
    (sys : System) (image_base p addr len : ℕ) (e : Emu)
    → sys.mmap ≡ some p
    → sys.mprotect_ok ≡ true
    → image_base + guest_window ≤ 2 ^ 63
    → addr < 2 ^ 64
    → in_range (map_memory sys image_base e).1.memory addr len ≡ true
    → let d = (map_memory sys image_base e).1 in
      (host_ptr d.memory addr len ≡ some (u64 (d.cpu.mem_bias + addr)))
      × (sub_u64 (u64 (d.cpu.mem_bias + addr)) d.cpu.mem_bias ≡ addr)
unfolding host_ptr
map_memory-host_ptr sys image_base p addr len e found ok fits small inside =
    let d = (map_memory sys image_base e).1 in
    let (done, base, host, bias, cur, end, lo, hi) = mapped-fields sys image_base p e found ok in
    let bounds = (in_range_iff d.memory addr len (omega (arith, base, fits)) small).0 inside in
    let same : u64 (d.memory.host + sub_u64 addr d.memory.base) ≡ u64 (d.cpu.mem_bias + addr) =
      omega (arith, base, host, bias, bounds, fits, small) in
    (rw inside (ap some same), omega (arith, bias, small))
