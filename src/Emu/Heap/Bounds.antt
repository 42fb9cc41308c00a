-- ===== src/Emu/Heap/Bounds.antt =====
-- Where the blocks of the heap lie.
use reversetta.Prelude.{
  ℕ, ◌+◌, ◌-◌, ◌%◌, ◌^◌, ◌≤◌, ◌<◌, ◌≡◌, ◌≢◌, ◌⊎◌, inl, inr, true, false, arith, ltb, Bool-cases,
  u64, ltb→lt, ltb-false→le,
}
use reversetta.Layout.{guest_window, heap_off, heap_size}
use reversetta.Memory.{read, write, in_range}
use reversetta.Memory.Access.{read-write_self, write-base, in_range_iff}
use reversetta.Emu.State.{Emu}
use reversetta.Emu.Heap.{rounded, heap_alloc}

-- The next free address is aligned and lies in the heap, which lies in the window.
pub record IsHeap (e : Emu) : Type 0 where
  pub fits : e.memory.base + guest_window ≤ 2 ^ 63
  pub aligned : e.heap_cur % 16 ≡ 0
  pub starts : e.memory.base + heap_off ≤ e.heap_cur
  pub below_end : e.heap_cur ≤ e.heap_end
  pub ends : e.heap_end ≡ e.memory.base + heap_off + heap_size

-- A block of `size` bytes at p was taken between the free addresses of e and e'.
pub record IsBlock (size p : ℕ) (e e' : Emu) : Type 0 where
  pub nonzero : p ≢ 0
  pub is_aligned : p % 16 ≡ 0
  pub after_header : p ≡ e.heap_cur + 16
  pub inside : p + size ≤ e'.heap_cur
  pub recorded : read 8 e'.memory e.heap_cur ≡ rounded size
  pub heap : IsHeap e'

heap_alloc_full :
    (size : ℕ) (e : Emu)
    → ltb e.heap_end (u64 (e.heap_cur + rounded size + 16)) ≡ true
    → heap_alloc size e ≡ (0, e)
unfolding heap_alloc
heap_alloc_full size e h = simp h

heap_alloc_fits :
    (size : ℕ) (e : Emu)
    → ltb e.heap_end (u64 (e.heap_cur + rounded size + 16)) ≡ false
    → heap_alloc size e ≡ (
      u64 (e.heap_cur + 16),
      record e {
        memory = write 8 e.memory e.heap_cur (rounded size);
        heap_cur = u64 (u64 (e.heap_cur + 16) + rounded size);
      },
    )
unfolding heap_alloc
heap_alloc_fits size e h = simp h

rounded-bounds :
    (size : ℕ)
    → size < 2 ^ 63
    → (size ≤ rounded size) × (rounded size < size + 16) × (rounded size % 16 ≡ 0)
unfolding rounded
rounded-bounds size h = omega arith

module _ (size : ℕ) (e : Emu) (h : IsHeap e) (small : size < 2 ^ 63) where
  room_left :
      ltb e.heap_end (u64 (e.heap_cur + rounded size + 16)) ≡ false
      → e.heap_cur + rounded size + 16 ≤ e.heap_end
  room_left room = omega (arith, ltb-false→le _ _ room, rounded-bounds size small)

  -- the state after the block is taken
  abbrev taken : Emu
  taken = record e {
    memory = write 8 e.memory e.heap_cur (rounded size);
    heap_cur = u64 (u64 (e.heap_cur + 16) + rounded size);
  }

  header_in_range : e.heap_cur + 16 ≤ e.heap_end → in_range e.memory e.heap_cur 8 ≡ true
  header_in_range room =
      (in_range_iff e.memory e.heap_cur 8 (omega arith) (omega arith)).1 (omega arith, omega arith)

  taken-IsHeap : e.heap_cur + rounded size + 16 ≤ e.heap_end → IsHeap taken
  taken-IsHeap room =
      let base = write-base 8 e.memory e.heap_cur (rounded size) in
      let r = rounded-bounds size small in
      record {
        fits = omega arith;
        aligned = omega arith;
        starts = omega arith;
        below_end = omega arith;
        ends = omega arith;
      }

  taken-IsBlock :
      e.heap_cur + rounded size + 16 ≤ e.heap_end → IsBlock size (u64 (e.heap_cur + 16)) e taken
  taken-IsBlock room =
      let r = rounded-bounds size small in
      let wrote =
        read-write_self 8 e.memory e.heap_cur (rounded size) (header_in_range (omega arith)) in
      record {
        nonzero = omega arith;
        is_aligned = omega arith;
        after_header = omega arith;
        inside = omega arith;
        recorded = omega (arith, wrote);
        heap = taken-IsHeap room;
      }

-- In a well-formed heap, for every request below 2 ^ 63 bytes: either the heap has no room for the
-- rounded size and its header, and the result is 0 with nothing changed; or the result is an
-- aligned block behind its header, the whole of it between the old and the new free address, whose
-- header reads back as the rounded size.
pub heap_alloc-IsBlock :
    (size : ℕ) (e : Emu)
    → IsHeap e
    → size < 2 ^ 63
    → ((e.heap_end < e.heap_cur + rounded size + 16) × (heap_alloc size e ≡ (0, e)))
      ⊎ IsBlock size (heap_alloc size e).0 e (heap_alloc size e).1
heap_alloc-IsBlock size e h small =
    let r = rounded-bounds size small in
    elim (Bool-cases (ltb e.heap_end (u64 (e.heap_cur + rounded size + 16)))) [
      | inl full ↦ inl (omega (arith, ltb→lt _ _ full), heap_alloc_full size e full)
      | inr room ↦ inr (
          rw (heap_alloc_fits size e room)
            (taken-IsBlock size e h small (room_left size e h small room)))
    ]

-- In a well-formed heap with room for 32 bytes, a request of 2 ^ 64 - 2 ^ 27 bytes or more gives an
-- address instead of 0, and the free address does not move past that address.
pub heap_alloc_wraps :
    (size : ℕ) (e : Emu)
    → IsHeap e
    → e.heap_cur + 32 ≤ e.heap_end
    → 2 ^ 64 - heap_off ≤ size
    → size < 2 ^ 64
    → let r = heap_alloc size e in (r.0 ≡ e.heap_cur + 16) × (r.1.heap_cur ≤ e.heap_cur + 16)
unfolding heap_alloc rounded
heap_alloc_wraps size e h room large fits = ground arith
