-- ===== src/HostFns/Copies.antt =====
-- What the host functions that copy leave in the guest's memory.
use reversetta.Prelude.{
  Bool, by_bool, ℕ, zero, suc, ◌+◌, ◌-◌, ◌*◌, ◌^◌, ◌<◌, ◌≡◌, ◌≢◌, ◌⊎◌, refl, ap, subst, ◌∙◌, List,
  [], ◌∷◌, true, false, arith, length, sub_u64, inl, inr, Option, none, some, u64, ◌==◌, Each,
}
use reversetta.Layout.{guest_window}
use reversetta.Memory.{Memory, in_range, update, scan, guest_cstr}
use reversetta.Emu.State.{Emu}
use reversetta.Emu.Host.{bytes_at}
use reversetta.Emu.Heap.{heap_alloc}
use reversetta.Emu.Heap.Bounds.{IsHeap, IsBlock, heap_alloc-IsBlock}
use reversetta.Emu.Run.Start.{store_bytes}
use reversetta.HostFns.Contained.{heap_alloc-Contained}
use reversetta.Memory.Access.{in_range_iff}
use reversetta.HostFns.Common.{ret, arg, put_bytes, fill, with_nul, string_at}
use reversetta.HostFns.Alloc.{hf_memmove, hf_calloc, copy_bytes}
use reversetta.HostFns.Strings.{hf_strcpy}
use reversetta.Memory.Window.{in_range-fits}
use reversetta.HostFns.Bytes.{
  bytes_at-store_bytes, length-bytes_at, length-fill, store_bytes_outside,
}

-- the bytes of the window from a guest address on
abbrev pub window_at : ℕ → ℕ → Emu → List ℕ
window_at n addr e = bytes_at n e.memory.mem (sub_u64 addr e.memory.base)

put_bytes-window_at :
    (n : ℕ) (l : List ℕ) (addr : ℕ) (e : Emu)
    → length l ≡ n
    → in_range e.memory addr n ≡ true
    → window_at n addr (put_bytes n l addr e) ≡ l
unfolding put_bytes
put_bytes-window_at n l addr e len q = simp q (
    subst
      (λ n.
        bytes_at n (store_bytes l (sub_u64 addr e.memory.base) e.memory.mem)
          (sub_u64 addr e.memory.base)
        ≡ l)
      len (bytes_at-store_bytes l (sub_u64 addr e.memory.base) e.memory.mem))

-- `memmove` of ranges in the window, which may overlap: the target then holds what the source held.
pub memmove-window_at :
    (e : Emu)
    → in_range e.memory (arg 0 e) (arg 2 e) ≡ true
    → in_range e.memory (arg 1 e) (arg 2 e) ≡ true
    → window_at (arg 2 e) (arg 0 e) (hf_memmove e) ≡ window_at (arg 2 e) (arg 1 e) e
unfolding hf_memmove copy_bytes
memmove-window_at e d s =
    let n = arg 2 e in
    let l = window_at n (arg 1 e) e in
    simp s (put_bytes-window_at n l (arg 0 e) e (length-bytes_at n e.memory.mem _) d)

-- no byte of it is a NUL
IsText : List ℕ → Type 0
IsText = Each (λ b. (b == 0) ≡ false)

not_below : (n : ℕ) → ¬ (n < 0)
not_below n h = omega arith

in_range_shorter :
    (m : Memory) (addr n : ℕ) → in_range m addr (n + 1) ≡ true → in_range m addr 1 ≡ true
unfolding in_range
in_range_shorter m addr n h = ground arith

scan_step :
    (n off : ℕ) (mem : ℕ → ℕ) {s : List ℕ}
    → (mem off == 0) ≡ false
    → scan n mem (off + 1) ≡ some s
    → scan (suc n) mem off ≡ some (mem off ∷ s)
unfolding scan
scan_step n off mem q h = rw (scan, q, h) refl

-- `scan` of what `with_nul` stores
scan-store_bytes :
    (s : List ℕ) (n off : ℕ) (mem : ℕ → ℕ)
    → IsText s
    → length s < n
    → scan n (store_bytes (with_nul s) off mem) off ≡ some s
unfolding scan store_bytes IsText
scan-store_bytes s zero off mem t h = absurd (not_below (length s) h)
scan-store_bytes [] (suc n) off mem t h = ground arith
scan-store_bytes (b ∷ s) (suc n) off mem t h =
    let later = update mem off b in
    let first : store_bytes (with_nul s) (off + 1) later off ≡ b =
      store_bytes_outside (with_nul s) (off + 1) later off (inl (omega arith)) ∙ ground arith in
    scan_step n off _ (ap (λ v. v == 0) first ∙ t.0)
      (scan-store_bytes s n (off + 1) later t.1 (omega (arith, h)))
    ∙ ap (λ v. some (v ∷ s)) first

abbrev TextOf : Option (List ℕ) → Type 0
TextOf none = Unit
TextOf (some s) = IsText s

cons-TextOf :
    (b : ℕ) (o : Option (List ℕ))
    → (b == 0) ≡ false
    → TextOf o
    → TextOf (elim o [ none ↦ none | some l ↦ some (b ∷ l) ])
unfolding IsText
cons-TextOf b none q t = tt
cons-TextOf b (some l) q t = (q, t)

scan_byte-TextOf :
    (b : ℕ) (z : Bool) (o : Option (List ℕ))
    → (b == 0) ≡ z
    → TextOf o
    → TextOf (elim z [ true ↦ some [] | false ↦ elim o [ none ↦ none | some l ↦ some (b ∷ l) ] ])
unfolding IsText
scan_byte-TextOf b true o q t = tt
scan_byte-TextOf b false o q t = cons-TextOf b o q t

scan-TextOf : (n : ℕ) (mem : ℕ → ℕ) (off : ℕ) → TextOf (scan n mem off)
unfolding scan
scan-TextOf zero mem off = tt
scan-TextOf (suc n) mem off =
    scan_byte-TextOf (mem off) (mem off == 0) (scan n mem (off + 1)) refl
      (scan-TextOf n mem (off + 1))

guest_cstr-TextOf : (m : Memory) (addr : ℕ) → TextOf (guest_cstr m addr)
unfolding guest_cstr
guest_cstr-TextOf m addr =
    by_bool TextOf (in_range m addr 1)
      (scan-TextOf (guest_window - sub_u64 addr m.base) m.mem (sub_u64 addr m.base)) tt

-- a string that is put in the window is the string that is found there
put_bytes-memory :
    (n : ℕ) (l : List ℕ) (addr : ℕ) (e : Emu)
    → in_range e.memory addr n ≡ true
    → let m = e.memory in
      (put_bytes n l addr e).memory ≡ record m { mem = store_bytes l (sub_u64 addr m.base) m.mem }
unfolding put_bytes
put_bytes-memory n l addr e q = rw q refl

guest_cstr-scan :
    (m : Memory) (addr : ℕ) (mem : ℕ → ℕ)
    → in_range m addr 1 ≡ true
    → guest_cstr (record m { mem = mem }) addr
      ≡ scan (guest_window - sub_u64 addr m.base) mem (sub_u64 addr m.base)
unfolding guest_cstr in_range
guest_cstr-scan m addr mem q = rw q refl

put_bytes-string_at :
    (s : List ℕ) (addr : ℕ) (e : Emu)
    → IsText s
    → in_range e.memory addr (length s + 1) ≡ true
    → string_at addr (put_bytes (length s + 1) (with_nul s) addr e) ≡ some s
put_bytes-string_at s addr e t q =
    let off = sub_u64 addr e.memory.base in
    let starts : in_range e.memory addr 1 ≡ true = in_range_shorter e.memory addr (length s) q in
    ap (λ m. guest_cstr m addr) (put_bytes-memory (length s + 1) (with_nul s) addr e q)
    ∙ guest_cstr-scan e.memory addr _ starts
    ∙ scan-store_bytes s (guest_window - off) off e.memory.mem t
        (omega (arith, in_range-fits e.memory addr (length s + 1) q))

hf_strcpy-some :
    (e : Emu) (s : List ℕ)
    → string_at (arg 1 e) e ≡ some s
    → hf_strcpy e ≡ ret (arg 0 e) (put_bytes (length s + 1) (with_nul s) (arg 0 e) e)
unfolding hf_strcpy
hf_strcpy-some e s found = rw (hf_strcpy, found) refl

-- `strcpy` of a good string to a place with room for it and its NUL: the string is found there.
pub strcpy-string_at :
    (e : Emu) (s : List ℕ)
    → string_at (arg 1 e) e ≡ some s
    → in_range e.memory (arg 0 e) (length s + 1) ≡ true
    → string_at (arg 0 e) (hf_strcpy e) ≡ some s
strcpy-string_at e s found q =
    let t : IsText s = subst TextOf found (guest_cstr-TextOf e.memory (arg 1 e)) in
    ap (λ d. string_at (arg 0 e) d) (hf_strcpy-some e s found)
    ∙ put_bytes-string_at s (arg 0 e) e t q

block-in_range :
    (n : ℕ) (e : Emu)
    → IsHeap e
    → let r = heap_alloc n e in IsBlock n r.0 e r.1 → in_range r.1.memory r.0 n ≡ true
block-in_range n e h b =
    let r = heap_alloc n e in
    let same = (heap_alloc-Contained n e).base in
    (in_range_iff r.1.memory r.0 n (omega (arith, b.heap.fits))
        (omega (arith, h.starts, h.fits, h.below_end, h.ends, b.after_header))).1
      (
        omega (arith, h.starts, b.after_header, same),
        omega (arith, b.inside, b.heap.below_end, b.heap.ends),
      )

hf_calloc-block :
    (n : ℕ) (e : Emu)
    → u64 (arg 0 e * arg 1 e) ≡ n
    → (heap_alloc n e).0 ≢ 0
    → let r = heap_alloc n e in hf_calloc e ≡ ret r.0 (put_bytes n (fill n 0) r.0 r.1)
unfolding hf_calloc
hf_calloc-block n e q ne =
    let not_null : ((heap_alloc n e).0 == 0) ≡ false = ground (arith, ne) in
    rw (hf_calloc, q, not_null) refl

hf_calloc-full :
    (n : ℕ) (e : Emu)
    → u64 (arg 0 e * arg 1 e) ≡ n
    → heap_alloc n e ≡ (0, e)
    → hf_calloc e ≡ ret 0 e
unfolding hf_calloc
hf_calloc-full n e q full = rw (hf_calloc, q, full) refl

-- For fewer than 2^63 bytes in a well-formed heap, `calloc` gives the address that the heap has for
-- them, and if that is not 0, a block that holds zeros only.
pub calloc-window_at :
    (e : Emu)
    → IsHeap e
    → arg 0 e * arg 1 e < 2 ^ 63
    → let n = arg 0 e * arg 1 e in
      let d = hf_calloc e in
      (d.cpu.x 0 ≡ (heap_alloc n e).0) × ((d.cpu.x 0 ≡ 0) ⊎ (window_at n (d.cpu.x 0) d ≡ fill n 0))
calloc-window_at e heap small =
    let n = arg 0 e * arg 1 e in
    let r = heap_alloc n e in
    let q : u64 n ≡ n = omega (arith, small) in
    elim (heap_alloc-IsBlock n e heap small) [
      | inl (no_room, full) ↦ rw (hf_calloc-full n e q full, full) (refl, inl refl)
      | inr b ↦ rw (hf_calloc-block n e q b.nonzero) (
        refl,
        inr (
            put_bytes-window_at n (fill n 0) r.0 r.1 (length-fill n 0) (block-in_range n e heap b)),
      )
    ]
