-- ===== src/Memory/Access.antt =====
-- Reads and writes of the window: what a write stores is read back, and nothing else changes.
use native.Mathlib.Nat.{pow-suc, div-add-mod, div-div-eq-div-mul}
use reversetta.Prelude.{
  ℕ, zero, suc, ◌+◌, ◌*◌, ◌/◌, ◌%◌, ◌^◌, ◌≤◌, ◌<◌, ◌≡◌, refl, ◌↔◌, ◌⊎◌, true, false, arith, ap, ◌∙◌,
  if◌then◌else◌, Bool-cases, inl, inr, sub_u64,
}
use reversetta.Layout.{guest_window}
use reversetta.Memory.{Memory, in_range, load_le, update, store_le, read, write}

-- The test of the range says what it should, without overflow for any 64-bit address and length.
pub in_range_iff :
    (m : Memory) (addr len : ℕ)
    → m.base < 2 ^ 64
    → addr < 2 ^ 64
    → (in_range m addr len ≡ true) ↔ ((m.base ≤ addr) × (addr + len ≤ m.base + guest_window))
unfolding in_range
in_range_iff m addr len hb ha = ground arith

pub store_le_outside :
    (n : ℕ) (mem : ℕ → ℕ) (off v i : ℕ) → (i < off) ⊎ (off + n ≤ i) → store_le n mem off v i ≡ mem i
unfolding store_le
store_le_outside zero mem off v i h = refl
store_le_outside (suc n) mem off v i h =
    ground (arith, store_le_outside n (update mem off (v % 256)) (off + 1) (v / 256) i)

pub load_le_ext :
    (n : ℕ) (mem mem' : ℕ → ℕ) (off : ℕ)
    → ((i : ℕ) → off ≤ i → i < off + n → mem' i ≡ mem i)
    → load_le n mem' off ≡ load_le n mem off
unfolding load_le
load_le_ext zero mem mem' off h = refl
load_le_ext (suc n) mem mem' off h = omega (
  arith,
  h off (omega arith) (omega arith),
  load_le_ext n mem mem' (off + 1) (λ i p q. h i (omega arith) (omega arith)),
)

mod_split : (v p : ℕ) → v % (256 * p) ≡ v % 256 + 256 * (v / 256 % p)
mod_split v p =
    let whole = div-add-mod v (256 * p) in
    let part = div-add-mod (v / 256) p in
    omega (arith, whole, part, ap (λ (t : ℕ). p * t) (div-div-eq-div-mul v 256 p))

pub load_le-store_le :
    (n : ℕ) (mem : ℕ → ℕ) (off v : ℕ) → load_le n (store_le n mem off v) off ≡ v % 256 ^ n
unfolding load_le store_le
load_le-store_le zero mem off v = ground arith
load_le-store_le (suc n) mem off v = ground (
  arith,
  pow-suc 256 n,
  mod_split v (256 ^ n),
  load_le-store_le n (update mem off (v % 256)) (off + 1) (v / 256),
  store_le_outside n (update mem off (v % 256)) (off + 1) (v / 256) off,
)

in_range-base :
    (m m' : Memory) (addr len : ℕ) → m'.base ≡ m.base → in_range m' addr len ≡ in_range m addr len
unfolding in_range
in_range-base m m' addr len e = cc

pub write-base : (n : ℕ) (m : Memory) (addr v : ℕ) → (write n m addr v).base ≡ m.base
unfolding write
write-base n m addr v = ground arith

write-mem :
    (n : ℕ) (m : Memory) (addr v : ℕ)
    → (write n m addr v).mem
      ≡ (if in_range m addr n then store_le n m.mem (sub_u64 addr m.base) v else m.mem)
unfolding write
write-mem n m addr v = ground arith

write_out : (n : ℕ) (m : Memory) (addr v : ℕ) → in_range m addr n ≡ false → write n m addr v ≡ m
unfolding write
write_out n m addr v h = simp h

read-of :
    (n : ℕ) (m : Memory) (addr : ℕ) {b : ℕ} {mem : ℕ → ℕ}
    → m.base ≡ b
    → m.mem ≡ mem
    → in_range m addr n ≡ true
    → read n m addr ≡ load_le n mem (sub_u64 addr b)
unfolding read
read-of n m addr e f h = simp (h, e, f)

-- What a write in range stores is read back, cut to n bytes.
pub read-write_self :
    (n : ℕ) (m : Memory) (addr v : ℕ)
    → in_range m addr n ≡ true
    → read n (write n m addr v) addr ≡ v % 256 ^ n
read-write_self n m addr v h =
    let base = write-base n m addr v in
    read-of n (write n m addr v) addr base (write-mem n m addr v ∙ simp h)
      (in_range-base m (write n m addr v) addr n base ∙ h)
    ∙ load_le-store_le n m.mem (sub_u64 addr m.base) v

load-write_other :
    (n k : ℕ) (m : Memory) (addr other v : ℕ)
    → m.base < 2 ^ 64
    → addr < 2 ^ 64
    → other < 2 ^ 64
    → (other + k ≤ addr) ⊎ (addr + n ≤ other)
    → in_range m addr n ≡ true
    → in_range m other k ≡ true
    → load_le k (write n m addr v).mem (sub_u64 other m.base)
      ≡ load_le k m.mem (sub_u64 other m.base)
load-write_other n k m addr other v hb ha ho apart ia io =
    let there = (in_range_iff m addr n hb ha).0 ia in
    let here = (in_range_iff m other k hb ho).0 io in
    rw (write-mem n m addr v, ia)
      (load_le_ext k m.mem _ (sub_u64 other m.base)
        λ i p q. store_le_outside n m.mem (sub_u64 addr m.base) v i (omega arith))

-- For 64-bit addresses, a write changes no read of other bytes, in range or out of it.
pub read-write_other :
    (n k : ℕ) (m : Memory) (addr other v : ℕ)
    → m.base < 2 ^ 64
    → addr < 2 ^ 64
    → other < 2 ^ 64
    → (other + k ≤ addr) ⊎ (addr + n ≤ other)
    → read k (write n m addr v) other ≡ read k m other
unfolding read
read-write_other n k m addr other v hb ha ho apart = elim (Bool-cases (in_range m addr n)) [
  | inl ia ↦ elim (Bool-cases (in_range m other k)) [
    | inl io ↦
        simp (in_range-base m (write n m addr v) other k (write-base n m addr v), io, write-base)
          (load-write_other n k m addr other v hb ha ho apart ia io)
    | inr io ↦ simp (in_range-base m (write n m addr v) other k (write-base n m addr v), io)
  ]
  | inr ia ↦ rw (write_out n m addr v ia)
]
