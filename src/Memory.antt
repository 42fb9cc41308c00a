-- ===== src/Memory.antt =====
-- src/emu.h: the guest memory window. `mem` gives the byte at each offset of the window, and a
-- guest address is a 64-bit number. `host` is the host address of the window (`Emu::mem`).
pub mod Access
pub mod Window
use reversetta.Prelude.{
  ℕ, zero, suc, ◌+◌, ◌-◌, ◌*◌, ◌/◌, ◌%◌, ◌^◌, ◌==◌, leb, ltb, if◌then◌else◌, Bool, true, false,
  ◌&&◌, Option, none, some, List, [], ◌∷◌, u8, u64, sub_u64,
}
use reversetta.Layout.{guest_window}

pub record Memory : Type 0 where
  pub mem : ℕ → ℕ
  pub base : ℕ
  pub host : ℕ

-- `off <= GUEST_WINDOW && len <= GUEST_WINDOW - off`, behind the test of the low bound
unfoldable pub in_range : Memory → ℕ → ℕ → Bool
in_range m addr len =
    if ltb addr m.base
    then false
    else let off = sub_u64 addr m.base in leb off guest_window && leb len (guest_window - off)

-- the address in the host, `none` for nullptr
unfoldable pub host_ptr : Memory → ℕ → ℕ → Option ℕ
host_ptr m addr len =
    if in_range m addr len then some (u64 (m.host + sub_u64 addr m.base)) else none

-- memcpy from and to a little-endian value of n bytes
unfoldable pub load_le : ℕ → (ℕ → ℕ) → ℕ → ℕ
load_le zero mem off = 0
load_le (suc n) mem off = mem off + 256 * load_le n mem (off + 1)

abbrev pub update : (ℕ → ℕ) → ℕ → ℕ → ℕ → ℕ
update mem off v i = if i == off then v else mem i

unfoldable pub store_le : ℕ → (ℕ → ℕ) → ℕ → ℕ → ℕ → ℕ
store_le zero mem off v = mem
store_le (suc n) mem off v = store_le n (update mem off (u8 v)) (off + 1) (v / 256)

-- `read<T>` with n = sizeof(T): zero out of range
unfoldable pub read : ℕ → Memory → ℕ → ℕ
read n m addr = if in_range m addr n then load_le n m.mem (sub_u64 addr m.base) else 0

-- `write<T>`: nothing out of range
unfoldable pub write : ℕ → Memory → ℕ → ℕ → Memory
write n m addr v =
    if in_range m addr n then record m { mem = store_le n m.mem (sub_u64 addr m.base) v } else m

-- the bytes before the first NUL of n bytes, `none` if there is none
unfoldable pub scan : ℕ → (ℕ → ℕ) → ℕ → Option (List ℕ)
scan zero mem off = none
scan (suc n) mem off = elim (mem off == 0) [
  | true ↦ some []
  | false ↦ elim (scan n mem (off + 1)) [ none ↦ none | some l ↦ some (mem off ∷ l) ]
]

-- the string at an address, without its NUL; `none` for nullptr
unfoldable pub guest_cstr : Memory → ℕ → Option (List ℕ)
unfolding scan
guest_cstr m addr =
    let off = sub_u64 addr m.base in
    if in_range m addr 1 then scan (guest_window - off) m.mem off else none
