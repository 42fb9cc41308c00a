-- ===== src/HostFns/Alloc.antt =====
-- src/host-fns.cpp: the functions that allocate. Host memory is copied as the list of its bytes.
use reversetta.Prelude.{
  ◌%◌, ℕ, ◌*◌, ◌+◌, none, some, if◌then◌else◌, ◌==◌, ◌||◌, min, length, u64, sub_u64,
}
use reversetta.Memory.{in_range, read}
use reversetta.Emu.State.{Emu}
use reversetta.Emu.Heap.{heap_alloc}
use reversetta.Emu.Host.{HostFn, bytes_at}
use reversetta.HostFns.Common.{arg, ret, string_at, put_bytes, fill, with_nul}

unfoldable pub hf_malloc : HostFn
hf_malloc e = let r = heap_alloc (arg 0 e) e in ret r.0 r.1

unfoldable pub hf_calloc : HostFn
hf_calloc e =
    let n = u64 (arg 0 e * arg 1 e) in
    let r = heap_alloc n e in
    if r.0 == 0 then ret r.0 r.1 else ret r.0 (put_bytes n (fill n 0) r.0 r.1)

unfoldable pub hf_free : HostFn
hf_free e = e

-- `memcpy(d, s, n)` between guest addresses, if both ranges are good
unfoldable pub copy_bytes : ℕ → ℕ → ℕ → Emu → Emu
unfolding put_bytes
copy_bytes d s n e =
    let m = e.memory in
    if in_range m s n then put_bytes n (bytes_at n m.mem (sub_u64 s m.base)) d e else e

unfoldable pub hf_realloc : HostFn
unfolding copy_bytes
hf_realloc e =
    let old = arg 0 e in
    let r = heap_alloc (arg 1 e) e in
    let copy = min (read 8 r.1.memory (sub_u64 old 16)) (arg 1 e) in
    if r.0 == 0 || old == 0 then ret r.0 r.1 else ret r.0 (copy_bytes r.0 old copy r.1)

unfoldable pub hf_strdup : HostFn
hf_strdup e = elim (string_at (arg 0 e) e) [
  | none ↦ ret 0 e
  | some s ↦
      (let n = length s + 1 in
        let r = heap_alloc n e in
        if r.0 == 0 then ret r.0 r.1 else ret r.0 (put_bytes n (with_nul s) r.0 r.1))
]

unfoldable pub hf_memcpy : HostFn
unfolding copy_bytes
hf_memcpy e = ret (arg 0 e) (copy_bytes (arg 0 e) (arg 1 e) (arg 2 e) e)

unfoldable pub hf_memset : HostFn
unfolding put_bytes
hf_memset e = ret (arg 0 e) (put_bytes (arg 2 e) (fill (arg 2 e) (arg 1 e % 256)) (arg 0 e) e)

unfoldable pub hf_memmove : HostFn
unfolding copy_bytes
hf_memmove e = ret (arg 0 e) (copy_bytes (arg 0 e) (arg 1 e) (arg 2 e) e)
