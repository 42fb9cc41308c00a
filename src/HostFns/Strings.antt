-- ===== src/HostFns/Strings.antt =====
-- src/host-fns.cpp: the functions on strings, and on memory that they compare.
use reversetta.Prelude.{
  ℕ, zero, suc, ◌+◌, ◌%◌, List, [], ◌∷◌, Option, none, some, if◌then◌else◌, ◌==◌, ◌&&◌, length, u64,
  sub_u64,
}
use reversetta.Memory.{in_range}
use reversetta.Emu.State.{Emu}
use reversetta.Emu.Host.{HostFn, bytes_at}
use reversetta.HostFns.Common.{Libc, arg, ret, string_at, put_bytes, with_nul}

unfoldable pub hf_strlen : HostFn
hf_strlen e = elim (string_at (arg 0 e) e) [ none ↦ ret 0 e | some s ↦ ret (length s) e ]

-- the strings of both arguments, if neither pointer is bad
unfoldable pub two_strings : Emu → Option (List ℕ × List ℕ)
two_strings e = elim (string_at (arg 0 e) e) [
  | none ↦ none
  | some x ↦ elim (string_at (arg 1 e) e) [ none ↦ none | some y ↦ some (x, y) ]
]

-- a comparison of two strings, 0 if one of them is bad
unfoldable pub compare_strings : (List ℕ → List ℕ → ℕ) → HostFn
unfolding two_strings
compare_strings compare e = elim (two_strings e) [
  | none ↦ ret 0 e
  | some (x, y) ↦ ret (compare x y) e
]

unfoldable pub hf_strcmp : Libc → HostFn
unfolding compare_strings
hf_strcmp c e = compare_strings c.strcmp e

unfoldable pub hf_strncmp : Libc → HostFn
unfolding compare_strings
hf_strncmp c e = compare_strings (λ x y. c.strncmp x y (arg 2 e)) e

unfoldable pub hf_strcpy : HostFn
unfolding put_bytes
hf_strcpy e = elim (string_at (arg 1 e) e) [
  | none ↦ ret (arg 0 e) e
  | some s ↦ ret (arg 0 e) (put_bytes (length s + 1) (with_nul s) (arg 0 e) e)
]

-- the n bytes that `strncpy` writes
unfoldable pub pad : ℕ → List ℕ → List ℕ
pad zero s = []
pad (suc n) [] = 0 ∷ pad n []
pad (suc n) (b ∷ s) = b ∷ pad n s

unfoldable pub hf_strncpy : HostFn
unfolding put_bytes pad
hf_strncpy e = elim (string_at (arg 1 e) e) [
  | none ↦ ret (arg 0 e) e
  | some s ↦ ret (arg 0 e) (put_bytes (arg 2 e) (pad (arg 2 e) s) (arg 0 e) e)
]

unfoldable pub hf_strcat : HostFn
unfolding put_bytes two_strings
hf_strcat e = elim (two_strings e) [
  | none ↦ ret (arg 0 e) e
  | some (d, s) ↦ ret (arg 0 e) (put_bytes (length s + 1) (with_nul s) (u64 (arg 0 e + length d)) e)
]

-- where a byte stands first
unfoldable pub index_of : ℕ → List ℕ → Option ℕ
index_of c [] = none
index_of c (b ∷ s) =
    let rest = index_of c s in
    if b == c then some 0 else elim rest [ none ↦ none | some i ↦ some (suc i) ]

unfoldable pub hf_strchr : HostFn
unfolding index_of
hf_strchr e = elim (string_at (arg 0 e) e) [
  | none ↦ ret 0 e
  | some s ↦ elim (index_of (arg 1 e % 256) (with_nul s)) [
    | none ↦ ret 0 e
    | some i ↦ ret (u64 (arg 0 e + i)) e
  ]
]

unfoldable pub hf_memcmp : Libc → HostFn
hf_memcmp c e =
    let m = e.memory in
    let n = arg 2 e in
    let x = bytes_at n m.mem (sub_u64 (arg 0 e) m.base) in
    let y = bytes_at n m.mem (sub_u64 (arg 1 e) m.base) in
    if in_range m (arg 0 e) n && in_range m (arg 1 e) n then ret (c.memcmp x y) e else ret 0 e

unfoldable pub hf_atoi : Libc → HostFn
hf_atoi c e = elim (string_at (arg 0 e) e) [ none ↦ ret 0 e | some s ↦ ret (c.atoi s) e ]
