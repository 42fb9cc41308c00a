-- ===== src/HostFns/Stdio.antt =====
-- src/host-fns.cpp: the functions that print without a format.
use reversetta.Prelude.{◌*◌, [], ◌∷◌, none, some, if◌then◌else◌, u8, u32, u64, sub_u64}
use reversetta.Memory.{in_range}
use reversetta.Emu.State.{stdout}
use reversetta.Emu.Host.{HostFn, bytes_at}
use reversetta.HostFns.Common.{arg, ret, string_at, file_from_guest, print, print_if}

unfoldable pub hf_puts : HostFn
hf_puts e = elim (string_at (arg 0 e) e) [
  | none ↦ ret 1 e
  | some s ↦ ret 1 (print stdout (b'\n' ∷ []) (print stdout s e))
]

unfoldable pub hf_putchar : HostFn
hf_putchar e = ret (u32 (arg 0 e)) (print stdout (u8 (arg 0 e) ∷ []) e)

unfoldable pub hf_fputc : HostFn
hf_fputc e = ret (u32 (arg 0 e)) (print_if (file_from_guest (arg 1 e)) (u8 (arg 0 e) ∷ []) e)

unfoldable pub hf_fputs : HostFn
hf_fputs e = elim (string_at (arg 0 e) e) [
  | none ↦ ret 1 e
  | some s ↦ ret 1 (print_if (file_from_guest (arg 1 e)) s e)
]

unfoldable pub hf_fwrite : HostFn
hf_fwrite e =
    let total = u64 (arg 1 e * arg 2 e) in
    let m = e.memory in
    let bytes = bytes_at total m.mem (sub_u64 (arg 0 e) m.base) in
    if in_range m (arg 0 e) total
    then ret (arg 2 e) (print_if (file_from_guest (arg 3 e)) bytes e)
    else ret (arg 2 e) e

unfoldable pub hf_fflush : HostFn
hf_fflush e = ret 0 e
