-- ===== src/HostFns/Process.antt =====
-- src/host-fns.cpp: the functions that end the program, and those with state in the host's library.
use reversetta.Prelude.{◌-◌, ◌^◌, if◌then◌else◌, ◌==◌, leb, u32, u64}
use reversetta.Memory.{write}
use reversetta.Emu.Host.{HostFn, stop}
use reversetta.HostFns.Common.{Libc, arg, ret}

unfoldable pub hf_exit : HostFn
hf_exit e = stop (u32 (arg 0 e)) e

unfoldable pub hf_abort : HostFn
hf_abort e = stop 134 e

unfoldable pub hf_stack_chk_fail : HostFn
hf_stack_chk_fail e = stop 134 e

unfoldable pub hf_assert_rtn : HostFn
hf_assert_rtn e = stop 134 e

-- `-v` of the least int32_t wraps to itself.
unfoldable pub hf_abs : HostFn
hf_abs e = let v = u32 (arg 0 e) in ret (if leb (2 ^ 31) v then 2 ^ 32 - v else v) e

unfoldable pub hf_rand : Libc → HostFn
hf_rand c e = let r = c.rand e.hidden in ret (u32 r.0) (record e { hidden = r.1 })

unfoldable pub hf_srand : Libc → HostFn
hf_srand c e = record e { hidden = c.srand (u32 (arg 0 e)) e.hidden }

unfoldable pub hf_time : Libc → HostFn
hf_time c e =
    let r = c.time e.hidden in
    let e1 = record e { hidden = r.1 } in
    let e2 = record e1 { memory = write 8 e1.memory (arg 0 e1) (u64 r.0) } in
    ret (u64 r.0) (if arg 0 e == 0 then e1 else e2)
