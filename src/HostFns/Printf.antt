-- ===== src/HostFns/Printf.antt =====
-- src/host-fns.cpp: the functions that print by a format.
use reversetta.Prelude.{ℕ, ◌+◌, ◌-◌, List, none, some, if◌then◌else◌, true, ◌==◌, min, length}
use reversetta.Emu.State.{stdout}
use reversetta.Emu.Host.{HostFn}
use reversetta.HostFns.Common.{
  Libc, arg, ret, file_from_guest, print, print_if, put_bytes, with_nul,
}
use reversetta.HostFns.Format.{format_guest, take}

-- A function is given the text of the format at `fmt`. An exception ends the process.
unfoldable pub with_format : Libc → ℕ → (List ℕ → HostFn) → HostFn
unfolding format_guest
with_format c fmt f e = elim (format_guest c fmt e.cpu.sp e.memory) [
  | none ↦ record e { thrown = true }
  | some (s, m) ↦ ret (length s) (f s (record e { memory = m }))
]

unfoldable pub hf_printf : Libc → HostFn
unfolding with_format
hf_printf c e = with_format c (arg 0 e) (print stdout) e

unfoldable pub hf_printf_chk : Libc → HostFn
unfolding with_format
hf_printf_chk c e = with_format c (arg 1 e) (print stdout) e

unfoldable pub hf_fprintf : Libc → HostFn
unfolding with_format
hf_fprintf c e = with_format c (arg 1 e) (print_if (file_from_guest (arg 0 e))) e

unfoldable pub hf_fprintf_chk : Libc → HostFn
unfolding with_format
hf_fprintf_chk c e = with_format c (arg 2 e) (print_if (file_from_guest (arg 0 e))) e

abbrev pub put_text : ℕ → List ℕ → HostFn
put_text addr s e = put_bytes (length s + 1) (with_nul s) addr e

unfoldable pub hf_sprintf : Libc → HostFn
unfolding with_format
hf_sprintf c e = with_format c (arg 1 e) (put_text (arg 0 e)) e

unfoldable pub hf_sprintf_chk : Libc → HostFn
unfolding with_format
hf_sprintf_chk c e = with_format c (arg 3 e) (put_text (arg 0 e)) e

-- the text cut to n bytes with its NUL
unfoldable pub put_at_most : ℕ → ℕ → List ℕ → HostFn
unfolding take put_bytes
put_at_most addr n s e =
    let copy = min (n - 1) (length s) in
    if n == 0 then e else put_bytes (copy + 1) (with_nul (take copy s)) addr e

unfoldable pub hf_snprintf : Libc → HostFn
unfolding with_format put_at_most
hf_snprintf c e = with_format c (arg 2 e) (put_at_most (arg 0 e) (arg 1 e)) e

unfoldable pub hf_snprintf_chk : Libc → HostFn
unfolding with_format put_at_most
hf_snprintf_chk c e = with_format c (arg 4 e) (put_at_most (arg 0 e) (arg 1 e)) e
