-- ===== src/Tests/Calls.antt =====
-- Concrete runs and instances for src/host-fns.cpp.
use reversetta.Prelude.{
  length, ◌-◌, ◌^◌, ℕ, ◌+◌, ◌*◌, ◌≡◌, ◌⊎◌, refl, List, [], ◌∷◌, some, true, arith,
}
use reversetta.Layout.{thunk_base}
use reversetta.Memory.{Memory, in_range, read, load_le, guest_cstr, scan}
use reversetta.Emu.State.{Emu, set_x}
use reversetta.Emu.Heap.{heap_alloc}
use reversetta.Emu.Host.{handle_thunk}
use reversetta.Emu.Run.Start.{store_bytes}
use reversetta.HostFns.{host_fns}
use reversetta.HostFns.Common.{Libc, string_at, fill}
use reversetta.HostFns.Alloc.{hf_memmove, hf_calloc}
use reversetta.HostFns.Strings.{hf_strcpy}
use reversetta.HostFns.Contained.{Contained}
use reversetta.HostFns.Safe.Table.{handle_thunk-Contained}
use reversetta.HostFns.Copies.{window_at, memmove-window_at, strcpy-string_at, calloc-window_at}
use reversetta.HostFns.Format.Reading.{read_spec, among, to_string}
use reversetta.HostFns.Format.{from_buffer, Format, Formatted, formatted, format_loop}
use reversetta.HostFns.Format.Ends.{format_loop_ends}
use reversetta.HostFns.Format.Plain.{escape, format_loop-escape}
use reversetta.Tests.Guest.{emu, window}

-- a library in which every conversion gives "7"
abbrev pub libc : Libc
libc = record {
  snprintf = λ spec v. some (b'7' ∷ []);
  behind = λ n. fill n 0;
  room = λ n. true;
  strcmp = λ x y. 0;
  strncmp = λ x y n. 0;
  memcmp = λ x y. 0;
  atoi = λ s. 0;
  rand = λ s. (s, s + 1);
  srand = λ seed s. seed;
  time = λ s. (s, s + 1);
}

handle_thunk-Contained_example : Contained emu (handle_thunk (host_fns libc) thunk_base emu).1
handle_thunk-Contained_example = handle_thunk-Contained libc thunk_base emu

-- "hi" at the second page, and the arguments of a copy of three bytes to the third
abbrev text_window : Memory
text_window = record window { mem = store_bytes (b'h' ∷ b'i' ∷ 0 ∷ []) 0x1000 (λ i. 0) }

abbrev copying : Emu
copying =
    set_x 0 0x100002000 (set_x 1 0x100001000 (set_x 2 3 (record emu { memory = text_window })))

memmove-window_at_example :
    window_at 3 0x100002000 (hf_memmove copying) ≡ window_at 3 0x100001000 copying
unfolding in_range
memmove-window_at_example = memmove-window_at copying refl refl

strcpy-string_at_example : string_at 0x100002000 (hf_strcpy copying) ≡ some (b'h' ∷ b'i' ∷ [])
unfolding in_range guest_cstr scan store_bytes
strcpy-string_at_example = strcpy-string_at copying (b'h' ∷ b'i' ∷ []) refl refl

-- 3 elements of 8 bytes
abbrev allocating : Emu
allocating = set_x 0 3 (set_x 1 8 emu)

calloc-window_at_example :
    let d = hf_calloc allocating in
    (d.cpu.x 0 ≡ (heap_alloc (3 * 8) allocating).0)
    × ((d.cpu.x 0 ≡ 0) ⊎ (window_at (3 * 8) (d.cpu.x 0) d ≡ fill (3 * 8) 0))
calloc-window_at_example =
    calloc-window_at allocating
      (record {
        fits = omega arith;
        aligned = refl;
        starts = omega arith;
        below_end = omega arith;
        ends = refl;
      })
      (omega arith)

abbrev fresh : Format
fresh = record { memory = window; out = []; va = 0x10F000000; size = 256 }

-- "a%d"
abbrev a_number : List ℕ
a_number = b'a' ∷ b'%' ∷ b'd' ∷ []

format_loop_ends_example : (r : Formatted) × (format_loop 4 libc a_number fresh ≡ some r)
format_loop_ends_example = format_loop_ends 4 libc a_number fresh (omega arith)

format_loop-escape_example :
    format_loop 4 libc (escape a_number) fresh ≡ some (formatted (record fresh { out = a_number }))
format_loop-escape_example = format_loop-escape 4 libc a_number fresh (omega arith)

-- "-5.*ld" with 3 in the slot: the width 5, the precision 3, the length modifier l
abbrev spec_window : Memory
spec_window = record window { mem = store_bytes (3 ∷ []) 0x2000 (λ i. 0) }

read_spec_runs :
    let p = read_spec spec_window (b'-' ∷ b'5' ∷ b'.' ∷ b'*' ∷ b'l' ∷ b'd' ∷ []) 0x100002000 in
    (p.spec ≡ b'%' ∷ b'-' ∷ b'5' ∷ b'.' ∷ b'3' ∷ [])
    × (p.width ≡ 5)
    × (p.prec ≡ 3)
    × (p.len ≡ b'l' ∷ [])
    × (p.rest ≡ b'd' ∷ [])
    × (p.va ≡ 0x100002008)
unfolding read_spec among read in_range load_le store_bytes
read_spec_runs = (refl, refl, refl, refl, refl, refl)

-- "-12" of a negative width
to_string_runs : to_string (2 ^ 64 - 12) ≡ b'-' ∷ b'1' ∷ b'2' ∷ []
unfolding to_string
to_string_runs = refl

-- a text of 300 bytes in a buffer of 256: the text's first 255, a NUL, and 44 bytes behind it
long_runs : length (from_buffer libc 256 (fill 300 b'7')) ≡ 300
unfolding from_buffer
long_runs = refl
