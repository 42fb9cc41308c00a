-- ===== src/HostFns/Common.antt =====
-- src/host-fns.cpp: what the host functions share. The results of the host's C library that the
-- language does not fix are a parameter; an `int` result is given as the 64-bit value that it
-- becomes in x0.
use reversetta.Prelude.{
  Bool, ℕ, zero, suc, List, [], ◌∷◌, ◌++◌, Option, none, some, if◌then◌else◌, ◌==◌, sub_u64,
}
use reversetta.Memory.{in_range, guest_cstr}
use reversetta.Emu.State.{Emu, Stream, stdin, stdout, stderr, set_x}
use reversetta.Emu.Imports.{file_stdin, file_stdout, file_stderr}
use reversetta.Emu.Run.Start.{store_bytes}

-- the argument of a conversion; a double is the pattern of its bits
pub data Value : Type 0 where
  int_value long_value double_value : ℕ → Value
  text_value : List ℕ → Value

-- `snprintf` gives the whole text of a conversion, `none` for an error; `behind n` are the n bytes of
-- the host's memory behind the buffer of the conversions; `room n` says that a vector of n chars
-- can be had, else its `resize` throws.
pub record Libc : Type 0 where
  pub snprintf : List ℕ → Value → Option (List ℕ)
  pub behind : ℕ → List ℕ
  pub room : ℕ → Bool
  pub strcmp : List ℕ → List ℕ → ℕ
  pub strncmp : List ℕ → List ℕ → ℕ → ℕ
  pub memcmp : List ℕ → List ℕ → ℕ
  pub atoi : List ℕ → ℕ
  pub rand : ℕ → ℕ × ℕ
  pub srand : ℕ → ℕ → ℕ
  pub time : ℕ → ℕ × ℕ

-- `ARG(i)` and `RET(v)`
abbrev pub arg : ℕ → Emu → ℕ
arg i e = e.cpu.x i

abbrev pub ret : ℕ → Emu → Emu
ret v e = set_x 0 v e

abbrev pub string_at : ℕ → Emu → Option (List ℕ)
string_at addr e = guest_cstr e.memory addr

unfoldable pub file_from_guest : ℕ → Option Stream
file_from_guest h =
    if h == file_stdin
    then some stdin
    else if h == file_stdout
    then some stdout
    else if h == file_stderr
    then some stderr
    else none

-- a write to a stream of the host
abbrev pub print : Stream → List ℕ → Emu → Emu
print f bytes e = record e { output = record { stream = f; bytes = bytes } ∷ e.output }

abbrev pub print_if : Option Stream → List ℕ → Emu → Emu
print_if none bytes e = e
print_if (some f) bytes e = print f bytes e

-- `if (void* d = e.host_ptr(addr, n)) std::memcpy(d, l, n)`, for the n bytes of a list
unfoldable pub put_bytes : ℕ → List ℕ → ℕ → Emu → Emu
unfolding store_bytes
put_bytes n l addr e =
    let m = e.memory in
    if in_range m addr n
    then record e { memory = record m { mem = store_bytes l (sub_u64 addr m.base) m.mem } }
    else e

abbrev pub fill : ℕ → ℕ → List ℕ
fill zero b = []
fill (suc n) b = b ∷ fill n b

-- the string with its NUL
abbrev pub with_nul : List ℕ → List ℕ
with_nul s = s ++ 0 ∷ []
