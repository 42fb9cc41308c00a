-- ===== src/HostFns/Safe.antt =====
-- Where the host functions that take no format or string write.
pub mod Formats
pub mod Texts
pub mod Table
use reversetta.Prelude.{
  ◌-◌, by_bool, by_option, ℕ, ◌+◌, ◌*◌, ◌%◌, ◌≤◌, ◌≡◌, refl, sym, ap, ◌∙◌, List, [], ◌∷◌, ◌++◌,
  Option, none, some, true, false, arith, length, sub_u64, inl, inr, Bool-cases, Option-cases,
  String, Each, Each-append, u64, min, ◌==◌, ◌||◌, ◌&&◌, Bool, if◌then◌else◌,
}
use reversetta.Memory.{Memory, in_range, read}
use reversetta.Emu.State.{Emu, Stream, stdout}
use reversetta.Emu.Heap.{heap_alloc}
use reversetta.Emu.Host.{HostFn, bytes_at}
use reversetta.HostFns.Common.{
  Libc, put_bytes, fill, with_nul, arg, ret, string_at, file_from_guest, print, print_if,
}
use reversetta.HostFns.Stdio.{hf_puts, hf_putchar, hf_fputc, hf_fputs, hf_fwrite, hf_fflush}
use reversetta.HostFns.Alloc.{
  hf_malloc, hf_calloc, hf_realloc, hf_free, hf_strdup, hf_memcpy, hf_memmove, hf_memset,
  copy_bytes,
}
use reversetta.HostFns.Strings.{
  hf_strlen, hf_strcmp, hf_strncmp, hf_strcpy, hf_strncpy, hf_strcat, hf_strchr, hf_memcmp, hf_atoi,
  two_strings, pad, index_of, compare_strings,
}
use reversetta.HostFns.Process.{
  hf_exit, hf_abort, hf_stack_chk_fail, hf_assert_rtn, hf_abs, hf_rand, hf_srand, hf_time,
}
use reversetta.HostFns.Bytes.{
  length-take, length-fill, length-with_nul, length-pad, length-bytes_at,
}
use reversetta.HostFns.Format.{format_guest, take}
use reversetta.HostFns.Format.Window.{KeepsText, format_guest-KeepsText}
use reversetta.HostFns.Printf.{
  hf_printf, hf_printf_chk, hf_fprintf, hf_fprintf_chk, hf_sprintf, hf_sprintf_chk, hf_snprintf,
  hf_snprintf_chk, with_format, put_text, put_at_most,
}
use reversetta.HostFns.Contained.{
  Within-Contained, Contained, Contained-refl, Contained-trans, put_bytes-Contained,
  write-Contained, same-Contained, ret-Contained, heap_alloc-Contained,
}

unfoldable pub IsSafe : HostFn → Type 0
IsSafe f = (e : Emu) → Contained e (f e)

-- a function that writes no memory
pub quiet :
    {e d : Emu}
    → d.memory ≡ e.memory
    → d.thunks ≡ e.thunks
    → d.thunk_by_name ≡ e.thunk_by_name
    → d.chains ≡ e.chains
    → Contained e d
quiet {e} {d} m t n c = same-Contained e e d (Contained-refl e) m t n c

print_if-Contained :
    (f : Option Stream) (l : List ℕ) (v : ℕ) (e : Emu) → Contained e (ret v (print_if f l e))
print_if-Contained none l v e = quiet refl refl refl refl
print_if-Contained (some f) l v e = quiet refl refl refl refl

pub puts-IsSafe : IsSafe hf_puts
unfolding IsSafe hf_puts
puts-IsSafe e =
    by_option (Contained e) (string_at (arg 0 e) e) (quiet refl refl refl refl)
      (λ s. quiet refl refl refl refl)

pub fputs-IsSafe : IsSafe hf_fputs
unfolding IsSafe hf_fputs
fputs-IsSafe e =
    by_option (Contained e) (string_at (arg 0 e) e) (quiet refl refl refl refl)
      (λ s. print_if-Contained (file_from_guest (arg 1 e)) s 1 e)

pub fwrite-IsSafe : IsSafe hf_fwrite
unfolding IsSafe hf_fwrite
fwrite-IsSafe e =
    by_bool (Contained e) (in_range e.memory (arg 0 e) (u64 (arg 1 e * arg 2 e)))
      (print_if-Contained (file_from_guest (arg 3 e)) _ (arg 2 e) e) (quiet refl refl refl refl)

-- bytes that are put behind an allocation
then_put :
    (n size v : ℕ) (l : List ℕ) (addr : ℕ) (e : Emu)
    → length l ≡ n
    → Contained e (ret v (put_bytes n l addr (heap_alloc size e).1))
then_put n size v l addr e len =
    let d = (heap_alloc size e).1 in
    ret-Contained v e _
      (Contained-trans e d _ (heap_alloc-Contained size e) (put_bytes-Contained n l addr d len))

allocated : (size v : ℕ) (e : Emu) → Contained e (ret v (heap_alloc size e).1)
allocated size v e = ret-Contained v e _ (heap_alloc-Contained size e)

pub calloc-IsSafe : IsSafe hf_calloc
unfolding IsSafe hf_calloc
calloc-IsSafe e =
    let n = u64 (arg 0 e * arg 1 e) in
    let p = (heap_alloc n e).0 in
    by_bool (Contained e) (p == 0) (allocated n p e)
      (then_put n n p (fill n 0) p e (length-fill n 0))

copy_bytes-Contained : (d s n : ℕ) (e : Emu) → Contained e (copy_bytes d s n e)
unfolding copy_bytes
copy_bytes-Contained d s n e =
    by_bool (Contained e) (in_range e.memory s n)
      (put_bytes-Contained n _ d e (length-bytes_at n e.memory.mem (sub_u64 s e.memory.base)))
      (Contained-refl e)

pub realloc-IsSafe : IsSafe hf_realloc
unfolding IsSafe hf_realloc
realloc-IsSafe e =
    let n = arg 1 e in
    let r = heap_alloc n e in
    let copy = min (read 8 r.1.memory (sub_u64 (arg 0 e) 16)) n in
    by_bool (Contained e) (r.0 == 0 || arg 0 e == 0) (allocated n r.0 e) (
      ret-Contained r.0 e _ (
        Contained-trans e r.1 _ (heap_alloc-Contained n e)
          (copy_bytes-Contained r.0 (arg 0 e) copy r.1)))

pub strdup-IsSafe : IsSafe hf_strdup
unfolding IsSafe hf_strdup
strdup-IsSafe e = by_option (Contained e) (string_at (arg 0 e) e) (quiet refl refl refl refl) λ s.
    let n = length s + 1 in
    let p = (heap_alloc n e).0 in
    by_bool (Contained e) (p == 0) (allocated n p e)
      (then_put n n p (with_nul s) p e (length-with_nul s))

pub memcpy-IsSafe : IsSafe hf_memcpy
unfolding IsSafe hf_memcpy
memcpy-IsSafe e = ret-Contained (arg 0 e) e _ (copy_bytes-Contained (arg 0 e) (arg 1 e) (arg 2 e) e)

pub memmove-IsSafe : IsSafe hf_memmove
unfolding IsSafe hf_memmove
memmove-IsSafe e =
    ret-Contained (arg 0 e) e _ (copy_bytes-Contained (arg 0 e) (arg 1 e) (arg 2 e) e)

-- bytes that are put at the address of an argument
pub put_only :
    (n : ℕ) (l : List ℕ) (addr : ℕ) (e : Emu)
    → length l ≡ n
    → Contained e (ret (arg 0 e) (put_bytes n l addr e))
put_only n l addr e len = ret-Contained (arg 0 e) e _ (put_bytes-Contained n l addr e len)

pub memset-IsSafe : IsSafe hf_memset
unfolding IsSafe hf_memset
memset-IsSafe e = put_only (arg 2 e) _ (arg 0 e) e (length-fill (arg 2 e) (arg 1 e % 256))

pub time-IsSafe : (c : Libc) → IsSafe (hf_time c)
unfolding IsSafe hf_time
time-IsSafe c e =
    let r = c.time e.hidden in
    let e1 = record e { hidden = r.1 } in
    ret-Contained (u64 r.0) e _ (
      by_bool (Contained e) (arg 0 e == 0) (quiet refl refl refl refl)
        (same-Contained e _ _ (write-Contained 8 (arg 0 e) (u64 r.0) e) refl refl refl refl))

-- the functions that change registers and the run only
pub putchar-IsSafe : IsSafe hf_putchar
unfolding IsSafe hf_putchar
putchar-IsSafe e = quiet refl refl refl refl

pub fputc-IsSafe : IsSafe hf_fputc
unfolding IsSafe hf_fputc
fputc-IsSafe e = print_if-Contained (file_from_guest (arg 1 e)) _ _ e

pub malloc-IsSafe : IsSafe hf_malloc
unfolding IsSafe hf_malloc
malloc-IsSafe e = allocated (arg 0 e) (heap_alloc (arg 0 e) e).0 e

pub fflush-IsSafe : IsSafe hf_fflush
unfolding IsSafe hf_fflush
fflush-IsSafe e = quiet refl refl refl refl

pub exit-IsSafe : IsSafe hf_exit
unfolding IsSafe hf_exit
exit-IsSafe e = quiet refl refl refl refl

pub abort-IsSafe : IsSafe hf_abort
unfolding IsSafe hf_abort
abort-IsSafe e = quiet refl refl refl refl

pub free-IsSafe : IsSafe hf_free
unfolding IsSafe hf_free
free-IsSafe e = quiet refl refl refl refl

pub abs-IsSafe : IsSafe hf_abs
unfolding IsSafe hf_abs
abs-IsSafe e = quiet refl refl refl refl

pub stack_chk_fail-IsSafe : IsSafe hf_stack_chk_fail
unfolding IsSafe hf_stack_chk_fail
stack_chk_fail-IsSafe e = quiet refl refl refl refl

pub assert_rtn-IsSafe : IsSafe hf_assert_rtn
unfolding IsSafe hf_assert_rtn
assert_rtn-IsSafe e = quiet refl refl refl refl

pub rand-IsSafe : (c : Libc) → IsSafe (hf_rand c)
unfolding IsSafe hf_rand
rand-IsSafe c e = quiet refl refl refl refl

pub srand-IsSafe : (c : Libc) → IsSafe (hf_srand c)
unfolding IsSafe hf_srand
srand-IsSafe c e = quiet refl refl refl refl
