-- ===== src/HostFns/Safe/Formats.antt =====
-- Where the host functions that take a format write.
use reversetta.Prelude.{
  ◌-◌, by_bool, ℕ, ◌+◌, ◌≡◌, refl, List, Option, none, some, true, arith, length, min, ◌==◌,
}
use reversetta.Memory.{Memory}
use reversetta.Emu.State.{Emu, Stream, stdout}
use reversetta.Emu.Host.{HostFn}
use reversetta.HostFns.Common.{Libc, with_nul, arg, ret, file_from_guest, print, print_if}
use reversetta.HostFns.Bytes.{length-take, length-with_nul}
use reversetta.HostFns.Format.{format_guest, take}
use reversetta.HostFns.Format.Window.{KeepsText, format_guest-KeepsText}
use reversetta.HostFns.Printf.{
  hf_printf, hf_printf_chk, hf_fprintf, hf_fprintf_chk, hf_sprintf, hf_sprintf_chk, hf_snprintf,
  hf_snprintf_chk, with_format, put_text, put_at_most,
}
use reversetta.HostFns.Contained.{
  Within-Contained, Contained, Contained-refl, Contained-trans, put_bytes-Contained, ret-Contained,
}
use reversetta.HostFns.Safe.{IsSafe, quiet}

then_print :
    (e : Emu) (f : List ℕ → HostFn) (o : Option (List ℕ × Memory))
    → ((l : List ℕ) → IsSafe (f l))
    → KeepsText e.memory o
    → Contained e (elim o [
      | none ↦ record e { thrown = true }
      | some (l, m) ↦ ret (length l) (f l (record e { memory = m }))
    ])
unfolding IsSafe
then_print e f none safe k = quiet refl refl refl refl
then_print e f (some (l, m)) safe k =
    let d = record e { memory = m } in
    ret-Contained (length l) e _
      (Contained-trans e d _ (Within-Contained e d k refl refl refl) (safe l d))

with_format-Contained :
    (c : Libc) (fmt : ℕ) (f : List ℕ → HostFn) (e : Emu)
    → ((l : List ℕ) → IsSafe (f l))
    → Contained e (with_format c fmt f e)
unfolding with_format
with_format-Contained c fmt f e safe =
    then_print e f (format_guest c fmt e.cpu.sp e.memory) safe
      (format_guest-KeepsText c fmt e.cpu.sp e.memory)

print-IsSafe : (l : List ℕ) → IsSafe (print stdout l)
unfolding IsSafe
print-IsSafe l e = quiet refl refl refl refl

print_if-IsSafe : (f : Option Stream) (l : List ℕ) → IsSafe (print_if f l)
unfolding IsSafe
print_if-IsSafe none l e = Contained-refl e
print_if-IsSafe (some f) l e = quiet refl refl refl refl

put_text-IsSafe : (addr : ℕ) (l : List ℕ) → IsSafe (put_text addr l)
unfolding IsSafe
put_text-IsSafe addr l e =
    put_bytes-Contained (length l + 1) (with_nul l) addr e (length-with_nul l)

put_at_most-IsSafe : (addr n : ℕ) (l : List ℕ) → IsSafe (put_at_most addr n l)
unfolding IsSafe put_at_most
put_at_most-IsSafe addr n l e =
    let copy = min (n - 1) (length l) in
    let cut : length (take copy l) ≡ copy = length-take copy l (omega arith) in
    by_bool (Contained e) (n == 0) (Contained-refl e) (
      put_bytes-Contained (copy + 1) (with_nul (take copy l)) addr e
        (omega (arith, cut, length-with_nul (take copy l))))

pub printf-IsSafe : (c : Libc) → IsSafe (hf_printf c)
unfolding IsSafe hf_printf
printf-IsSafe c e = with_format-Contained c (arg 0 e) _ e print-IsSafe

pub printf_chk-IsSafe : (c : Libc) → IsSafe (hf_printf_chk c)
unfolding IsSafe hf_printf_chk
printf_chk-IsSafe c e = with_format-Contained c (arg 1 e) _ e print-IsSafe

pub fprintf-IsSafe : (c : Libc) → IsSafe (hf_fprintf c)
unfolding IsSafe hf_fprintf
fprintf-IsSafe c e =
    with_format-Contained c (arg 1 e) _ e (print_if-IsSafe (file_from_guest (arg 0 e)))

pub fprintf_chk-IsSafe : (c : Libc) → IsSafe (hf_fprintf_chk c)
unfolding IsSafe hf_fprintf_chk
fprintf_chk-IsSafe c e =
    with_format-Contained c (arg 2 e) _ e (print_if-IsSafe (file_from_guest (arg 0 e)))

pub sprintf-IsSafe : (c : Libc) → IsSafe (hf_sprintf c)
unfolding IsSafe hf_sprintf
sprintf-IsSafe c e = with_format-Contained c (arg 1 e) _ e (put_text-IsSafe (arg 0 e))

pub sprintf_chk-IsSafe : (c : Libc) → IsSafe (hf_sprintf_chk c)
unfolding IsSafe hf_sprintf_chk
sprintf_chk-IsSafe c e = with_format-Contained c (arg 3 e) _ e (put_text-IsSafe (arg 0 e))

pub snprintf-IsSafe : (c : Libc) → IsSafe (hf_snprintf c)
unfolding IsSafe hf_snprintf
snprintf-IsSafe c e = with_format-Contained c (arg 2 e) _ e (put_at_most-IsSafe (arg 0 e) (arg 1 e))

pub snprintf_chk-IsSafe : (c : Libc) → IsSafe (hf_snprintf_chk c)
unfolding IsSafe hf_snprintf_chk
snprintf_chk-IsSafe c e =
    with_format-Contained c (arg 4 e) _ e (put_at_most-IsSafe (arg 0 e) (arg 1 e))
