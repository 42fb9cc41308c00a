-- ===== src/HostFns.antt =====
-- src/host-fns.cpp: the host functions by which the imports of the C library are served, and their
-- table.
pub mod Common
pub mod Format
pub mod Stdio
pub mod Alloc
pub mod Strings
pub mod Process
pub mod Printf
pub mod Bytes
pub mod Contained
pub mod Safe
pub mod Copies
use reversetta.Prelude.{List, [], ◌∷◌, ◌++◌, String}
use reversetta.Emu.Host.{HostFn}
use reversetta.HostFns.Common.{Libc}
use reversetta.HostFns.Printf.{
  hf_printf, hf_printf_chk, hf_fprintf, hf_fprintf_chk, hf_sprintf, hf_sprintf_chk, hf_snprintf,
  hf_snprintf_chk,
}
use reversetta.HostFns.Stdio.{hf_puts, hf_putchar, hf_fputc, hf_fputs, hf_fwrite, hf_fflush}
use reversetta.HostFns.Alloc.{
  hf_malloc, hf_calloc, hf_realloc, hf_free, hf_strdup, hf_memcpy, hf_memmove, hf_memset,
}
use reversetta.HostFns.Strings.{
  hf_strlen, hf_strcmp, hf_strncmp, hf_strcpy, hf_strncpy, hf_strcat, hf_strchr, hf_memcmp, hf_atoi,
}
use reversetta.HostFns.Process.{
  hf_exit, hf_abort, hf_stack_chk_fail, hf_assert_rtn, hf_abs, hf_rand, hf_srand, hf_time,
}

-- `g_host_fns`
unfoldable pub host_fns : Libc → List (String × HostFn)
host_fns c =
    ("printf", hf_printf c)
    ∷ ("fprintf", hf_fprintf c)
    ∷ ("sprintf", hf_sprintf c)
    ∷ ("snprintf", hf_snprintf c)
    ∷ ("puts", hf_puts)
    ∷ ("putchar", hf_putchar)
    ∷ ("putc", hf_fputc)
    ∷ ("fputc", hf_fputc)
    ∷ ("fputs", hf_fputs)
    ∷ ("fwrite", hf_fwrite)
    ∷ ("fflush", hf_fflush)
    ∷ ("exit", hf_exit)
    ∷ ("_exit", hf_exit)
    ∷ ("abort", hf_abort)
    ∷ ("malloc", hf_malloc)
    ∷ ("calloc", hf_calloc)
    ∷ ("realloc", hf_realloc)
    ∷ ("free", hf_free)
    ∷ ("strdup", hf_strdup)
    ∷ ("strlen", hf_strlen)
    ∷ ("strcmp", hf_strcmp c)
    ∷ ("strncmp", hf_strncmp c)
    ∷ ("strcpy", hf_strcpy)
    ∷ ("strncpy", hf_strncpy)
    ∷ ("strcat", hf_strcat)
    ∷ ("strchr", hf_strchr)
    ∷ ("memcpy", hf_memcpy)
    ∷ ("memmove", hf_memmove)
    ∷ ("memset", hf_memset)
    ∷ ("memcmp", hf_memcmp c)
    ∷ ("atoi", hf_atoi c)
    ∷ ("abs", hf_abs)
    ∷ ("rand", hf_rand c)
    ∷ ("srand", hf_srand c)
    ∷ ("time", hf_time c)
    ∷ ("__stack_chk_fail", hf_stack_chk_fail)
    ∷ ("__assert_rtn", hf_assert_rtn)
    ∷ ("__strcpy_chk", hf_strcpy)
    ∷ ("__strncpy_chk", hf_strncpy)
    ∷ ("__strcat_chk", hf_strcat)
    ∷ ("__strncat_chk", hf_strcat)
    ∷ ("__memcpy_chk", hf_memcpy)
    ∷ ("__memmove_chk", hf_memmove)
    ∷ ("__memset_chk", hf_memset)
    ∷ ("__printf_chk", hf_printf_chk c)
    ∷ ("__fprintf_chk", hf_fprintf_chk c)
    ∷ ("__sprintf_chk", hf_sprintf_chk c)
    ∷ ("__snprintf_chk", hf_snprintf_chk c)
    ∷ []
