-- ===== src/HostFns/Safe/Texts.antt =====
-- Where the host functions on strings, and on memory that they compare, write.
use reversetta.Prelude.{by_bool, by_option, ℕ, ◌+◌, ◌%◌, refl, List, length, u64, ◌&&◌}
use reversetta.Memory.{in_range}
use reversetta.Emu.State.{Emu}
use reversetta.HostFns.Common.{Libc, with_nul, arg, string_at}
use reversetta.HostFns.Strings.{
  hf_strlen, hf_strcmp, hf_strncmp, hf_strcpy, hf_strncpy, hf_strcat, hf_strchr, hf_memcmp, hf_atoi,
  two_strings, pad, index_of, compare_strings,
}
use reversetta.HostFns.Bytes.{length-with_nul, length-pad}
use reversetta.HostFns.Contained.{Contained}
use reversetta.HostFns.Safe.{IsSafe, quiet, put_only}

pub strcpy-IsSafe : IsSafe hf_strcpy
unfolding IsSafe hf_strcpy
strcpy-IsSafe e =
    by_option (Contained e) (string_at (arg 1 e) e) (quiet refl refl refl refl)
      λ s. put_only (length s + 1) (with_nul s) (arg 0 e) e (length-with_nul s)

pub strncpy-IsSafe : IsSafe hf_strncpy
unfolding IsSafe hf_strncpy
strncpy-IsSafe e =
    by_option (Contained e) (string_at (arg 1 e) e) (quiet refl refl refl refl)
      λ s. put_only (arg 2 e) (pad (arg 2 e) s) (arg 0 e) e (length-pad (arg 2 e) s)

pub strcat-IsSafe : IsSafe hf_strcat
unfolding IsSafe hf_strcat
strcat-IsSafe e =
    by_option (Contained e) (two_strings e) (quiet refl refl refl refl) λ (d, s).
      put_only (length s + 1) (with_nul s) (u64 (arg 0 e + length d)) e (length-with_nul s)

pub strlen-IsSafe : IsSafe hf_strlen
unfolding IsSafe hf_strlen
strlen-IsSafe e =
    by_option (Contained e) (string_at (arg 0 e) e) (quiet refl refl refl refl)
      λ s. quiet refl refl refl refl

pub compare-IsSafe : (f : List ℕ → List ℕ → ℕ) (e : Emu) → Contained e (compare_strings f e)
unfolding compare_strings
compare-IsSafe f e =
    by_option (Contained e) (two_strings e) (quiet refl refl refl refl)
      λ x. quiet refl refl refl refl

pub strcmp-IsSafe : (c : Libc) → IsSafe (hf_strcmp c)
unfolding IsSafe hf_strcmp
strcmp-IsSafe c e = compare-IsSafe c.strcmp e

pub strncmp-IsSafe : (c : Libc) → IsSafe (hf_strncmp c)
unfolding IsSafe hf_strncmp
strncmp-IsSafe c e = compare-IsSafe (λ x y. c.strncmp x y (arg 2 e)) e

pub strchr-IsSafe : IsSafe hf_strchr
unfolding IsSafe hf_strchr
strchr-IsSafe e = by_option (Contained e) (string_at (arg 0 e) e) (quiet refl refl refl refl) λ s.
    by_option (Contained e) (index_of (arg 1 e % 256) (with_nul s)) (quiet refl refl refl refl)
      λ i. quiet refl refl refl refl

pub memcmp-IsSafe : (c : Libc) → IsSafe (hf_memcmp c)
unfolding IsSafe hf_memcmp
memcmp-IsSafe c e =
    by_bool (Contained e)
      (in_range e.memory (arg 0 e) (arg 2 e) && in_range e.memory (arg 1 e) (arg 2 e))
      (quiet refl refl refl refl) (quiet refl refl refl refl)

pub atoi-IsSafe : (c : Libc) → IsSafe (hf_atoi c)
unfolding IsSafe hf_atoi
atoi-IsSafe c e =
    by_option (Contained e) (string_at (arg 0 e) e) (quiet refl refl refl refl)
      λ s. quiet refl refl refl refl
