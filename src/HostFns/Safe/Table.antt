-- ===== src/HostFns/Safe/Table.antt =====
-- The dispatcher's calls of the host functions.
use text.Mathlib.Text.{◌==◌ as str_eq}
use mathlib.Core.Option.{some-injective}
use reversetta.Prelude.{
  Bool, subst, sym, ap, ◌∙◌, ℕ, List, [], ◌∷◌, ◌≡◌, refl, Option, none, some, true, false, String,
  Each, Bool-cases, inl, inr, get_elem?, by_bool, by_option, u32, if◌then◌else◌,
}
use reversetta.Emu.State.{Emu, find}
use reversetta.Emu.Host.{HostFn, handle_thunk, call_by_name, stop, return_to_caller, thunk_index}
use reversetta.HostFns.{host_fns}
use reversetta.HostFns.Common.{Libc}
use reversetta.HostFns.Safe.{
  IsSafe, quiet, puts-IsSafe, fputs-IsSafe, fwrite-IsSafe, calloc-IsSafe, realloc-IsSafe,
  strdup-IsSafe, memcpy-IsSafe, memmove-IsSafe, memset-IsSafe, time-IsSafe, putchar-IsSafe,
  fputc-IsSafe, malloc-IsSafe, fflush-IsSafe, exit-IsSafe, abort-IsSafe, free-IsSafe, abs-IsSafe,
  stack_chk_fail-IsSafe, assert_rtn-IsSafe, rand-IsSafe, srand-IsSafe,
}
use reversetta.HostFns.Safe.Texts.{
  strcpy-IsSafe, strncpy-IsSafe, strcat-IsSafe, strlen-IsSafe, strcmp-IsSafe, strncmp-IsSafe,
  strchr-IsSafe, memcmp-IsSafe, atoi-IsSafe,
}
use reversetta.HostFns.Safe.Formats.{
  printf-IsSafe, printf_chk-IsSafe, fprintf-IsSafe, fprintf_chk-IsSafe, sprintf-IsSafe,
  sprintf_chk-IsSafe, snprintf-IsSafe, snprintf_chk-IsSafe,
}
use reversetta.HostFns.Contained.{Contained, Contained-refl, same-Contained}

abbrev IsSafeEntry : String × HostFn → Type 0
IsSafeEntry (name, f) = IsSafe f

host_fns-IsSafeEntry : (c : Libc) → Each IsSafeEntry (host_fns c)
unfolding host_fns
host_fns-IsSafeEntry c = (
  printf-IsSafe c,
  (
    fprintf-IsSafe c,
    (
      sprintf-IsSafe c,
      (
        snprintf-IsSafe c,
        (
          puts-IsSafe,
          (
            putchar-IsSafe,
            (
              fputc-IsSafe,
              (
                fputc-IsSafe,
                (
                  fputs-IsSafe,
                  (
                    fwrite-IsSafe,
                    (
                      fflush-IsSafe,
                      (
                        exit-IsSafe,
                        (
                          exit-IsSafe,
                          (
                            abort-IsSafe,
                            (
                              malloc-IsSafe,
                              (
                                calloc-IsSafe,
                                (
                                  realloc-IsSafe,
                                  (
                                    free-IsSafe,
                                    (
                                      strdup-IsSafe,
                                      (
                                        strlen-IsSafe,
                                        (
                                          strcmp-IsSafe c,
                                          (
                                            strncmp-IsSafe c,
                                            (
                                              strcpy-IsSafe,
                                              (
                                                strncpy-IsSafe,
                                                (
                                                  strcat-IsSafe,
                                                  (
                                                    strchr-IsSafe,
                                                    (
                                                      memcpy-IsSafe,
                                                      (
                                                        memmove-IsSafe,
                                                        (
                                                          memset-IsSafe,
                                                          (
                                                            memcmp-IsSafe c,
                                                            (
                                                            atoi-IsSafe c,
                                                            (
                                                            abs-IsSafe,
                                                            (
                                                            rand-IsSafe c,
                                                            (
                                                            srand-IsSafe c,
                                                            (
                                                            time-IsSafe c,
                                                            (
                                                            stack_chk_fail-IsSafe,
                                                            (
                                                            assert_rtn-IsSafe,
                                                            (
                                                            strcpy-IsSafe,
                                                            (
                                                            strncpy-IsSafe,
                                                            (
                                                            strcat-IsSafe,
                                                            (
                                                            strcat-IsSafe,
                                                            (
                                                            memcpy-IsSafe,
                                                            (
                                                            memmove-IsSafe,
                                                            (
                                                            memset-IsSafe,
                                                            (
                                                            printf_chk-IsSafe c,
                                                            (
                                                            fprintf_chk-IsSafe c,
                                                            (
                                                            sprintf_chk-IsSafe c,
                                                            (snprintf_chk-IsSafe c, tt),
                                                            ),
                                                            ),
                                                            ),
                                                            ),
                                                            ),
                                                            ),
                                                            ),
                                                            ),
                                                            ),
                                                            ),
                                                            ),
                                                            ),
                                                            ),
                                                            ),
                                                            ),
                                                            ),
                                                            ),
                                                          ),
                                                        ),
                                                      ),
                                                    ),
                                                  ),
                                                ),
                                              ),
                                            ),
                                          ),
                                        ),
                                      ),
                                    ),
                                  ),
                                ),
                              ),
                            ),
                          ),
                        ),
                      ),
                    ),
                  ),
                ),
              ),
            ),
          ),
        ),
      ),
    ),
  ),
)

-- What is found in a table has what every entry has.
find-IsSafe :
    (name : String) (l : List (String × HostFn)) (f : HostFn)
    → Each IsSafeEntry l
    → find name l ≡ some f
    → IsSafe f
unfolding find
find-IsSafe name [] f safe h = cc
find-IsSafe name ((k, g) ∷ l) f safe h = elim (Bool-cases (str_eq k name)) [
  | inl q ↦
      subst IsSafe (some-injective g f (sym (ap (λ b. if b then some g else find name l) q) ∙ h))
        safe.0
  | inr q ↦ find-IsSafe name l f safe.1 (sym (ap (λ b. if b then some g else find name l) q) ∙ h)
]

stop-Contained : (code : ℕ) (e : Emu) → Contained e (stop code e)
stop-Contained code e = quiet refl refl refl refl

served :
    (e : Emu) (o : Option HostFn)
    → ((f : HostFn) → o ≡ some f → IsSafe f)
    → Contained e
        (elim o as (λ x. Bool × Emu) [
          | none ↦ (false, stop 127 e)
          | some f ↦ (true, return_to_caller (f e))
        ]).1
unfolding IsSafe
served e none h = stop-Contained 127 e
served e (some f) h = same-Contained e (f e) _ (h f refl e) refl refl refl refl

call_by_name-Contained :
    (c : Libc) (name : String) (e : Emu) → Contained e (call_by_name (host_fns c) name e).1
unfolding call_by_name
call_by_name-Contained c name e =
    by_bool (λ (r : Bool × Emu). Contained e r.1) (str_eq name "__reversetta_exit")
      (stop-Contained (u32 (e.cpu.x 0)) e)
      (served e (find name (host_fns c))
        λ f. find-IsSafe name (host_fns c) f (host_fns-IsSafeEntry c))

-- Whatever thunk the guest jumps to, known or not, what the dispatcher does for it leaves the host's
-- memory outside the guest's window, the place of the window, the tables of thunks and the compiled
-- blocks as they were.
pub handle_thunk-Contained :
    (c : Libc) (pc : ℕ) (e : Emu) → Contained e (handle_thunk (host_fns c) pc e).1
unfolding handle_thunk
handle_thunk-Contained c pc e =
    by_option (λ (r : Bool × Emu). Contained e r.1) (get_elem? e.thunks (thunk_index pc))
      (Contained-refl e) λ name. call_by_name-Contained c name e
