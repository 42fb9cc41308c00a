-- ===== src/Emu/Run/Exit.antt =====
-- How a run of the dispatcher's loop comes to its end.
use reversetta.Prelude.{ap, ℕ, suc, some, ◌≡◌, refl, ◌∙◌, true, false, arith, u32, get_elem?}
use reversetta.Layout.{thunk_exit}
use reversetta.Emu.State.{Emu}
use reversetta.Emu.Host.{handle_thunk, call_by_name, stop}
use reversetta.Emu.Run.{Host, finished, loop}
use reversetta.Emu.Run.Rounds.{loop-over, loop-on, go_on}
use reversetta.Emu.Run.Rules.{calls, Turn-dispatch}

thunk_exit-call :
    (h : Host) (e : Emu)
    → get_elem? e.thunks 0 ≡ some "__reversetta_exit"
    → handle_thunk h.host_fns thunk_exit e ≡ (true, stop (u32 (e.cpu.x 0)) e)
unfolding handle_thunk call_by_name
thunk_exit-call h e first = rw (handle_thunk, first) refl

exit_thunk :
    (h : Host) (e : Emu)
    → e.cpu.pc ≡ thunk_exit
    → get_elem? e.thunks 0 ≡ some "__reversetta_exit"
    → handle_thunk h.host_fns e.cpu.pc e ≡ (true, stop (u32 (e.cpu.x 0)) e)
exit_thunk h e at first = ap (λ pc. handle_thunk h.host_fns pc e) at ∙ thunk_exit-call h e first

-- When main returns to the address in its x30, the run ends in two rounds, with the low 32 bits of
-- x0 as its exit code and all else as it was.
pub loop_main_returns :
    (h : Host) (e : Emu) (fuel : ℕ)
    → e.is_running ≡ true
    → e.thrown ≡ false
    → e.cpu.pc ≡ thunk_exit
    → get_elem? e.thunks 0 ≡ some "__reversetta_exit"
    → loop (suc (suc fuel)) h e ≡ some (finished (stop (u32 (e.cpu.x 0)) e))
loop_main_returns h e fuel run quiet at first =
    let e' = stop (u32 (e.cpu.x 0)) e in
    let turn = calls e' (omega (arith, at)) (exit_thunk h e at first) quiet in
    loop-on (suc fuel) h e run
    ∙ ap (go_on (suc fuel) h) (Turn-dispatch turn)
    ∙ loop-over fuel h e' refl
