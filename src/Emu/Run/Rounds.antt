-- ===== src/Emu/Run/Rounds.antt =====
-- The dispatcher's loop, one round at a time.
use reversetta.Prelude.{ℕ, suc, Option, some, ◌≡◌, refl, true, false}
use reversetta.Emu.State.{Emu}
use reversetta.Emu.Run.{
  Host, Round, go, stopped, faulted, crashed, dispatch, Outcome, finished, killed, loop,
}

abbrev pub go_on : ℕ → Host → Round → Option Outcome
go_on fuel h (go e) = loop fuel h e
go_on fuel h (stopped e) = some (finished e)
go_on fuel h (faulted e) = some (finished (record e { exit_code = 139 }))
go_on fuel h crashed = some killed

pub loop-over :
    (fuel : ℕ) (h : Host) (e : Emu) → e.is_running ≡ false → loop (suc fuel) h e ≡ some (finished e)
unfolding loop
loop-over fuel h e q = rw q refl

pub loop-on :
    (fuel : ℕ) (h : Host) (e : Emu)
    → e.is_running ≡ true
    → loop (suc fuel) h e ≡ go_on fuel h (dispatch h e)
unfolding loop
loop-on fuel h e q = rw q refl
