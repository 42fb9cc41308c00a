-- ===== src/Arm.antt =====
-- The guest's condition flags, and the conditions as the ARM architecture defines them: an
-- independent description, which the theorems about emitted code are stated by.
use reversetta.Prelude.{ℕ, zero, suc, Bool, true, false, not, ◌&&◌, ◌%◌, ◌/◌, ◌==◌, if◌then◌else◌}

pub record Nzcv : Type 0 where
  pub n : Bool
  pub z : Bool
  pub c : Bool
  pub v : Bool

abbrev pub same : Bool → Bool → Bool
same true b = b
same false b = not b

-- the condition of the upper three bits: EQ, CS, MI, VS, HI, GE, GT, always
unfoldable pub base_holds : ℕ → Nzcv → Bool
base_holds zero f = f.z
base_holds (suc zero) f = f.c
base_holds (suc (suc zero)) f = f.n
base_holds (suc (suc (suc zero))) f = f.v
base_holds (suc (suc (suc (suc zero)))) f = f.c && not f.z
base_holds (suc (suc (suc (suc (suc zero))))) f = same f.n f.v
base_holds (suc (suc (suc (suc (suc (suc zero)))))) f = same f.n f.v && not f.z
base_holds (suc (suc (suc (suc (suc (suc (suc _))))))) f = true

-- ConditionHolds: the lowest bit negates, except for 1111.
unfoldable pub cond_holds : ℕ → Nzcv → Bool
unfolding base_holds
cond_holds cond f =
    if cond % 2 == 1 && not (cond == 15)
    then not (base_holds (cond / 2) f)
    else base_holds (cond / 2) f
