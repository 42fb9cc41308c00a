-- ===== src/Prelude/Cases.antt =====
-- A predicate holds of a term that branches if it holds of each branch.
use mathlib.Core.Bool.{Bool, true, false}
use mathlib.Core.List.{List, [], ◌∷◌}
use mathlib.Core.Option.{Option, none, some}
use reversetta.Prelude.Tests.{if◌then◌else◌}

module _ {ℓ κ} {X : Type ℓ} (P : X → Type κ) where
  pub by_bool : {t f : X} (b : Bool) → P t → P f → P (if b then t else f)
  by_bool true p q = p
  by_bool false p q = q

  pub by_elim : {t f : X} (b : Bool) → P t → P f → P (elim b [ true ↦ t | false ↦ f ])
  by_elim true p q = p
  by_elim false p q = q

  pub by_option {ι} :
      {A : Type ι} {n : X} {f : A → X} (o : Option A)
      → P n
      → ((a : A) → P (f a))
      → P (elim o [ none ↦ n | some a ↦ f a ])
  by_option none p q = p
  by_option (some a) p q = q a

  pub by_list {ι} :
      {A : Type ι} {n : X} {f : A → List A → X} (l : List A)
      → P n
      → ((a : A) (k : List A) → P (f a k))
      → P (elim l [ [] ↦ n | a ∷ k ↦ f a k ])
  by_list [] p q = p
  by_list (a ∷ l) p q = q a l
