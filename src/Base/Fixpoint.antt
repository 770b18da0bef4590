-- ===== src/Base/Fixpoint.antt =====
-- crates/cielo-base/src/fixpoint.rs: iterate a step until the state stays.
pub mod Laws
use cielo.Prelude.{ℕ, zero, suc, Bool, true, false, Option, none, some, ltb, if◌then◌else◌}
use cielo.Prelude.Classes.{Eq}

module _ {S : Type 0} ⦃e : Eq S⦄ (step : S → S) where
  -- `for _ in 0..limit`, and the panic behind it
  unfoldable pub rounds : ℕ → S → Option S
  rounds zero state = none
  rounds (suc limit) state = elim (e.beq (step state) state) [
    | true ↦ some state
    | false ↦ rounds limit (step state)
  ]

  -- `none` is a panic: the failed assertion, or no convergence within the limit.
  unfoldable pub fixpoint : S → ℕ → Option S
  unfolding rounds
  fixpoint state limit = if ltb 0 limit then rounds limit state else none
