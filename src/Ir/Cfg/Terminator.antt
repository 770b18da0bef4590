-- ===== src/Ir/Cfg/Terminator.antt =====
-- crates/cielo-ir/src/cfg.rs: the ends of blocks, their successors and their operands.
use cielo.Prelude.{ℕ, Option, none, some, List, [], ◌∷◌, ◌++◌, map, length}
use cielo.Ir.Ownership.{OperandRole, owned, read}
use cielo.Ir.Cfg.Expr.{owned_all}

pub data CfgCallConvention : Type 0 where
  pure direct control : CfgCallConvention

pub data CfgProjectionMode : Type 0 where
  borrow copy move move_unique : CfgProjectionMode

pub record CfgMatchArm : Type 0 where
  pub tag : ℕ
  pub binders : List ℕ
  pub projections : List CfgProjectionMode
  pub target : ℕ

pub data CfgTerminator : Type 0 where
  ret : (value : ℕ) → CfgTerminator
  goto : (target : ℕ) (args : List ℕ) → CfgTerminator
  branch : (cond then_target else_target : ℕ) → CfgTerminator
  match_on : (scrutinee : ℕ) (arms : List CfgMatchArm) (default : ℕ) → CfgTerminator
  switch : (selector : ℕ) (targets : List ℕ) (default : ℕ) → CfgTerminator
  call :
      (convention : CfgCallConvention) (callee callee_fn : ℕ) (args : List ℕ) (result target : ℕ)
      → CfgTerminator
  perform : (effect operation : ℕ) (args : List ℕ) (result : Option ℕ) (target : ℕ) → CfgTerminator
  unreachable : CfgTerminator

-- `usize::from(result.is_some())`
abbrev pub count_some : Option ℕ → ℕ
count_some none = 0
count_some (some v) = 1

unfoldable pub successors_with_arity : CfgTerminator → List (ℕ × ℕ)
successors_with_arity (ret value) = []
successors_with_arity unreachable = []
successors_with_arity (goto target args) = (target, length args) ∷ []
successors_with_arity (branch cond then_target else_target) =
    (then_target, 0) ∷ (else_target, 0) ∷ []
successors_with_arity (match_on scrutinee arms default) =
    map (λ arm. (arm.target, length arm.binders)) arms ++ (default, 0) ∷ []
successors_with_arity (switch selector targets default) =
    map (λ target. (target, 0)) targets ++ (default, 0) ∷ []
successors_with_arity (call convention callee callee_fn args result target) = (target, 1) ∷ []
successors_with_arity (perform effect operation args result target) =
    (target, count_some result) ∷ []

unfoldable pub successors : CfgTerminator → List ℕ
unfolding successors_with_arity
successors t = map (λ edge. edge.0) (successors_with_arity t)

abbrev pub retarget : (ℕ → ℕ) → CfgMatchArm → CfgMatchArm
retarget f arm = record arm { target = f arm.target }

-- `successors_mut`, and a write of `f` of the target through each of its slots
unfoldable pub successors_mut : (ℕ → ℕ) → CfgTerminator → CfgTerminator
successors_mut f (ret value) = ret value
successors_mut f unreachable = unreachable
successors_mut f (goto target args) = goto (f target) args
successors_mut f (call convention callee callee_fn args result target) =
    call convention callee callee_fn args result (f target)
successors_mut f (perform effect operation args result target) =
    perform effect operation args result (f target)
successors_mut f (branch cond then_target else_target) = branch cond (f then_target) (f else_target)
successors_mut f (match_on scrutinee arms default) =
    match_on scrutinee (map (retarget f) arms) (f default)
successors_mut f (switch selector targets default) = switch selector (map f targets) (f default)

unfoldable pub operands : CfgTerminator → List (ℕ × OperandRole)
operands unreachable = []
operands (ret value) = (value, owned) ∷ []
operands (branch selector then_target else_target) = (selector, read) ∷ []
operands (match_on selector arms default) = (selector, read) ∷ []
operands (switch selector targets default) = (selector, read) ∷ []
operands (goto target args) = owned_all args
operands (call convention callee callee_fn args result target) = owned_all args
operands (perform effect operation args result target) = owned_all args

unfoldable pub child_exprs : CfgTerminator → List ℕ
unfolding operands
child_exprs t = map (λ operand. operand.0) (operands t)

abbrev pub option_to_list : Option ℕ → List ℕ
option_to_list none = []
option_to_list (some v) = v ∷ []

abbrev pub all_binders : List CfgMatchArm → List ℕ
all_binders [] = []
all_binders (arm ∷ arms) = arm.binders ++ all_binders arms

unfoldable pub defined_values : CfgTerminator → List ℕ
defined_values (call convention callee callee_fn args result target) = result ∷ []
defined_values (perform effect operation args result target) = option_to_list result
defined_values (match_on scrutinee arms default) = all_binders arms
defined_values _ = []
