-- ===== src/Ir/Cfg/Instruction.antt =====
-- crates/cielo-ir/src/cfg.rs: instructions, and the reference-counting operations beside them.
use cielo.Prelude.{ℕ, Option, none, some, List, [], ◌∷◌, map}
use cielo.Ir.Ownership.{OperandRole, owned, read}
use cielo.Ir.Core.Ops.{StageDirective}

pub data CfgArcOpKind : Type 0 where
  retain release : CfgArcOpKind

pub record CfgArcOp : Type 0 where
  pub kind : CfgArcOpKind
  pub value : ℕ

pub record CfgArcOps : Type 0 where
  pub pre : List CfgArcOp
  pub post : List CfgArcOp

abbrev pub no_arc_ops : CfgArcOps
no_arc_ops = record { pre = []; post = [] }

pub data CfgInstruction : Type 0 where
  let_value : (result value : ℕ) → CfgInstruction
  eval_value : (result value : ℕ) → CfgInstruction
  handler_enter : (handler effect : ℕ) → CfgInstruction
  handler_exit : (handler effect : ℕ) → CfgInstruction
  region_enter : (region : ℕ) → CfgInstruction
  region_exit : (region : ℕ) → CfgInstruction
  stage_enter : (stage : StageDirective) → CfgInstruction
  stage_exit : (stage : StageDirective) → CfgInstruction
  hole : CfgInstruction
  error : CfgInstruction

pub record CfgInstructionNode : Type 0 where
  pub id : ℕ
  pub kind : CfgInstruction
  pub source : Option ℕ
  pub arc : CfgArcOps

unfoldable pub operands : CfgInstruction → List (ℕ × OperandRole)
operands (let_value result value) = (value, owned) ∷ []
operands (eval_value result value) = (value, read) ∷ []
operands _ = []

unfoldable pub child_exprs : CfgInstruction → List ℕ
unfolding operands
child_exprs kind = map (λ operand. operand.0) (operands kind)

unfoldable pub result : CfgInstruction → Option ℕ
result (let_value written value) = some written
result (eval_value written value) = some written
result _ = none
