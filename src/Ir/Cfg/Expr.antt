-- ===== src/Ir/Cfg/Expr.antt =====
-- crates/cielo-ir/src/cfg.rs: expressions of the control-flow graph, in an arena of nodes.
use cielo.Prelude.{ℕ, Bool, true, false, Option, List, [], ◌∷◌, map}
use cielo.Prelude.Classes.{Text, codes}
use cielo.Ir.Builtins.{Builtin}
use cielo.Ir.Ownership.{OperandRole, owned, read}
use cielo.Ir.Core.Literal.{Literal}
use cielo.Ir.Core.Ops.{UnaryOp, BinaryOp}

-- Ids are numbers; `F` is the type of floats.
pub data CfgExpr (F : Type 0) : Type 0 where
  value : ℕ → CfgExpr F
  literal : Literal F → CfgExpr F
  unary : (op : UnaryOp) (expr : ℕ) → CfgExpr F
  binary : (op : BinaryOp) (lhs rhs : ℕ) → CfgExpr F
  pure_call : (callee callee_fn : ℕ) (args : List ℕ) → CfgExpr F
  builtin_call : (builtin : Builtin) (args : List ℕ) → CfgExpr F
  field : (base index : ℕ) → CfgExpr F
  make_struct : (ty : ℕ) (fields : List ℕ) → CfgExpr F
  make_enum : (ty variant : ℕ) (fields : List ℕ) → CfgExpr F
  make_closure : (callee callee_fn : ℕ) (captures : List ℕ) → CfgExpr F
  call_closure : (callee : ℕ) (args : List ℕ) → CfgExpr F
  error : CfgExpr F

pub record CfgExprNode (F : Type 0) : Type 0 where
  pub kind : CfgExpr F
  pub source : Option ℕ

-- each operand with the role of an owned one
abbrev pub owned_all : List ℕ → List (ℕ × OperandRole)
owned_all = map (λ operand. (operand, owned))

module _ {F : Type 0} where
  unfoldable pub operands : CfgExpr F → List (ℕ × OperandRole)
  operands (value v) = []
  operands (literal l) = []
  operands error = []
  operands (unary op operand) = (operand, read) ∷ []
  operands (field operand index) = (operand, read) ∷ []
  operands (binary op lhs rhs) = (lhs, read) ∷ (rhs, read) ∷ []
  operands (call_closure callee args) = (callee, read) ∷ owned_all args
  operands (builtin_call builtin args) = owned_all args
  operands (pure_call callee callee_fn args) = owned_all args
  operands (make_struct ty fields) = owned_all fields
  operands (make_enum ty variant fields) = owned_all fields
  operands (make_closure callee callee_fn captures) = owned_all captures

  unfoldable pub child_exprs : CfgExpr F → List ℕ
  unfolding operands
  child_exprs kind = map (λ operand. operand.0) (operands kind)

  unfoldable pub tag : CfgExpr F → Text
  tag (literal l) = codes "lit"
  tag (value v) = codes "val"
  tag (unary op operand) = codes "un"
  tag (field operand index) = codes "field"
  tag (binary op lhs rhs) = codes "bin"
  tag (pure_call callee callee_fn args) = codes "call"
  tag (builtin_call builtin args) = codes "builtin"
  tag (make_struct ty fields) = codes "mk_struct"
  tag (make_enum ty variant fields) = codes "mk_enum"
  tag (make_closure callee callee_fn captures) = codes "mk_closure"
  tag (call_closure callee args) = codes "call_closure"
  tag error = codes "err"

  unfoldable pub produces_owned : CfgExpr F → Bool
  produces_owned (field operand index) = true
  produces_owned (pure_call callee callee_fn args) = true
  produces_owned (builtin_call builtin args) = true
  produces_owned (make_struct ty fields) = true
  produces_owned (make_enum ty variant fields) = true
  produces_owned (make_closure callee callee_fn captures) = true
  produces_owned (call_closure callee args) = true
  produces_owned (value v) = false
  produces_owned (literal l) = false
  produces_owned (unary op operand) = false
  produces_owned (binary op lhs rhs) = false
  produces_owned error = false
