-- ===== src/Ir/Core/Expr.antt =====
-- crates/cielo-ir/src/core.rs: expressions of the core language, in an arena of nodes.
use cielo.Prelude.{ℕ, List, [], ◌∷◌, map}
use cielo.Prelude.Classes.{Text, codes}
use cielo.Base.Span.{Span}
use cielo.Base.Diagnostics.{ErrorNode}
use cielo.Ir.Builtins.{Builtin}
use cielo.Ir.Ownership.{OperandRole, owned, read}
use cielo.Ir.Core.Literal.{Literal}
use cielo.Ir.Core.Ops.{UnaryOp, BinaryOp}

-- Ids are numbers; `F` is the type of floats.
pub data ExprKind (F : Type 0) : Type 0 where
  var : ℕ → ExprKind F
  literal : Literal F → ExprKind F
  unary : (op : UnaryOp) (expr : ℕ) → ExprKind F
  binary : (op : BinaryOp) (lhs rhs : ℕ) → ExprKind F
  pure_call : (callee : ℕ) (args : List ℕ) → ExprKind F
  builtin_call : (builtin : Builtin) (args : List ℕ) → ExprKind F
  field : (base name : ℕ) → ExprKind F
  make_struct : (ty : ℕ) (fields : List ℕ) → ExprKind F
  make_enum : (ty variant : ℕ) (fields : List ℕ) → ExprKind F
  make_closure : (func : ℕ) (captures : List ℕ) → ExprKind F
  call_closure : (callee : ℕ) (args : List ℕ) → ExprKind F
  error : ErrorNode → ExprKind F

pub record ExprNode (F : Type 0) : Type 0 where
  pub span : Span
  pub kind : ExprKind F

-- each operand, owned
abbrev pub owned_all : List ℕ → List (ℕ × OperandRole)
owned_all = map (λ operand. (operand, owned))

module _ {F : Type 0} where
  unfoldable pub operands : ExprKind F → List (ℕ × OperandRole)
  operands (var x) = []
  operands (literal value) = []
  operands (error node) = []
  operands (unary op operand) = (operand, read) ∷ []
  operands (field operand name) = (operand, read) ∷ []
  operands (binary op lhs rhs) = (lhs, read) ∷ (rhs, read) ∷ []
  operands (call_closure callee args) = (callee, read) ∷ owned_all args
  operands (builtin_call builtin args) = owned_all args
  operands (pure_call callee args) = owned_all args
  operands (make_struct ty fields) = owned_all fields
  operands (make_enum ty variant fields) = owned_all fields
  operands (make_closure func captures) = owned_all captures

  unfoldable pub child_exprs : ExprKind F → List ℕ
  unfolding operands
  child_exprs kind = map (λ operand. operand.0) (operands kind)

  unfoldable pub tag : ExprKind F → Text
  tag (literal value) = codes "lit"
  tag (var x) = codes "var"
  tag (unary op operand) = codes "un"
  tag (field operand name) = codes "field"
  tag (binary op lhs rhs) = codes "bin"
  tag (pure_call callee args) = codes "call"
  tag (builtin_call builtin args) = codes "builtin"
  tag (make_struct ty fields) = codes "mk_struct"
  tag (make_enum ty variant fields) = codes "mk_enum"
  tag (make_closure func captures) = codes "mk_closure"
  tag (call_closure callee args) = codes "call_closure"
  tag (error node) = codes "err"
