-- ===== src/Ir/Core/Stmt.antt =====
-- crates/cielo-ir/src/core.rs: statements of the core language, and their children.
use cielo.Prelude.{ℕ, Option, none, some, List, [], ◌∷◌, ◌++◌, map}
use cielo.Base.Span.{Span}
use cielo.Base.Diagnostics.{ErrorNode}
use cielo.Ir.Effect.Row.{SortedEffectRow}
use cielo.Ir.Core.Ops.{StageDirective}

pub record MatchArm : Type 0 where
  pub tag : ℕ
  pub binders : List ℕ
  pub body : ℕ
  pub span : Span

pub data StmtKind : Type 0 where
  ret : (expr : ℕ) → StmtKind
  let_stmt : (binding value next : ℕ) → StmtKind
  val : (binding value next : ℕ) → StmtKind
  call : (result callee : ℕ) (args : List ℕ) (effects : SortedEffectRow) (next : ℕ) → StmtKind
  if_stmt : (cond then_branch else_branch : ℕ) → StmtKind
  match_stmt : (scrutinee : ℕ) (arms : List MatchArm) (default : Option ℕ) → StmtKind
  perform : (result : Option ℕ) (effect operation : ℕ) (args : List ℕ) (next : ℕ) → StmtKind
  resume : (result resumption arg next : ℕ) → StmtKind
  handle : (handler body : ℕ) (next : Option ℕ) → StmtKind
  stage : (directive : StageDirective) (body : ℕ) (next : Option ℕ) → StmtKind
  hole : (ty : ℕ) → StmtKind
  error : ErrorNode → StmtKind

pub record StmtNode : Type 0 where
  pub span : Span
  pub kind : StmtKind

-- a child that need not be there
abbrev pub optional : Option ℕ → List ℕ
optional none = []
optional (some child) = child ∷ []

unfoldable pub child_stmts : StmtKind → List ℕ
child_stmts (ret expr) = []
child_stmts (hole ty) = []
child_stmts (error node) = []
child_stmts (let_stmt binding value next) = next ∷ []
child_stmts (call result callee args effects next) = next ∷ []
child_stmts (resume result resumption arg next) = next ∷ []
child_stmts (perform result effect operation args next) = next ∷ []
child_stmts (val binding value next) = value ∷ next ∷ []
child_stmts (if_stmt cond then_branch else_branch) = then_branch ∷ else_branch ∷ []
child_stmts (match_stmt scrutinee arms default) = map (λ arm. arm.body) arms ++ optional default
child_stmts (handle handler body next) = body ∷ optional next
child_stmts (stage directive body next) = body ∷ optional next

unfoldable pub child_exprs : StmtKind → List ℕ
child_exprs (ret expr) = expr ∷ []
child_exprs (let_stmt binding value next) = value ∷ []
child_exprs (if_stmt cond then_branch else_branch) = cond ∷ []
child_exprs (match_stmt scrutinee arms default) = scrutinee ∷ []
child_exprs (resume result resumption arg next) = arg ∷ []
child_exprs (call result callee args effects next) = args
child_exprs (perform result effect operation args next) = args
child_exprs _ = []
