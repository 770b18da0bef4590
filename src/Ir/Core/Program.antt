-- ===== src/Ir/Core/Program.antt =====
-- crates/cielo-ir/src/core.rs: the arenas of a core program and the declarations in them.
pub mod Laws
use cielo.Prelude.{
  ℕ, Bool, Option, none, some, List, [], ◌∷◌, ◌++◌, length, get_elem?, set, ◌>>=◌, ◌==◌,
  if◌then◌else◌,
}
use cielo.Prelude.Classes.{nat_eq}
use cielo.Prelude.HashMap.{HashMap, get, insert}
use cielo.Base.Ids
use cielo.Base.Span.{Span}
use cielo.Ir.Effect.Capability.{EffectProperties}
use cielo.Ir.Effect.Row.{SortedEffectRow}
use cielo.Ir.Core.TypeRef.{CoreTypeRef}
use cielo.Ir.Core.Expr.{ExprNode}
use cielo.Ir.Core.Stmt.{StmtNode}

pub record HandlerClause : Type 0 where
  pub operation : ℕ
  pub params : List ℕ
  pub resume_param : Option ℕ
  pub body : ℕ
  pub span : Span

pub record EffectOperationDecl : Type 0 where
  pub name : ℕ
  pub param_types : List CoreTypeRef
  pub return_type : CoreTypeRef
  pub span : Span

pub record EffectDecl : Type 0 where
  pub label : ℕ
  pub name : ℕ
  pub properties : EffectProperties
  pub operations : List EffectOperationDecl
  pub span : Span

pub record HandlerDef : Type 0 where
  pub effect : ℕ
  pub return_param : ℕ
  pub return_body : ℕ
  pub clauses : List HandlerClause
  pub span : Span

pub record FunctionDecl : Type 0 where
  pub name : ℕ
  pub params : List ℕ
  pub param_types : List CoreTypeRef
  pub return_type : CoreTypeRef
  pub declared_effects : SortedEffectRow
  pub body : ℕ
  pub ct_only : Bool
  pub span : Span

pub record AdtStructDecl : Type 0 where
  pub name : ℕ
  pub type_params : List ℕ
  pub fields : List CoreTypeRef
  pub field_names : List ℕ
  pub span : Span

pub record AdtEnumVariantDecl : Type 0 where
  pub name : ℕ
  pub fields : List CoreTypeRef
  pub span : Span

pub record AdtEnumDecl : Type 0 where
  pub name : ℕ
  pub type_params : List ℕ
  pub variants : List AdtEnumVariantDecl
  pub span : Span

pub record CoreProgram (F : Type 0) : Type 0 where
  pub exprs : List (ExprNode F)
  pub stmts : List StmtNode
  pub effects : List EffectDecl
  pub handlers : List HandlerDef
  pub functions : List FunctionDecl
  pub structs : List AdtStructDecl
  pub enums : List AdtEnumDecl
  pub entrypoints : List ℕ
  pub declared_var_types : HashMap ℕ CoreTypeRef

module _ {F : Type 0} where
  abbrev pub new_program : CoreProgram F
  new_program = record {
    exprs = [];
    stmts = [];
    effects = [];
    handlers = [];
    functions = [];
    structs = [];
    enums = [];
    entrypoints = [];
    declared_var_types = [];
  }

  -- `none` is the failed assertion of an id's `new`, here and below.
  unfoldable pub push_expr : CoreProgram F → ExprNode F → Option (CoreProgram F × ℕ)
  push_expr p node =
      Ids.new (length p.exprs) >>= λ id. some (record p { exprs = p.exprs ++ node ∷ [] }, id)

  unfoldable pub push_stmt : CoreProgram F → StmtNode → Option (CoreProgram F × ℕ)
  push_stmt p node =
      Ids.new (length p.stmts) >>= λ id. some (record p { stmts = p.stmts ++ node ∷ [] }, id)

  unfoldable pub add_handler : CoreProgram F → HandlerDef → Option (CoreProgram F × ℕ)
  add_handler p handler = Ids.new (length p.handlers) >>= λ id.
      some (record p { handlers = p.handlers ++ handler ∷ [] }, id)

  -- A debug build also asserts that the label is the id.
  unfoldable pub add_effect : CoreProgram F → EffectDecl → Option (CoreProgram F × ℕ)
  add_effect p effect = Ids.new (length p.effects) >>= λ id.
      if id == effect.label
      then some (record p { effects = p.effects ++ effect ∷ [] }, id)
      else none

  unfoldable pub add_function : CoreProgram F → FunctionDecl → Option (CoreProgram F × ℕ)
  add_function p function = Ids.new (length p.functions) >>= λ id.
      some (record p { functions = p.functions ++ function ∷ [] }, id)

  unfoldable pub add_struct : CoreProgram F → AdtStructDecl → CoreProgram F
  add_struct p decl = record p { structs = p.structs ++ decl ∷ [] }

  unfoldable pub add_enum : CoreProgram F → AdtEnumDecl → CoreProgram F
  add_enum p decl = record p { enums = p.enums ++ decl ∷ [] }

  unfoldable pub set_entrypoints : CoreProgram F → List ℕ → CoreProgram F
  set_entrypoints p entrypoints = record p { entrypoints = entrypoints }

  unfoldable pub set_declared_var_type : CoreProgram F → ℕ → CoreTypeRef → CoreProgram F
  set_declared_var_type p binding ty = record p {
    declared_var_types = insert p.declared_var_types binding ty;
  }

  unfoldable pub declared_var_type : CoreProgram F → ℕ → Option CoreTypeRef
  declared_var_type p binding = get p.declared_var_types binding

  unfoldable pub replace_functions : CoreProgram F → List FunctionDecl → CoreProgram F
  replace_functions p functions = record p { functions = functions }

  unfoldable pub expr : CoreProgram F → ℕ → Option (ExprNode F)
  expr p id = get_elem? p.exprs id

  unfoldable pub stmt : CoreProgram F → ℕ → Option StmtNode
  stmt p id = get_elem? p.stmts id

  unfoldable pub function : CoreProgram F → ℕ → Option FunctionDecl
  function p id = get_elem? p.functions id

  unfoldable pub effect : CoreProgram F → ℕ → Option EffectDecl
  effect p id = get_elem? p.effects id

  -- `expr_mut`, `stmt_mut`: the node replaced through the reference; nothing where there is none
  unfoldable pub expr_mut : CoreProgram F → ℕ → ExprNode F → CoreProgram F
  expr_mut p id node = record p { exprs = set p.exprs id node }

  unfoldable pub stmt_mut : CoreProgram F → ℕ → StmtNode → CoreProgram F
  stmt_mut p id node = record p { stmts = set p.stmts id node }
