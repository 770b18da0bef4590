-- ===== src/Ir/FunctionGraph/Renamed.antt =====
-- crates/cielo-ir/src/function_graph.rs: what changes when functions get other ids.
use cielo.Prelude.{ℕ, List, [], ◌∷◌, map, ◌≡◌, refl}
use cielo.Ir.Core.Expr.{ExprKind, ExprNode, pure_call, make_closure}
use cielo.Ir.Core.Stmt.{StmtKind, StmtNode, call}
use cielo.Ir.FunctionGraph.{remap_stmt, remap_expr}

abbrev pub Pairwise : {A : Type 0} → (A → A → Type 0) → List A → List A → Type 0
Pairwise R [] [] = Unit
Pairwise R (x ∷ xs) (y ∷ ys) = R x y × Pairwise R xs ys
Pairwise R _ _ = ⊥

pub Pairwise-map :
    {A : Type 0} (R : A → A → Type 0) (f : A → A)
    → ((x : A) → R x (f x))
    → (xs : List A) → Pairwise R xs (map f xs)
Pairwise-map R f h [] = tt
Pairwise-map R f h (x ∷ xs) = (h x, Pairwise-map R f h xs)

pub Pairwise-same :
    {A : Type 0} (R : A → A → Type 0) → ((x : A) → R x x) → (xs : List A) → Pairwise R xs xs
Pairwise-same R h [] = tt
Pairwise-same R h (x ∷ xs) = (h x, Pairwise-same R h xs)

-- A statement or an expression that differs from another in the function named only, by `R`: those
-- that name none are equal.
module _ (R : ℕ → ℕ → Type 0) where
  abbrev pub RenamedStmt : StmtKind → StmtKind → Type 0
  RenamedStmt (call result callee args effects next) kind =
      (callee' : ℕ) × (kind ≡ call result callee' args effects next) × R callee callee'
  RenamedStmt old kind = kind ≡ old

  abbrev pub RenamedExpr : {F : Type 0} → ExprKind F → ExprKind F → Type 0
  RenamedExpr (pure_call callee args) kind =
      (callee' : ℕ) × (kind ≡ pure_call callee' args) × R callee callee'
  RenamedExpr (make_closure func captures) kind =
      (func' : ℕ) × (kind ≡ make_closure func' captures) × R func func'
  RenamedExpr old kind = kind ≡ old

  abbrev pub RenamedStmtNode : StmtNode → StmtNode → Type 0
  RenamedStmtNode old node = (node.span ≡ old.span) × RenamedStmt old.kind node.kind

  abbrev pub RenamedExprNode : {F : Type 0} → ExprNode F → ExprNode F → Type 0
  RenamedExprNode old node = (node.span ≡ old.span) × RenamedExpr old.kind node.kind

  module _ (new : ℕ → ℕ) (renamed : (callee : ℕ) → R callee (new callee)) where
    pub remap_stmt-RenamedStmt : (kind : StmtKind) → RenamedStmt kind (remap_stmt new kind)
    unfolding remap_stmt
    remap_stmt-RenamedStmt (call result callee args effects next) =
        (new callee, refl, renamed callee)
    remap_stmt-RenamedStmt _ = refl

    pub remap_expr-RenamedExpr :
        {F : Type 0} (kind : ExprKind F) → RenamedExpr kind (remap_expr new kind)
    unfolding remap_expr
    remap_expr-RenamedExpr (pure_call callee args) = (new callee, refl, renamed callee)
    remap_expr-RenamedExpr (make_closure func captures) = (new func, refl, renamed func)
    remap_expr-RenamedExpr _ = refl

  module _ (same : (callee : ℕ) → R callee callee) where
    pub RenamedStmt-same : (kind : StmtKind) → RenamedStmt kind kind
    RenamedStmt-same (call result callee args effects next) = (callee, refl, same callee)
    RenamedStmt-same _ = refl

    pub RenamedExpr-same : {F : Type 0} (kind : ExprKind F) → RenamedExpr kind kind
    RenamedExpr-same (pure_call callee args) = (callee, refl, same callee)
    RenamedExpr-same (make_closure func captures) = (func, refl, same func)
    RenamedExpr-same _ = refl
