-- ===== src/Ir/Core/Program/Laws.antt =====
-- crates/cielo-ir/src/core.rs: pushing to the arenas, and finding there.
use cielo.Prelude.{
  ℕ, ◌+◌, ◌^◌, ◌<◌, ◌≡◌, refl, ◌∙◌, some, List, [], ◌∷◌, ◌++◌, length, length-append, get_elem?,
  get_elem?-append_left, get_elem?-concat_self, lt-length_of_get_elem?,
}
use cielo.Base.Ids
use cielo.Ir.Core.Expr.{ExprNode}
use cielo.Ir.Core.Stmt.{StmtNode}
use cielo.Ir.Core.Program.{CoreProgram, push_expr, push_stmt, expr, stmt}

-- What one id of an arena gives is found there, and what was found before still is.
record Grown {A : Type 0} (before after : List A) (id : ℕ) (node : A) : Type 0 where
  placed : get_elem? after id ≡ some node
  kept : (j : ℕ) (x : A) → get_elem? before j ≡ some x → get_elem? after j ≡ some x
  size : length after ≡ length before + 1
  at_end : id ≡ length before

concat-Grown : {A : Type 0} (xs : List A) (x : A) → Grown xs (xs ++ x ∷ []) (length xs) x
concat-Grown xs x = record {
  placed = get_elem?-concat_self xs x;
  kept = λ j y h. get_elem?-append_left xs (x ∷ []) j (lt-length_of_get_elem? xs j h) ∙ h;
  size = length-append xs (x ∷ []);
  at_end = refl;
}

module _ {F : Type 0} where
  -- An expression arena with room takes the node at the next id; it is found there, every earlier
  -- id keeps its expression, and every id its statement.
  pub push_expr_lem :
      (p : CoreProgram F) (node : ExprNode F)
      → length p.exprs < 2 ^ 32
      → (p' : CoreProgram F) × (push_expr p node ≡ some (p', length p.exprs))
        × (expr p' (length p.exprs) ≡ some node)
        × ((j : ℕ) (x : ExprNode F) → expr p j ≡ some x → expr p' j ≡ some x)
        × ((j : ℕ) → stmt p' j ≡ stmt p j)
  unfolding push_expr expr stmt
  push_expr_lem p node room =
      let grown = concat-Grown p.exprs node in
      (
        record p { exprs = p.exprs ++ node ∷ [] },
        rw (Ids.new-eq_of_lt (length p.exprs) room),
        grown.placed,
        grown.kept,
        λ j. refl,
      )

  pub push_stmt_lem :
      (p : CoreProgram F) (node : StmtNode)
      → length p.stmts < 2 ^ 32
      → (p' : CoreProgram F) × (push_stmt p node ≡ some (p', length p.stmts))
        × (stmt p' (length p.stmts) ≡ some node)
        × ((j : ℕ) (x : StmtNode) → stmt p j ≡ some x → stmt p' j ≡ some x)
        × ((j : ℕ) → expr p' j ≡ expr p j)
  unfolding push_stmt expr stmt
  push_stmt_lem p node room =
      let grown = concat-Grown p.stmts node in
      (
        record p { stmts = p.stmts ++ node ∷ [] },
        rw (Ids.new-eq_of_lt (length p.stmts) room),
        grown.placed,
        grown.kept,
        λ j. refl,
      )
