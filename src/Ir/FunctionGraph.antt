-- ===== src/Ir/FunctionGraph.antt =====
-- crates/cielo-ir/src/function_graph.rs: new ids for the functions that are kept.
mod Dense
pub mod Renamed
pub mod Resolved
use cielo.Prelude.{
  ℕ, zero, suc, Bool, true, false, Option, none, some, List, [], ◌∷◌, length, get_elem?, set,
  replicate, map, ltb, ◌==◌, ◌>>=◌, if◌then◌else◌,
}
use cielo.Base.Ids
use cielo.Ir.Core.Expr
use cielo.Ir.Core.Expr.{ExprKind, ExprNode, pure_call, make_closure}
use cielo.Ir.Core.Stmt.{StmtKind, StmtNode, call}
use cielo.Ir.Core.Program.{CoreProgram, FunctionDecl}

-- The loop of `dense_remap` from a dense index on; `none` is an index out of range, or the failed
-- assertion of an id's `new`.
unfoldable pub remap_from : List (Option ℕ) → ℕ → List ℕ → Option (List (Option ℕ))
remap_from remap dense_idx [] = some remap
remap_from remap dense_idx (source_id ∷ rest) =
    if ltb source_id (length remap)
    then (Ids.new dense_idx >>= λ id.
        remap_from (set remap source_id (some id)) (suc dense_idx) rest)
    else none

unfoldable pub dense_remap : ℕ → List ℕ → Option (List (Option ℕ))
unfolding remap_from
dense_remap total_functions reachable = remap_from (replicate total_functions none) 0 reachable

-- `flatten`
abbrev pub flatten : Option (Option ℕ) → Option ℕ
flatten none = none
flatten (some o) = o

unfoldable pub remap_func_id : List (Option ℕ) → ℕ → Option ℕ
remap_func_id remap source = flatten (get_elem? remap source)

unfoldable pub poison_func_id : List (Option ℕ) → Option ℕ
poison_func_id remap = Ids.new (length remap)

abbrev pub unwrap_or : Option ℕ → ℕ → ℕ
unwrap_or none poison = poison
unwrap_or (some id) poison = id

abbrev pub filter_map {ℓ κ} : {A : Type ℓ} {B : Type κ} → (A → Option B) → List A → List B
filter_map f [] = []
filter_map f (x ∷ xs) = elim (f x) [ none ↦ filter_map f xs | some y ↦ y ∷ filter_map f xs ]

-- The id that a call site gets.
unfoldable pub remap_callee : List (Option ℕ) → ℕ → ℕ → ℕ
unfolding remap_func_id
remap_callee remap poison callee = unwrap_or (remap_func_id remap callee) poison

unfoldable pub remap_stmt : (ℕ → ℕ) → StmtKind → StmtKind
remap_stmt new (call result callee args effects next) = call result (new callee) args effects next
remap_stmt new kind = kind

module _ {F : Type 0} where
  unfoldable pub remap_expr : (ℕ → ℕ) → ExprKind F → ExprKind F
  remap_expr new (pure_call callee args) = pure_call (new callee) args
  remap_expr new (make_closure func captures) = make_closure (new func) captures
  remap_expr new kind = kind

  unfoldable pub remap_program_function_ids :
      CoreProgram F → List (Option ℕ) → Option (CoreProgram F)
  unfolding remap_stmt remap_expr remap_callee poison_func_id
  remap_program_function_ids program remap = poison_func_id remap >>= λ poison.
      let new = remap_callee remap poison in
      some (record program {
        stmts =
            map {A = StmtNode} (λ stmt. record stmt { kind = remap_stmt new stmt.kind })
              program.stmts;
        exprs =
            map {A = ExprNode F} (λ expr. record expr { kind = remap_expr new expr.kind })
              program.exprs;
      })

  -- `prune_unreachable_functions`, given the functions reachable
  unfoldable pub prune_to : CoreProgram F → List ℕ → Option (CoreProgram F × List (Option ℕ))
  unfolding dense_remap remap_program_function_ids
  prune_to program reachable = dense_remap (length program.functions) reachable >>= λ remap.
      if length reachable == length program.functions
      then some (program, remap)
      else (remap_program_function_ids program remap >>= λ renamed. some (
        record renamed {
          functions = filter_map (get_elem? program.functions) reachable;
          entrypoints = filter_map (remap_func_id remap) program.entrypoints;
        },
        remap,
      ))
