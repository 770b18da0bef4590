-- ===== src/Ir/FunctionGraph/Resolved.antt =====
-- crates/cielo-ir/src/function_graph.rs: what the ids of a pruned program resolve to.
use cielo.Prelude.{
  ℕ, ◌-◌, ◌^◌, ◌<◌, true, false, Option, none, some, List, [], ◌∷◌, length, get_elem?, map, All,
  ◌==◌, ==_iff, if◌then◌else◌, ◌≡◌, refl, sym, ◌∙◌, subst, arith, Bool-cases, inl, inr,
  get_elem?-none, ltb, ltb→lt,
}
use cielo.Prelude.Explore.{mem}
use cielo.Prelude.NatSet.{IsNodup}
use cielo.Prelude.NatSet.Pigeon.{AllBelow, length-le_of_nodup, mem_of_full}
use cielo.Base.Ids
use cielo.Ir.Core.Expr.{ExprNode}
use cielo.Ir.Core.Stmt.{StmtNode}
use cielo.Ir.Core.Program.{CoreProgram, FunctionDecl}
use cielo.Ir.FunctionGraph.{
  dense_remap, remap_func_id, filter_map, remap_callee, remap_stmt, remap_expr,
  remap_program_function_ids, poison_func_id, prune_to,
}
use cielo.Ir.FunctionGraph.Renamed.{
  Pairwise, Pairwise-map, Pairwise-same, RenamedStmtNode, RenamedExprNode, remap_stmt-RenamedStmt,
  remap_expr-RenamedExpr, RenamedStmt-same, RenamedExpr-same,
}
use cielo.Ir.FunctionGraph.Dense.{
  filter_map-cons, position, dense_remap-position, kept_get, kept_length, position-some,
  remap_callees-resolve,
}

-- An id among the new functions stands for the same function as an old one if that is reachable,
-- and for none otherwise.
abbrev pub Resolves : List FunctionDecl → List FunctionDecl → List ℕ → ℕ → ℕ → Type 0
Resolves old new reachable source target =
    get_elem? new target ≡ (if mem source reachable then get_elem? old source else none)

-- Where all the entry points are reachable, each keeps its function.
remap_entrypoints :
    (functions : List FunctionDecl) (reachable : List ℕ) (remap : List (Option ℕ))
    (entries : List ℕ)
    → AllBelow (length functions) reachable
    → ((s : ℕ) → remap_func_id remap s ≡ position 0 reachable s)
    → All (λ entry. mem entry reachable ≡ true) entries
    → Pairwise
        (Resolves functions (filter_map (get_elem? functions) reachable) reachable)
        entries
        (filter_map (remap_func_id remap) entries)
remap_entrypoints functions reachable remap [] below found reached = tt
remap_entrypoints functions reachable remap (entry ∷ entries) below found (here, reached) =
    let (id, placed) = position-some functions 0 reachable entry here in
    let rest = remap_entrypoints functions reachable remap entries below found reached in
    let (_, resolved) = kept_get functions reachable 0 entry id below placed in
    let whole : id - 0 ≡ id = omega arith in
    rw (filter_map-cons (remap_func_id remap) entry entries (found entry ∙ placed))
      (rw here (rw whole at resolved), rest)

-- A program pruned to the functions reachable. `stmts`, `exprs`, `entrypoints`: nothing but function
-- ids changes, and each stands for the same function, or for none if that is not reachable.
pub record IsPruned {F : Type 0} (program : CoreProgram F) (reachable : List ℕ)
    (pruned : CoreProgram F) (remap : List (Option ℕ)) : Type 0 where
  pub returned : prune_to program reachable ≡ some (pruned, remap)
  pub kept : length pruned.functions ≡ length reachable
  pub places : (source : ℕ) → remap_func_id remap source ≡ position 0 reachable source
  pub stmts :
      Pairwise
        (RenamedStmtNode (Resolves program.functions pruned.functions reachable))
        program.stmts
        pruned.stmts
  pub exprs :
      Pairwise
        (RenamedExprNode (Resolves program.functions pruned.functions reachable) {F = F})
        program.exprs
        pruned.exprs
  pub entrypoints :
      Pairwise
        (Resolves program.functions pruned.functions reachable)
        program.entrypoints
        pruned.entrypoints
  pub others : pruned ≡ record program {
    stmts = pruned.stmts;
    exprs = pruned.exprs;
    functions = pruned.functions;
    entrypoints = pruned.entrypoints;
  }

-- Where all are reachable, each id resolves as it did.
all_resolve :
    (functions : List FunctionDecl) (reachable : List ℕ)
    → IsNodup reachable
    → AllBelow (length functions) reachable
    → length reachable ≡ length functions
    → (callee : ℕ) → Resolves functions functions reachable callee callee
all_resolve functions reachable nodup below full callee =
    elim (Bool-cases (ltb callee (length functions))) [
      | inl lt ↦
          let inside = ltb→lt callee (length functions) lt in
          rw (mem_of_full (length functions) reachable callee nodup below full inside)
      | inr out ↦
          let missing = get_elem?-none functions callee (ground arith) in rw missing (ground arith)
    ]

module _ {F : Type 0} (program : CoreProgram F) (reachable : List ℕ) (nodup : IsNodup reachable)
    (below : AllBelow (length program.functions) reachable) (remap : List (Option ℕ))
    (returned : dense_remap (length program.functions) reachable ≡ some remap)
    (place : (source : ℕ) → remap_func_id remap source ≡ position 0 reachable source) where
  open program use {functions}

  prune_to_all : length reachable ≡ length functions → IsPruned program reachable program remap
  unfolding prune_to
  prune_to_all all =
      let same = all_resolve functions reachable nodup below all in
      let R = Resolves functions functions reachable in
      record {
        returned = rw returned (rw ((==_iff _ _).1 all));
        kept = sym all;
        places = place;
        stmts =
            Pairwise-same (RenamedStmtNode R) (λ stmt. (refl, RenamedStmt-same R same stmt.kind))
              program.stmts;
        exprs =
            Pairwise-same (RenamedExprNode R {F = F})
              (λ expr. (refl, RenamedExpr-same R same expr.kind)) program.exprs;
        entrypoints = Pairwise-same R same program.entrypoints;
        others = refl;
      }

  abbrev new_callee : ℕ → ℕ
  new_callee = remap_callee remap (length functions)

  abbrev kept_functions : List FunctionDecl
  kept_functions = filter_map (get_elem? functions) reachable

  abbrev renamed_program : CoreProgram F
  renamed_program = record program {
    stmts =
        map {A = StmtNode} (λ stmt. record stmt { kind = remap_stmt new_callee stmt.kind })
          program.stmts;
    exprs =
        map {A = ExprNode F} (λ expr. record expr { kind = remap_expr new_callee expr.kind })
          program.exprs;
    functions = kept_functions;
    entrypoints = filter_map (remap_func_id remap) program.entrypoints;
  }

  prune_to_part :
      (length reachable == length functions) ≡ false
      → length remap ≡ length functions
      → length functions < 2 ^ 32
      → All (λ entry. mem entry reachable ≡ true) program.entrypoints
      → ((callee : ℕ) → Resolves functions kept_functions reachable callee (new_callee callee))
      → IsPruned program reachable renamed_program remap
  unfolding prune_to remap_program_function_ids poison_func_id
  prune_to_part part size small reached resolves =
      let R = Resolves functions kept_functions reachable in
      record {
        returned = rw returned (rw part (rw size (rw (Ids.new-eq_of_lt (length functions) small))));
        kept = kept_length functions reachable below;
        places = place;
        stmts =
            Pairwise-map (RenamedStmtNode R)
              (λ stmt. record stmt { kind = remap_stmt new_callee stmt.kind })
              (λ stmt. (refl, remap_stmt-RenamedStmt R new_callee resolves stmt.kind))
              program.stmts;
        exprs =
            Pairwise-map (RenamedExprNode R {F = F})
              (λ expr. record expr { kind = remap_expr new_callee expr.kind })
              (λ expr. (refl, remap_expr-RenamedExpr R new_callee resolves expr.kind))
              program.exprs;
        entrypoints =
            remap_entrypoints functions reachable remap program.entrypoints below place reached;
        others = refl;
      }

-- Pruning a program of fewer than 2^32 functions to those reachable, which are distinct, in range
-- and hold the entry points, returns and keeps as many functions. The remapping gives each id its
-- place among those reachable, or nothing. In statements, expressions and entry points nothing
-- changes but the ids of functions: each resolves to the function that it named before if that is
-- reachable, and to none otherwise. The rest of the program is as it was.
pub prune_to-resolves :
    {F : Type 0} (program : CoreProgram F) (reachable : List ℕ)
    → IsNodup reachable
    → AllBelow (length program.functions) reachable
    → All (λ entry. mem entry reachable ≡ true) program.entrypoints
    → length program.functions < 2 ^ 32
    → (pruned : CoreProgram F) × (remap : List (Option ℕ)) × IsPruned program reachable pruned remap
prune_to-resolves {F} program reachable nodup below reached small =
    let functions = program.functions in
    let fewer = length-le_of_nodup (length functions) reachable nodup below in
    let (remap, returned, size, place) =
      dense_remap-position (length functions) reachable nodup below (omega arith) in
    let (remap', returned', resolves) =
      remap_callees-resolve functions reachable nodup below fewer small in
    let same : remap' ≡ remap = cc in
    elim (Bool-cases (length reachable == length functions)) [
      | inl full ↦ (
        program,
        remap,
        prune_to_all program reachable nodup below remap returned place ((==_iff _ _).0 full),
      )
      | inr part ↦ (
        renamed_program program reachable nodup below remap returned place,
        remap,
        prune_to_part program reachable nodup below remap returned place part size small reached (
            subst
              (λ (remap : List (Option ℕ)).
                (callee : ℕ)
                → Resolves functions (filter_map (get_elem? functions) reachable) reachable callee
                    (remap_callee remap (length functions) callee))
              same resolves),
      )
    ]
