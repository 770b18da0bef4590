-- ===== src/Ir/Cfg/Program.antt =====
-- crates/cielo-ir/src/cfg.rs: `CfgProgram`, the arenas of a graph.
use cielo.Prelude.{
  ℕ, Option, some, List, [], ◌∷◌, ◌++◌, length, get_elem?, set, ◌==◌, if◌then◌else◌, ◌>>=◌,
}
use cielo.Base.Ids
use cielo.Ir.Region.{CfgRegion, RegionOwner, RegionSlot}
use cielo.Ir.Cfg.Expr.{CfgExpr, CfgExprNode}
use cielo.Ir.Cfg.Instruction.{CfgInstruction, CfgInstructionNode, CfgArcOp, CfgArcOps, no_arc_ops}
use cielo.Ir.Cfg.Terminator.{CfgTerminator, unreachable}

pub record CfgValue : Type 0 where
  pub id : ℕ
  pub source_var : Option ℕ

pub record CfgBlock : Type 0 where
  pub id : ℕ
  pub params : List ℕ
  pub instructions : List ℕ
  pub terminator : CfgTerminator
  pub entry_arc : List CfgArcOp
  pub terminator_arc : CfgArcOps
  pub source : Option ℕ

pub record CfgFunction : Type 0 where
  pub id : ℕ
  pub name : ℕ
  pub params : List ℕ
  pub entry : ℕ

pub record CfgHandlerClause : Type 0 where
  pub operation : ℕ
  pub function : ℕ

pub record CfgClauseTable : Type 0 where
  pub handler : ℕ
  pub clauses : List CfgHandlerClause

pub record CfgProgram (F : Type 0) : Type 0 where
  pub functions : List CfgFunction
  pub entrypoints : List ℕ
  pub values : List CfgValue
  pub exprs : List (CfgExprNode F)
  pub instructions : List CfgInstructionNode
  pub blocks : List CfgBlock
  pub regions : List CfgRegion
  pub clause_tables : List CfgClauseTable

abbrev pub find_table : ℕ → List CfgClauseTable → List CfgHandlerClause
find_table handler [] = []
find_table handler (table ∷ rest) =
    if table.handler == handler then table.clauses else find_table handler rest

module _ {F : Type 0} where
  unfoldable pub push_clause_table : CfgProgram F → ℕ → List CfgHandlerClause → CfgProgram F
  push_clause_table p handler clauses = record p {
    clause_tables = p.clause_tables ++ (record { handler = handler; clauses = clauses }) ∷ [];
  }

  unfoldable pub clauses_of : CfgProgram F → ℕ → List CfgHandlerClause
  clauses_of p handler = find_table handler p.clause_tables

  -- `none` is the failed assertion of an id's `new`, here and below.
  unfoldable pub push_region :
      CfgProgram F → RegionOwner → List RegionSlot → Option (CfgProgram F × ℕ)
  push_region p owner slots = Ids.new (length p.regions) >>= λ id. some (
    record p { regions = p.regions ++ (record { id = id; owner = owner; slots = slots }) ∷ [] },
    id,
  )

  unfoldable pub push_value : CfgProgram F → Option ℕ → Option (CfgProgram F × ℕ)
  push_value p source_var = Ids.new (length p.values) >>= λ id.
      some
        (record p { values = p.values ++ (record { id = id; source_var = source_var }) ∷ [] }, id)

  unfoldable pub push_expr : CfgProgram F → CfgExpr F → Option ℕ → Option (CfgProgram F × ℕ)
  push_expr p kind source = Ids.new (length p.exprs) >>= λ id.
      some (record p { exprs = p.exprs ++ (record { kind = kind; source = source }) ∷ [] }, id)

  unfoldable pub push_block : CfgProgram F → List ℕ → Option ℕ → Option (CfgProgram F × ℕ)
  push_block p params source = Ids.new (length p.blocks) >>= λ id.
      let block : CfgBlock = record {
        id = id;
        params = params;
        instructions = [];
        terminator = unreachable;
        entry_arc = [];
        terminator_arc = no_arc_ops;
        source = source;
      } in
      some (record p { blocks = p.blocks ++ block ∷ [] }, id)

  -- An index out of range panics: `none`, here and for `set_terminator`.
  unfoldable pub push_instruction :
      CfgProgram F → ℕ → CfgInstruction → Option ℕ → Option (CfgProgram F × ℕ)
  push_instruction p block kind source = Ids.new (length p.instructions) >>= λ id.
      get_elem? p.blocks block >>= λ node.
      let instruction : CfgInstructionNode = record {
        id = id;
        kind = kind;
        source = source;
        arc = no_arc_ops;
      } in
      some (
        record p {
          instructions = p.instructions ++ instruction ∷ [];
          blocks = set p.blocks block (record node { instructions = node.instructions ++ id ∷ [] });
        },
        id,
      )

  unfoldable pub set_terminator : CfgProgram F → ℕ → CfgTerminator → Option (CfgProgram F)
  set_terminator p block terminator = get_elem? p.blocks block >>= λ node.
      some (record p { blocks = set p.blocks block (record node { terminator = terminator }) })

  unfoldable pub region : CfgProgram F → ℕ → Option CfgRegion
  region p id = get_elem? p.regions id

  unfoldable pub value : CfgProgram F → ℕ → Option CfgValue
  value p id = get_elem? p.values id

  unfoldable pub expr : CfgProgram F → ℕ → Option (CfgExprNode F)
  expr p id = get_elem? p.exprs id

  unfoldable pub instruction : CfgProgram F → ℕ → Option CfgInstructionNode
  instruction p id = get_elem? p.instructions id

  unfoldable pub block : CfgProgram F → ℕ → Option CfgBlock
  block p id = get_elem? p.blocks id

  -- `region_mut`, `instruction_mut`, `block_mut`: the node replaced through the reference
  unfoldable pub region_mut : CfgProgram F → ℕ → CfgRegion → CfgProgram F
  region_mut p id node = record p { regions = set p.regions id node }

  unfoldable pub instruction_mut : CfgProgram F → ℕ → CfgInstructionNode → CfgProgram F
  instruction_mut p id node = record p { instructions = set p.instructions id node }

  unfoldable pub block_mut : CfgProgram F → ℕ → CfgBlock → CfgProgram F
  block_mut p id node = record p { blocks = set p.blocks id node }
