-- ===== src/Memory/Verify.antt =====
-- crates/cielo-memory/src/refcount/verify.rs: the check of a finished plan of reference counting.
pub mod Clean
pub mod Sites
pub mod Unique
use cielo.Prelude.{
  ℕ, suc, ◌+◌, Bool, true, false, not, ◌&&◌, ◌||◌, Option, none, some, List, [], ◌∷◌, ◌++◌, any,
  ltb, if◌then◌else◌,
}
use cielo.Prelude.Explore.{mem}
use cielo.Prelude.Classes.{nat_eq}
use cielo.Prelude.NatSet.{insert}
use cielo.Prelude.HashMap as Map
use cielo.Prelude.HashMap.{HashMap}
use cielo.Base.Ids.{saturating_add}
use cielo.Ir.Cfg.Expr.{CfgExpr, CfgExprNode}
use cielo.Ir.Cfg.Expr
use cielo.Ir.Cfg.Instruction.{CfgArcOp, CfgArcOpKind, retain, release, CfgInstructionNode}
use cielo.Ir.Cfg.Terminator.{
  CfgTerminator, CfgMatchArm, CfgProjectionMode, borrow, copy, move, move_unique, match_on,
}
use cielo.Ir.Cfg.Program.{CfgProgram, CfgBlock, value, expr, instruction}

pub record CfgArcVerifyStats : Type 0 where
  pub checked_blocks : ℕ
  pub checked_ops : ℕ
  pub checked_moves : ℕ
  pub checked_unique_moves : ℕ
  pub errors : ℕ

-- A report is its code with the ids that its message names, the value before the block. `G` is the
-- type of the errors of the graph's own validation.
pub data Report (G : Type 0) : Type 0 where
  invalid_graph : G → Report G
  double_release : (value block : ℕ) → Report G
  unique_move_temporary : (block : ℕ) → Report G
  unique_move_retained : (value block : ℕ) → Report G
  unique_move_shared : (value block : ℕ) → Report G
  invalid_value : (value : ℕ) → Report G
  dup_release : (value : ℕ) → Report G

-- What is reported to the bag of diagnostics, in order, and the statistics.
pub record Verifying (G : Type 0) : Type 0 where
  pub reports : List (Report G)
  pub stats : CfgArcVerifyStats

abbrev pub is_release : CfgArcOpKind → Bool
is_release release = true
is_release retain = false

abbrev pub is_retain : CfgArcOpKind → Bool
is_retain release = false
is_retain retain = true

abbrev pub is_none {ℓ} : {A : Type ℓ} → Option A → Bool
is_none none = true
is_none (some a) = false

abbrev pub is_move_unique : CfgProjectionMode → Bool
is_move_unique move_unique = true
is_move_unique borrow = false
is_move_unique copy = false
is_move_unique move = false

abbrev pub count_mode : CfgProjectionMode → CfgArcVerifyStats → CfgArcVerifyStats
count_mode move stats = record stats { checked_moves = saturating_add stats.checked_moves 1 }
count_mode move_unique stats = record stats {
  checked_unique_moves = saturating_add stats.checked_unique_moves 1;
}
count_mode borrow stats = stats
count_mode copy stats = stats

abbrev pub count_modes : List CfgProjectionMode → CfgArcVerifyStats → CfgArcVerifyStats
count_modes [] stats = stats
count_modes (mode ∷ modes) stats = count_modes modes (count_mode mode stats)

abbrev pub count_arms : List CfgMatchArm → CfgArcVerifyStats → CfgArcVerifyStats
count_arms [] stats = stats
count_arms (arm ∷ arms) stats = count_arms arms (count_modes arm.projections stats)

abbrev pub count_moves : CfgTerminator → CfgArcVerifyStats → CfgArcVerifyStats
count_moves (match_on scrutinee arms default) stats = count_arms arms stats
count_moves _ stats = stats

-- the values of the retaining operations, added to a set
abbrev pub add_retained : List CfgArcOp → List ℕ → List ℕ
add_retained [] retained = retained
add_retained (op ∷ ops) retained =
    add_retained ops (if is_retain op.kind then insert op.value retained else retained)

abbrev pub count_or_zero : Option ℕ → ℕ
count_or_zero none = 0
count_or_zero (some n) = n

abbrev pub takes_unique : List CfgMatchArm → Bool
takes_unique = any (λ arm. any is_move_unique arm.projections)

module _ {G : Type 0} where
  unfoldable pub report : Report G → Verifying G → Verifying G
  report entry s = record {
    reports = s.reports ++ entry ∷ [];
    stats = record s.stats { errors = saturating_add s.stats.errors 1 };
  }

  abbrev pub report_if : Bool → Report G → Verifying G → Verifying G
  report_if true entry s = report entry s
  report_if false entry s = s

  unfoldable pub collect_releases : ℕ → List CfgArcOp → List ℕ → Verifying G → List ℕ × Verifying G
  collect_releases block [] seen s = (seen, s)
  collect_releases block (op ∷ ops) seen s =
      collect_releases block ops (if is_release op.kind then insert op.value seen else seen)
        (report_if (is_release op.kind && mem op.value seen) (double_release op.value block) s)

  abbrev pub report_graph : List G → Verifying G → Verifying G
  report_graph [] s = s
  report_graph (error ∷ errors) s = report_graph errors (report (invalid_graph error) s)

abbrev pub no_stats : CfgArcVerifyStats
no_stats = record {
  checked_blocks = 0;
  checked_ops = 0;
  checked_moves = 0;
  checked_unique_moves = 0;
  errors = 0;
}

module _ {F : Type 0} (cfg : CfgProgram F) where
  abbrev pub node_sites : Option CfgInstructionNode → List (List CfgArcOp)
  node_sites none = []
  node_sites (some node) = node.arc.pre ∷ node.arc.post ∷ []

  abbrev pub instruction_sites : List ℕ → List (List CfgArcOp)
  instruction_sites [] = []
  instruction_sites (id ∷ ids) = node_sites (instruction cfg id) ++ instruction_sites ids

  -- The places of a block that hold operations, in the order of its straight-line path.
  abbrev pub block_sites : CfgBlock → List (List CfgArcOp)
  block_sites block =
      block.entry_arc
      ∷ (instruction_sites block.instructions
          ++ (block.terminator_arc.pre ∷ block.terminator_arc.post ∷ []))

  abbrev pub retained_at : List (List CfgArcOp) → List ℕ → List ℕ
  retained_at [] retained = retained
  retained_at (ops ∷ sites) retained = retained_at sites (add_retained ops retained)

  -- The values that some operation retains; the set does not depend on the order of the sites.
  unfoldable pub collect_retained : List CfgBlock → List ℕ → List ℕ
  collect_retained [] retained = retained
  collect_retained (block ∷ blocks) retained =
      collect_retained blocks (retained_at (block_sites block) retained)

  abbrev pub value_of : Option (CfgExprNode F) → Option ℕ
  value_of none = none
  value_of (some node) = elim node.kind [ Expr.value v ↦ some v | _ ↦ none ]

  -- the value that a block's end matches on
  abbrev pub scrutinised_value : CfgTerminator → Option ℕ
  scrutinised_value (match_on scrutinee arms default) = value_of (expr cfg scrutinee)
  scrutinised_value _ = none

  abbrev pub count_scrutiny : Option ℕ → HashMap ℕ ℕ → HashMap ℕ ℕ
  count_scrutiny none counts = counts
  count_scrutiny (some v) counts = Map.insert counts v (suc (count_or_zero (Map.get counts v)))

  -- How many blocks match on each value.
  unfoldable pub collect_scrutinised : List CfgBlock → HashMap ℕ ℕ → HashMap ℕ ℕ
  collect_scrutinised [] counts = counts
  collect_scrutinised (block ∷ blocks) counts =
      collect_scrutinised blocks (count_scrutiny (scrutinised_value block.terminator) counts)

  abbrev pub verify_parent :
      {G : Type 0} → List ℕ → HashMap ℕ ℕ → ℕ → Option ℕ → Verifying G → Verifying G
  verify_parent retained counts block none s = report (unique_move_temporary block) s
  verify_parent retained counts block (some parent) s =
      report_if (ltb 1 (count_or_zero (Map.get counts parent))) (unique_move_shared parent block)
        (report_if (mem parent retained) (unique_move_retained parent block) s)

  abbrev pub verify_unique_end :
      {G : Type 0} → List ℕ → HashMap ℕ ℕ → ℕ → CfgTerminator → Verifying G → Verifying G
  verify_unique_end retained counts block (match_on scrutinee arms default) s =
      if takes_unique arms
      then verify_parent retained counts block (value_of (expr cfg scrutinee)) s
      else s
  verify_unique_end retained counts block _ s = s

  unfoldable pub verify_unique_blocks :
      {G : Type 0} → List ℕ → HashMap ℕ ℕ → List CfgBlock → Verifying G → Verifying G
  verify_unique_blocks retained counts [] s = s
  verify_unique_blocks retained counts (block ∷ blocks) s =
      verify_unique_blocks retained counts blocks
        (verify_unique_end retained counts block.id block.terminator s)

  unfoldable pub verify_unique_moves : {G : Type 0} → Verifying G → Verifying G
  unfolding collect_retained collect_scrutinised verify_unique_blocks
  verify_unique_moves s =
      verify_unique_blocks (collect_retained cfg.blocks []) (collect_scrutinised cfg.blocks [])
        cfg.blocks s

  abbrev pub count_op : {G : Type 0} → Verifying G → Verifying G
  count_op s = record s {
    stats = record s.stats { checked_ops = saturating_add s.stats.checked_ops 1 };
  }

  unfoldable pub verify_ops_from : {G : Type 0} → List CfgArcOp → List ℕ → Verifying G → Verifying G
  verify_ops_from [] releases s = s
  verify_ops_from (op ∷ ops) releases s =
      verify_ops_from ops (if is_release op.kind then insert op.value releases else releases) (
        report_if (is_release op.kind && mem op.value releases) (dup_release op.value)
          (report_if (is_none (value cfg op.value)) (invalid_value op.value) (count_op s)))

  unfoldable pub verify_ops : {G : Type 0} → List CfgArcOp → Verifying G → Verifying G
  unfolding verify_ops_from
  verify_ops ops s = verify_ops_from ops [] s

  unfoldable pub verify_sites :
      {G : Type 0} → ℕ → List (List CfgArcOp) → List ℕ → Verifying G → Verifying G
  verify_sites block [] seen s = s
  verify_sites block (ops ∷ sites) seen s =
      let (seen', s') = collect_releases block ops seen (verify_ops ops s) in
      verify_sites block sites seen' s'

  abbrev pub count_block : {G : Type 0} → Verifying G → Verifying G
  count_block s = record s {
    stats = record s.stats { checked_blocks = saturating_add s.stats.checked_blocks 1 };
  }

  abbrev pub count_end : {G : Type 0} → CfgTerminator → Verifying G → Verifying G
  count_end terminator s = record s { stats = count_moves terminator s.stats }

  unfoldable pub verify_blocks : {G : Type 0} → List CfgBlock → Verifying G → Verifying G
  verify_blocks [] s = s
  verify_blocks (block ∷ blocks) s =
      verify_blocks blocks
        (count_end block.terminator (verify_sites block.id (block_sites block) [] (count_block s)))

  -- `graph_errors` are what the graph's validation returned.
  unfoldable pub verify : {G : Type 0} → List G → Verifying G
  unfolding verify_unique_moves verify_blocks verify_sites verify_ops
  verify graph_errors =
      verify_blocks cfg.blocks (
        verify_unique_moves (report_graph graph_errors (record { reports = []; stats = no_stats })))
