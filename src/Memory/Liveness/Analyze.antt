-- ===== src/Memory/Liveness/Analyze.antt =====
-- crates/cielo-memory/src/refcount/analysis/cfg_liveness.rs: what blocks use and define, and the
-- analysis of a program. Blocks are numbered by their places.
pub mod Correct
use cielo.Prelude.{
  ℕ, suc, ◌+◌, ◌*◌, Bool, true, false, Option, none, some, List, [], ◌∷◌, if◌then◌else◌, get_elem?,
  length, map, max, replicate,
}
use mathlib.Core.List.{reverse}
use cielo.Prelude.Explore.{mem}
use cielo.Prelude.NatSet.{insert, insert_all}
use cielo.Ir.Cfg.Expr
use cielo.Ir.Cfg.Expr.{CfgExpr, CfgExprNode}
use cielo.Ir.Cfg.Instruction
use cielo.Ir.Cfg.Instruction.{CfgInstruction, CfgInstructionNode}
use cielo.Ir.Cfg.Terminator
use cielo.Ir.Cfg.Terminator.{CfgTerminator, option_to_list}
use cielo.Ir.Cfg.Program.{CfgProgram, CfgBlock, instruction}
use cielo.Ir.Walk.{descend, walk_exprs}
use cielo.Memory.Liveness.{get_set, Flow, Live, solve}

abbrev pub visited_ids : Option (Bool × List ℕ) → List ℕ
visited_ids none = []
visited_ids (some (finished, seen)) = seen

-- What a block defines so far, and what it uses before it defines it.
pub record Gathered : Type 0 where
  pub defs : List ℕ
  pub uses : List ℕ

-- The uses that are not defined yet, added to those of the block.
unfoldable pub add_uses : List ℕ → List ℕ → List ℕ → List ℕ
add_uses [] defs uses = uses
add_uses (value ∷ values) defs uses =
    add_uses values defs (if mem value defs then uses else insert value uses)

-- One more than the greatest value used.
abbrev pub upper : List ℕ → ℕ
upper [] = 0
upper (x ∷ xs) = max (suc x) (upper xs)

abbrev pub upper_of : List (List ℕ) → ℕ
upper_of [] = 0
upper_of (xs ∷ sets) = max (upper xs) (upper_of sets)

abbrev pub successors_of : Option CfgBlock → List ℕ
successors_of none = []
successors_of (some found) = Terminator.successors found.terminator

unfoldable pub collect_instruction_defs : CfgInstruction → List ℕ → List ℕ
collect_instruction_defs kind output = insert_all (option_to_list (Instruction.result kind)) output

module _ {F : Type 0} (cfg : CfgProgram F) where
  abbrev pub children : CfgExprNode F → List ℕ
  children node = Expr.child_exprs node.kind

  -- the value that an expression reads itself
  abbrev pub value_read : Option (CfgExprNode F) → List ℕ
  value_read none = []
  value_read (some node) = elim node.kind [ Expr.value v ↦ v ∷ [] | _ ↦ [] ]

  abbrev pub add_values : List ℕ → List ℕ → List ℕ
  add_values [] output = output
  add_values (id ∷ ids) output =
      add_values ids (insert_all (value_read (get_elem? cfg.exprs id)) output)

  -- The visitor descends everywhere, and adds the values of the nodes that it visits.
  unfoldable pub collect_expr_uses : ℕ → List ℕ → List ℕ
  collect_expr_uses expression output =
      add_values (visited_ids (walk_exprs children cfg.exprs expression (λ id node. descend)))
        output

  unfoldable pub collect_uses : List ℕ → List ℕ → List ℕ
  unfolding collect_expr_uses
  collect_uses [] output = output
  collect_uses (operand ∷ operands) output =
      collect_uses operands (collect_expr_uses operand output)

  unfoldable pub collect_instruction_uses : CfgInstruction → List ℕ → List ℕ
  unfolding collect_uses
  collect_instruction_uses kind output = collect_uses (Instruction.child_exprs kind) output

  unfoldable pub collect_terminator_uses : CfgTerminator → List ℕ → List ℕ
  unfolding collect_uses
  collect_terminator_uses terminator output =
      collect_uses (Terminator.child_exprs terminator) output

  abbrev pub gather_node : Option CfgInstructionNode → Gathered → Gathered
  gather_node none g = g
  gather_node (some node) g = record {
    uses = add_uses (collect_instruction_uses node.kind []) g.defs g.uses;
    defs = collect_instruction_defs node.kind g.defs;
  }

  unfoldable pub gather_instructions : List ℕ → Gathered → Gathered
  gather_instructions [] g = g
  gather_instructions (id ∷ ids) g = gather_instructions ids (gather_node (instruction cfg id) g)

  unfoldable pub gather_block : CfgBlock → Gathered
  unfolding gather_instructions
  gather_block block =
      let g =
        gather_instructions block.instructions
          (record { defs = insert_all block.params []; uses = [] }) in
      record g { uses = add_uses (collect_terminator_uses block.terminator []) g.defs g.uses }

  unfoldable pub block_uses : List (List ℕ)
  unfolding gather_block
  block_uses = map (λ block. (gather_block block).uses) cfg.blocks

  unfoldable pub block_defs : List (List ℕ)
  unfolding gather_block
  block_defs = map (λ block. (gather_block block).defs) cfg.blocks

  unfoldable pub flow_of : Flow
  unfolding block_uses block_defs
  flow_of = record {
    successors = λ i. successors_of (get_elem? cfg.blocks i);
    uses = get_set block_uses;
    defs = get_set block_defs;
  }

  unfoldable pub order : List ℕ
  order = reverse (map (λ block. block.id) cfg.blocks)

  -- rounds enough: each but the last adds a value to the set of an entry or an exit
  abbrev pub value_bound : ℕ
  value_bound = upper_of block_uses

  abbrev pub analysis_fuel : ℕ
  analysis_fuel = suc (length cfg.blocks * value_bound + length cfg.blocks * value_bound)

  abbrev pub no_sets : Live
  no_sets = record {
    live_in = replicate (length cfg.blocks) [];
    live_out = replicate (length cfg.blocks) [];
    changed = true;
  }

  -- The sets on entry and on exit of each block.
  unfoldable pub analyze_flow : Option Live
  unfolding flow_of order
  analyze_flow = solve flow_of analysis_fuel order no_sets
