-- ===== src/Ir/Cfg/Validate.antt =====
-- crates/cielo-ir/src/cfg.rs: the checks of `validate` on assignments and on each block.
pub mod Sound
pub mod Assigned
use cielo.Prelude.{
  ℕ, Bool, true, false, not, Option, none, some, List, [], ◌∷◌, ◌++◌, length, ◌==◌, if◌then◌else◌,
}
use cielo.Prelude.Classes.{nat_eq}
use cielo.Prelude.HashMap as Map
use cielo.Prelude.HashMap.{HashMap}
use cielo.Ir.Region.{CfgRegion}
use cielo.Ir.Cfg.Instruction
use cielo.Ir.Cfg.Instruction.{CfgInstruction, CfgInstructionNode, region_enter, region_exit}
use cielo.Ir.Cfg.Terminator.{
  CfgTerminator, CfgMatchArm, CfgProjectionMode, match_on, successors_with_arity,
}
use cielo.Ir.Cfg.Program.{CfgProgram, CfgBlock, value, instruction, region, block}

-- An error, with the ids and the counts that its message shows, in their order.
pub data GraphError : Type 0 where
  assigned_twice : (value previous instruction : ℕ) → GraphError
  invalid_parameter : (block param : ℕ) → GraphError
  invalid_instruction : (block instruction : ℕ) → GraphError
  unknown_region : (block region : ℕ) → GraphError
  wrong_arity : (block target passed params : ℕ) → GraphError
  invalid_successor : (block target : ℕ) → GraphError
  wrong_projections : (block target binders projections : ℕ) → GraphError

abbrev pub assigned_error : ℕ → ℕ → Option ℕ → List GraphError
assigned_error result id none = []
assigned_error result id (some previous) = assigned_twice result previous id ∷ []

abbrev pub expect_some {ℓ} : {A : Type ℓ} → GraphError → Option A → List GraphError
expect_some error none = error ∷ []
expect_some error (some a) = []

abbrev pub arity_error : ℕ → ℕ → ℕ → Option CfgBlock → List GraphError
arity_error block target passed none = invalid_successor block target ∷ []
arity_error block target passed (some found) =
    if length found.params == passed
    then []
    else wrong_arity block target passed (length found.params) ∷ []

unfoldable pub arm_errors : ℕ → List CfgMatchArm → List GraphError
arm_errors block [] = []
arm_errors block (arm ∷ arms) =
    (if length arm.binders == length arm.projections
      then []
      else wrong_projections block arm.target (length arm.binders) (length arm.projections) ∷ [])
    ++ arm_errors block arms

abbrev pub end_errors : ℕ → CfgTerminator → List GraphError
end_errors block (match_on scrutinee arms default) = arm_errors block arms
end_errors block _ = []

module _ {F : Type 0} (cfg : CfgProgram F) where
  -- The instruction that assigned each value so far, and the errors of the rest.
  unfoldable pub result_of : Option CfgInstructionNode → Option (ℕ × ℕ)
  result_of none = none
  result_of (some node) = elim (Instruction.result node.kind) [
    | none ↦ none
    | some written ↦ some (written, node.id)
  ]

  unfoldable pub check_assignments : List ℕ → HashMap ℕ ℕ → HashMap ℕ ℕ × List GraphError
  check_assignments [] assigned_by = (assigned_by, [])
  check_assignments (id ∷ ids) assigned_by = elim (result_of (instruction cfg id)) [
    | none ↦ check_assignments ids assigned_by
    | some (written, by) ↦
        let (after, errors) = check_assignments ids (Map.insert assigned_by written by) in
        (after, assigned_error written by (Map.get assigned_by written) ++ errors)
  ]

  unfoldable pub check_block_assignments : List CfgBlock → HashMap ℕ ℕ → List GraphError
  unfolding check_assignments
  check_block_assignments [] assigned_by = []
  check_block_assignments (block ∷ blocks) assigned_by =
      let (after, errors) = check_assignments block.instructions assigned_by in
      errors ++ check_block_assignments blocks after

  unfoldable pub check_single_assignment : List GraphError
  unfolding check_block_assignments
  check_single_assignment = check_block_assignments cfg.blocks []

  unfoldable pub param_errors : ℕ → List ℕ → List GraphError
  param_errors block [] = []
  param_errors block (param ∷ params) =
      expect_some (invalid_parameter block param) (value cfg param) ++ param_errors block params

  abbrev pub region_errors : ℕ → CfgInstruction → List GraphError
  region_errors block (region_enter id) = expect_some (unknown_region block id) (region cfg id)
  region_errors block (region_exit id) = expect_some (unknown_region block id) (region cfg id)
  region_errors block _ = []

  abbrev pub node_errors : ℕ → ℕ → Option CfgInstructionNode → List GraphError
  node_errors block id none = invalid_instruction block id ∷ []
  node_errors block id (some node) = region_errors block node.kind

  unfoldable pub instruction_errors : ℕ → List ℕ → List GraphError
  instruction_errors block [] = []
  instruction_errors block (id ∷ ids) =
      node_errors block id (instruction cfg id) ++ instruction_errors block ids

  unfoldable pub edge_errors : ℕ → List (ℕ × ℕ) → List GraphError
  edge_errors block_id [] = []
  edge_errors block_id ((target, passed) ∷ edges) =
      arity_error block_id target passed (block cfg target) ++ edge_errors block_id edges

  -- The loop of `validate` over the blocks.
  unfoldable pub check_blocks : List CfgBlock → List GraphError
  unfolding param_errors instruction_errors edge_errors arm_errors
  check_blocks [] = []
  check_blocks (block ∷ blocks) =
      param_errors block.id block.params
      ++ (instruction_errors block.id block.instructions
          ++ (edge_errors block.id (successors_with_arity block.terminator)
              ++ (end_errors block.id block.terminator ++ check_blocks blocks)))
