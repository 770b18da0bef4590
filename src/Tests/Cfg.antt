-- ===== src/Tests/Cfg.antt =====
-- Runs of crates/cielo-ir/src/cfg.rs and walk.rs, crates/cielo-runtime/src/region.rs, and
-- crates/cielo-memory/src/refcount/verify.rs, analysis/cfg_liveness.rs and
-- analysis/managed.rs.
use cielo.Prelude.{
  ℕ, zero, suc, Bool, true, false, not, ◌&&◌, Option, some, none, List, [], ◌∷◌, ◌≡◌, ◌↔◌, refl,
  sym, ◌==◌, arith, get_elem?, ap, map,
}
use cielo.Prelude.Explore.{mem}
use cielo.Prelude.NatSet.{IsNodup}
use cielo.Ir.Region.{CfgRegion, handler_owner, handler_evidence, Placement, stack, arena}
use cielo.Ir.Cfg.Expr
use cielo.Ir.Cfg.Expr.{CfgExpr, CfgExprNode}
use cielo.Ir.Cfg.Instruction.{CfgArcOps, release, region_enter, region_exit, eval_value, no_arc_ops}
use cielo.Ir.Cfg.Terminator.{CfgTerminator, CfgMatchArm, move_unique, goto, perform, match_on, ret}
use cielo.Ir.Cfg.Program.{CfgProgram, CfgBlock, CfgValue, region}
use cielo.Ir.Cfg.Validate.{check_blocks, check_single_assignment}
use cielo.Ir.Cfg.Validate.Sound.{BlocksFit, check_blocks_iff}
use cielo.Ir.Cfg.Validate.Assigned.{assigned_values, check_single_assignment_iff}
use cielo.Ir.Walk.{any_expr}
use cielo.Ir.Walk.Reached.{Found, any_expr_iff}
use cielo.Runtime.Region.{place, own_effect}
use cielo.Runtime.Region.Confined.{IsConfined}
use cielo.Runtime.Region.Placed.{HasDenseIds, place-on_stack_iff}
use cielo.Memory.Liveness.{Live, IsLiveness, get_set}
use cielo.Memory.Liveness.Analyze.{analyze_flow, flow_of}
use cielo.Memory.Liveness.Analyze.Correct.{HasDenseBlocks, analyze_flow-IsLiveness}
use cielo.Memory.Liveness.LastUses.{scan_block}
use cielo.Memory.Liveness.LastUses.Agree.{scan_block-live_in}
use cielo.Memory.Managed.{is_managed, Managed, block_moves, classify}
use cielo.Memory.Managed.Least.{Targets, classify-Managed}
use cielo.Memory.Verify.{verify, Report}
use cielo.Memory.Verify.Sites.{BlocksRelease}
use cielo.Memory.Verify.Unique.{UniqueMoves, verify-clean_iff}

abbrev plain_block : ℕ → List ℕ → CfgTerminator → CfgBlock
plain_block id instructions terminator = record {
  id = id;
  params = [];
  instructions = instructions;
  terminator = terminator;
  entry_arc = [];
  terminator_arc = no_arc_ops;
  source = none;
}

abbrev release_one : CfgArcOps
release_one = record { pre = []; post = (record { kind = release; value = 1 }) ∷ [] }

-- A handler's region that performs its own effect, and a match that takes a field as unique.
abbrev arm : CfgMatchArm
arm = record { tag = 0; binders = 1 ∷ []; projections = move_unique ∷ []; target = 3 }

abbrev handler_region : Placement → CfgRegion
handler_region placement = record {
  id = 0;
  owner = handler_owner 0 7;
  slots = (record { kind = handler_evidence 7; placement = placement }) ∷ [];
}

abbrev program : CfgProgram ℕ
program = record {
  functions = [];
  entrypoints = [];
  values = (record { id = 0; source_var = none }) ∷ (record { id = 1; source_var = none }) ∷ [];
  exprs =
      (record { kind = Expr.value 0; source = none })
      ∷ (record { kind = Expr.field 0 0; source = none })
      ∷ [];
  instructions =
      (record { id = 0; kind = region_enter 0; source = none; arc = no_arc_ops })
      ∷ (record { id = 1; kind = eval_value 0 1; source = none; arc = no_arc_ops })
      ∷ (record { id = 2; kind = region_exit 0; source = none; arc = release_one })
      ∷ [];
  blocks =
      plain_block 0 (0 ∷ 1 ∷ []) (goto 1 [])
      ∷ plain_block 1 [] (perform 7 0 [] none 2)
      ∷ plain_block 2 (2 ∷ []) (match_on 0 (arm ∷ []) 4)
      ∷ record (plain_block 3 [] (ret 1)) { params = 1 ∷ [] }
      ∷ plain_block 4 [] (ret 0)
      ∷ [];
  regions = handler_region arena ∷ [];
  clause_tables = [];
}

program-HasDenseIds : HasDenseIds program.regions
program-HasDenseIds zero node h =
    let same : handler_region arena ≡ node = cc in sym (ap (λ (node : CfgRegion). node.id) same)
program-HasDenseIds (suc i) node h = cc

program_placed : get_elem? (place program).regions 0 ≡ some (handler_region stack)
unfolding place region cielo.Ir.Cfg.Program.region_mut cielo.Runtime.Region.escapes
    cielo.Runtime.Region.region_extent cielo.Runtime.Region.block_has
    cielo.Ir.Cfg.Program.instruction cielo.Prelude.Explore.explore cielo.Runtime.Region.extent_visit
    cielo.Ir.Cfg.Terminator.successors
program_placed = refl

place-on_stack_iff_example : (stack ≡ stack) ↔ IsConfined program 0 (own_effect (region program 0))
place-on_stack_iff_example =
    place-on_stack_iff program 0 0 {slot = record { kind = handler_evidence 7; placement = stack }}
      program-HasDenseIds program_placed refl

abbrev no_errors : List ℕ
no_errors = []

program_clean : (verify program no_errors).reports ≡ []
unfolding verify cielo.Memory.Verify.collect_releases cielo.Ir.Cfg.Program.instruction
    cielo.Ir.Cfg.Program.value cielo.Ir.Cfg.Program.expr cielo.Prelude.HashMap.get
    cielo.Prelude.HashMap.insert
program_clean = refl

verify-clean_iff_example :
    ((verify program no_errors).reports ≡ [])
    ↔ ((no_errors ≡ []) × UniqueMoves program program.blocks × BlocksRelease program program.blocks)
verify-clean_iff_example = verify-clean_iff program no_errors

check_blocks_iff_example :
    (check_blocks program program.blocks ≡ []) ↔ BlocksFit program program.blocks
check_blocks_iff_example = check_blocks_iff program program.blocks

program_checks : check_blocks program program.blocks ≡ []
unfolding check_blocks cielo.Ir.Cfg.Program.instruction region
    cielo.Ir.Cfg.Terminator.successors_with_arity cielo.Ir.Cfg.Program.block
    cielo.Ir.Cfg.Program.value
program_checks = refl

check_single_assignment_iff_example :
    (check_single_assignment program ≡ []) ↔ IsNodup (assigned_values program program.blocks)
check_single_assignment_iff_example = check_single_assignment_iff program

abbrev children : CfgExprNode ℕ → List ℕ
children node = Expr.child_exprs node.kind

abbrev is_value_zero : ℕ → CfgExprNode ℕ → Bool
is_value_zero id node = elim node.kind [ Expr.value v ↦ v == 0 | _ ↦ false ]

any_expr_iff_example :
    (b : Bool) × (any_expr children program.exprs 1 is_value_zero ≡ some b)
    × ((b ≡ true) ↔ Found children program.exprs is_value_zero 1)
any_expr_iff_example = any_expr_iff children program.exprs is_value_zero 1

walk_finds : any_expr children program.exprs 1 is_value_zero ≡ some true
unfolding any_expr cielo.Prelude.Explore.explore cielo.Ir.Walk.visit_expr Expr.child_exprs
walk_finds = refl

numbered : (block other : CfgBlock) → some block ≡ some other → other.id ≡ block.id
numbered block other h =
    let same : block ≡ other = cc in sym (ap (λ (block : CfgBlock). block.id) same)

program-HasDenseBlocks : HasDenseBlocks program.blocks
program-HasDenseBlocks zero block h = numbered (plain_block 0 (0 ∷ 1 ∷ []) (goto 1 [])) block h
program-HasDenseBlocks (suc zero) block h =
    numbered (plain_block 1 [] (perform 7 0 [] none 2)) block h
program-HasDenseBlocks (suc (suc zero)) block h =
    numbered (plain_block 2 (2 ∷ []) (match_on 0 (arm ∷ []) 4)) block h
program-HasDenseBlocks (suc (suc (suc zero))) block h =
    numbered (record (plain_block 3 [] (ret 1)) { params = 1 ∷ [] }) block h
program-HasDenseBlocks (suc (suc (suc (suc zero)))) block h =
    numbered (plain_block 4 [] (ret 0)) block h
program-HasDenseBlocks (suc (suc (suc (suc (suc i))))) block h = cc

analyze_flow-IsLiveness_example :
    (s : Live) × (analyze_flow program ≡ some s) × IsLiveness (flow_of program) 5 s
analyze_flow-IsLiveness_example = analyze_flow-IsLiveness program program-HasDenseBlocks

scan_block-live_in_example :
    (s : Live) × (analyze_flow program ≡ some s)
    × ((mem 0
            (scan_block program
              (plain_block 4 [] (ret 0))
              (record { live = get_set s.live_out 4; live_after = []; last_uses = [] })).live
          && not (mem 0 []))
        ≡ mem 0 (get_set s.live_in 4))
scan_block-live_in_example =
    scan_block-live_in program 4 0 (plain_block 4 [] (ret 0)) [] [] program-HasDenseBlocks refl

abbrev none_given : ℕ → Bool
none_given value = false

program-Targets : Targets 2 (block_moves program program.blocks)
unfolding block_moves cielo.Ir.Cfg.Program.instruction cielo.Ir.Cfg.Program.block
    cielo.Ir.Cfg.Program.expr
program-Targets = (omega arith, (omega arith, tt))

classify-Managed_example :
    (flags : List Bool) × (classify program none_given ≡ some flags)
    × ((v : ℕ)
        → (is_managed flags v ≡ true)
          ↔ Managed (false ∷ false ∷ []) (block_moves program program.blocks) v)
classify-Managed_example = classify-Managed program none_given program-Targets
