-- ===== src/Runtime/Region.antt =====
-- crates/cielo-runtime/src/region.rs: whether a region's slots can live on the stack.
pub mod Confined
pub mod Escape
pub mod Placed
use cielo.Prelude.{
  ℕ, suc, ◌+◌, ◌-◌, ◌^◌, min, Bool, true, false, not, Option, none, some, List, [], ◌∷◌, map,
  length, any, ◌==◌, if◌then◌else◌, ◌>>=◌,
}
use mathlib.Core.List.{reverse}
use cielo.Prelude.Explore.{
  Visit, border, halt, expand, Outcome, exhausted, halted, done, explore, weight,
}
use cielo.Base.Ids.{saturating_add}
use cielo.Ir.Region.{
  CfgRegion, RegionOwner, handler_owner, RegionSlot, RegionSlotKind, handler_evidence, Placement,
  stack, arena,
}
use cielo.Ir.Cfg.Instruction.{CfgInstruction, CfgInstructionNode, region_enter, region_exit}
use cielo.Ir.Cfg.Terminator
use cielo.Ir.Cfg.Terminator.{
  CfgTerminator, CfgCallConvention, control, direct, pure, ret, goto, branch, match_on, switch,
  call, perform, unreachable, successors,
}
use cielo.Ir.Cfg.Program.{CfgProgram, CfgBlock, block, region, instruction, region_mut}

pub record RegionPlacementStats : Type 0 where
  pub stack_slots : ℕ
  pub arena_slots : ℕ

abbrev pub count_placement : Placement → RegionPlacementStats → RegionPlacementStats
count_placement stack stats = record stats { stack_slots = saturating_add stats.stack_slots 1 }
count_placement arena stats = record stats { arena_slots = saturating_add stats.arena_slots 1 }

abbrev pub count_slots : List RegionSlot → RegionPlacementStats → RegionPlacementStats
count_slots [] stats = stats
count_slots (slot ∷ slots) stats = count_slots slots (count_placement slot.placement stats)

abbrev pub count_regions : List CfgRegion → RegionPlacementStats → RegionPlacementStats
count_regions [] stats = stats
count_regions (region ∷ regions) stats = count_regions regions (count_slots region.slots stats)

unfoldable pub total : RegionPlacementStats → ℕ
total stats = saturating_add stats.stack_slots stats.arena_slots

abbrev pub enters : ℕ → CfgInstruction → Bool
enters region (region_enter found) = found == region
enters region _ = false

abbrev pub exits : ℕ → CfgInstruction → Bool
exits region (region_exit found) = found == region
exits region _ = false

abbrev pub owner_effect : RegionOwner → ℕ
owner_effect (handler_owner handler effect) = effect

abbrev pub is_other : ℕ → Option ℕ → Bool
is_other effect none = true
is_other effect (some own) = not (effect == own)

abbrev pub is_control : CfgCallConvention → Bool
is_control control = true
is_control direct = false
is_control pure = false

-- whether control leaves by a block's end without the close, `own` being the region's effect
abbrev pub leaks : Option ℕ → CfgTerminator → Bool
leaks own (ret value) = true
leaks own (call convention callee callee_fn args result target) = is_control convention
leaks own (perform effect operation args result target) = is_other effect own
leaks own unreachable = false
leaks own (goto target args) = false
leaks own (branch cond then_target else_target) = false
leaks own (match_on scrutinee arms default) = false
leaks own (switch selector targets default) = false

abbrev pub some_node : Option CfgInstructionNode → (CfgInstruction → Bool) → Bool
some_node none predicate = false
some_node (some node) predicate = predicate node.kind

abbrev pub extent_step : Option CfgBlock → Visit
extent_step none = halt
extent_step (some found) = expand (reverse (successors found.terminator))

abbrev pub closed_extent : Outcome → Option (List ℕ)
closed_extent exhausted = none
closed_extent (halted seen) = none
closed_extent (done seen saw) = if saw then some seen else none

abbrev pub block_leaks : Option ℕ → Option CfgBlock → Bool
block_leaks own none = true
block_leaks own (some found) = leaks own found.terminator

abbrev pub own_effect : Option CfgRegion → Option ℕ
own_effect none = none
own_effect (some node) = some (owner_effect node.owner)

abbrev pub place_slot : Bool → RegionSlot → RegionSlot
place_slot confined slot = elim slot.kind [
  | handler_evidence effect ↦ record slot { placement = if confined then stack else arena }
]

abbrev pub place_region : Bool → CfgRegion → CfgRegion
place_region confined node = record node { slots = map (place_slot confined) node.slots }

abbrev pub enter_once : Bool → ℕ → Option ℕ → Option (Option ℕ)
enter_once false id entry = some entry
enter_once true id none = some (some id)
enter_once true id (some other) = none

module _ {F : Type 0} where
  unfoldable pub placement_stats : CfgProgram F → RegionPlacementStats
  placement_stats cfg = count_regions cfg.regions (record { stack_slots = 0; arena_slots = 0 })

  abbrev pub some_block : CfgProgram F → Option CfgBlock → (CfgInstruction → Bool) → Bool
  some_block cfg none predicate = false
  some_block cfg (some found) predicate =
      any (λ id. some_node (instruction cfg id) predicate) found.instructions

  unfoldable pub block_has : CfgProgram F → ℕ → (CfgInstruction → Bool) → Bool
  unfolding block
  block_has cfg id predicate = some_block cfg (block cfg id) predicate

  -- The entry of a region: `none` when two blocks hold one.
  abbrev pub find_entry : CfgProgram F → ℕ → List CfgBlock → Option ℕ → Option (Option ℕ)
  find_entry cfg region [] entry = some entry
  find_entry cfg region (found ∷ blocks) entry =
      enter_once (block_has cfg found.id (enters region)) found.id entry
      >>= find_entry cfg region blocks

  -- A block of the walk. The stack takes the successors in order, so the last is popped first.
  unfoldable pub extent_visit : CfgProgram F → ℕ → ℕ → Visit
  extent_visit cfg region id =
      if block_has cfg id (exits region) then border else extent_step (block cfg id)

  -- rounds enough: one for the entry, and one for each successor of each block
  abbrev pub extent_fuel : CfgProgram F → ℕ → ℕ
  extent_fuel cfg region = suc (weight (extent_visit cfg region) (length cfg.blocks) [])

  unfoldable pub region_extent : CfgProgram F → ℕ → Option (List ℕ)
  region_extent cfg region = find_entry cfg region cfg.blocks none >>= λ entry. entry >>= λ start.
      closed_extent
        (explore (extent_visit cfg region) (extent_fuel cfg region) (start ∷ []) [] false)

  abbrev pub extent_leaks : CfgProgram F → Option ℕ → Option (List ℕ) → Bool
  extent_leaks cfg own none = true
  extent_leaks cfg own (some extent) = any (λ id. block_leaks own (block cfg id)) extent

  unfoldable pub escapes : CfgProgram F → ℕ → Bool
  escapes cfg id = extent_leaks cfg (own_effect (region cfg id)) (region_extent cfg id)

  abbrev pub place_at : CfgProgram F → ℕ → Bool → Option CfgRegion → CfgProgram F
  place_at cfg id confined none = cfg
  place_at cfg id confined (some node) = region_mut cfg id (place_region confined node)

  unfoldable pub place_all : List ℕ → CfgProgram F → CfgProgram F
  place_all [] cfg = cfg
  place_all (id ∷ ids) cfg = place_all ids (place_at cfg id (not (escapes cfg id)) (region cfg id))

  unfoldable pub place : CfgProgram F → CfgProgram F
  unfolding place_all
  place cfg = place_all (map (λ node. node.id) cfg.regions) cfg
