-- ===== src/Ir/Region.antt =====
-- crates/cielo-ir/src/region.rs: what a lexical scope owns, and where its slots are stored.
use cielo.Prelude.{ℕ, Bool, true, false, List, all}

pub data RegionOwner : Type 0 where
  handler_owner : (handler effect : ℕ) → RegionOwner

pub data RegionSlotKind : Type 0 where
  handler_evidence : (effect : ℕ) → RegionSlotKind

pub data Placement : Type 0 where
  stack arena : Placement

abbrev pub default_placement : Placement
default_placement = arena

pub record RegionSlot : Type 0 where
  pub kind : RegionSlotKind
  pub placement : Placement

pub record CfgRegion : Type 0 where
  pub id : ℕ
  pub owner : RegionOwner
  pub slots : List RegionSlot

abbrev pub is_stack : Placement → Bool
is_stack stack = true
is_stack arena = false

unfoldable pub is_fully_stack : CfgRegion → Bool
is_fully_stack region = all (λ slot. is_stack slot.placement) region.slots
