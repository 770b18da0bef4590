-- ===== src/Memory/Liveness/LastUses.antt =====
-- crates/cielo-memory/src/refcount/analysis/cfg_liveness.rs: the scan of each block for last uses.
pub mod Agree
use cielo.Prelude.{
  ℕ, suc, Bool, true, false, Option, none, some, List, [], ◌∷◌, if◌then◌else◌, ◌==◌, ==_iff, length,
  replicate, set, ◌≡◌, ◌↔◌, refl, arith, ap,
}
use cielo.Prelude.Classes.{Eq}
use cielo.Prelude.HashMap as Map
use cielo.Prelude.HashMap.{HashMap}
use cielo.Prelude.Explore.{mem}
use cielo.Prelude.NatSet.{insert, remove}
use cielo.Ir.Cfg.Instruction
use cielo.Ir.Cfg.Instruction.{CfgInstructionNode}
use cielo.Ir.Cfg.Program.{CfgProgram, CfgBlock, instruction}
use cielo.Memory.Liveness.{get_set, Live}
use cielo.Memory.Liveness.Analyze.{
  collect_instruction_uses, collect_terminator_uses, collect_instruction_defs, analyze_flow,
}

pub data CfgUseSite : Type 0 where
  at_instruction : ℕ → CfgUseSite
  at_terminator : ℕ → CfgUseSite

abbrev pub site_beq : CfgUseSite → CfgUseSite → Bool
site_beq (at_instruction a) (at_instruction b) = a == b
site_beq (at_terminator a) (at_terminator b) = a == b
site_beq (at_instruction a) (at_terminator b) = false
site_beq (at_terminator a) (at_instruction b) = false

pub site_beq_iff : (a b : CfgUseSite) → (site_beq a b ≡ true) ↔ (a ≡ b)
site_beq_iff (at_instruction a) (at_instruction b) = ground (arith, ==_iff a b)
site_beq_iff (at_terminator a) (at_terminator b) = ground (arith, ==_iff a b)
site_beq_iff (at_instruction a) (at_terminator b) = (λ h. cc, λ h. cc)
site_beq_iff (at_terminator a) (at_instruction b) = (λ h. cc, λ h. cc)

instance abbrev pub site_eq : Eq CfgUseSite
site_eq = record { beq = site_beq; beq_iff = site_beq_iff }

pub record CfgLiveness : Type 0 where
  pub live_in : List (List ℕ)
  pub live_out : List (List ℕ)
  pub live_after : HashMap CfgUseSite (List ℕ)
  pub live_after_entry : List (List ℕ)
  pub last_uses : HashMap CfgUseSite (List ℕ)

-- The state of a scan: what is live, and the two maps written so far.
pub record Scan : Type 0 where
  pub live : List ℕ
  pub live_after : HashMap CfgUseSite (List ℕ)
  pub last_uses : HashMap CfgUseSite (List ℕ)

-- `entry(site).or_default()`
abbrev pub or_default : Option (List ℕ) → List ℕ
or_default none = []
or_default (some values) = values

abbrev pub note_last_use :
    CfgUseSite → ℕ → HashMap CfgUseSite (List ℕ) → HashMap CfgUseSite (List ℕ)
note_last_use site value m = Map.insert m site (insert value (or_default (Map.get m site)))

unfoldable pub record_last_uses : CfgUseSite → List ℕ → Scan → Scan
record_last_uses site [] s = s
record_last_uses site (value ∷ uses) s = record_last_uses site uses (record s {
  live = insert value s.live;
  last_uses = if mem value s.live then s.last_uses else note_last_use site value s.last_uses;
})

abbrev pub remove_all : List ℕ → List ℕ → List ℕ
remove_all [] live = live
remove_all (value ∷ values) live = remove_all values (remove value live)

abbrev pub note_live : CfgUseSite → Scan → Scan
note_live site s = record s { live_after = Map.insert s.live_after site s.live }

module _ {F : Type 0} (cfg : CfgProgram F) where
  abbrev pub scan_node : ℕ → Option CfgInstructionNode → Scan → Scan
  scan_node id none s = s
  scan_node id (some node) s =
      let noted = note_live (at_instruction id) s in
      record_last_uses (at_instruction id) (collect_instruction_uses cfg node.kind [])
        (record noted { live = remove_all (collect_instruction_defs node.kind []) s.live })

  -- the loop over the instructions from the last
  unfoldable pub scan_instructions : List ℕ → Scan → Scan
  scan_instructions [] s = s
  scan_instructions (id ∷ ids) s = scan_node id (instruction cfg id) (scan_instructions ids s)

  -- A block, `s.live` being what is live on its exit.
  unfoldable pub scan_block : CfgBlock → Scan → Scan
  unfolding scan_instructions record_last_uses
  scan_block block s = scan_instructions block.instructions (
      record_last_uses (at_terminator block.id) (collect_terminator_uses cfg block.terminator [])
        (note_live (at_terminator block.id) s))

  unfoldable pub find_last_uses : List CfgBlock → CfgLiveness → CfgLiveness
  unfolding scan_block
  find_last_uses [] l = l
  find_last_uses (block ∷ blocks) l =
      let s = scan_block block (record {
        live = get_set l.live_out block.id;
        live_after = l.live_after;
        last_uses = l.last_uses;
      }) in
      find_last_uses blocks (record l {
        live_after = s.live_after;
        last_uses = s.last_uses;
        live_after_entry = set l.live_after_entry block.id s.live;
      })

  abbrev pub analyzed : Option Live → Option CfgLiveness
  analyzed none = none
  analyzed (some s) = some (
      find_last_uses cfg.blocks (record {
        live_in = s.live_in;
        live_out = s.live_out;
        live_after = [];
        live_after_entry = replicate (length cfg.blocks) [];
        last_uses = [];
      }))

  unfoldable pub analyze : Option CfgLiveness
  unfolding find_last_uses
  analyze = analyzed (analyze_flow cfg)

unfoldable pub last_uses_at : CfgLiveness → CfgUseSite → Option (List ℕ)
last_uses_at l site = Map.get l.last_uses site

abbrev pub holds : Option (List ℕ) → ℕ → Bool
holds none value = false
holds (some values) value = mem value values

unfoldable pub is_last_use : CfgLiveness → CfgUseSite → ℕ → Bool
unfolding last_uses_at
is_last_use l site value = holds (last_uses_at l site) value
