-- ===== src/Memory/Liveness/LastUses/Agree.antt =====
-- crates/cielo-memory/src/refcount/analysis/cfg_liveness.rs: the scan of a block from its end and the
-- equation of its uses and definitions agree.
use cielo.Prelude.{
  ℕ, zero, suc, get_elem?, map, length, lt-length_of_get_elem?, Bool, true, false, not, ◌&&◌, ◌||◌,
  Option, none, some, List, [], ◌∷◌, if◌then◌else◌, ◌==◌, ==_iff, ◌≡◌, refl, sym, ◌∙◌, arith,
  Bool-cases, inl, inr,
}
use cielo.Prelude.Explore.{mem}
use cielo.Prelude.NatSet.{insert, insert_all, remove, mem-insert, mem-insert_all, mem-keep}
use cielo.Ir.Cfg.Instruction
use cielo.Ir.Cfg.Instruction.{CfgInstruction, CfgInstructionNode}
use cielo.Ir.Cfg.Terminator.{option_to_list}
use cielo.Ir.Cfg.Program.{CfgProgram, CfgBlock, instruction}
use cielo.Prelude.HashMap.{HashMap}
use cielo.Memory.Liveness.{get_set, Live}
use cielo.Memory.Liveness.Least.{live_in-equation}
use cielo.Memory.Liveness.Analyze.Correct.{HasDenseBlocks, analyze_flow-IsLiveness}
use cielo.Memory.Liveness.Analyze.{
  flow_of, analyze_flow, block_uses, block_defs, Gathered, add_uses, gather_node,
  gather_instructions, gather_block, collect_instruction_uses, collect_instruction_defs,
  collect_terminator_uses,
}
use cielo.Memory.Liveness.LastUses.{
  CfgUseSite, at_instruction, at_terminator, note_live, Scan, record_last_uses, remove_all,
  scan_node, scan_instructions, scan_block,
}

mem-add_uses :
    (v : ℕ) (values defs uses : List ℕ)
    → mem v (add_uses values defs uses) ≡ (mem v values && not (mem v defs) || mem v uses)
unfolding add_uses
mem-add_uses v [] defs uses = refl
mem-add_uses v (x ∷ values) defs uses =
    mem-add_uses v values defs (if mem x defs then uses else insert x uses)
    ∙ split (mem x defs) refl
  where
    split :
        (b : Bool)
        → mem x defs ≡ b
        → (mem v values && not (mem v defs) || mem v (if mem x defs then uses else insert x uses))
          ≡ ((v == x || mem v values) && not (mem v defs) || mem v uses)
    split b e = elim (Bool-cases (v == x)) [
      | inl here ↦
          let same : v ≡ x = (==_iff v x).0 here in
          rw same (ground (arith, mem-insert x x uses, ==_iff x x))
      | inr other ↦ ground (arith, mem-insert x v uses)
    ]

mem-record_last_uses :
    (v : ℕ) (site : CfgUseSite) (uses : List ℕ) (s : Scan)
    → mem v (record_last_uses site uses s).live ≡ (mem v uses || mem v s.live)
unfolding record_last_uses
mem-record_last_uses v site [] s = refl
mem-record_last_uses v site (x ∷ uses) s =
    mem-record_last_uses v site uses _
    ∙ rw (mem-insert x v s.live) (regroup (mem v uses) (v == x) (mem v s.live))
  where
    regroup : (a b c : Bool) → (a || (b || c)) ≡ ((b || a) || c)
    regroup true true c = refl
    regroup true false c = refl
    regroup false true c = refl
    regroup false false c = refl

mem-remove_all :
    (v : ℕ) (values live : List ℕ)
    → mem v (remove_all values live) ≡ (not (mem v values) && mem v live)
mem-remove_all v [] live = refl
mem-remove_all v (x ∷ values) live =
    mem-remove_all v values (remove x live)
    ∙ rw (mem-keep (λ y. not (y == x)) live v) (regroup (mem v values) (v == x) (mem v live))
  where
    regroup : (a b c : Bool) → (not a && (not b && c)) ≡ (not (b || a) && c)
    regroup true true c = refl
    regroup true false c = refl
    regroup false true c = refl
    regroup false false c = refl

mem-defs :
    (v : ℕ) (kind : CfgInstruction) (output : List ℕ)
    → mem v (collect_instruction_defs kind output)
      ≡ (mem v (collect_instruction_defs kind []) || mem v output)
unfolding collect_instruction_defs
mem-defs v kind output = ground (
  arith,
  mem-insert_all (option_to_list (Instruction.result kind)) output v,
  mem-insert_all (option_to_list (Instruction.result kind)) [] v,
)

-- One instruction: `u` and `d` are its uses and definitions, `l` what is live after it.
one_step :
    (u d0 u0 l d : Bool)
    → ((u && not d0 || u0) || l && not (d || d0)) ≡ (u0 || (u || not d && l) && not d0)
one_step u d0 u0 l d = ground arith

get_set-map :
    (f : CfgBlock → List ℕ) (blocks : List CfgBlock) (i : ℕ) {block : CfgBlock}
    → get_elem? blocks i ≡ some block
    → get_set (map f blocks) i ≡ f block
get_set-map f [] i h = cc
get_set-map f (b ∷ blocks) zero h = cc
get_set-map f (b ∷ blocks) (suc i) h = get_set-map f blocks i h

module _ {F : Type 0} (cfg : CfgProgram F) where
  -- What the forward pass over the instructions finds, against the scan from the end.
  gather-scan :
      (v : ℕ) (ids : List ℕ) (g : Gathered) (s : Scan)
      → (mem v (gather_instructions cfg ids g).uses
          || mem v s.live && not (mem v (gather_instructions cfg ids g).defs))
        ≡ (mem v g.uses || mem v (scan_instructions cfg ids s).live && not (mem v g.defs))
  unfolding gather_instructions scan_instructions
  gather-scan v [] g s = refl
  gather-scan v (id ∷ ids) g s =
      gather-scan v ids (gather_node cfg (instruction cfg id) g) s ∙ step (instruction cfg id)
    where
      step :
          (o : Option CfgInstructionNode)
          → (mem v (gather_node cfg o g).uses
              || mem v (scan_instructions cfg ids s).live && not (mem v (gather_node cfg o g).defs))
            ≡ (mem v g.uses
                || mem v (scan_node cfg id o (scan_instructions cfg ids s)).live
                  && not (mem v g.defs))
      step none = refl
      step (some node) =
          let kind = node.kind in
          let live = (scan_instructions cfg ids s).live in
          rw
            (
              mem-add_uses v (collect_instruction_uses cfg kind []) g.defs g.uses,
              mem-record_last_uses v (at_instruction id) (collect_instruction_uses cfg kind []),
              mem-remove_all v (collect_instruction_defs kind []) live,
              mem-defs v kind g.defs,
            )
            (one_step (mem v (collect_instruction_uses cfg kind [])) (mem v g.defs) (mem v g.uses)
              (mem v live) (mem v (collect_instruction_defs kind [])))

  block-scan :
      (v : ℕ) (block : CfgBlock) (s : Scan)
      → (mem v (gather_block cfg block).uses
          || mem v s.live && not (mem v (gather_block cfg block).defs))
        ≡ (mem v (scan_block cfg block s).live && not (mem v block.params))
  unfolding gather_block scan_block
  block-scan v block s =
      let g0 : Gathered = record { defs = insert_all block.params []; uses = [] } in
      let g = gather_instructions cfg block.instructions g0 in
      let ends = collect_terminator_uses cfg block.terminator [] in
      let s0 = note_live (at_terminator block.id) s in
      let s1 = record_last_uses (at_terminator block.id) ends s0 in
      let inner = gather-scan v block.instructions g0 s1 in
      ground (
        arith,
        inner,
        mem-add_uses v ends g.defs g.uses,
        mem-record_last_uses v (at_terminator block.id) ends s0,
        mem-insert_all block.params [] v,
      )

  flow_uses :
      (i : ℕ) (block : CfgBlock)
      → get_elem? cfg.blocks i ≡ some block
      → (flow_of cfg).uses i ≡ (gather_block cfg block).uses
  unfolding flow_of block_uses
  flow_uses i block h =
      get_set-map (λ (block : CfgBlock). (gather_block cfg block).uses) cfg.blocks i h

  flow_defs :
      (i : ℕ) (block : CfgBlock)
      → get_elem? cfg.blocks i ≡ some block
      → (flow_of cfg).defs i ≡ (gather_block cfg block).defs
  unfolding flow_of block_defs
  flow_defs i block h =
      get_set-map (λ (block : CfgBlock). (gather_block cfg block).defs) cfg.blocks i h

  -- On a program whose blocks are numbered by their places the analysis returns, and scanning a block
  -- of it from what is live on its exit leaves, but for its parameters, what is live on its entry.
  pub scan_block-live_in :
      (i v : ℕ) (block : CfgBlock) (after last : HashMap CfgUseSite (List ℕ))
      → HasDenseBlocks cfg.blocks
      → get_elem? cfg.blocks i ≡ some block
      → (s : Live) × (analyze_flow cfg ≡ some s)
        × ((mem v
                (scan_block cfg block (record {
                  live = get_set s.live_out i;
                  live_after = after;
                  last_uses = last;
                })).live
              && not (mem v block.params))
            ≡ mem v (get_set s.live_in i))
  scan_block-live_in i v block after last dense at_block =
      let (s, returned, solution) = analyze_flow-IsLiveness cfg dense in
      let lt = lt-length_of_get_elem? cfg.blocks i at_block in
      let scanned : Scan = record {
        live = get_set s.live_out i;
        live_after = after;
        last_uses = last;
      } in
      (
        s,
        returned,
        sym (block-scan v block scanned)
            ∙ rw (← flow_uses i block at_block, ← flow_defs i block at_block)
                (sym (live_in-equation (flow_of cfg) (length cfg.blocks) s i v solution lt)),
      )
