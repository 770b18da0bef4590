-- ===== src/Ir/Cfg/Validate/Sound.antt =====
-- crates/cielo-ir/src/cfg.rs: what a graph without those errors is.
use cielo.Prelude.{
  ℕ, Option, none, some, List, [], ◌∷◌, ◌++◌, length, ◌==◌, if◌then◌else◌, ◌≡◌, ◌↔◌, inl, inr, refl,
  subst, Bool-cases, ==_iff,
}
use cielo.Prelude.Classes.{nat_eq}
use cielo.Ir.Region.{CfgRegion}
use cielo.Ir.Cfg.Instruction.{
  CfgInstruction, CfgInstructionNode, region_enter, region_exit, let_value, eval_value,
  handler_enter, handler_exit, stage_enter, stage_exit, hole, error,
}
use cielo.Ir.Cfg.Terminator.{
  CfgTerminator, CfgMatchArm, match_on, ret, goto, branch, switch, call, perform, unreachable,
  successors_with_arity,
}
use cielo.Ir.Cfg.Program.{CfgProgram, CfgBlock, CfgValue, value, instruction, region, block}
use cielo.Ir.Cfg.Validate.{
  GraphError, invalid_parameter, unknown_region, wrong_arity, expect_some, arity_error, arm_errors,
  end_errors, param_errors, region_errors, node_errors, instruction_errors, edge_errors,
  check_blocks,
}

pub append-nil_iff : (xs ys : List GraphError) → (xs ++ ys ≡ []) ↔ ((xs ≡ []) × (ys ≡ []))
append-nil_iff [] ys = (λ h. (refl, h), λ h. h.1)
append-nil_iff (x ∷ xs) ys = (λ h. cc, λ h. cc)

expect_some_iff {ℓ} :
    {A : Type ℓ} (found : GraphError) (o : Option A)
    → (expect_some found o ≡ []) ↔ ((a : A) × (o ≡ some a))
expect_some_iff found none = (λ h. cc, λ (a, e). cc)
expect_some_iff found (some a) = (λ h. (a, refl), λ h. refl)

-- Each arm binds as many values as it projects fields.
abbrev pub ArmsMatch : List CfgMatchArm → Type 0
ArmsMatch [] = Unit
ArmsMatch (arm ∷ arms) = (length arm.binders ≡ length arm.projections) × ArmsMatch arms

abbrev pub EndMatches : CfgTerminator → Type 0
EndMatches (match_on scrutinee arms default) = ArmsMatch arms
EndMatches _ = Unit

arm_errors_iff : (id : ℕ) (arms : List CfgMatchArm) → (arm_errors id arms ≡ []) ↔ ArmsMatch arms
unfolding arm_errors
arm_errors_iff id [] = (λ h. tt, λ h. refl)
arm_errors_iff id (arm ∷ arms) =
    let ih = arm_errors_iff id arms in
    let same = ==_iff (length arm.binders) (length arm.projections) in
    elim (Bool-cases (length arm.binders == length arm.projections)) [
      | inl e ↦ rw e (λ h. (same.0 e, ih.0 h), λ (s, h). ih.1 h)
      | inr e ↦ rw e (λ h. cc, λ (s, h). let e' = same.1 s in cc)
    ]

end_errors_iff : (id : ℕ) (t : CfgTerminator) → (end_errors id t ≡ []) ↔ EndMatches t
end_errors_iff id (match_on scrutinee arms default) = arm_errors_iff id arms
end_errors_iff id (ret value) = (λ h. tt, λ h. refl)
end_errors_iff id (goto target args) = (λ h. tt, λ h. refl)
end_errors_iff id (branch cond then_target else_target) = (λ h. tt, λ h. refl)
end_errors_iff id (switch selector targets default) = (λ h. tt, λ h. refl)
end_errors_iff id (call convention callee callee_fn args result target) = (λ h. tt, λ h. refl)
end_errors_iff id (perform effect operation args result target) = (λ h. tt, λ h. refl)
end_errors_iff id unreachable = (λ h. tt, λ h. refl)

module _ {F : Type 0} (cfg : CfgProgram F) where
  abbrev pub ParamsExist : List ℕ → Type 0
  ParamsExist [] = Unit
  ParamsExist (param ∷ params) =
      ((found : CfgValue) × (value cfg param ≡ some found)) × ParamsExist params

  -- An instruction that opens or closes a region names one of the program.
  abbrev pub KnowsRegion : CfgInstruction → Type 0
  KnowsRegion (region_enter id) = (found : CfgRegion) × (region cfg id ≡ some found)
  KnowsRegion (region_exit id) = (found : CfgRegion) × (region cfg id ≡ some found)
  KnowsRegion _ = Unit

  abbrev pub InstructionsExist : List ℕ → Type 0
  InstructionsExist [] = Unit
  InstructionsExist (id ∷ ids) =
      ((node : CfgInstructionNode) × (instruction cfg id ≡ some node) × KnowsRegion node.kind)
      × InstructionsExist ids

  -- Each edge leads to a block of the program with as many parameters as the edge passes values.
  abbrev pub EdgesFit : List (ℕ × ℕ) → Type 0
  EdgesFit [] = Unit
  EdgesFit ((target, passed) ∷ edges) =
      ((found : CfgBlock) × (block cfg target ≡ some found) × (length found.params ≡ passed))
      × EdgesFit edges

  abbrev pub BlocksFit : List CfgBlock → Type 0
  BlocksFit [] = Unit
  BlocksFit (node ∷ blocks) =
      ParamsExist node.params
      × InstructionsExist node.instructions
      × EdgesFit (successors_with_arity node.terminator)
      × EndMatches node.terminator
      × BlocksFit blocks

  param_errors_iff :
      (id : ℕ) (params : List ℕ) → (param_errors cfg id params ≡ []) ↔ ParamsExist params
  unfolding param_errors
  param_errors_iff id [] = (λ h. tt, λ h. refl)
  param_errors_iff id (param ∷ params) =
      let both = append-nil_iff _ (param_errors cfg id params) in
      let one = expect_some_iff (invalid_parameter id param) (value cfg param) in
      let ih = param_errors_iff id params in
      (λ h. let (a, b) = both.0 h in (one.0 a, ih.0 b), λ (a, b). both.1 (one.1 a, ih.1 b))

  region_errors_iff :
      (id : ℕ) (kind : CfgInstruction) → (region_errors cfg id kind ≡ []) ↔ KnowsRegion kind
  region_errors_iff id (region_enter r) = expect_some_iff (unknown_region id r) (region cfg r)
  region_errors_iff id (region_exit r) = expect_some_iff (unknown_region id r) (region cfg r)
  region_errors_iff id (let_value result v) = (λ h. tt, λ h. refl)
  region_errors_iff id (eval_value result v) = (λ h. tt, λ h. refl)
  region_errors_iff id (handler_enter handler effect) = (λ h. tt, λ h. refl)
  region_errors_iff id (handler_exit handler effect) = (λ h. tt, λ h. refl)
  region_errors_iff id (stage_enter stage) = (λ h. tt, λ h. refl)
  region_errors_iff id (stage_exit stage) = (λ h. tt, λ h. refl)
  region_errors_iff id hole = (λ h. tt, λ h. refl)
  region_errors_iff id error = (λ h. tt, λ h. refl)

  node_errors_iff :
      (id i : ℕ) (o : Option CfgInstructionNode)
      → (node_errors cfg id i o ≡ [])
        ↔ ((node : CfgInstructionNode) × (o ≡ some node) × KnowsRegion node.kind)
  node_errors_iff id i none = (λ h. cc, λ (n, e, k). cc)
  node_errors_iff id i (some node) =
      let known = region_errors_iff id node.kind in
      (
        λ h. (node, refl, known.0 h),
        λ (n, e, k).
            let same : n ≡ node = cc in
            known.1 (subst (λ (n : CfgInstructionNode). KnowsRegion n.kind) same k),
      )

  instruction_errors_iff :
      (id : ℕ) (ids : List ℕ) → (instruction_errors cfg id ids ≡ []) ↔ InstructionsExist ids
  unfolding instruction_errors
  instruction_errors_iff id [] = (λ h. tt, λ h. refl)
  instruction_errors_iff id (i ∷ ids) =
      let both = append-nil_iff _ (instruction_errors cfg id ids) in
      let one = node_errors_iff id i (instruction cfg i) in
      let ih = instruction_errors_iff id ids in
      (λ h. let (a, b) = both.0 h in (one.0 a, ih.0 b), λ (a, b). both.1 (one.1 a, ih.1 b))

  arity_error_iff :
      (id target passed : ℕ) (o : Option CfgBlock)
      → (arity_error id target passed o ≡ [])
        ↔ ((found : CfgBlock) × (o ≡ some found) × (length found.params ≡ passed))
  arity_error_iff id target passed none = (λ h. cc, λ (b, e, k). cc)
  arity_error_iff id target passed (some b) = (
    λ h. (b, refl, fit h),
    λ (b', e, k).
        let same : b' ≡ b = cc in
        rw (
          (==_iff (length b.params) passed).1
            (subst (λ (b : CfgBlock). length b.params ≡ passed) same k)),
  )
    where
      fit :
          (if length b.params == passed
              then []
              else wrong_arity id target passed (length b.params) ∷ [])
            ≡ []
          → length b.params ≡ passed
      fit h = elim (Bool-cases (length b.params == passed)) [
        | inl e ↦ (==_iff (length b.params) passed).0 e
        | inr e ↦ let h' = rw e at h in cc
      ]

  edge_errors_iff :
      (id : ℕ) (edges : List (ℕ × ℕ)) → (edge_errors cfg id edges ≡ []) ↔ EdgesFit edges
  unfolding edge_errors
  edge_errors_iff id [] = (λ h. tt, λ h. refl)
  edge_errors_iff id ((target, passed) ∷ edges) =
      let both = append-nil_iff _ (edge_errors cfg id edges) in
      let one = arity_error_iff id target passed (block cfg target) in
      let ih = edge_errors_iff id edges in
      (λ h. let (a, b) = both.0 h in (one.0 a, ih.0 b), λ (a, b). both.1 (one.1 a, ih.1 b))

  -- The checks of the blocks report nothing exactly when each block's parameters and instructions
  -- exist, its instructions name regions of the program, its edges lead to blocks that take as many
  -- values as they pass, and its arms project as many fields as they bind.
  pub check_blocks_iff :
      (blocks : List CfgBlock) → (check_blocks cfg blocks ≡ []) ↔ BlocksFit blocks
  unfolding check_blocks
  check_blocks_iff [] = (λ h. tt, λ h. refl)
  check_blocks_iff (node ∷ blocks) =
      let edges = successors_with_arity node.terminator in
      let p = append-nil_iff (param_errors cfg node.id node.params) _ in
      let i = append-nil_iff (instruction_errors cfg node.id node.instructions) _ in
      let e = append-nil_iff (edge_errors cfg node.id edges) _ in
      let t = append-nil_iff (end_errors node.id node.terminator) (check_blocks cfg blocks) in
      let ih = check_blocks_iff blocks in
      (
        λ h.
            let (hp, h1) = p.0 h in
            let (hi, h2) = i.0 h1 in
            let (he, h3) = e.0 h2 in
            let (ht, h4) = t.0 h3 in
            (
              (param_errors_iff node.id node.params).0 hp,
              (instruction_errors_iff node.id node.instructions).0 hi,
              (edge_errors_iff node.id edges).0 he,
              (end_errors_iff node.id node.terminator).0 ht,
              ih.0 h4,
            ),
        λ (hp, hi, he, ht, h4). p.1 (
          (param_errors_iff node.id node.params).1 hp,
          i.1 (
            (instruction_errors_iff node.id node.instructions).1 hi,
            e.1 (
              (edge_errors_iff node.id edges).1 he,
              t.1 ((end_errors_iff node.id node.terminator).1 ht, ih.1 h4),
            ),
          ),
        ),
      )
