-- ===== src/Memory/Verify/Unique.antt =====
-- crates/cielo-memory/src/refcount/verify.rs: the check of unique moves, and of the whole plan.
use cielo.Prelude.{
  ℕ, suc, ◌+◌, ◌≤◌, Bool, true, false, ◌&&◌, ◌||◌, Option, none, some, List, [], ◌∷◌, any, ltb,
  if◌then◌else◌, ◌≡◌, ◌↔◌, inl, inr, refl, subst, ◌∙◌, arith, Bool-cases, ◌==◌, ==_iff,
}
use cielo.Prelude.Explore.{mem}
use cielo.Prelude.Classes.{nat_eq}
use cielo.Prelude.NatSet.{insert, mem-insert}
use cielo.Prelude.HashMap as Map
use cielo.Prelude.HashMap.{HashMap}
use cielo.Ir.Cfg.Instruction.{CfgArcOp}
use cielo.Ir.Cfg.Terminator.{
  CfgTerminator, ret, goto, branch, match_on, switch, call, perform, unreachable,
}
use cielo.Ir.Cfg.Program.{CfgProgram, CfgBlock, expr}
use cielo.Memory.Verify.{
  Verifying, is_retain, report_if, unique_move_temporary, unique_move_retained, unique_move_shared,
  takes_unique, value_of, scrutinised_value, count_or_zero, count_scrutiny, collect_scrutinised,
  collect_retained, retained_at, add_retained, block_sites, verify_parent, verify_unique_end,
  verify_unique_blocks, verify_unique_moves, verify, no_stats, report_graph,
}
use cielo.Memory.Verify.Clean.{IsClean, report_if_iff, report-not-IsClean, report_graph_iff}
use cielo.Memory.Verify.Sites.{BlocksRelease, verify_blocks-IsClean}

-- Whether an operation of the list retains the value.
abbrev pub retains : ℕ → List CfgArcOp → Bool
retains v = any (λ op. is_retain op.kind && v == op.value)

mem-add_retained :
    (v : ℕ) (ops : List CfgArcOp) (retained : List ℕ)
    → mem v (add_retained ops retained) ≡ (retains v ops || mem v retained)
mem-add_retained v [] retained = refl
mem-add_retained v (op ∷ ops) retained =
    mem-add_retained v ops (if is_retain op.kind then insert op.value retained else retained)
    ∙ split (is_retain op.kind)
  where
    split :
        (b : Bool)
        → (retains v ops || mem v (if b then insert op.value retained else retained))
          ≡ ((b && v == op.value || retains v ops) || mem v retained)
    split true = rw (mem-insert op.value v retained) (ground arith)
    split false = refl

ltb-false : (n : ℕ) → n ≤ 1 → ltb 1 n ≡ false
ltb-false n h = ground arith

ltb-false_le : (n : ℕ) → ltb 1 n ≡ false → n ≤ 1
ltb-false_le n h = ground arith

module _ {F : Type 0} (cfg : CfgProgram F) where
  -- Whether some block of the list holds an operation that retains the value.
  abbrev pub retained_in : ℕ → List CfgBlock → Bool
  retained_in v = any (λ block. any (retains v) (block_sites cfg block))

  mem-retained_at :
      (v : ℕ) (sites : List (List CfgArcOp)) (retained : List ℕ)
      → mem v (retained_at cfg sites retained) ≡ (any (retains v) sites || mem v retained)
  mem-retained_at v [] retained = refl
  mem-retained_at v (ops ∷ sites) retained =
      ground (
        arith,
        mem-retained_at v sites (add_retained ops retained),
        mem-add_retained v ops retained,
      )

  mem-collect_retained :
      (v : ℕ) (blocks : List CfgBlock) (retained : List ℕ)
      → mem v (collect_retained cfg blocks retained) ≡ (retained_in v blocks || mem v retained)
  unfolding collect_retained
  mem-collect_retained v [] retained = refl
  mem-collect_retained v (block ∷ blocks) retained =
      mem-collect_retained v blocks (retained_at cfg (block_sites cfg block) retained)
      ∙ rw (mem-retained_at v (block_sites cfg block) retained) (
          regroup (retained_in v blocks) (any (retains v) (block_sites cfg block)) (mem v retained))
    where
      regroup : (a b c : Bool) → (a || (b || c)) ≡ ((b || a) || c)
      regroup true true c = refl
      regroup true false c = refl
      regroup false true c = refl
      regroup false false c = refl

  abbrev pub is_value : ℕ → Option ℕ → ℕ
  is_value v none = 0
  is_value v (some found) = if v == found then 1 else 0

  -- How many blocks of the list match on the value.
  abbrev pub times_matched : ℕ → List CfgBlock → ℕ
  times_matched v [] = 0
  times_matched v (block ∷ blocks) =
      is_value v (scrutinised_value cfg block.terminator) + times_matched v blocks

  count_scrutiny-get :
      (o : Option ℕ) (counts : HashMap ℕ ℕ) (v : ℕ)
      → count_or_zero (Map.get (count_scrutiny cfg o counts) v)
        ≡ is_value v o + count_or_zero (Map.get counts v)
  count_scrutiny-get none counts v = omega arith
  count_scrutiny-get (some found) counts v =
      rw (Map.get-insert counts found v (suc (count_or_zero (Map.get counts found))))
        (split (found == v) refl)
    where
      split :
          (b : Bool)
          → (found == v) ≡ b
          → count_or_zero (
              if found == v
              then some (suc (count_or_zero (Map.get counts found)))
              else Map.get counts v)
            ≡ is_value v (some found) + count_or_zero (Map.get counts v)
      split true e =
          let same : found ≡ v = (==_iff found v).0 e in
          rw e (rw same (rw ((==_iff v v).1 refl) (omega arith)))
      split false e = rw e (ground (arith, ==_iff found v))

  scrutinised-get :
      (blocks : List CfgBlock) (counts : HashMap ℕ ℕ) (v : ℕ)
      → count_or_zero (Map.get (collect_scrutinised cfg blocks counts) v)
        ≡ times_matched v blocks + count_or_zero (Map.get counts v)
  unfolding collect_scrutinised
  scrutinised-get [] counts v = omega arith
  scrutinised-get (block ∷ blocks) counts v = omega (
    arith,
    scrutinised-get blocks (count_scrutiny cfg (scrutinised_value cfg block.terminator) counts) v,
    count_scrutiny-get (scrutinised_value cfg block.terminator) counts v,
  )

  -- A block that takes a field as unique matches on a value that is retained nowhere and matched on
  -- by no other block.
  abbrev pub TakesUnique : CfgTerminator → Type 0
  TakesUnique (match_on scrutinee arms default) =
      takes_unique arms ≡ true
      → (parent : ℕ) × (value_of cfg (expr cfg scrutinee) ≡ some parent)
        × (retained_in parent cfg.blocks ≡ false)
        × (times_matched parent cfg.blocks ≤ 1)
  TakesUnique _ = Unit

  abbrev pub UniqueMoves : List CfgBlock → Type 0
  UniqueMoves [] = Unit
  UniqueMoves (block ∷ blocks) = TakesUnique block.terminator × UniqueMoves blocks

  abbrev retained_set : List ℕ
  retained_set = collect_retained cfg cfg.blocks []

  abbrev counted : HashMap ℕ ℕ
  counted = collect_scrutinised cfg cfg.blocks []

  counted-get : (v : ℕ) → count_or_zero (Map.get counted v) ≡ times_matched v cfg.blocks
  counted-get v = scrutinised-get cfg.blocks [] v ∙ rw (Map.get_empty {V = ℕ} v) (omega arith)

  retained_set-mem : (v : ℕ) → mem v retained_set ≡ retained_in v cfg.blocks
  retained_set-mem v = ground (arith, mem-collect_retained v cfg.blocks [])

  module _ {G : Type 0} where
    verify_parent-IsClean :
        (block : ℕ) (o : Option ℕ) (s : Verifying G)
        → IsClean (verify_parent cfg retained_set counted block o s) ↔ (
            (parent : ℕ) × (o ≡ some parent)
            × (retained_in parent cfg.blocks ≡ false)
            × (times_matched parent cfg.blocks ≤ 1)
            × IsClean s)
    verify_parent-IsClean block none s =
        (λ h. absurd (report-not-IsClean (unique_move_temporary block) s h), λ (p, e, a, b, c). cc)
    verify_parent-IsClean block (some parent) s =
        let shared = ltb 1 (count_or_zero (Map.get counted parent)) in
        let kept = mem parent retained_set in
        let s' = report_if kept (unique_move_retained parent block) s in
        let once = report_if_iff shared (unique_move_shared parent block) s' in
        let free = report_if_iff kept (unique_move_retained parent block) s in
        (
          λ h.
              let (few, clean) = once.0 h in
              let (new, old) = free.0 clean in
              (
                parent,
                refl,
                rw (← retained_set-mem parent) new,
                omega (arith, ltb-false_le _ few, counted-get parent),
                old,
              ),
          λ (p, e, new, few, old).
              let same : p ≡ parent = cc in
              let new' : kept ≡ false =
                rw (retained_set-mem parent)
                  (subst (λ (k : ℕ). retained_in k cfg.blocks ≡ false) same new) in
              let few' : shared ≡ false =
                rw (counted-get parent)
                  (ltb-false _ (subst (λ (k : ℕ). times_matched k cfg.blocks ≤ 1) same few)) in
              once.1 (few', free.1 (new', old)),
        )

    verify_end-IsClean :
        (block : ℕ) (t : CfgTerminator) (s : Verifying G)
        → IsClean (verify_unique_end cfg retained_set counted block t s)
          ↔ (TakesUnique t × IsClean s)
    verify_end-IsClean block (match_on scrutinee arms default) s =
        let one = verify_parent-IsClean block (value_of cfg (expr cfg scrutinee)) s in
        elim (Bool-cases (takes_unique arms)) [
          | inl e ↦ rw e (
            λ h. let (p, a, b, c, old) = one.0 h in ((λ _. (p, a, b, c)), old),
            λ (u, old). let (p, a, b, c) = u refl in one.1 (p, a, b, c, old),
          )
          | inr e ↦ rw e (λ h. ((λ t. cc), h), λ h. h.1)
        ]
    verify_end-IsClean block (ret value) s = (λ h. (tt, h), λ h. h.1)
    verify_end-IsClean block (goto target args) s = (λ h. (tt, h), λ h. h.1)
    verify_end-IsClean block (branch cond then_target else_target) s = (λ h. (tt, h), λ h. h.1)
    verify_end-IsClean block (switch selector targets default) s = (λ h. (tt, h), λ h. h.1)
    verify_end-IsClean block (call convention callee callee_fn args result target) s =
        (λ h. (tt, h), λ h. h.1)
    verify_end-IsClean block (perform effect operation args result target) s =
        (λ h. (tt, h), λ h. h.1)
    verify_end-IsClean block unreachable s = (λ h. (tt, h), λ h. h.1)

    verify_unique_blocks-IsClean :
        (blocks : List CfgBlock) (s : Verifying G)
        → IsClean (verify_unique_blocks cfg retained_set counted blocks s)
          ↔ (UniqueMoves blocks × IsClean s)
    unfolding verify_unique_blocks
    verify_unique_blocks-IsClean [] s = (λ h. (tt, h), λ h. h.1)
    verify_unique_blocks-IsClean (block ∷ blocks) s =
        let s' = verify_unique_end cfg retained_set counted block.id block.terminator s in
        let ih = verify_unique_blocks-IsClean blocks s' in
        let one = verify_end-IsClean block.id block.terminator s in
        (
          λ h. let (rest, clean) = ih.0 h in let (here, old) = one.0 clean in ((here, rest), old),
          λ ((here, rest), old). ih.1 (rest, one.1 (here, old)),
        )

    -- The verifier reports nothing exactly when the graph's validation found no error, each block
    -- that takes a field as unique matches on a value that no operation retains and no other block
    -- matches on, and along each block every operation names a value and none is released twice.
    pub verify-clean_iff :
        (graph_errors : List G)
        → ((verify cfg graph_errors).reports ≡ [])
          ↔ ((graph_errors ≡ []) × UniqueMoves cfg.blocks × BlocksRelease cfg cfg.blocks)
    unfolding verify verify_unique_moves
    verify-clean_iff graph_errors =
        let s0 : Verifying G = record { reports = []; stats = no_stats } in
        let s1 = report_graph graph_errors s0 in
        let graph = report_graph_iff graph_errors s0 in
        let unique = verify_unique_blocks-IsClean cfg.blocks s1 in
        let blocks =
          verify_blocks-IsClean cfg cfg.blocks
            (verify_unique_blocks cfg retained_set counted cfg.blocks s1) in
        (
          λ h. let (c, h') = blocks.0 h in let (b, h'') = unique.0 h' in ((graph.0 h'').0, b, c),
          λ (a, b, c). blocks.1 (c, unique.1 (b, graph.1 (a, refl))),
        )
