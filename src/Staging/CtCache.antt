-- ===== src/Staging/CtCache.antt =====
-- crates/cielo-staging/src/passes/ct_common.rs: the cache of expressions known at compile time,
-- filled by passes over the arena until one changes nothing.
pub mod Step
pub mod Passes
pub mod Correct
pub mod Branches
use cielo.Prelude.{
  ℕ, zero, suc, ◌+◌, Bool, true, false, Option, none, some, List, [], ◌∷◌, length, max, ltb,
  if◌then◌else◌, ◌>>=◌,
}
use cielo.Base.Ids.{u32_max}
use cielo.Base.DenseMap
use cielo.Base.DenseMap.{DenseMap}
use cielo.Ir.Target.{TargetSpec}
use cielo.Ir.Core.Literal.{FloatOps, Literal, bool}
use cielo.Ir.Core.Expr.{ExprKind, literal, unary, binary, ExprNode}
use cielo.Staging.Eval.{normalize_literal, eval_unary, eval_binary}

pub record CtEvalStats : Type 0 where
  pub iterations : ℕ
  pub eval_attempts : ℕ
  pub cache_hits : ℕ
  pub cache_inserts : ℕ
  pub folded_literals : ℕ
  pub folded_unary : ℕ
  pub folded_binary : ℕ
  pub folded_float_host : ℕ
  pub miss_missing_inputs : ℕ
  pub miss_unsupported : ℕ

abbrev pub default_stats : CtEvalStats
default_stats = record {
  iterations = 0;
  eval_attempts = 0;
  cache_hits = 0;
  cache_inserts = 0;
  folded_literals = 0;
  folded_unary = 0;
  folded_binary = 0;
  folded_float_host = 0;
  miss_missing_inputs = 0;
  miss_unsupported = 0;
}

-- `saturating_add(1)` on 32 bits
abbrev pub saturating_inc : ℕ → ℕ
saturating_inc n = if ltb n u32_max then n + 1 else n

pub data FoldKind : Type 0 where
  of_literal of_unary of_binary : FoldKind

pub data EvalOutcome (F : Type 0) : Type 0 where
  folded : (value : Literal F) (kind : FoldKind) (used_host_float : Bool) → EvalOutcome F
  missing_inputs unsupported : EvalOutcome F

pub data BranchDecision : Type 0 where
  live_true live_false unknown : BranchDecision

-- the value of an operator, or `Unsupported`
abbrev pub outcome_of : {F : Type 0} → FoldKind → Option (Literal F × Bool) → EvalOutcome F
outcome_of kind none = unsupported
outcome_of kind (some (value, used)) = folded value kind used

abbrev pub count_fold : FoldKind → CtEvalStats → CtEvalStats
count_fold of_literal s = record s { folded_literals = saturating_inc s.folded_literals }
count_fold of_unary s = record s { folded_unary = saturating_inc s.folded_unary }
count_fold of_binary s = record s { folded_binary = saturating_inc s.folded_binary }

-- the variables of `compute_ct_cache`
pub record State (F : Type 0) : Type 0 where
  pub cache : DenseMap (Literal F)
  pub stats : CtEvalStats
  pub changed : Bool

abbrev pub Cache : Type 0 → Type 0
Cache F = DenseMap (Literal F)

module _ (ops : FloatOps) (target : TargetSpec) where
  open ops use {F}

  unfoldable pub eval_expr : ExprKind F → Cache F → EvalOutcome F
  eval_expr (literal value) cache = folded (normalize_literal value target) of_literal false
  eval_expr (unary op expr) cache = elim (DenseMap.get cache expr) [
    | none ↦ missing_inputs
    | some value ↦ outcome_of of_unary (eval_unary ops op value target)
  ]
  eval_expr (binary op lhs rhs) cache = elim (DenseMap.get cache lhs) [
    | none ↦ missing_inputs
    | some left ↦ elim (DenseMap.get cache rhs) [
      | none ↦ missing_inputs
      | some right ↦ outcome_of of_binary (eval_binary ops op left right target)
    ]
  ]
  eval_expr _ cache = unsupported

  -- the `match` on the outcome
  unfoldable pub record_outcome : ℕ → EvalOutcome F → State F → State F
  record_outcome id (folded value kind used_host_float) s =
      let inserted = record s.stats { cache_inserts = saturating_inc s.stats.cache_inserts } in
      let counted = count_fold kind inserted in
      let stats =
        if used_host_float
        then record counted { folded_float_host = saturating_inc counted.folded_float_host }
        else counted in
      record { cache = (DenseMap.insert s.cache id value).0; stats = stats; changed = true }
  record_outcome id missing_inputs s = record s {
    stats = record (s.stats) { miss_missing_inputs = saturating_inc s.stats.miss_missing_inputs };
  }
  record_outcome id unsupported s = record s {
    stats = record (s.stats) { miss_unsupported = saturating_inc s.stats.miss_unsupported };
  }

  -- the body of the inner loop. An arena holds at most 2^32 nodes, so `ExprId::new(i)` succeeds.
  unfoldable pub visit : ℕ → ExprNode F → State F → State F
  unfolding eval_expr record_outcome
  visit id expr s =
      if DenseMap.contains_key s.cache id
      then record s { stats = record (s.stats) { cache_hits = saturating_inc s.stats.cache_hits } }
      else record_outcome id (eval_expr expr.kind s.cache) (record s {
        stats = record (s.stats) { eval_attempts = saturating_inc s.stats.eval_attempts };
      })

  -- the inner loop, from the expression with number `i`
  unfoldable pub visit_from : ℕ → List (ExprNode F) → State F → State F
  visit_from i [] s = s
  visit_from i (expr ∷ exprs) s = visit_from (suc i) exprs (visit i expr s)

  -- one round of the outer loop, up to its test
  unfoldable pub one_pass : List (ExprNode F) → State F → State F
  one_pass exprs s = visit_from 0 exprs (record s {
    stats = record (s.stats) { iterations = saturating_inc s.stats.iterations };
    changed = false;
  })

  unfoldable pub passes : ℕ → List (ExprNode F) → State F → State F
  passes zero exprs s = s
  passes (suc n) exprs s =
      let next = one_pass exprs s in
      elim (next.changed) [ true ↦ passes n exprs next | false ↦ next ]

  abbrev pub initial_state : State F
  initial_state = record { cache = DenseMap.default; stats = default_stats; changed = false }

  unfoldable pub compute_ct_cache : List (ExprNode F) → Cache F × CtEvalStats
  compute_ct_cache exprs =
      let s = passes (max (length exprs + 1) 1) exprs initial_state in (s.cache, s.stats)

abbrev pub branch_decision : {F : Type 0} → Literal F → Option BranchDecision
branch_decision (bool true) = some live_true
branch_decision (bool false) = some live_false
branch_decision _ = none

-- the `filter_map` of `rebuild_branch_decisions`
abbrev pub decisions : {F : Type 0} → List (ℕ × Literal F) → List (ℕ × BranchDecision)
decisions [] = []
decisions ((id, value) ∷ rest) = elim (branch_decision value) [
  | none ↦ decisions rest
  | some decision ↦ (id, decision) ∷ decisions rest
]

unfoldable pub rebuild_branch_decisions : {F : Type 0} → Cache F → DenseMap BranchDecision
rebuild_branch_decisions ct_cache = DenseMap.from_iter (decisions (DenseMap.iter ct_cache))
