-- ===== src/Staging/CtCache/Step.antt =====
-- crates/cielo-staging/src/passes/ct_common.rs: one visit of the inner loop.
use cielo.Prelude.{
  ℕ, ◌≡◌, refl, ◌⊎◌, inl, inr, true, Option, none, some, arith, ==_iff, Option-cases,
}
use cielo.Base.DenseMap
use cielo.Base.DenseMap.{DenseMap}
use cielo.Base.DenseMap.Laws.{get-insert, contains_key-none, contains_key-some}
use cielo.Ir.Target.{TargetSpec}
use cielo.Ir.Core.Literal.{FloatOps, Literal}
use cielo.Ir.Core.Expr.{ExprKind, ExprNode, literal, unary, binary}
use cielo.Staging.CtCache.{
  Cache, State, EvalOutcome, folded, missing_inputs, unsupported, eval_expr, record_outcome, visit,
  saturating_inc,
}

-- the value of an outcome
abbrev pub value_of : {F : Type 0} → EvalOutcome F → Option (Literal F)
value_of (folded value kind used) = some value
value_of missing_inputs = none
value_of unsupported = none

-- What the first cache knows the second knows.
abbrev pub Extends : {F : Type 0} → Cache F → Cache F → Type 0
Extends {F} c c' = (j : ℕ) (v : Literal F) → DenseMap.get c j ≡ some v → DenseMap.get c' j ≡ some v

module _ (ops : FloatOps) (target : TargetSpec) where
  open ops use {F}

  -- What evaluates keeps its value as the cache grows.
  pub eval_expr_mono :
      (kind : ExprKind F) (c c' : Cache F) (v : Literal F)
      → Extends c c'
      → value_of (eval_expr ops target kind c) ≡ some v
      → value_of (eval_expr ops target kind c') ≡ some v
  unfolding eval_expr
  eval_expr_mono (literal value) c c' v grows h = h
  eval_expr_mono (unary op e) c c' v grows h = elim (Option-cases (DenseMap.get c e)) [
    | inl missing ↦ ground arith
    | inr (w, known) ↦ ground (arith, grows e w known)
  ]
  eval_expr_mono (binary op l r) c c' v grows h = elim (Option-cases (DenseMap.get c l)) [
    | inl missing ↦ ground arith
    | inr (a, known) ↦ elim (Option-cases (DenseMap.get c r)) [
      | inl missing ↦ ground arith
      | inr (b, known') ↦ ground (arith, grows l a known, grows r b known')
    ]
  ]
  eval_expr_mono _ c c' v grows h = cc

  -- A visit inserts the value of an expression that is not cached, or leaves the cache alone.
  abbrev pub Inserted : ℕ → ExprNode F → State F → State F → Type 0
  Inserted id node s s' =
      (v : Literal F) × (DenseMap.get s.cache id ≡ none)
      × (value_of (eval_expr ops target node.kind s.cache) ≡ some v)
      × (s'.cache ≡ (DenseMap.insert s.cache id v).0)
      × (s'.changed ≡ true)

  abbrev pub Left : ℕ → ExprNode F → State F → State F → Type 0
  Left id node s s' =
      (s'.cache ≡ s.cache)
      × (s'.changed ≡ s.changed)
      × (DenseMap.get s.cache id ≡ none → value_of (eval_expr ops target node.kind s.cache) ≡ none)

  outcome-cases :
      (id : ℕ) (o : EvalOutcome F) (s : State F)
      → ((v : Literal F) × (value_of o ≡ some v)
          × ((record_outcome ops target id o s).cache ≡ (DenseMap.insert s.cache id v).0)
          × ((record_outcome ops target id o s).changed ≡ true))
        ⊎ (((record_outcome ops target id o s).cache ≡ s.cache)
            × ((record_outcome ops target id o s).changed ≡ s.changed)
            × (value_of o ≡ none))
  unfolding record_outcome
  outcome-cases id (folded v kind used) s = inl (v, refl, refl, refl)
  outcome-cases id missing_inputs s = inr (refl, refl, refl)
  outcome-cases id unsupported s = inr (refl, refl, refl)

  abbrev attempted : State F → State F
  attempted s = record s {
    stats = record (s.stats) { eval_attempts = saturating_inc s.stats.eval_attempts };
  }

  visit_missing :
      (id : ℕ) (node : ExprNode F) (s : State F)
      → DenseMap.get s.cache id ≡ none
      → visit ops target id node s
        ≡ record_outcome ops target id (eval_expr ops target node.kind s.cache) (attempted s)
  unfolding visit
  visit_missing id node s h = rw (contains_key-none s.cache id h)

  visit_known :
      (id : ℕ) (node : ExprNode F) (s : State F) {v : Literal F}
      → DenseMap.get s.cache id ≡ some v
      → visit ops target id node s
        ≡ record s { stats = record (s.stats) { cache_hits = saturating_inc s.stats.cache_hits } }
  unfolding visit
  visit_known id node s h = rw (contains_key-some s.cache id h)

  pub visit-cases :
      (id : ℕ) (node : ExprNode F) (s : State F)
      → Inserted id node s (visit ops target id node s)
        ⊎ Left id node s (visit ops target id node s)
  visit-cases id node s = elim (Option-cases (DenseMap.get s.cache id)) [
    | inl missing ↦
        let outcome = eval_expr ops target node.kind s.cache in
        rw (visit_missing id node s missing) (elim (outcome-cases id outcome (attempted s)) [
          | inl (v, value, cache, changed) ↦ inl (v, missing, value, cache, changed)
          | inr (cache, changed, value) ↦ inr (cache, changed, λ _. value)
        ])
    | inr (v, known) ↦ rw (visit_known id node s known) (inr (refl, refl, λ missing. cc))
  ]

  -- A visit only adds to the cache.
  pub visit-Extends :
      (id : ℕ) (node : ExprNode F) (s : State F)
      → Extends s.cache (visit ops target id node s).cache
  visit-Extends id node s j v h = elim (visit-cases id node s) [
    | inl (w, missing, value, cache, changed) ↦ rw (cache, get-insert) (ground (arith, ==_iff id j))
    | inr (cache, changed, value) ↦ rw cache h
  ]
