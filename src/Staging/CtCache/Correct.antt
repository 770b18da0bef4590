-- ===== src/Staging/CtCache/Correct.antt =====
-- crates/cielo-staging/src/passes/ct_common.rs: the cache of `compute_ct_cache` beside the rules of
-- literals and operators.
use cielo.Prelude.{
  ℕ, zero, suc, ◌+◌, ◌≡◌, refl, sym, ap, subst, inl, inr, ◌↔◌, Bool, none, some, List, [], ◌∷◌,
  arith, length, max, get_elem?, ◌==◌, ==_iff, Option-cases, Bool-cases,
}
use cielo.Base.DenseMap
use cielo.Base.DenseMap.{DenseMap}
use cielo.Base.DenseMap.Laws.{get-insert, get-default}
use cielo.Ir.Target.{TargetSpec}
use cielo.Ir.Core.Literal.{FloatOps, Literal}
use cielo.Ir.Core.Expr.{ExprKind, ExprNode, literal, unary, binary}
use cielo.Ir.Core.Ops.{UnaryOp, BinaryOp}
use cielo.Staging.Eval.{normalize_literal, eval_unary, eval_binary}
use cielo.Staging.CtCache.{
  Cache, State, eval_expr, visit, visit_from, one_pass, passes, initial_state, compute_ct_cache,
}
use cielo.Staging.CtCache.Step.{Extends, value_of, visit-cases, eval_expr_mono}
use cielo.Staging.CtCache.Passes.{unset-le, IsSettled, passes_settle, restarted}

module _ (ops : FloatOps) (target : TargetSpec) (exprs : List (ExprNode ops.F)) where
  open ops use {F}

  abbrev pub NodeAt : ℕ → ExprKind F → Type 0
  NodeAt id kind = (node : ExprNode F) × (get_elem? exprs id ≡ some node) × (node.kind ≡ kind)

  -- The expression with an id has a value.
  pub data Evaluates : ℕ → Literal F → Type 0 where
    of_literal :
        {id : ℕ} {v w : Literal F}
        → NodeAt id (literal v)
        → w ≡ normalize_literal v target
        → Evaluates id w
    of_unary :
        {id e : ℕ} {op : UnaryOp} {v w : Literal F} {host : Bool}
        → NodeAt id (unary op e)
        → Evaluates e v
        → eval_unary ops op v target ≡ some (w, host)
        → Evaluates id w
    of_binary :
        {id l r : ℕ} {op : BinaryOp} {a b w : Literal F} {host : Bool}
        → NodeAt id (binary op l r)
        → Evaluates l a
        → Evaluates r b
        → eval_binary ops op a b target ≡ some (w, host)
        → Evaluates id w

  IsSound : Cache F → Type 0
  IsSound c = (id : ℕ) (v : Literal F) → DenseMap.get c id ≡ some v → Evaluates id v

  -- Each value is what its expression gives over the cache itself.
  IsJustified : Cache F → Type 0
  IsJustified c =
      (id : ℕ) (v : Literal F)
      → DenseMap.get c id ≡ some v
      → (node : ExprNode F) × (get_elem? exprs id ≡ some node)
        × (value_of (eval_expr ops target node.kind c) ≡ some v)

  eval_expr-Evaluates :
      (id : ℕ) (kind : ExprKind F) (c : Cache F) (w : Literal F)
      → IsSound c
      → NodeAt id kind
      → value_of (eval_expr ops target kind c) ≡ some w
      → Evaluates id w
  unfolding eval_expr IsSound
  eval_expr-Evaluates id (literal v) c w sound at_id h = of_literal at_id (ground arith)
  eval_expr-Evaluates id (unary op e) c w sound at_id h = elim (Option-cases (DenseMap.get c e)) [
    | inl missing ↦ ground arith
    | inr (v, known) ↦ elim (Option-cases (eval_unary ops op v target)) [
      | inl fails ↦ ground arith
      | inr ((u, host), gives) ↦
          let same : u ≡ w = ground arith in
          of_unary {host = host} at_id (sound e v known) (rw (← same) gives)
    ]
  ]
  eval_expr-Evaluates id (binary op l r) c w sound at_id h =
      elim (Option-cases (DenseMap.get c l)) [
        | inl missing ↦ ground arith
        | inr (a, known) ↦ elim (Option-cases (DenseMap.get c r)) [
          | inl missing ↦ ground arith
          | inr (b, known') ↦ elim (Option-cases (eval_binary ops op a b target)) [
            | inl fails ↦ ground arith
            | inr ((u, host), gives) ↦
                let same : u ≡ w = ground arith in
                of_binary {host = host} at_id (sound l a known) (sound r b known')
                  (rw (← same) gives)
          ]
        ]
      ]
  eval_expr-Evaluates id _ c w sound at_id h = cc

  -- Over a justified cache to which nothing can be added, what evaluates is cached.
  cached_of_value :
      (c : Cache F) (id : ℕ) (kind : ExprKind F) (v : Literal F)
      → IsJustified c
      → IsSettled ops target 0 exprs c
      → NodeAt id kind
      → value_of (eval_expr ops target kind c) ≡ some v
      → DenseMap.get c id ≡ some v
  unfolding IsJustified
  cached_of_value c id kind v just settled (node, at_id, is_kind) h =
      elim (Option-cases (DenseMap.get c id)) [
        | inl missing ↦
            let start : 0 + id ≡ id = omega arith in
            let stuck =
              settled id node at_id (subst (λ j. DenseMap.get c j ≡ none) (sym start) missing) in
            cc
        | inr (w, known) ↦
            let (node', at_id', value) = just id w known in
            let same : node' ≡ node = ground arith in cc
      ]

  -- Such a cache knows every value.
  settled_complete :
      (c : Cache F)
      → IsJustified c
      → IsSettled ops target 0 exprs c
      → {id : ℕ} {v : Literal F} → Evaluates id v
      → DenseMap.get c id ≡ some v
  unfolding eval_expr
  settled_complete c just settled {id} {v = w} (of_literal {v = v} at_id e) =
      cached_of_value c id (literal v) w just settled at_id (ap some (sym e))
  settled_complete c just settled {id} {v = w} (of_unary {e = e} {op = op} at_id d gives) =
      cached_of_value c id (unary op e) w just settled at_id
        (ground (arith, settled_complete c just settled d))
  settled_complete c just settled {id} {v = w}
        (of_binary {l = l} {r = r} {op = op} at_id d d' gives) =
      cached_of_value c id (binary op l r) w just settled at_id
        (ground (arith, settled_complete c just settled d, settled_complete c just settled d'))

  record Inv (c : Cache F) : Type 0 where
    sound : IsSound c
    justified : IsJustified c

  Inv-insert :
      (c : Cache F) (id : ℕ) (node : ExprNode F) (v : Literal F)
      → Inv c
      → get_elem? exprs id ≡ some node
      → DenseMap.get c id ≡ none
      → value_of (eval_expr ops target node.kind c) ≡ some v
      → Inv (DenseMap.insert c id v).0
  unfolding IsSound IsJustified
  Inv-insert c id node v inv at_id missing value =
      let c' = (DenseMap.insert c id v).0 in
      let grows : Extends c c' = λ j w h. ground (arith, get-insert c id j v, ==_iff id j) in
      record {
        sound = λ j w h. elim (Bool-cases (id == j)) [
          | inl same ↦
              let here : id ≡ j = ground arith in
              let is_v : v ≡ w = ground (arith, get-insert c id j v) in
              rw (← here, ← is_v)
                (eval_expr-Evaluates id node.kind c v inv.sound (node, at_id, refl) value)
          | inr other ↦ inv.sound j w (ground (arith, get-insert c id j v))
        ];
        justified = λ j w h. elim (Bool-cases (id == j)) [
          | inl same ↦
              let here : id ≡ j = ground arith in
              let is_v : v ≡ w = ground (arith, get-insert c id j v) in
              rw (← here, ← is_v)
                (node, at_id, eval_expr_mono ops target node.kind c c' v grows value)
          | inr other ↦
              let (old, at_j, old_value) =
                inv.justified j w (ground (arith, get-insert c id j v)) in
              (old, at_j, eval_expr_mono ops target old.kind c c' w grows old_value)
        ];
      }

  visit_from-Inv :
      (i : ℕ) (xs : List (ExprNode F)) (s : State F)
      → ((k : ℕ) (node : ExprNode F)
          → get_elem? xs k ≡ some node
          → get_elem? exprs (i + k) ≡ some node)
      → Inv s.cache
      → Inv (visit_from ops target i xs s).cache
  unfolding visit_from
  visit_from-Inv i [] s within inv = inv
  visit_from-Inv i (x ∷ xs) s within inv =
      let here : get_elem? exprs i ≡ some x =
        let at_i : i + 0 ≡ i = omega arith in
        subst (λ j. get_elem? exprs j ≡ some x) at_i (within 0 x refl) in
      visit_from-Inv (suc i) xs (visit ops target i x s)
        (λ k node e.
          let shifted : i + suc k ≡ suc i + k = omega arith in
          subst (λ j. get_elem? exprs j ≡ some node) shifted (within (suc k) node e))
        (elim (visit-cases ops target i x s) [
          | inl (v, missing, value, cache, changed) ↦
              rw cache (Inv-insert s.cache i x v inv here missing value)
          | inr (cache, changed, value) ↦ rw cache inv
        ])

  passes-Inv : (n : ℕ) (s : State F) → Inv s.cache → Inv (passes ops target n exprs s).cache
  unfolding passes one_pass
  passes-Inv zero s inv = inv
  passes-Inv (suc n) s inv =
      let next = one_pass ops target exprs s in
      let inv' : Inv next.cache =
        visit_from-Inv 0 exprs (restarted ops target s)
          (λ k node e.
            let start : k ≡ 0 + k = omega arith in
            subst (λ j. get_elem? exprs j ≡ some node) start e)
          inv in
      elim (Bool-cases (next.changed)) [
        | inl more ↦ rw (more, passes) (passes-Inv n next inv')
        | inr done ↦ rw (done, passes) inv'
      ]

  initial-Inv : Inv (DenseMap.default)
  unfolding IsSound IsJustified
  initial-Inv = record {
    sound = λ id v h. cc (get-default {V = Literal F} id);
    justified = λ id v h. cc (get-default {V = Literal F} id);
  }

  -- The cache that `compute_ct_cache` returns knows a value of an expression exactly if the
  -- expression evaluates to it: nothing is folded wrongly, and the passes are enough to fold all
  -- that can be folded.
  pub compute_ct_cache_iff :
      (id : ℕ) (v : Literal F)
      → (DenseMap.get (compute_ct_cache ops target exprs).0 id ≡ some v) ↔ Evaluates id v
  unfolding compute_ct_cache IsSound
  compute_ct_cache_iff id v =
      let rounds = max (length exprs + 1) 1 in
      let inv = passes-Inv rounds (initial_state ops target) initial-Inv in
      let settled =
        passes_settle ops target rounds exprs (initial_state ops target)
          (omega (arith, unset-le (DenseMap.default {V = Literal F}) (length exprs))) in
      (
        inv.sound id v,
        settled_complete (passes ops target rounds exprs (initial_state ops target)).cache
            inv.justified settled,
      )
