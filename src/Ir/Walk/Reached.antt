-- ===== src/Ir/Walk/Reached.antt =====
-- crates/cielo-ir/src/walk.rs: what a walk finds.
use cielo.Prelude.{
  ℕ, Bool, true, false, Option, some, List, [], ◌∷◌, length, get_elem?, get_elem?-none, ◌≡◌, ◌≢◌,
  ◌↔◌, ◌⊎◌, inl, inr, refl, Elem, arith, Option-cases, Bool-cases,
}
use cielo.Prelude.Explore.{
  Visit, halt, expand, Outcome, exhausted, halted, done, explore, Reach, here, step, IsExact,
}
use cielo.Prelude.Explore.Fuel.{IsBounded}
use cielo.Prelude.Explore.Exact.{explore-IsExact}
use cielo.Ir.Walk.{
  Walk, visited, visit_expr, walk_fuel, walk_exprs_from, any_expr, any_expr_from, halt_if, Reaches,
  at_root, operand, answered, answer_only, finished,
}

module _ {N : Type 0} (child_exprs : N → List ℕ) (arena : List N) where
  visit_expr-IsBounded :
      (visit : ℕ → N → Walk) → IsBounded (visit_expr child_exprs arena visit) (length arena)
  unfolding visit_expr
  visit_expr-IsBounded visit x h = rw (get_elem?-none arena x h)

  walk-IsExact :
      (visit : ℕ → N → Walk) (root : ℕ)
      → IsExact (visit_expr child_exprs arena visit) root (
          explore
            (visit_expr child_exprs arena visit)
            (walk_fuel child_exprs arena visit)
            (root ∷ [])
            []
            false)
  walk-IsExact visit root =
      explore-IsExact (visit_expr child_exprs arena visit) (length arena)
        (visit_expr-IsBounded visit) root (walk_fuel child_exprs arena visit) (omega arith)

  module _ (predicate : ℕ → N → Bool) (root : ℕ) where
    abbrev asked : ℕ → Visit
    asked = visit_expr child_exprs arena (λ expr_id node. halt_if (predicate expr_id node))

    -- A node reached from the root at which the predicate holds.
    abbrev pub Found : Type 0
    Found =
        (y : ℕ) × (node : N) × Reaches child_exprs arena root y
        × (get_elem? arena y ≡ some node)
        × (predicate y node ≡ true)

    asked-expand :
        (x : ℕ) (next : List ℕ) (y : ℕ)
        → asked x ≡ expand next
        → Elem y next
        → (node : N) × (get_elem? arena x ≡ some node) × Elem y (child_exprs node)
    unfolding visit_expr
    asked-expand x next y e m = elim (Option-cases (get_elem? arena x)) [
      | inl missing ↦
          let e' : expand [] ≡ expand next = rw (missing, visited) at e in
          let same : [] ≡ next = cc in absurd (rw (← same) at m)
      | inr (node, found) ↦ elim (Bool-cases (predicate x node)) [
        | inl yes_here ↦ let e' : halt ≡ expand next = rw (found, yes_here) at e in cc
        | inr not_here ↦
            let e' : expand (child_exprs node) ≡ expand next = rw (found, not_here) at e in
            let same : child_exprs node ≡ next = cc in (node, found, rw same m)
      ]
    ]

    Reach-Reaches : {y : ℕ} → Reach asked root y → Reaches child_exprs arena root y
    Reach-Reaches here = at_root
    Reach-Reaches (step {x} {y} next r e m) =
        let (node, found, child) = asked-expand x next y e m in
        operand node (Reach-Reaches r) found child

    asked-halt :
        (x : ℕ)
        → asked x ≡ halt
        → (node : N) × (get_elem? arena x ≡ some node) × (predicate x node ≡ true)
    unfolding visit_expr
    asked-halt x e = elim (Option-cases (get_elem? arena x)) [
      | inl missing ↦ let e' : expand [] ≡ halt = rw (missing, visited) at e in cc
      | inr (node, found) ↦ elim (Bool-cases (predicate x node)) [
        | inl holds ↦ (node, found, holds)
        | inr not_here ↦ let e' : expand (child_exprs node) ≡ halt = rw (found, not_here) at e in cc
      ]
    ]

    asked-found :
        (x : ℕ) (node : N)
        → get_elem? arena x ≡ some node
        → (asked x ≡ halt) ⊎ ((asked x ≡ expand (child_exprs node)) × (predicate x node ≡ false))
    unfolding visit_expr
    asked-found x node found = elim (Bool-cases (predicate x node)) [
      | inl holds ↦ inl (rw (found, holds))
      | inr not_here ↦ inr (rw (found, not_here), not_here)
    ]

    -- Without a node that halts, the walk reaches all that the root reaches.
    Reaches-Reach :
        ((y : ℕ) → Reach asked root y → asked y ≢ halt)
        → {y : ℕ} → Reaches child_exprs arena root y
        → Reach asked root y
    Reaches-Reach free at_root = here
    Reaches-Reach free (operand {x} {y} node r found child) =
        let r' = Reaches-Reach free r in
        elim (asked-found x node found) [
          | inl e ↦ absurd (free x r' e)
          | inr (e, _) ↦ step (child_exprs node) r' e child
        ]

    answer : Outcome → Option Bool
    answer o = answer_only (answered (finished o))

    answer-Found :
        (o : Outcome)
        → IsExact asked root o
        → (b : Bool) × (answer o ≡ some b) × ((b ≡ true) ↔ Found)
    unfolding answer
    answer-Found exhausted h = absurd h
    answer-Found (halted seen) (y, r, e) =
        let (node, found, holds) = asked-halt y e in
        (true, refl, (λ _. (y, node, Reach-Reaches r, found, holds), λ _. refl))
    answer-Found (done seen saw) (marked, noted, free) =
        (false, refl, (λ e. cc, λ f. absurd (never f)))
      where
        never : Found → ⊥
        never (y, node, r, found, holds) = elim (asked-found y node found) [
          | inl e ↦ free y (Reaches-Reach free r) e
          | inr (_, e) ↦ cc
        ]

    -- `any_expr` ends, and its answer is yes exactly when the predicate holds at some node that
    -- operands lead to from the root.
    pub any_expr_iff :
        (b : Bool) × (any_expr child_exprs arena root predicate ≡ some b) × ((b ≡ true) ↔ Found)
    unfolding any_expr any_expr_from walk_exprs_from answer
    any_expr_iff =
        answer-Found _ (walk-IsExact (λ expr_id node. halt_if (predicate expr_id node)) root)
