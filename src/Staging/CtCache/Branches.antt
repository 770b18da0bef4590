-- ===== src/Staging/CtCache/Branches.antt =====
-- crates/cielo-staging/src/passes/ct_common.rs: `rebuild_branch_decisions` beside the cache.
use cielo.Prelude.{
  ℕ, zero, suc, ◌+◌, ◌<◌, ◌≡◌, ◌≢◌, ◌↔◌, refl, ◌∙◌, inl, inr, Bool, true, false, Option, none, some,
  List, [], ◌∷◌, arith, if◌then◌else◌, ◌>>=◌, ◌==◌, Option-cases,
}
use cielo.Base.DenseMap
use cielo.Base.DenseMap.{DenseMap, slot, iter_from}
use cielo.Base.DenseMap.Laws.{last_value, get-from_iter}
use cielo.Ir.Core.Literal.{Literal, bool}
use cielo.Staging.CtCache.{
  Cache, BranchDecision, live_true, live_false, unknown, branch_decision, decisions,
  rebuild_branch_decisions,
}

abbrev or_else : Option BranchDecision → Option BranchDecision → Option BranchDecision
or_else (some w) p = some w
or_else none p = p

no_decision : (o : Option BranchDecision) (b : Bool) → o ≡ or_else o (if b then none else none)
no_decision (some w) b = refl
no_decision none true = refl
no_decision none false = refl

or_else-none : (o : Option BranchDecision) → or_else o none ≡ o
or_else-none (some w) = refl
or_else-none none = refl

module _ {F : Type 0} where
  abbrev last_decision : List (ℕ × Literal F) → ℕ → Option BranchDecision
  last_decision entries k = last_value (decisions entries) k

  last_decision-cons :
      (idx k : ℕ) (v : Literal F) (rest : List (ℕ × Literal F))
      → last_decision ((idx, v) ∷ rest) k
        ≡ or_else (last_decision rest k) (if idx == k then branch_decision v else none)
  unfolding last_value
  last_decision-cons idx k (bool true) rest = elim (Option-cases (last_decision rest k)) [
    | inl e ↦ rw (e, last_value) refl
    | inr (w, e) ↦ rw (e, last_value) refl
  ]
  last_decision-cons idx k (bool false) rest = elim (Option-cases (last_decision rest k)) [
    | inl e ↦ rw (e, last_value) refl
    | inr (w, e) ↦ rw (e, last_value) refl
  ]
  last_decision-cons idx k v rest = no_decision (last_decision rest k) (idx == k)

  none_before :
      (idx k : ℕ) (xs : List (Option (Literal F)))
      → k < idx
      → last_decision (iter_from idx xs) k ≡ none
  unfolding last_value
  none_before idx k [] below = refl
  none_before idx k (none ∷ xs) below = none_before (suc idx) k xs (omega (arith, below))
  none_before idx k (some v ∷ xs) below =
      let away : (idx == k) ≡ false = ground (arith, below) in
      last_decision-cons idx k v (iter_from (suc idx) xs)
      ∙ rw (none_before (suc idx) k xs (omega (arith, below)), away) refl

  decision_at :
      (i idx k : ℕ) (xs : List (Option (Literal F)))
      → k ≡ idx + i
      → last_decision (iter_from idx xs) k ≡ (slot xs i >>= branch_decision)
  unfolding last_value
  decision_at i idx k [] at = refl
  decision_at zero idx k (none ∷ xs) at = none_before (suc idx) k xs (omega (arith, at))
  decision_at (suc i) idx k (none ∷ xs) at = decision_at i (suc idx) k xs (omega (arith, at))
  decision_at zero idx k (some v ∷ xs) at =
      let here : (idx == k) ≡ true = ground (arith, at) in
      last_decision-cons idx k v (iter_from (suc idx) xs)
      ∙ rw (none_before (suc idx) k xs (omega (arith, at)), here) refl
  decision_at (suc i) idx k (some v ∷ xs) at =
      let away : (idx == k) ≡ false = ground (arith, at) in
      last_decision-cons idx k v (iter_from (suc idx) xs)
      ∙ rw (decision_at i (suc idx) k xs (omega (arith, at)), away)
          (or_else-none (slot xs i >>= branch_decision))

  decision_of_value :
      (cache : Cache F) (id : ℕ)
      → DenseMap.get (rebuild_branch_decisions cache) id
        ≡ (DenseMap.get cache id >>= branch_decision)
  unfolding rebuild_branch_decisions DenseMap.get DenseMap.iter
  decision_of_value cache id =
      get-from_iter (decisions (DenseMap.iter cache)) id
      ∙ decision_at id 0 id cache.slots (omega arith)

  -- What a decision says of the value known, if any.
  record Decides (value : Option (Literal F)) (decision : Option BranchDecision) : Type 0 where
    pub on_true : (decision ≡ some live_true) ↔ (value ≡ some (bool true))
    pub on_false : (decision ≡ some live_false) ↔ (value ≡ some (bool false))
    pub never_unknown : decision ≢ some unknown

  branch_decision-Decides : (value : Option (Literal F)) → Decides value (value >>= branch_decision)
  branch_decision-Decides none = ground arith
  branch_decision-Decides (some (bool true)) = ground arith
  branch_decision-Decides (some (bool false)) = ground arith
  branch_decision-Decides (some _) = ground arith

  -- An expression has the decision for a true condition exactly when the cache holds `true` for it,
  -- the one for a false condition exactly when it holds `false`, and never an unknown decision.
  pub get-rebuild_branch_decisions :
      (cache : Cache F) (id : ℕ)
      → ((DenseMap.get (rebuild_branch_decisions cache) id ≡ some live_true)
          ↔ (DenseMap.get cache id ≡ some (bool true)))
        × ((DenseMap.get (rebuild_branch_decisions cache) id ≡ some live_false)
            ↔ (DenseMap.get cache id ≡ some (bool false)))
        × (DenseMap.get (rebuild_branch_decisions cache) id ≢ some unknown)
  get-rebuild_branch_decisions cache id =
      let d = branch_decision-Decides (DenseMap.get cache id) in
      rw (decision_of_value cache id) (d.on_true, d.on_false, d.never_unknown)
