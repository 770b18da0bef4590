-- ===== src/Staging/CtCache/Passes.antt =====
-- crates/cielo-staging/src/passes/ct_common.rs: how many passes `compute_ct_cache` needs.
use native.Mathlib.Decide.{dec_lt}
use cielo.Prelude.{
  ℕ, zero, suc, ◌+◌, ◌≤◌, ◌<◌, ◌≡◌, refl, subst, ◌∙◌, inl, inr, true, false, Option, none, some,
  List, [], ◌∷◌, arith, length, get_elem?, Option-cases, Bool-cases,
}
use cielo.Base.DenseMap
use cielo.Base.DenseMap.{DenseMap}
use cielo.Base.DenseMap.Laws.{get-insert_self}
use cielo.Ir.Target.{TargetSpec}
use cielo.Ir.Core.Literal.{FloatOps, Literal}
use cielo.Ir.Core.Expr.{ExprNode}
use cielo.Staging.CtCache.{
  Cache, State, eval_expr, visit, visit_from, one_pass, passes, saturating_inc,
}
use cielo.Staging.CtCache.Step.{Extends, value_of, visit-cases, visit-Extends}

-- 1 for a value that is not there
abbrev gap : {A : Type 0} → Option A → ℕ
gap none = 1
gap (some v) = 0

-- the ids below `n` that the cache does not know
pub unset : {F : Type 0} → Cache F → ℕ → ℕ
unset c zero = 0
unset c (suc n) = gap (DenseMap.get c n) + unset c n

pub unset-le : {F : Type 0} (c : Cache F) (n : ℕ) → unset c n ≤ n
unfolding unset
unset-le c zero = omega arith
unset-le c (suc n) = ground (arith, unset-le c n)

gap_mono :
    {F : Type 0} (c c' : Cache F) (n : ℕ)
    → Extends c c'
    → gap (DenseMap.get c' n) ≤ gap (DenseMap.get c n)
gap_mono c c' n grows = elim (Option-cases (DenseMap.get c n)) [
  | inl missing ↦ rw missing (ground arith)
  | inr (v, known) ↦ rw (known, grows n v known) (omega arith)
]

unset_mono : {F : Type 0} (c c' : Cache F) (n : ℕ) → Extends c c' → unset c' n ≤ unset c n
unfolding unset
unset_mono c c' zero grows = omega arith
unset_mono c c' (suc n) grows = omega (arith, gap_mono c c' n grows, unset_mono c c' n grows)

unset_falls :
    {F : Type 0} (c c' : Cache F) (n j : ℕ) (v : Literal F)
    → Extends c c'
    → j < n
    → DenseMap.get c j ≡ none
    → DenseMap.get c' j ≡ some v
    → unset c' n < unset c n
unfolding unset
unset_falls c c' zero j v grows h missing known = absurd (omega arith)
unset_falls c c' (suc n) j v grows h missing known = elim (dec_lt j n) [
  | yes below ↦
      omega (arith, gap_mono c c' n grows, unset_falls c c' n j v grows below missing known)
  | no last ↦
      let at_n : j ≡ n = omega arith in
      let before = subst (λ k. DenseMap.get c k ≡ none) at_n missing in
      let after = subst (λ k. DenseMap.get c' k ≡ some v) at_n known in
      let less = unset_mono c c' n grows in rw (before, after) (omega arith)
]

module _ (ops : FloatOps) (target : TargetSpec) where
  open ops use {F}

  -- the state in which the inner loop starts
  abbrev pub restarted : State F → State F
  restarted s = record s {
    stats = record (s.stats) { iterations = saturating_inc s.stats.iterations };
    changed = false;
  }

  -- What the loop does to the cache: it grows, unless nothing changes and no expression visited
  -- could be added.
  record Scanned (i : ℕ) (xs : List (ExprNode F)) (s s' : State F) : Type 0 where
    grows : Extends s.cache s'.cache
    kept : s.changed ≡ true → s'.changed ≡ true
    falls :
        (n : ℕ)
        → i + length xs ≤ n
        → s.changed ≡ false
        → s'.changed ≡ true
        → unset s'.cache n < unset s.cache n
    settled :
        s'.changed ≡ false
        → (s'.cache ≡ s.cache)
          × ((k : ℕ) (node : ExprNode F)
              → get_elem? xs k ≡ some node
              → DenseMap.get s.cache (i + k) ≡ none
              → value_of (eval_expr ops target node.kind s.cache) ≡ none)

  -- No expression from number `i` on can be added to the cache.
  abbrev pub IsSettled : ℕ → List (ExprNode F) → Cache F → Type 0
  IsSettled i xs c =
      (k : ℕ) (node : ExprNode F)
      → get_elem? xs k ≡ some node
      → DenseMap.get c (i + k) ≡ none
      → value_of (eval_expr ops target node.kind c) ≡ none

  IsSettled-cons :
      (i : ℕ) (x : ExprNode F) (xs : List (ExprNode F)) (c : Cache F)
      → (DenseMap.get c i ≡ none → value_of (eval_expr ops target x.kind c) ≡ none)
      → IsSettled (suc i) xs c
      → IsSettled i (x ∷ xs) c
  IsSettled-cons i x xs c here rest zero node e missing =
      let same : x ≡ node = ground arith in
      let at_i : i + 0 ≡ i = omega arith in
      rw (← same) (here (subst (λ j. DenseMap.get c j ≡ none) at_i missing))
  IsSettled-cons i x xs c here rest (suc k) node e missing =
      let shifted : i + suc k ≡ suc i + k = omega arith in
      rest k node e (subst (λ j. DenseMap.get c j ≡ none) shifted missing)

  visit_from-Scanned :
      (i : ℕ) (xs : List (ExprNode F)) (s : State F) → Scanned i xs s (visit_from ops target i xs s)
  unfolding visit_from
  visit_from-Scanned i [] s = record {
    grows = λ j v h. h;
    kept = λ h. h;
    falls = λ n fits h k. cc;
    settled = λ h. (refl, λ k node e missing. cc);
  }
  visit_from-Scanned i (x ∷ xs) s =
      let s1 = visit ops target i x s in
      let rest = visit_from-Scanned (suc i) xs s1 in
      let grows1 = visit-Extends ops target i x s in
      record {
        grows = λ j v h. rest.grows j v (grows1 j v h);
        kept = λ h. rest.kept (elim (visit-cases ops target i x s) [
          | inl (v, missing, value, cache, changed) ↦ changed
          | inr (cache, changed, value) ↦ changed ∙ h
        ]);
        falls = λ n fits h k. elim (visit-cases ops target i x s) [
          | inl (v, missing, value, cache, changed) ↦
              let known : DenseMap.get s1.cache i ≡ some v =
                rw cache (get-insert_self s.cache i v) in
              unset_falls s.cache (visit_from ops target (suc i) xs s1).cache n i v
                (λ j w g. rest.grows j w (grows1 j w g)) (omega arith) missing
                (rest.grows i v known)
          | inr (cache, changed, value) ↦
              subst (λ c. unset (visit_from ops target (suc i) xs s1).cache n < unset c n) cache
                (rest.falls n (omega arith) (changed ∙ h) k)
        ];
        settled = λ h. elim (visit-cases ops target i x s) [
          | inl (v, missing, value, cache, changed) ↦ cc (rest.kept changed)
          | inr (cache, changed, value) ↦
              let (same, settled) = rest.settled h in
              (
                same ∙ cache,
                IsSettled-cons i x xs s.cache value
                    (subst (λ c. IsSettled (suc i) xs c) cache settled),
              )
        ];
      }

  -- The cache after the passes holds what it held before, and no expression can be added to it,
  -- where the passes are more than the ids that it does not know.
  pub passes_settle :
      (n : ℕ) (exprs : List (ExprNode F)) (s : State F)
      → unset s.cache (length exprs) < n
      → IsSettled 0 exprs (passes ops target n exprs s).cache
  unfolding passes one_pass
  passes_settle zero exprs s h = absurd (omega arith)
  passes_settle (suc n) exprs s h =
      let next = one_pass ops target exprs s in
      let scanned = visit_from-Scanned 0 exprs (restarted s) in
      elim (Bool-cases (next.changed)) [
        | inl more ↦
            rw (more, passes)
              (passes_settle n exprs next
                (omega (arith, scanned.falls (length exprs) (omega arith) refl more)))
        | inr done ↦
            let (same, settled) = scanned.settled done in rw (done, passes) (rw same settled)
      ]
