-- ===== src/Base/Fixpoint/Laws.antt =====
-- crates/cielo-base/src/fixpoint.rs: what a run returns, and when it returns.
use cielo.Prelude.{ℕ, zero, suc, ◌<◌, ◌≡◌, sym, subst, ◌⊎◌, inl, inr, some, arith, Bool-cases}
use cielo.Prelude.Classes.{Eq}
use cielo.Base.Fixpoint.{rounds, fixpoint}

module _ {S : Type 0} ⦃e : Eq S⦄ (step : S → S) where
  abbrev pub iterate : ℕ → S → S
  iterate zero s = s
  iterate (suc n) s = iterate n (step s)

  rounds_sound :
      (limit : ℕ) (s : S) {r : S}
      → rounds step limit s ≡ some r
      → (n : ℕ) × (n < limit) × (r ≡ iterate n s) × (step r ≡ r)
  unfolding rounds
  rounds_sound zero s h = cc
  rounds_sound (suc limit) s {r} h = elim (Bool-cases (e.beq (step s) s)) [
    | inl same ↦
        let fixed = (e.beq_iff (step s) s).0 same in
        let r_is : s ≡ r = ground arith in
        (0, omega arith, sym r_is, subst (λ x. step x ≡ x) r_is fixed)
    | inr other ↦
        let (n, small, r_is, fixed) = rounds_sound limit (step s) (rw (other, rounds) at h) in
        (suc n, omega arith, r_is, fixed)
  ]

  rounds_complete :
      (limit n : ℕ) (s : S)
      → n < limit
      → step (iterate n s) ≡ iterate n s
      → (r : S) × (rounds step limit s ≡ some r)
  unfolding rounds
  rounds_complete zero n s h fixed = absurd (omega arith)
  rounds_complete (suc limit) zero s h fixed = (s, rw ((e.beq_iff (step s) s).1 fixed, rounds))
  rounds_complete (suc limit) (suc n) s h fixed = elim (Bool-cases (e.beq (step s) s)) [
    | inl same ↦ (s, rw (same, rounds))
    | inr other ↦ rw (other, rounds) (rounds_complete limit n (step s) (omega arith) fixed)
  ]

  -- What `fixpoint` returns is a fixed point of the step, reached in fewer than `limit` steps.
  pub fixpoint_sound :
      (state : S) (limit : ℕ) {r : S}
      → fixpoint step state limit ≡ some r
      → (n : ℕ) × (n < limit) × (r ≡ iterate n state) × (step r ≡ r)
  unfolding fixpoint
  fixpoint_sound state limit h = rounds_sound limit state (ground arith)

  -- It returns whenever fewer than `limit` steps lead to a fixed point.
  pub fixpoint_returns :
      (state : S) (limit n : ℕ)
      → n < limit
      → step (iterate n state) ≡ iterate n state
      → (r : S) × (fixpoint step state limit ≡ some r)
  unfolding fixpoint
  fixpoint_returns state limit n h fixed =
      let (r, ends) = rounds_complete limit n state h fixed in (r, ground arith)

  -- So it does where a measure below the limit falls at each step that changes the state.
  falls :
      (measure : S → ℕ) (falling : (s : S) → (step s ≡ s) ⊎ (measure (step s) < measure s))
      (limit : ℕ) (s : S)
      → measure s < limit
      → (n : ℕ) × (n < limit) × (step (iterate n s) ≡ iterate n s)
  falls measure falling zero s h = absurd (omega arith)
  falls measure falling (suc limit) s h = elim (falling s) [
    | inl fixed ↦ (0, omega arith, fixed)
    | inr less ↦
        let (n, small, fixed) = falls measure falling limit (step s) (omega arith) in
        (suc n, omega arith, fixed)
  ]

  -- Where a measure falls at each step that changes the state, and is below the limit at the first
  -- state, `fixpoint` returns a fixed point of the step.
  pub fixpoint_converges :
      (measure : S → ℕ) (falling : (s : S) → (step s ≡ s) ⊎ (measure (step s) < measure s))
      (state : S) (limit : ℕ)
      → measure state < limit
      → (r : S) × (fixpoint step state limit ≡ some r) × (step r ≡ r)
  fixpoint_converges measure falling state limit h =
      let (n, small, fixed) = falls measure falling limit state h in
      let (r, ends) = fixpoint_returns state limit n small fixed in
      let (_, _, _, stays) = fixpoint_sound state limit ends in (r, ends, stays)
