-- ===== src/Ir/Cfg/Validate/Assigned.antt =====
-- crates/cielo-ir/src/cfg.rs: what the check of single assignment finds.
use cielo.Prelude.{
  ℕ, true, false, Option, none, some, List, [], ◌∷◌, ◌++◌, ◌||◌, ◌==◌, if◌then◌else◌, ◌≡◌, ◌↔◌, ◌⊎◌,
  inl, inr, refl, arith, Bool-cases, ==_iff, Option-cases,
}
use cielo.Prelude.Classes.{nat_eq}
use cielo.Prelude.Explore.{mem}
use cielo.Prelude.NatSet.{IsNodup, insert, insert_all, mem-insert}
use cielo.Prelude.NatSet.Fresh.{IsFresh, IsFresh-iff, IsFresh-append}
use cielo.Prelude.HashMap as Map
use cielo.Prelude.HashMap.{HashMap}
use cielo.Ir.Cfg.Program.{CfgProgram, CfgBlock, instruction}
use cielo.Ir.Cfg.Validate.{
  GraphError, result_of, check_assignments, check_block_assignments, check_single_assignment,
  assigned_error,
}
use cielo.Ir.Cfg.Validate.Sound.{append-nil_iff}

-- The map has a value exactly for the elements of the set.
abbrev Covers : HashMap ℕ ℕ → List ℕ → Type 0
Covers m seen = (y : ℕ) → (Map.get m y ≡ none) ↔ (mem y seen ≡ false)

Covers-insert :
    (m : HashMap ℕ ℕ) (seen : List ℕ) (k v : ℕ)
    → Covers m seen
    → Covers (Map.insert m k v) (insert k seen)
Covers-insert m seen k v c y =
    rw (Map.get-insert m k y v) (rw (mem-insert k y seen) (split (Bool-cases (k == y))))
  where
    split :
        (k == y ≡ true) ⊎ (k == y ≡ false)
        → ((if k == y then some v else Map.get m y) ≡ none) ↔ ((y == k || mem y seen) ≡ false)
    split (inl e) =
        let e' : (y == k) ≡ true = ground (arith, ==_iff k y, ==_iff y k) in
        rw (e, e') (λ h. cc, λ h. cc)
    split (inr e) =
        let e' : (y == k) ≡ false = ground (arith, ==_iff k y, ==_iff y k) in rw (e, e') (c y)

assigned_error_iff :
    (written by : ℕ) (o : Option ℕ) → (assigned_error written by o ≡ []) ↔ (o ≡ none)
assigned_error_iff written by none = (λ h. refl, λ h. refl)
assigned_error_iff written by (some previous) = (λ h. cc, λ h. cc)

abbrev pub written_list : Option (ℕ × ℕ) → List ℕ
written_list none = []
written_list (some (written, by)) = written ∷ []

module _ {F : Type 0} (cfg : CfgProgram F) where
  -- The values that the instructions assign, in order.
  abbrev pub results : List ℕ → List ℕ
  results [] = []
  results (id ∷ ids) = written_list (result_of cfg (instruction cfg id)) ++ results ids

  abbrev pub assigned_values : List CfgBlock → List ℕ
  assigned_values [] = []
  assigned_values (node ∷ blocks) = results node.instructions ++ assigned_values blocks

  record Checked (ids seen : List ℕ) (out : HashMap ℕ ℕ × List GraphError) : Type 0 where
    covers : Covers out.0 (insert_all (results ids) seen)
    exact : (out.1 ≡ []) ↔ IsFresh seen (results ids)

  check_assignments-Checked :
      (ids seen : List ℕ) (m : HashMap ℕ ℕ)
      → Covers m seen
      → Checked ids seen (check_assignments cfg ids m)
  unfolding check_assignments insert_all
  check_assignments-Checked [] seen m c = record { covers = c; exact = (λ h. tt, λ h. refl) }
  check_assignments-Checked (id ∷ ids) seen m c =
      elim (Option-cases (result_of cfg (instruction cfg id))) [
        | inl e ↦
            let ih = check_assignments-Checked ids seen m c in
            rw (e, check_assignments) (record { covers = rw e ih.covers; exact = rw e ih.exact })
        | inr ((written, by), e) ↦
            let ih =
              check_assignments-Checked ids (insert written seen) (Map.insert m written by)
                (Covers-insert m seen written by c) in
            let one = assigned_error_iff written by (Map.get m written) in
            let both =
              append-nil_iff (assigned_error written by (Map.get m written))
                (check_assignments cfg ids (Map.insert m written by)).1 in
            rw (e, check_assignments)
              (record {
                covers = rw e ih.covers;
                exact = rw e (
                  λ h. let (a, b) = both.0 h in ((c written).0 (one.0 a), ih.exact.0 b),
                  λ (a, b). both.1 (one.1 ((c written).1 a), ih.exact.1 b),
                );
              })
      ]

  check_block_assignments_iff :
      (blocks : List CfgBlock) (seen : List ℕ) (m : HashMap ℕ ℕ)
      → Covers m seen
      → (check_block_assignments cfg blocks m ≡ []) ↔ IsFresh seen (assigned_values blocks)
  unfolding check_block_assignments
  check_block_assignments_iff [] seen m c = (λ h. tt, λ h. refl)
  check_block_assignments_iff (node ∷ blocks) seen m c =
      let here = check_assignments-Checked node.instructions seen m c in
      let after = check_assignments cfg node.instructions m in
      let ih =
        check_block_assignments_iff blocks (insert_all (results node.instructions) seen) after.0
          here.covers in
      let both = append-nil_iff after.1 (check_block_assignments cfg blocks after.0) in
      let joined = IsFresh-append seen (results node.instructions) (assigned_values blocks) in
      (
        λ h. let (a, b) = both.0 h in joined.1 (here.exact.0 a, ih.0 b),
        λ f. let (a, b) = joined.0 f in both.1 (here.exact.1 a, ih.1 b),
      )

  -- The check of single assignment reports nothing exactly when no two instructions of the blocks
  -- assign the same value.
  pub check_single_assignment_iff :
      (check_single_assignment cfg ≡ []) ↔ IsNodup (assigned_values cfg.blocks)
  unfolding check_single_assignment
  check_single_assignment_iff =
      let fresh = IsFresh-iff [] (assigned_values cfg.blocks) in
      let one =
        check_block_assignments_iff cfg.blocks [] []
          (λ y. (λ h. refl, λ h. Map.get_empty {V = ℕ} y)) in
      (λ h. (fresh.0 (one.0 h)).0, λ n. one.1 (fresh.1 (n, λ y m. refl)))
