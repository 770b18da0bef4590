-- ===== src/Memory/Verify/Clean.antt =====
-- crates/cielo-memory/src/refcount/verify.rs: what a plan without a report is.
use cielo.Prelude.{
  ℕ, Bool, true, false, ◌&&◌, List, [], ◌∷◌, ◌++◌, if◌then◌else◌, ◌≡◌, ◌≢◌, ◌↔◌, inl, inr, refl,
  Bool-cases,
}
use cielo.Prelude.Explore.{mem}
use cielo.Prelude.NatSet.Fresh.{IsFresh}
use cielo.Prelude.NatSet.{insert, insert_all}
use cielo.Ir.Cfg.Instruction.{CfgArcOp}
use cielo.Memory.Verify.{
  Report, Verifying, is_release, report, report_if, report_graph, invalid_graph,
}

-- What an operation releases, and the values released, in order.
abbrev pub release_of : CfgArcOp → List ℕ
release_of op = if is_release op.kind then op.value ∷ [] else []

abbrev pub releases : List CfgArcOp → List ℕ
releases [] = []
releases (op ∷ ops) = release_of op ++ releases ops

abbrev pub site_releases : List (List CfgArcOp) → List ℕ
site_releases [] = []
site_releases (ops ∷ sites) = releases ops ++ site_releases sites

pub insert-release :
    (op : CfgArcOp) (seen : List ℕ)
    → (if is_release op.kind then insert op.value seen else seen) ≡ insert_all (release_of op) seen
unfolding insert_all
insert-release op seen = elim (Bool-cases (is_release op.kind)) [ inl e ↦ rw e | inr e ↦ rw e ]

pub release-IsFresh :
    (op : CfgArcOp) (seen : List ℕ)
    → ((is_release op.kind && mem op.value seen) ≡ false) ↔ IsFresh seen (release_of op)
release-IsFresh op seen = elim (Bool-cases (is_release op.kind)) [
  | inl e ↦ rw e (λ h. (h, tt), λ h. h.0)
  | inr e ↦ rw e (λ h. tt, λ h. refl)
]

module _ {G : Type 0} where
  concat-ne-nil : (xs : List (Report G)) (x : Report G) → (xs ++ x ∷ []) ≢ []
  concat-ne-nil [] x e = cc
  concat-ne-nil (y ∷ xs) x e = cc

  -- Nothing is reported.
  abbrev pub IsClean : Verifying G → Type 0
  IsClean s = s.reports ≡ []

  pub report-not-IsClean : (entry : Report G) (s : Verifying G) → ¬ IsClean (report entry s)
  unfolding report
  report-not-IsClean entry s = concat-ne-nil s.reports entry

  pub report_if_iff :
      (b : Bool) (entry : Report G) (s : Verifying G)
      → IsClean (report_if b entry s) ↔ ((b ≡ false) × IsClean s)
  report_if_iff true entry s = (λ h. absurd (report-not-IsClean entry s h), λ h. cc)
  report_if_iff false entry s = (λ h. (refl, h), λ h. h.1)

  pub report_graph_iff :
      (errors : List G) (s : Verifying G)
      → IsClean (report_graph errors s) ↔ ((errors ≡ []) × IsClean s)
  report_graph_iff [] s = (λ h. (refl, h), λ h. h.1)
  report_graph_iff (error ∷ errors) s = (
    λ h. absurd (report-not-IsClean (invalid_graph error) s ((report_graph_iff errors _).0 h).1),
    λ h. cc,
  )
