-- ===== src/Runtime/Region/Confined.antt =====
-- crates/cielo-runtime/src/region.rs: what it means that a region's extent confines its slots.
use cielo.Prelude.{
  ℕ, Bool, true, false, Option, none, some, List, [], ◌∷◌, length, any, get_elem?-none, ◌≡◌, ◌≢◌,
  ◌↔◌, inl, inr, refl, Elem, arith, Option-cases, Bool-cases, ==_iff, if◌then◌else◌, ◌>>=◌,
}
use mathlib.Core.List.{reverse}
use cielo.Prelude.Explore.{
  halt, expand, border, Outcome, done, explore, Reach, here, step, IsExact, mem,
}
use cielo.Prelude.Explore.Fuel.{IsBounded}
use cielo.Prelude.Explore.Exact.{explore-IsExact}
use cielo.Prelude.Elems.{Elem-reverse}
use cielo.Ir.Cfg.Terminator.{
  CfgTerminator, CfgCallConvention, control, direct, pure, ret, goto, branch, match_on, switch,
  call, perform, unreachable, successors,
}
use cielo.Ir.Cfg.Program.{CfgProgram, CfgBlock, block}
use cielo.Runtime.Region.{
  enters, exits, is_control, is_other, leaks, block_has, find_entry, extent_visit, extent_step,
  closed_extent, extent_fuel, region_extent,
}

-- A block's end keeps control in the frame that opened the region, `own` being its effect.
abbrev pub KeepsControl : Option ℕ → CfgTerminator → Type 0
KeepsControl own (ret value) = ⊥
KeepsControl own (call convention callee callee_fn args result target) = convention ≢ control
KeepsControl own (perform effect operation args result target) = own ≡ some effect
KeepsControl own unreachable = Unit
KeepsControl own (goto target args) = Unit
KeepsControl own (branch cond then_target else_target) = Unit
KeepsControl own (match_on scrutinee arms default) = Unit
KeepsControl own (switch selector targets default) = Unit

is_control-false : (c : CfgCallConvention) → (is_control c ≡ false) ↔ (c ≢ control)
is_control-false control = (λ e. cc, λ h. absurd (h refl))
is_control-false direct = (λ e s. cc, λ h. refl)
is_control-false pure = (λ e s. cc, λ h. refl)

is_other-false : (effect : ℕ) (own : Option ℕ) → (is_other effect own ≡ false) ↔ (own ≡ some effect)
is_other-false effect none = (λ e. cc, λ e. cc)
is_other-false effect (some n) = ground (arith, ==_iff effect n)

pub leaks-false : (own : Option ℕ) (t : CfgTerminator) → (leaks own t ≡ false) ↔ KeepsControl own t
leaks-false own (ret value) = (λ e. cc, λ h. absurd h)
leaks-false own (call convention callee callee_fn args result target) = is_control-false convention
leaks-false own (perform effect operation args result target) = is_other-false effect own
leaks-false own unreachable = (λ e. tt, λ h. refl)
leaks-false own (goto target args) = (λ e. tt, λ h. refl)
leaks-false own (branch cond then_target else_target) = (λ e. tt, λ h. refl)
leaks-false own (match_on scrutinee arms default) = (λ e. tt, λ h. refl)
leaks-false own (switch selector targets default) = (λ e. tt, λ h. refl)

pub any-false_iff :
    (p : ℕ → Bool) (xs : List ℕ) → (any p xs ≡ false) ↔ ((y : ℕ) → mem y xs ≡ true → p y ≡ false)
any-false_iff p [] = (λ e y m. cc, λ h. refl)
any-false_iff p (x ∷ xs) = (
  λ e y m.
      let rest : any p xs ≡ false = ground arith in
      let old = (any-false_iff p xs).0 rest y in ground (arith, ==_iff y x),
  λ h.
      let rest = (any-false_iff p xs).1 (λ (y : ℕ) (m : mem y xs ≡ true). h y (ground arith)) in
      ground (arith, h x, ==_iff x x),
)

module _ {F : Type 0} (cfg : CfgProgram F) (id : ℕ) where
  -- The ids of the blocks that hold an entry of the region.
  abbrev pub entries : List CfgBlock → List ℕ
  entries [] = []
  entries (found ∷ blocks) =
      if block_has cfg found.id (enters id) then found.id ∷ entries blocks else entries blocks

  -- The blocks that control reaches from `start` before it leaves through an exit.
  pub data Inside (start : ℕ) : ℕ → Type 0 where
    opened : Inside start start
    flows :
        {x y : ℕ} (found : CfgBlock)
        → Inside start x
        → block_has cfg x (exits id) ≡ false
        → block cfg x ≡ some found
        → Elem y (successors found.terminator)
        → Inside start y

  -- One block opens the region, an exit is reached from it, and no block reached before an exit is
  -- missing or lets control leave.
  pub record IsConfined (own : Option ℕ) : Type 0 where
    pub start : ℕ
    pub opens : entries cfg.blocks ≡ start ∷ []
    pub closes : (y : ℕ) × Inside start y × (block_has cfg y (exits id) ≡ true)
    pub keeps :
        (y : ℕ)
        → Inside start y
        → block_has cfg y (exits id) ≡ false
        → (found : CfgBlock) × (block cfg y ≡ some found) × KeepsControl own found.terminator

  abbrev pub unique : List ℕ → Option (Option ℕ)
  unique [] = some none
  unique (x ∷ []) = some (some x)
  unique (x ∷ y ∷ xs) = none

  find_entry-some :
      (blocks : List CfgBlock) (x : ℕ)
      → find_entry cfg id blocks (some x) ≡ unique (x ∷ entries blocks)
  find_entry-some [] x = refl
  find_entry-some (found ∷ blocks) x = elim (Bool-cases (block_has cfg found.id (enters id))) [
    | inl e ↦ rw e
    | inr e ↦ rw e (find_entry-some blocks x)
  ]

  find_entry-entries :
      (blocks : List CfgBlock) → find_entry cfg id blocks none ≡ unique (entries blocks)
  find_entry-entries [] = refl
  find_entry-entries (found ∷ blocks) = elim (Bool-cases (block_has cfg found.id (enters id))) [
    | inl e ↦ rw e (find_entry-some blocks found.id)
    | inr e ↦ rw e (find_entry-entries blocks)
  ]

  pub unique-some : (xs : List ℕ) (x : ℕ) → unique xs ≡ some (some x) → xs ≡ x ∷ []
  unique-some [] x e = cc
  unique-some (y ∷ []) x e = cc
  unique-some (y ∷ z ∷ xs) x e = cc

  visits-IsBounded : IsBounded (extent_visit cfg id) (length cfg.blocks)
  unfolding extent_visit block
  visits-IsBounded x h = elim (Bool-cases (block_has cfg x (exits id))) [
    | inl e ↦ rw e
    | inr e ↦ rw e (rw (get_elem?-none cfg.blocks x h))
  ]

  pub visit_border :
      (x : ℕ) → (extent_visit cfg id x ≡ border) ↔ (block_has cfg x (exits id) ≡ true)
  unfolding extent_visit
  visit_border x = split (block_has cfg x (exits id)) (block cfg x)
    where
      split :
          (b : Bool) (o : Option CfgBlock)
          → ((if b then border else extent_step o) ≡ border) ↔ (b ≡ true)
      split true o = (λ e. refl, λ e. refl)
      split false none = (λ e. cc, λ e. cc)
      split false (some found) = (λ e. cc, λ e. cc)

  pub visit_halt :
      (x : ℕ)
      → extent_visit cfg id x ≡ halt
      → (block_has cfg x (exits id) ≡ false) × (block cfg x ≡ none)
  unfolding extent_visit
  visit_halt x e = split (block_has cfg x (exits id)) (block cfg x) e
    where
      split :
          (b : Bool) (o : Option CfgBlock)
          → (if b then border else extent_step o) ≡ halt
          → (b ≡ false) × (o ≡ none)
      split true o h = cc
      split false none h = (refl, refl)
      split false (some found) h = cc

  visit_expand :
      (x : ℕ) (next : List ℕ)
      → extent_visit cfg id x ≡ expand next
      → (found : CfgBlock) × (block_has cfg x (exits id) ≡ false)
        × (block cfg x ≡ some found)
        × (next ≡ reverse (successors found.terminator))
  unfolding extent_visit
  visit_expand x next e = split (block_has cfg x (exits id)) (block cfg x) e
    where
      split :
          (b : Bool) (o : Option CfgBlock)
          → (if b then border else extent_step o) ≡ expand next
          → (found : CfgBlock) × (b ≡ false)
            × (o ≡ some found)
            × (next ≡ reverse (successors found.terminator))
      split true o h = cc
      split false none h = cc
      split false (some found) h = (found, refl, refl, cc)

  visit_found :
      (x : ℕ) (found : CfgBlock)
      → block_has cfg x (exits id) ≡ false
      → block cfg x ≡ some found
      → extent_visit cfg id x ≡ expand (reverse (successors found.terminator))
  unfolding extent_visit
  visit_found x found e e' = rw (e, e')

  visit_missing :
      (x : ℕ)
      → block_has cfg x (exits id) ≡ false
      → block cfg x ≡ none
      → extent_visit cfg id x ≡ halt
  unfolding extent_visit
  visit_missing x e e' = rw (e, e')

  pub Reach-Inside : (start : ℕ) {y : ℕ} → Reach (extent_visit cfg id) start y → Inside start y
  Reach-Inside start here = opened
  Reach-Inside start (step {x} {y} next r e m) =
      let (found, no_exit, at_block, same) = visit_expand x next e in
      flows found (Reach-Inside start r) no_exit at_block
        ((Elem-reverse y (successors found.terminator)).0 (rw same at m))

  pub Inside-Reach : (start : ℕ) {y : ℕ} → Inside start y → Reach (extent_visit cfg id) start y
  Inside-Reach start opened = here
  Inside-Reach start (flows {x} {y} found r no_exit at_block m) =
      step (reverse (successors found.terminator)) (Inside-Reach start r)
        (visit_found x found no_exit at_block) ((Elem-reverse y (successors found.terminator)).1 m)

  pub exploration : ℕ → Outcome
  exploration start = explore (extent_visit cfg id) (extent_fuel cfg id) (start ∷ []) [] false

  pub exploration-IsExact : (start : ℕ) → IsExact (extent_visit cfg id) start (exploration start)
  unfolding exploration
  exploration-IsExact start =
      explore-IsExact (extent_visit cfg id) (length cfg.blocks) visits-IsBounded start
        (extent_fuel cfg id) (omega arith)

  pub region_extent_lem : region_extent cfg id ≡ (
      unique (entries cfg.blocks) >>= λ entry. entry >>= λ start. closed_extent (exploration start))
  unfolding region_extent exploration
  region_extent_lem = rw (find_entry-entries cfg.blocks)

  -- A marked block is inside, before every exit.
  pub marked-Inside :
      (start : ℕ) (seen : List ℕ) (saw : Bool)
      → IsExact (extent_visit cfg id) start (done seen saw)
      → (y : ℕ) → (mem y seen ≡ true) ↔ (Inside start y × (block_has cfg y (exits id) ≡ false))
  marked-Inside start seen saw (marked, noted, free) y = (
    λ m. let (r, (next, e)) = (marked y).0 m in (Reach-Inside start r, (visit_expand y next e).1),
    λ (i, no_exit).
        let r = Inside-Reach start i in
        (marked y).1 (
          r,
          elim (Option-cases (block cfg y)) [
            | inl missing ↦ absurd (free y r (visit_missing y no_exit missing))
            | inr (found, at_block) ↦
                (reverse (successors found.terminator), visit_found y found no_exit at_block)
          ],
        ),
  )
