-- ===== src/Ir/Walk.antt =====
-- crates/cielo-ir/src/walk.rs: the traversal that the levels of the program share.
pub mod Reached
use cielo.Prelude.{
  ℕ, Bool, true, false, Option, none, some, List, [], ◌∷◌, length, get_elem?, suc, not, ◌≡◌, Elem,
}
use cielo.Prelude.Explore.{Visit, halt, expand, Outcome, exhausted, halted, done, explore, weight}

-- What a visitor wants the walk to do next.
pub data Walk : Type 0 where
  descend skip halt_walk : Walk

-- Whether the walk was not halted, and the ids visited, the last one first; `none` is the fuel
-- running out.
abbrev pub finished : Outcome → Option (Bool × List ℕ)
finished exhausted = none
finished (halted seen) = some (false, seen)
finished (done seen saw) = some (true, seen)

abbrev pub halt_if : Bool → Walk
halt_if true = halt_walk
halt_if false = descend

abbrev pub answered : Option (Bool × List ℕ) → Option (Bool × List ℕ)
answered none = none
answered (some (finished_walk, seen)) = some (not finished_walk, seen)

abbrev pub answer_only : Option (Bool × List ℕ) → Option Bool
answer_only none = none
answer_only (some (answer, seen)) = some answer

-- An arena is the list of its nodes, and `child_exprs` is that of a node. A visitor is a function
-- of the id and the node: what it writes elsewhere does not come back to the walk.
module _ {N : Type 0} (child_exprs : N → List ℕ) (arena : List N) where
  abbrev pub walked : Walk → N → Visit
  walked halt_walk node = halt
  walked skip node = expand []
  walked descend node = expand (child_exprs node)

  abbrev pub visited : Option N → (N → Walk) → Visit
  visited none visit = expand []
  visited (some node) visit = walked (visit node) node

  unfoldable pub visit_expr : (ℕ → N → Walk) → ℕ → Visit
  visit_expr visit expr_id = visited (get_elem? arena expr_id) (visit expr_id)

  -- rounds enough: one for the root, and one for each operand of each node
  abbrev pub walk_fuel : (ℕ → N → Walk) → ℕ
  walk_fuel visit = suc (weight (visit_expr visit) (length arena) [])

  unfoldable pub walk_exprs_from : ℕ → List ℕ → (ℕ → N → Walk) → Option (Bool × List ℕ)
  walk_exprs_from root seen visit =
      finished (explore (visit_expr visit) (walk_fuel visit) (root ∷ []) seen false)

  unfoldable pub walk_exprs : ℕ → (ℕ → N → Walk) → Option (Bool × List ℕ)
  unfolding walk_exprs_from
  walk_exprs root visit = walk_exprs_from root [] visit

  unfoldable pub any_expr_from : ℕ → List ℕ → (ℕ → N → Bool) → Option (Bool × List ℕ)
  any_expr_from root seen predicate =
      answered (walk_exprs_from root seen (λ expr_id node. halt_if (predicate expr_id node)))

  unfoldable pub any_expr : ℕ → (ℕ → N → Bool) → Option Bool
  unfolding any_expr_from walk_exprs_from
  any_expr root predicate = answer_only (any_expr_from root [] predicate)

  -- The ids that operands lead to from `root`, in the arena or not.
  pub data Reaches (root : ℕ) : ℕ → Type 0 where
    at_root : Reaches root root
    operand :
        {x y : ℕ} (node : N)
        → Reaches root x
        → get_elem? arena x ≡ some node
        → Elem y (child_exprs node)
        → Reaches root y
