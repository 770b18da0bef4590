-- ===== src/Prelude/Explore.antt =====
-- Exploration by a stack and a set of nodes already marked: a node is popped, marked on its first
-- visit, and then its neighbours are pushed.
pub mod Fuel
pub mod Exact
use Prim.Native.Nat.{ℕ, zero, suc, ◌+◌}
use mathlib.Core.Bool.{Bool, true, false}
use mathlib.Core.List.{List, [], ◌∷◌, ◌++◌}
use mathlib.Core.Path.{◌≡◌}
use mathlib.Core.Logic.{◌≢◌, ◌↔◌}
use cielo.Prelude.Tests.{◌==◌, if◌then◌else◌}
use cielo.Prelude.Lists.{any, length, Elem}

abbrev pub mem : ℕ → List ℕ → Bool
mem x = any (λ y. x == y)

-- What a node is: a border, which is noted and never marked; the end of the whole walk; or a node
-- whose neighbours are visited next, in the order listed.
pub data Visit : Type 0 where
  border : Visit
  halt : Visit
  expand : List ℕ → Visit

pub data Turn : Type 0 where
  go : (stack seen : List ℕ) (saw : Bool) → Turn
  stop : (seen : List ℕ) → Turn

pub data Outcome : Type 0 where
  exhausted : Outcome
  halted : (seen : List ℕ) → Outcome
  done : (seen : List ℕ) (saw : Bool) → Outcome

abbrev pub mark : Visit → ℕ → (stack seen : List ℕ) → Bool → Turn
mark border x stack seen saw = go stack seen true
mark halt x stack seen saw = if mem x seen then go stack seen saw else stop (x ∷ seen)
mark (expand next) x stack seen saw =
    if mem x seen then go stack seen saw else go (next ++ stack) (x ∷ seen) saw

-- `exhausted` is the fuel running out.
unfoldable pub explore : (ℕ → Visit) → ℕ → (stack seen : List ℕ) → Bool → Outcome
explore visit fuel [] seen saw = done seen saw
explore visit zero (x ∷ stack) seen saw = exhausted
explore visit (suc fuel) (x ∷ stack) seen saw = elim (mark (visit x) x stack seen saw) [
  | go stack' seen' saw' ↦ explore visit fuel stack' seen' saw'
  | stop seen' ↦ halted seen'
]

abbrev pub degree : Visit → ℕ
degree (expand next) = length next
degree border = 0
degree halt = 0

-- the neighbours of the nodes below `n` that are not marked
abbrev pub weight : (ℕ → Visit) → ℕ → List ℕ → ℕ
weight visit zero seen = 0
weight visit (suc n) seen = (if mem n seen then 0 else degree (visit n)) + weight visit n seen

-- Reachability through expanded nodes.
pub data Reach (visit : ℕ → Visit) (root : ℕ) : ℕ → Type 0 where
  here : Reach visit root root
  step :
      {x y : ℕ} (next : List ℕ)
      → Reach visit root x
      → visit x ≡ expand next
      → Elem y next
      → Reach visit root y

abbrev pub IsExpanded : Visit → Type 0
IsExpanded v = (next : List ℕ) × (v ≡ expand next)

-- An exact exploration: it halts only at a node that it reached, and otherwise it marks the nodes
-- reached that expand, notes whether a border was reached, and reached no node that halts.
abbrev pub IsExact : (ℕ → Visit) → ℕ → Outcome → Type 0
IsExact visit root exhausted = ⊥
IsExact visit root (halted seen) = (y : ℕ) × Reach visit root y × (visit y ≡ halt)
IsExact visit root (done seen saw) =
    ((y : ℕ) → (mem y seen ≡ true) ↔ (Reach visit root y × IsExpanded (visit y)))
    × ((saw ≡ true) ↔ ((y : ℕ) × Reach visit root y × (visit y ≡ border)))
    × ((y : ℕ) → Reach visit root y → visit y ≢ halt)
