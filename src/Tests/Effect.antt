-- ===== src/Tests/Effect.antt =====
-- Runs of crates/cielo-ir/src/effect.rs and crates/cielo-ir/src/ownership.rs.
use cielo.Prelude.{ℕ, ◌≡◌, refl, ◌↔◌, ◌⊎◌, ◌≤◌, true, false, List, [], ◌∷◌, arith, Elem, max}
use cielo.Prelude.Sorted.{IsSorted}
use cielo.Prelude.Classes.{nat_eq}
use cielo.Prelude.HashMap.{get}
use cielo.Base.Ids.{is_valid}
use cielo.Ir.Effect.Capability.{
  CapabilityLevel, rank, opaque_for_staging, is_ct_eligible, contains_flags,
}
use cielo.Ir.Effect.Row.{new, union, subtract}
use cielo.Ir.Effect.Row.Laws.{new_lem, union_lem, subtract_lem}
use cielo.Ir.Effect.Row.Algebra.{union_comm, subtract-union, new_ext}
use cielo.Ir.Effect.Thunk.{
  Properties, effect_level, capability_of_row, is_thunkable, IsDelayable, capability_of_row_iff,
  capability_of_row-union, is_thunkable_iff,
}

abbrev low : List ℕ
low = 1 ∷ 3 ∷ []

abbrev high : List ℕ
high = 2 ∷ 3 ∷ 7 ∷ []

low-IsSorted : IsSorted low
low-IsSorted = ((omega arith, tt), (tt, tt))

high-IsSorted : IsSorted high
high-IsSorted = ((omega arith, (omega arith, tt)), ((omega arith, tt), (tt, tt)))

abbrev properties : Properties
properties =
    (1, record { level = CapabilityLevel.alloc; flags = 0 })
    ∷ (3, record { level = CapabilityLevel.io; flags = 0 })
    ∷ []

union_lem_example :
    IsSorted (union low high) × ((a : ℕ) → Elem a (union low high) ↔ (Elem a low ⊎ Elem a high))
union_lem_example = union_lem low high low-IsSorted

subtract_lem_example :
    IsSorted (subtract low high)
    × ((a : ℕ) → Elem a (subtract low high) ↔ (Elem a low × ¬ Elem a high))
subtract_lem_example = subtract_lem low high low-IsSorted high-IsSorted

new_lem_example :
    IsSorted (new (7 ∷ 2 ∷ 7 ∷ []))
    × ((a : ℕ) → Elem a (new (7 ∷ 2 ∷ 7 ∷ [])) ↔ (Elem a (7 ∷ 2 ∷ 7 ∷ []) × (is_valid a ≡ true)))
new_lem_example = new_lem (7 ∷ 2 ∷ 7 ∷ [])

union_comm_example : union low high ≡ union high low
union_comm_example = union_comm low high low-IsSorted high-IsSorted

subtract-union_example :
    subtract (union low high) (3 ∷ []) ≡ union (subtract low (3 ∷ [])) (subtract high (3 ∷ []))
subtract-union_example = subtract-union low high low-IsSorted high-IsSorted (3 ∷ []) (tt, tt)

swapped : (e : ℕ) → Elem e (2 ∷ 1 ∷ 2 ∷ []) ↔ Elem e (1 ∷ 2 ∷ [])
swapped e = ground arith

new_ext_example : new (2 ∷ 1 ∷ 2 ∷ []) ≡ new (1 ∷ 2 ∷ [])
new_ext_example = new_ext (2 ∷ 1 ∷ 2 ∷ []) (1 ∷ 2 ∷ []) swapped

capability_of_row_iff_example :
    (rank (capability_of_row low properties) ≤ 3)
    ↔ ((e : ℕ) → Elem e low → rank (effect_level properties e) ≤ 3)
capability_of_row_iff_example = capability_of_row_iff low properties 3

capability_of_row-union_example :
    rank (capability_of_row (union low high) properties)
    ≡ max (rank (capability_of_row low properties)) (rank (capability_of_row high properties))
capability_of_row-union_example = capability_of_row-union low high properties low-IsSorted

is_thunkable_iff_example :
    (is_thunkable low properties ≡ true) ↔ ((e : ℕ) → Elem e low → IsDelayable (get properties e))
is_thunkable_iff_example = is_thunkable_iff low properties

-- A row below `Io` that is not thunkable: the level of its effect is `SharedState`.
abbrev shared : Properties
shared = (1, record { level = CapabilityLevel.shared_state; flags = 0 }) ∷ []

shared_level : capability_of_row (1 ∷ []) shared ≡ CapabilityLevel.shared_state
unfolding capability_of_row effect_level get
shared_level = refl

shared_row : is_thunkable (1 ∷ []) shared ≡ false
unfolding is_thunkable get is_ct_eligible
shared_row = refl

-- Another one: the effect is opaque for staging.
abbrev opaque : Properties
opaque = (1, record { level = CapabilityLevel.alloc; flags = opaque_for_staging }) ∷ []

opaque_row : is_thunkable (1 ∷ []) opaque ≡ false
unfolding is_thunkable get is_ct_eligible contains_flags
opaque_row = refl
