-- ===== src/Ir/Ownership.antt =====
-- crates/cielo-ir/src/ownership.rs: who owns a value, and what a node does with an operand.
use cielo.Prelude.{◌≡◌, ◌↔◌, ◌⊎◌, Bool, true, false, arith}

pub data OwnershipClass : Type 0 where
  trivial managed borrowed_view : OwnershipClass

-- the arms in order
unfoldable pub merge : OwnershipClass → OwnershipClass → OwnershipClass
merge managed other = managed
merge self managed = managed
merge borrowed_view other = borrowed_view
merge self borrowed_view = borrowed_view
merge trivial trivial = trivial

unfoldable pub is_managed : OwnershipClass → Bool
is_managed managed = true
is_managed _ = false

pub data OperandRole : Type 0 where
  owned read : OperandRole

-- Merging is a join: commutative, associative and idempotent, with `Trivial` neutral, and the
-- result is managed exactly when one of the two is.
pub merge_join :
    (a b c : OwnershipClass)
    → (merge a b ≡ merge b a)
      × (merge (merge a b) c ≡ merge a (merge b c))
      × (merge a a ≡ a)
      × (merge trivial a ≡ a)
      × ((is_managed (merge a b) ≡ true) ↔ ((is_managed a ≡ true) ⊎ (is_managed b ≡ true)))
unfolding merge is_managed
merge_join a b c = (ground arith, ground arith, ground arith, ground arith, ground arith)
