-- ===== src/Ir/Effect/Row/Algebra.antt =====
-- crates/cielo-ir/src/effect.rs: equations between rows.
use cielo.Prelude.{ℕ, ◌≡◌, ◌↔◌, arith, Elem, List}
use cielo.Prelude.Sorted.{IsSorted, sorted_ext}
use cielo.Ir.Effect.Row.{SortedEffectRow, new, union, subtract}
use cielo.Ir.Effect.Row.Laws.{new_lem, union_lem, subtract_lem}

module _ (a b : SortedEffectRow) (sa : IsSorted a) (sb : IsSorted b) where
  -- The order in which two increasing rows are joined does not matter.
  pub union_comm : union a b ≡ union b a
  union_comm =
      let (s, m) = union_lem a b sa in
      let (s', m') = union_lem b a sb in
      sorted_ext (union a b) (union b a) s s' (λ e. ground (arith, m e, m' e))

  -- The union of increasing rows is associative; the last row may be any list.
  pub union_assoc : (c : SortedEffectRow) → union (union a b) c ≡ union a (union b c)
  union_assoc c =
      let (s, m) = union_lem a b sa in
      let (s', m') = union_lem (union a b) c s in
      let (t, n) = union_lem b c sb in
      let (t', n') = union_lem a (union b c) sa in
      sorted_ext (union (union a b) c) (union a (union b c)) s' t'
        (λ e. ground (arith, m e, m' e, n e, n' e))

  pub union_idem : union a a ≡ a
  union_idem =
      let (s, m) = union_lem a a sa in sorted_ext (union a a) a s sa (λ e. ground (arith, m e))

  -- Taking the labels of an increasing row away from the union of two increasing rows takes them away
  -- from both.
  pub subtract-union :
      (c : SortedEffectRow)
      → IsSorted c
      → subtract (union a b) c ≡ union (subtract a c) (subtract b c)
  subtract-union c sc =
      let (s, m) = union_lem a b sa in
      let (s', m') = subtract_lem (union a b) c s sc in
      let (t, n) = subtract_lem a c sa sc in
      let (u, p) = subtract_lem b c sb sc in
      let (t', n') = union_lem (subtract a c) (subtract b c) t in
      sorted_ext (subtract (union a b) c) (union (subtract a c) (subtract b c)) s' t'
        (λ e. ground (arith, m e, m' e, n e, n' e, p e))

-- A row depends on the set of the labels given alone: neither on their order nor on repetitions.
pub new_ext : (xs ys : List ℕ) → ((e : ℕ) → Elem e xs ↔ Elem e ys) → new xs ≡ new ys
new_ext xs ys h =
    let (s, m) = new_lem xs in
    let (t, n) = new_lem ys in sorted_ext (new xs) (new ys) s t (λ e. ground (arith, m e, n e, h e))
