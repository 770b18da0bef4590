-- ===== src/Base/DenseMap/Iteration.antt =====
-- crates/cielo-base/src/densemap.rs: `iter` and `keys`.
use cielo.Prelude.{
  ℕ, zero, suc, ◌+◌, ◌<◌, ◌≡◌, subst, ◌↔◌, inl, inr, Option, none, some, List, [], ◌∷◌, map, arith,
  Elem,
}
use cielo.Prelude.Sorted.{Below, IsSorted}
use cielo.Base.DenseMap.{DenseMap, slot, iter_from, iter, keys, get}

module _ {V : Type 0} where
  Elem-iter_from :
      (idx : ℕ) (xs : List (Option V)) (i : ℕ) (v : V)
      → slot xs i ≡ some v
      → Elem (idx + i, v) (iter_from idx xs)
  Elem-iter_from idx [] i v h = cc
  Elem-iter_from idx (none ∷ xs) zero v h = cc
  Elem-iter_from idx (some w ∷ xs) zero v h = ground arith
  Elem-iter_from idx (none ∷ xs) (suc i) v h = ground (arith, Elem-iter_from (suc idx) xs i v h)
  Elem-iter_from idx (some w ∷ xs) (suc i) v h = ground (arith, Elem-iter_from (suc idx) xs i v h)

  slot_of_Elem :
      (idx : ℕ) (xs : List (Option V)) (j : ℕ) (v : V)
      → Elem (j, v) (iter_from idx xs)
      → (i : ℕ) × (j ≡ idx + i) × (slot xs i ≡ some v)
  slot_of_Elem idx [] j v h = elim h [ ]
  slot_of_Elem idx (none ∷ xs) j v h =
      let (i, e, p) = slot_of_Elem (suc idx) xs j v h in (suc i, omega arith, p)
  slot_of_Elem idx (some w ∷ xs) j v (inl e) = (0, ground arith, ground arith)
  slot_of_Elem idx (some w ∷ xs) j v (inr h) =
      let (i, e, p) = slot_of_Elem (suc idx) xs j v h in (suc i, omega arith, p)

  -- Iterating yields a pair exactly when the map has that value at that id.
  pub Elem-iter_iff :
      (m : DenseMap V) (id : ℕ) (v : V) → Elem (id, v) (iter m) ↔ (get m id ≡ some v)
  unfolding iter get
  Elem-iter_iff m id v = (
    λ h.
        let (i, e, p) = slot_of_Elem 0 m.slots id v h in
        let at_id : i ≡ id = omega arith in subst (λ k. slot m.slots k ≡ some v) at_id p,
    λ h.
        let at_id : 0 + id ≡ id = omega arith in
        subst (λ k. Elem (k, v) (iter m)) at_id (Elem-iter_from 0 m.slots id v h),
  )

  Below-keys :
      (n idx : ℕ) (xs : List (Option V)) → n < idx → Below n (map (λ e. e.0) (iter_from idx xs))
  Below-keys n idx [] h = tt
  Below-keys n idx (none ∷ xs) h = Below-keys n (suc idx) xs (omega arith)
  Below-keys n idx (some v ∷ xs) h = (h, Below-keys n (suc idx) xs (omega arith))

  IsSorted-keys : (idx : ℕ) (xs : List (Option V)) → IsSorted (map (λ e. e.0) (iter_from idx xs))
  IsSorted-keys idx [] = tt
  IsSorted-keys idx (none ∷ xs) = IsSorted-keys (suc idx) xs
  IsSorted-keys idx (some v ∷ xs) =
      (Below-keys idx (suc idx) xs (omega arith), IsSorted-keys (suc idx) xs)

  -- The keys come in increasing order, each once.
  pub keys-IsSorted : (m : DenseMap V) → IsSorted (keys m)
  unfolding keys
  keys-IsSorted m = IsSorted-keys 0 m.slots
