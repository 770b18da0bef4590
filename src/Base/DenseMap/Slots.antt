-- ===== src/Base/DenseMap/Slots.antt =====
-- crates/cielo-base/src/densemap.rs: the slots of a map, grown, written and counted.
use cielo.Prelude.{
  ℕ, zero, suc, ◌+◌, ◌-◌, ◌≤◌, ◌<◌, ◌≡◌, refl, ap, Option, none, some, List, [], ◌∷◌, ◌++◌, arith,
  length, set, replicate, length-append, length-replicate, ◌==◌, if◌then◌else◌,
}
use cielo.Base.DenseMap.{grow, slot, flatten, is_some}

module _ {ℓ} {V : Type ℓ} where
  slot-replicate : (n j : ℕ) → slot {V = V} (replicate n none) j ≡ none
  slot-replicate zero j = refl
  slot-replicate (suc n) zero = refl
  slot-replicate (suc n) (suc j) = slot-replicate n j

  slot-pad : (xs : List (Option V)) (n j : ℕ) → slot (xs ++ replicate n none) j ≡ slot xs j
  slot-pad [] n j = slot-replicate n j
  slot-pad (x ∷ xs) n zero = refl
  slot-pad (x ∷ xs) n (suc j) = slot-pad xs n j

  pub slot-grow : (xs : List (Option V)) (i j : ℕ) → slot (grow xs i) j ≡ slot xs j
  unfolding grow
  slot-grow xs i j = ground (arith, slot-pad xs (i + 1 - length xs) j)

  pub length-grow :
      (xs : List (Option V)) (i : ℕ) → (i < length (grow xs i)) × (length xs ≤ length (grow xs i))
  unfolding grow
  length-grow xs i = ground (
    arith,
    length-append xs (replicate (i + 1 - length xs) none),
    length-replicate {A = Option V} (i + 1 - length xs) none,
  )

  pub length-grow-le :
      (xs : List (Option V)) (i n : ℕ) → length xs ≤ n → i < n → length (grow xs i) ≤ n
  unfolding grow
  length-grow-le xs i n h k = ground (
    arith,
    length-append xs (replicate (i + 1 - length xs) none),
    length-replicate {A = Option V} (i + 1 - length xs) none,
  )

  pub slot-set :
      (xs : List (Option V)) (i j : ℕ) (o : Option V)
      → i < length xs
      → slot (set xs i o) j ≡ (if i == j then o else slot xs j)
  slot-set [] i j o h = absurd (omega arith)
  slot-set (x ∷ xs) zero zero o h = refl
  slot-set (x ∷ xs) zero (suc j) o h = ground arith
  slot-set (x ∷ xs) (suc i) zero o h = ground arith
  slot-set (x ∷ xs) (suc i) (suc j) o h = ground (arith, slot-set xs i j o)

  flatten-replicate : (n : ℕ) → flatten {V = V} (replicate n none) ≡ []
  flatten-replicate zero = refl
  flatten-replicate (suc n) = flatten-replicate n

  flatten-pad : (xs : List (Option V)) (n : ℕ) → flatten (xs ++ replicate n none) ≡ flatten xs
  flatten-pad [] n = flatten-replicate n
  flatten-pad (none ∷ xs) n = flatten-pad xs n
  flatten-pad (some v ∷ xs) n = ap (◌∷◌ v) (flatten-pad xs n)

  pub flatten-grow : (xs : List (Option V)) (i : ℕ) → flatten (grow xs i) ≡ flatten xs
  unfolding grow
  flatten-grow xs i = ground (arith, flatten-pad xs (i + 1 - length xs))

  pub length-flatten-set :
      (xs : List (Option V)) (i : ℕ) (v : V)
      → i < length xs
      → length (flatten (set xs i (some v)))
        ≡ (if is_some (slot xs i) then length (flatten xs) else length (flatten xs) + 1)
  length-flatten-set [] i v h = absurd (omega arith)
  length-flatten-set (none ∷ xs) zero v h = omega arith
  length-flatten-set (some w ∷ xs) zero v h = refl
  length-flatten-set (none ∷ xs) (suc i) v h = length-flatten-set xs i v (omega arith)
  length-flatten-set (some w ∷ xs) (suc i) v h = ground (arith, length-flatten-set xs i v)

  pub lt-length_of_slot :
      (xs : List (Option V)) (i : ℕ) (v : V) → slot xs i ≡ some v → i < length xs
  lt-length_of_slot [] i v h = cc
  lt-length_of_slot (x ∷ xs) zero v h = omega arith
  lt-length_of_slot (x ∷ xs) (suc i) v h = omega (arith, lt-length_of_slot xs i v h)
