-- ===== src/Base/DenseMap.antt =====
-- crates/cielo-base/src/densemap.rs: a map from dense ids to values, one slot for each id.
-- An id is its index: a number below 2 ^ 32.
pub mod Slots
pub mod Laws
pub mod Iteration
use cielo.Prelude.{
  ℕ, suc, ◌+◌, ◌-◌, Bool, Option, none, some, List, [], ◌∷◌, ◌++◌, map, length, get_elem?, set,
  replicate, leb, ◌==◌, if◌then◌else◌, ◌>>=◌,
}

pub record DenseMap {ℓ} (V : Type ℓ) : Type ℓ where
  pub slots : List (Option V)
  pub len : ℕ

module _ {ℓ} {V : Type ℓ} where
  abbrev pub is_some : Option V → Bool
  is_some none = Bool.false
  is_some (some v) = Bool.true

  unfoldable pub default : DenseMap V
  default = record { slots = []; len = 0 }

  -- `resize_with(index + 1, || None)` behind its test
  unfoldable pub grow : List (Option V) → ℕ → List (Option V)
  grow xs index = if leb (length xs) index then xs ++ replicate (index + 1 - length xs) none else xs

  -- the slot's value, `None` also past the end
  abbrev pub slot : List (Option V) → ℕ → Option V
  slot xs index = get_elem? xs index >>= λ o. o

  unfoldable pub insert : DenseMap V → ℕ → V → DenseMap V × Option V
  insert m id value =
      let slots = grow m.slots id in
      let old = slot slots id in
      (
        record {
          slots = set slots id (some value);
          len = if is_some old then m.len else m.len + 1;
        },
        old,
      )

  unfoldable pub get : DenseMap V → ℕ → Option V
  get m id = slot m.slots id

  -- `get_mut`, and a write of `f` of the value through the reference
  unfoldable pub get_mut : DenseMap V → ℕ → (V → V) → Option (DenseMap V)
  get_mut m id f = slot m.slots id >>= λ v. some (record m { slots = set m.slots id (some (f v)) })

  unfoldable pub contains_key : DenseMap V → ℕ → Bool
  contains_key m id = is_some (get m id)

  unfoldable pub is_empty : DenseMap V → Bool
  is_empty m = m.len == 0

  abbrev pub flatten : List (Option V) → List V
  flatten [] = []
  flatten (none ∷ xs) = flatten xs
  flatten (some v ∷ xs) = v ∷ flatten xs

  unfoldable pub values : DenseMap V → List V
  values m = flatten m.slots

  -- `iter().enumerate().filter_map(..)` from the slot with number `idx`
  abbrev pub iter_from : ℕ → List (Option V) → List (ℕ × V)
  iter_from idx [] = []
  iter_from idx (none ∷ xs) = iter_from (suc idx) xs
  iter_from idx (some v ∷ xs) = (idx, v) ∷ iter_from (suc idx) xs

  unfoldable pub iter : DenseMap V → List (ℕ × V)
  iter m = iter_from 0 m.slots

  unfoldable pub keys : DenseMap V → List ℕ
  unfolding iter
  keys m = map (λ e. e.0) (iter m)

  -- the loop of `from_iter`
  unfoldable pub insert_all : DenseMap V → List (ℕ × V) → DenseMap V
  insert_all out [] = out
  insert_all out ((id, value) ∷ rest) = insert_all (insert out id value).0 rest

  unfoldable pub from_iter : List (ℕ × V) → DenseMap V
  unfolding default
  from_iter entries = insert_all default entries
