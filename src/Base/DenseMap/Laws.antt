-- ===== src/Base/DenseMap/Laws.antt =====
-- crates/cielo-base/src/densemap.rs: the invariant of a map, and `get` after each operation.
use cielo.Prelude.{
  ℕ, ◌^◌, ◌≤◌, ◌<◌, ◌≡◌, refl, ◌∙◌, Option, none, some, true, false, List, [], ◌∷◌, arith, length,
  length-set, ◌==◌, if◌then◌else◌, >>=-eq-some, All,
}
use cielo.Base.DenseMap.{
  contains_key, DenseMap, grow, slot, flatten, default, insert, get, get_mut, values, insert_all,
  from_iter,
}
use cielo.Base.DenseMap.Slots.{
  slot-grow, length-grow, length-grow-le, slot-set, flatten-grow, length-flatten-set,
  lt-length_of_slot,
}

-- `len` counts the occupied slots, and every slot has a 32-bit id.
pub record IsValid {ℓ} {V : Type ℓ} (m : DenseMap V) : Type 0 where
  pub counted : m.len ≡ length (flatten m.slots)
  pub sized : length m.slots ≤ 2 ^ 32

module _ {ℓ} {V : Type ℓ} where
  pub default-IsValid : IsValid {V = V} default
  unfolding default
  default-IsValid = omega arith

  -- Inserting at a 32-bit id keeps the invariant.
  pub insert-IsValid :
      (m : DenseMap V) (id : ℕ) (v : V) → id < 2 ^ 32 → IsValid m → IsValid (insert m id v).0
  unfolding insert
  insert-IsValid m id v h w = record {
    counted = ground (
      arith,
      w.counted,
      length-flatten-set (grow m.slots id) id v (length-grow m.slots id).0,
      flatten-grow m.slots id,
    );
    sized = omega (
      arith,
      w.sized,
      length-set (grow m.slots id) id (some v),
      length-grow-le m.slots id (2 ^ 32) w.sized h,
    );
  }

  -- After an insertion `get` finds the new value at its id, and at every other id what it found before.
  pub get-insert :
      (m : DenseMap V) (id j : ℕ) (v : V)
      → get (insert m id v).0 j ≡ (if id == j then some v else get m j)
  unfolding get insert
  get-insert m id j v =
      slot-set (grow m.slots id) id j (some v) (length-grow m.slots id).0
      ∙ ground (arith, slot-grow m.slots id j)

  pub get-insert_self : (m : DenseMap V) (id : ℕ) (v : V) → get (insert m id v).0 id ≡ some v
  get-insert_self m id v = ground (arith, get-insert m id id v)

  pub insert_old : (m : DenseMap V) (id : ℕ) (v : V) → (insert m id v).1 ≡ get m id
  unfolding get insert
  insert_old m id v = slot-grow m.slots id id

  pub contains_key-none : (m : DenseMap V) (id : ℕ) → get m id ≡ none → contains_key m id ≡ false
  unfolding contains_key
  contains_key-none m id h = rw h

  pub contains_key-some :
      (m : DenseMap V) (id : ℕ) {v : V} → get m id ≡ some v → contains_key m id ≡ true
  unfolding contains_key
  contains_key-some m id h = rw h

  -- The length of a valid map counts its values.
  pub len-eq-length-values : (m : DenseMap V) → IsValid m → m.len ≡ length (values m)
  unfolding values
  len-eq-length-values m w = w.counted

  -- A write through `get_mut` changes the value at the id and nothing else.
  pub get-get_mut :
      (m : DenseMap V) (id j : ℕ) (f : V → V) {n : DenseMap V}
      → get_mut m id f ≡ some n
      → (v : V) × (get m id ≡ some v) × (get n j ≡ (if id == j then some (f v) else get m j))
  unfolding get get_mut
  get-get_mut m id j f h =
      let (v, old, new) = >>=-eq-some (slot m.slots id) _ h in
      (
        v,
        old,
        ground (arith, slot-set m.slots id j (some (f v)) (lt-length_of_slot m.slots id v old)),
      )

  -- Collecting pairs into a map keeps the invariant.
  insert_all-IsValid :
      (out : DenseMap V) (entries : List (ℕ × V))
      → All (λ e. e.0 < 2 ^ 32) entries
      → IsValid out
      → IsValid (insert_all out entries)
  unfolding insert_all
  insert_all-IsValid out [] h w = w
  insert_all-IsValid out ((id, v) ∷ rest) h w =
      insert_all-IsValid (insert out id v).0 rest h.1 (insert-IsValid out id v h.0 w)

  pub from_iter-IsValid :
      (entries : List (ℕ × V)) → All (λ e. e.0 < 2 ^ 32) entries → IsValid (from_iter entries)
  unfolding from_iter
  from_iter-IsValid entries h = insert_all-IsValid default entries h default-IsValid

  -- The value of the last pair with the key.
  unfoldable pub last_value : List (ℕ × V) → ℕ → Option V
  last_value [] k = none
  last_value ((id, v) ∷ rest) k = elim (last_value rest k) [
    | some w ↦ some w
    | none ↦ if id == k then some v else none
  ]

  get-insert_all :
      (out : DenseMap V) (entries : List (ℕ × V)) (k : ℕ)
      → get (insert_all out entries) k
        ≡ (elim (last_value entries k) [ some w ↦ some w | none ↦ get out k ])
  unfolding insert_all last_value
  get-insert_all out [] k = refl
  get-insert_all out ((id, v) ∷ rest) k =
      ground (arith, get-insert_all (insert out id v).0 rest k, get-insert out id k v)

  pub get-default : (k : ℕ) → get {V = V} default k ≡ none
  unfolding get default
  get-default k = refl

  -- A map collected from pairs holds at each id the value of the last pair with that id.
  pub get-from_iter :
      (entries : List (ℕ × V)) (k : ℕ) → get (from_iter entries) k ≡ last_value entries k
  unfolding from_iter
  get-from_iter entries k = ground (arith, get-insert_all default entries k, get-default k)
