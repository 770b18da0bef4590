-- ===== src/Memory/Liveness/Sets.antt =====
-- crates/cielo-memory/src/refcount/analysis/cfg_liveness.rs: sets of values, their sizes and writes.
use cielo.Prelude.{
  ℕ, zero, suc, ◌+◌, ◌*◌, ◌≤◌, ◌<◌, true, List, [], ◌∷◌, if◌then◌else◌, set, length, ◌≡◌, ◌↔◌, ◌⊎◌,
  inl, inr, refl, subst, ap, arith, ◌==◌, ==_iff, Bool-cases, Elem,
}
use cielo.Prelude.Classes.{text_beq, text_beq_iff}
use cielo.Prelude.Sorted.{IsSorted, lt_of_Below}
use cielo.Prelude.Explore.{mem}
use cielo.Prelude.NatSet.{insert, insert_all, insert-IsSorted, mem-insert_all}
use cielo.Memory.Liveness.{get_set, put, gather}

pub mem-Elem : (v : ℕ) (xs : List ℕ) → (mem v xs ≡ true) ↔ Elem v xs
mem-Elem v [] = (λ h. cc, λ h. absurd h)
mem-Elem v (x ∷ xs) = ground (arith, ==_iff v x, mem-Elem v xs)

pub insert_all-IsSorted : (xs ys : List ℕ) → IsSorted ys → IsSorted (insert_all xs ys)
unfolding insert_all
insert_all-IsSorted [] ys s = s
insert_all-IsSorted (x ∷ xs) ys s = insert_all-IsSorted xs (insert x ys) (insert-IsSorted x ys s)

pub gather-IsSorted :
    (ss : List ℕ) (sets : List (List ℕ)) (acc : List ℕ)
    → IsSorted acc
    → IsSorted (gather ss sets acc)
unfolding gather
gather-IsSorted [] sets acc s = s
gather-IsSorted (c ∷ ss) sets acc s =
    gather-IsSorted ss sets (insert_all (get_set sets c) acc)
      (insert_all-IsSorted (get_set sets c) acc s)

-- Of two sorted lists, one within the other, the one is shorter or they are the same.
pub sub_length :
    (xs ys : List ℕ)
    → IsSorted xs
    → IsSorted ys
    → ((v : ℕ) → Elem v xs → Elem v ys)
    → (length xs < length ys) ⊎ (xs ≡ ys)
sub_length [] [] sx sy h = inr refl
sub_length [] (y ∷ ys) sx sy h = inl (omega arith)
sub_length (x ∷ xs) [] sx sy h = absurd (h x (inl refl))
sub_length (x ∷ xs) (y ∷ ys) sx sy h = elim (h x (inl refl)) [
  | inl same ↦ elim (sub_length xs ys sx.1 sy.1 (tails same)) [
    | inl lt ↦ inl (omega arith)
    | inr e ↦ inr (rw (same, e))
  ]
  | inr later ↦ elim (sub_length (x ∷ xs) ys sx sy.1 (beyond (lt_of_Below y x ys sy.0 later))) [
    | inl lt ↦ inl (omega arith)
    | inr e ↦ let size = ap (length {A = ℕ}) e in inl (omega arith)
  ]
]
  where
    tails : x ≡ y → (v : ℕ) → Elem v xs → Elem v ys
    tails same v m = elim (h v (inr m)) [
      | inl e ↦ absurd (omega (arith, lt_of_Below x v xs sx.0 m))
      | inr m' ↦ m'
    ]

    beyond : y < x → (v : ℕ) → Elem v (x ∷ xs) → Elem v ys
    beyond lt v m = elim (h v m) [
      | inl e ↦ elim m [
        | inl e' ↦ absurd (omega arith)
        | inr m' ↦ absurd (omega (arith, lt_of_Below x v xs sx.0 m'))
      ]
      | inr m' ↦ m'
    ]

-- A sorted list of numbers from `low` and below `low + size` is no longer than `size`.
pub sorted_length :
    (size low : ℕ) (xs : List ℕ)
    → IsSorted xs
    → ((v : ℕ) → Elem v xs → (low ≤ v) × (v < low + size))
    → length xs ≤ size
sorted_length size low [] s h = omega arith
sorted_length zero low (x ∷ xs) s h = let b = h x (inl refl) in absurd (omega arith)
sorted_length (suc size) low (x ∷ xs) s h =
    let rest = sorted_length size (suc low) xs s.1 (λ v m.
      let b = h v (inr m) in
      let first = h x (inl refl) in
      let lt = lt_of_Below x v xs s.0 m in (omega arith, omega arith)) in
    omega arith

abbrev pub total : List (List ℕ) → ℕ
total [] = 0
total (xs ∷ sets) = length xs + total sets

pub total-set :
    (sets : List (List ℕ)) (i : ℕ) (new : List ℕ)
    → i < length sets
    → total (set sets i new) + length (get_set sets i) ≡ total sets + length new
total-set [] i new h = absurd (omega arith)
total-set (xs ∷ sets) zero new h = omega arith
total-set (xs ∷ sets) (suc i) new h = omega (arith, total-set sets i new)

pub total-le :
    (sets : List (List ℕ)) (bound : ℕ)
    → ((i : ℕ) → length (get_set sets i) ≤ bound)
    → total sets ≤ length sets * bound
total-le [] bound h = omega arith
total-le (xs ∷ sets) bound h =
    let rest = total-le sets bound (λ i. h (suc i)) in let first = h 0 in grind arith

get_set-set :
    (sets : List (List ℕ)) (i j : ℕ) (new : List ℕ)
    → i < length sets
    → get_set (set sets i new) j ≡ (if i == j then new else get_set sets j)
get_set-set [] i j new h = absurd (omega arith)
get_set-set (xs ∷ sets) zero zero new h = refl
get_set-set (xs ∷ sets) zero (suc j) new h = ground arith
get_set-set (xs ∷ sets) (suc i) zero new h = ground arith
get_set-set (xs ∷ sets) (suc i) (suc j) new h = ground (arith, get_set-set sets i j new)

pub get_set-put :
    (sets : List (List ℕ)) (i j : ℕ) (new : List ℕ)
    → i < length sets
    → get_set (put sets i new) j ≡ (if i == j then new else get_set sets j)
get_set-put sets i j new h = elim (Bool-cases (text_beq new (get_set sets i))) [
  | inl e ↦
      let same : new ≡ get_set sets i = (text_beq_iff new (get_set sets i)).0 e in
      rw e (elim (Bool-cases (i == j)) [
        | inl e' ↦ let here : i ≡ j = (==_iff i j).0 e' in rw e' (rw same (rw here))
        | inr e' ↦ rw e'
      ])
  | inr e ↦ rw e (get_set-set sets i j new h)
]

-- Each set of the one is within that of the other.
abbrev pub Sub : List (List ℕ) → List (List ℕ) → Type 0
Sub sets sets' = (j v : ℕ) → mem v (get_set sets j) ≡ true → mem v (get_set sets' j) ≡ true

pub mem-gather :
    (ss : List ℕ) (sets : List (List ℕ)) (acc : List ℕ) (v : ℕ)
    → (mem v (gather ss sets acc) ≡ true)
      ↔ ((mem v acc ≡ true) ⊎ ((c : ℕ) × (mem c ss ≡ true) × (mem v (get_set sets c) ≡ true)))
unfolding gather
mem-gather [] sets acc v = (λ h. inl h, λ h. elim h [ inl m ↦ m | inr (c, m, _) ↦ cc ])
mem-gather (s ∷ ss) sets acc v =
    let ih = mem-gather ss sets (insert_all (get_set sets s) acc) v in
    let step = mem-insert_all (get_set sets s) acc v in
    (
      λ h. elim (ih.0 h) [
        | inl m ↦ elim (Bool-cases (mem v (get_set sets s))) [
          | inl here ↦ inr (s, ground (arith, ==_iff s s), here)
          | inr other ↦ inl (ground arith)
        ]
        | inr (c, mc, mv) ↦ inr (c, ground arith, mv)
      ],
      λ h. elim h [
        | inl m ↦ ih.1 (inl (ground arith))
        | inr (c, mc, mv) ↦ elim (Bool-cases (c == s)) [
          | inl e ↦
              let same : c ≡ s = (==_iff c s).0 e in
              let here : mem v (get_set sets s) ≡ true =
                subst (λ (c : ℕ). mem v (get_set sets c) ≡ true) same mv in
              ih.1 (inl (ground arith))
          | inr e ↦ ih.1 (inr (c, ground arith, mv))
        ]
      ],
    )
