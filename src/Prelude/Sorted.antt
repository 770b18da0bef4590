-- ===== src/Prelude/Sorted.antt =====
-- Strictly increasing lists of numbers: insertion, dropping, and equality by membership.
use Prim.Native.Nat.{ℕ, ◌<◌, ◌≤◌}
use mathlib.Core.Path.{◌≡◌, refl, ap₂}
use mathlib.Core.Logic.{◌↔◌, inl, inr}
use mathlib.Core.List.{List, [], ◌∷◌}
use native.Mathlib.Omega.{arith}
use cielo.Prelude.Lists.{Elem}

-- `n` is below every element of the list.
abbrev pub Below : ℕ → List ℕ → Type 0
Below n [] = Unit
Below n (x ∷ xs) = (n < x) × Below n xs

abbrev pub IsSorted : List ℕ → Type 0
IsSorted [] = Unit
IsSorted (x ∷ xs) = Below x xs × IsSorted xs

pub lt_of_Below : (n a : ℕ) (xs : List ℕ) → Below n xs → Elem a xs → n < a
lt_of_Below n a [] h m = elim m [ ]
lt_of_Below n a (x ∷ xs) h (inl e) = omega (arith, h.0)
lt_of_Below n a (x ∷ xs) h (inr m) = lt_of_Below n a xs h.1 m

pub Below-trans : (m n : ℕ) (xs : List ℕ) → m ≤ n → Below n xs → Below m xs
Below-trans m n [] h b = tt
Below-trans m n (x ∷ xs) h b = (omega (arith, b.0), Below-trans m n xs h b.1)

pub Below-of_elems : (n : ℕ) (xs : List ℕ) → ((a : ℕ) → Elem a xs → n < a) → Below n xs
Below-of_elems n [] h = tt
Below-of_elems n (x ∷ xs) h = (h x (inl refl), Below-of_elems n xs (λ a m. h a (inr m)))

-- Two increasing lists with the same elements are equal.
pub sorted_ext :
    (xs ys : List ℕ) → IsSorted xs → IsSorted ys → ((a : ℕ) → Elem a xs ↔ Elem a ys) → xs ≡ ys
sorted_ext [] [] sx sy h = refl
sorted_ext [] (y ∷ ys) sx sy h = elim ((h y).1 (inl refl)) [ ]
sorted_ext (x ∷ xs) [] sx sy h = elim ((h x).0 (inl refl)) [ ]
sorted_ext (x ∷ xs) (y ∷ ys) sx sy h =
    let heads : x ≡ y = heads_eq in ap₂ ◌∷◌ heads (sorted_ext xs ys sx.1 sy.1 tails)
  where
    heads_eq : x ≡ y
    heads_eq = elim ((h x).0 (inl refl)) [
      | inl e ↦ e
      | inr m ↦ elim ((h y).1 (inl refl)) [
        | inl e ↦ omega arith
        | inr m' ↦ absurd (omega (arith, lt_of_Below y x ys sy.0 m, lt_of_Below x y xs sx.0 m'))
      ]
    ]

    tails : (a : ℕ) → Elem a xs ↔ Elem a ys
    tails a = (
      λ m. elim ((h a).0 (inr m)) [
        | inl e ↦ absurd (omega (arith, lt_of_Below x a xs sx.0 m, heads_eq))
        | inr m' ↦ m'
      ],
      λ m. elim ((h a).1 (inr m)) [
        | inl e ↦ absurd (omega (arith, lt_of_Below y a ys sy.0 m, heads_eq))
        | inr m' ↦ m'
      ],
    )
