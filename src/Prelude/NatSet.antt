-- ===== src/Prelude/NatSet.antt =====
-- Sets of numbers, as strictly increasing lists: `BTreeSet` and `HashSet` over ids.
pub mod Fresh
pub mod Pigeon
use Prim.Native.Nat.{ℕ, ◌<◌}
use mathlib.Core.Path.{◌≡◌, refl}
use mathlib.Core.Logic.{inl, inr}
use mathlib.Core.Bool.{Bool, true, false, ◌||◌, ◌&&◌, not}
use mathlib.Core.List.{List, [], ◌∷◌}
use native.Mathlib.Omega.{arith}
use cielo.Prelude.Tests.{◌==◌, ltb, if◌then◌else◌, ==_iff, Bool-cases}
use cielo.Prelude.Lists.{Elem, all}
use cielo.Prelude.Sorted.{Below, IsSorted, Below-trans}
use cielo.Prelude.Explore.{mem}

unfoldable pub insert : ℕ → List ℕ → List ℕ
insert x [] = x ∷ []
insert x (y ∷ ys) = if x == y then y ∷ ys else if ltb x y then x ∷ y ∷ ys else y ∷ insert x ys

-- `extend`
unfoldable pub insert_all : List ℕ → List ℕ → List ℕ
insert_all [] ys = ys
insert_all (x ∷ xs) ys = insert_all xs (insert x ys)

unfoldable pub keep : (ℕ → Bool) → List ℕ → List ℕ
keep p [] = []
keep p (x ∷ xs) = if p x then x ∷ keep p xs else keep p xs

-- `remove`
abbrev pub remove : ℕ → List ℕ → List ℕ
remove x = keep (λ y. not (y == x))

-- `intersection`
abbrev pub inter : List ℕ → List ℕ → List ℕ
inter xs ys = keep (λ x. mem x ys) xs

-- No element twice.
abbrev pub IsNodup : List ℕ → Type 0
IsNodup [] = Unit
IsNodup (x ∷ xs) = (mem x xs ≡ false) × IsNodup xs

pub mem-insert : (x y : ℕ) (xs : List ℕ) → mem y (insert x xs) ≡ (y == x || mem y xs)
unfolding insert
mem-insert x y [] = refl
mem-insert x y (z ∷ zs) = ground (arith, mem-insert x y zs, ==_iff x z, ==_iff y x, ==_iff y z)

pub mem-insert_all : (xs ys : List ℕ) (y : ℕ) → mem y (insert_all xs ys) ≡ (mem y xs || mem y ys)
unfolding insert_all
mem-insert_all [] ys y = refl
mem-insert_all (x ∷ xs) ys y = ground (arith, mem-insert_all xs (insert x ys) y, mem-insert x y ys)

pub mem-keep : (p : ℕ → Bool) (xs : List ℕ) (y : ℕ) → mem y (keep p xs) ≡ (p y && mem y xs)
unfolding keep
mem-keep p [] y = elim (Bool-cases (p y)) [ inl e ↦ rw e | inr e ↦ rw e ]
mem-keep p (x ∷ xs) y = elim (Bool-cases (y == x)) [
  | inl e ↦
      let same : y ≡ x = (==_iff y x).0 e in rw same (ground (arith, mem-keep p xs x, ==_iff x x))
  | inr e ↦ ground (arith, mem-keep p xs y)
]

insert-Below : (n x : ℕ) (xs : List ℕ) → n < x → Below n xs → Below n (insert x xs)
unfolding insert
insert-Below n x [] h b = (h, tt)
insert-Below n x (y ∷ ys) h b = ground (arith, insert-Below n x ys)

pub insert-IsSorted : (x : ℕ) (xs : List ℕ) → IsSorted xs → IsSorted (insert x xs)
unfolding insert
insert-IsSorted x [] s = (tt, tt)
insert-IsSorted x (y ∷ ys) s =
    ground (arith, insert-IsSorted x ys, insert-Below y x ys, Below-trans x y ys)
