-- ===== src/Prelude/NatSet/Pigeon.antt =====
-- Lists of distinct numbers below a bound: no longer than the bound, and full at that length.
use Prim.Native.Nat.{ℕ, zero, suc, ◌+◌, ◌≤◌, ◌<◌}
use mathlib.Core.Path.{◌≡◌, refl}
use mathlib.Core.Logic.{inl, inr}
use mathlib.Core.Bool.{true, false, not}
use mathlib.Core.List.{List, [], ◌∷◌}
use native.Mathlib.Omega.{arith}
use cielo.Prelude.Tests.{◌==◌, ==_iff, Bool-cases}
use cielo.Prelude.Lists.{length}
use cielo.Prelude.Explore.{mem}
use cielo.Prelude.NatSet.{keep, remove, IsNodup, mem-keep}

abbrev pub AllBelow : ℕ → List ℕ → Type 0
AllBelow n [] = Unit
AllBelow n (x ∷ xs) = (x < n) × AllBelow n xs

remove-AllBelow : (n : ℕ) (xs : List ℕ) → AllBelow (suc n) xs → AllBelow n (remove n xs)
unfolding keep
remove-AllBelow n [] below = tt
remove-AllBelow n (x ∷ xs) (lt, below) =
    ground (arith, remove-AllBelow n xs below, ==_iff x n, ==_iff n x)

remove-IsNodup : (n : ℕ) (xs : List ℕ) → IsNodup xs → IsNodup (remove n xs)
unfolding keep
remove-IsNodup n [] nodup = tt
remove-IsNodup n (x ∷ xs) (once, nodup) =
    ground (arith, remove-IsNodup n xs nodup, mem-keep (λ (y : ℕ). not (y == n)) xs x)

remove-same : (n : ℕ) (xs : List ℕ) → mem n xs ≡ false → length (remove n xs) ≡ length xs
unfolding keep
remove-same n [] absent = refl
remove-same n (x ∷ xs) absent = ground (arith, remove-same n xs, ==_iff x n, ==_iff n x)

length-remove : (n : ℕ) (xs : List ℕ) → IsNodup xs → length xs ≤ length (remove n xs) + 1
unfolding keep
length-remove n [] nodup = omega arith
length-remove n (x ∷ xs) (once, nodup) = elim (Bool-cases (x == n)) [
  | inl e ↦
      let same : x ≡ n = (==_iff x n).0 e in
      let absent : mem n xs ≡ false = rw same at once in
      rw e (omega (arith, remove-same n xs absent))
  | inr e ↦ rw e (omega (arith, length-remove n xs nodup))
]

-- Distinct numbers below a bound are no more than the bound.
pub length-le_of_nodup : (n : ℕ) (xs : List ℕ) → IsNodup xs → AllBelow n xs → length xs ≤ n
length-le_of_nodup zero [] nodup below = omega arith
length-le_of_nodup zero (x ∷ xs) nodup below = absurd (omega arith)
length-le_of_nodup (suc n) xs nodup below = omega (
  arith,
  length-remove n xs nodup,
  length-le_of_nodup n (remove n xs) (remove-IsNodup n xs nodup) (remove-AllBelow n xs below),
)

-- As many as the bound are all of those below it.
pub mem_of_full :
    (n : ℕ) (xs : List ℕ) (x : ℕ)
    → IsNodup xs
    → AllBelow n xs
    → length xs ≡ n
    → x < n
    → mem x xs ≡ true
mem_of_full n xs x nodup below full lt = elim (Bool-cases (mem x xs)) [
  | inl found ↦ found
  | inr absent ↦ absurd (omega (arith, length-le_of_nodup n (x ∷ xs) (absent, nodup) (lt, below)))
]
