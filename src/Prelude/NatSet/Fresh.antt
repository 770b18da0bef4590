-- ===== src/Prelude/NatSet/Fresh.antt =====
-- Lists with no element twice, against a set that grows with them.
use Prim.Native.Nat.{ℕ}
use mathlib.Core.Path.{◌≡◌, refl}
use mathlib.Core.Logic.{inl, inr, ◌↔◌}
use mathlib.Core.Bool.{true, false}
use mathlib.Core.List.{List, [], ◌∷◌, ◌++◌}
use native.Mathlib.Omega.{arith}
use cielo.Prelude.Tests.{◌==◌, ==_iff, Bool-cases}
use cielo.Prelude.Explore.{mem}
use cielo.Prelude.NatSet.{insert, insert_all, IsNodup, mem-insert}

-- No element twice, and none of the set.
abbrev pub IsFresh : List ℕ → List ℕ → Type 0
IsFresh seen [] = Unit
IsFresh seen (x ∷ xs) = (mem x seen ≡ false) × IsFresh (insert x seen) xs

pub IsFresh-iff :
    (seen xs : List ℕ)
    → IsFresh seen xs ↔ (IsNodup xs × ((y : ℕ) → mem y xs ≡ true → mem y seen ≡ false))
IsFresh-iff seen [] = (λ f. (tt, λ y m. cc), λ h. tt)
IsFresh-iff seen (x ∷ xs) = (
  λ (new, rest).
      let (distinct, apart) = (IsFresh-iff (insert x seen) xs).0 rest in
      (
        (
          elim (Bool-cases (mem x xs)) [
            | inl m ↦ let e = apart x m in ground (arith, mem-insert x x seen, ==_iff x x)
            | inr m ↦ m
          ],
          distinct,
        ),
        λ y m. elim (Bool-cases (y == x)) [
          | inl e ↦ let same : y ≡ x = (==_iff y x).0 e in rw same new
          | inr e ↦
              let m' : mem y xs ≡ true = rw e at m in
              let e' = apart y m' in ground (arith, mem-insert x y seen)
        ],
      ),
  λ ((once, distinct), apart).
      let here : mem x seen ≡ false = apart x (ground (arith, ==_iff x x)) in
      (
        here,
        (IsFresh-iff (insert x seen) xs).1 (
          distinct,
          λ y m. elim (Bool-cases (y == x)) [
            | inl e ↦
                let same : y ≡ x = (==_iff y x).0 e in let m' : mem x xs ≡ true = rw same at m in cc
            | inr e ↦
                let old : mem y seen ≡ false = apart y (rw e m) in
                rw (mem-insert x y seen) (rw e old)
          ],
        ),
      ),
)

pub IsFresh-append :
    (seen xs ys : List ℕ)
    → IsFresh seen (xs ++ ys) ↔ (IsFresh seen xs × IsFresh (insert_all xs seen) ys)
unfolding insert_all
IsFresh-append seen [] ys = (λ f. (tt, f), λ f. f.1)
IsFresh-append seen (x ∷ xs) ys =
    let ih = IsFresh-append (insert x seen) xs ys in
    (λ (new, f). let (a, b) = ih.0 f in ((new, a), b), λ ((new, a), b). (new, ih.1 (a, b)))

pub insert_all-append :
    (xs ys seen : List ℕ) → insert_all (xs ++ ys) seen ≡ insert_all ys (insert_all xs seen)
unfolding insert_all
insert_all-append [] ys seen = refl
insert_all-append (x ∷ xs) ys seen = insert_all-append xs ys (insert x seen)
