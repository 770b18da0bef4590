-- ===== src/Prelude/Elems.antt =====
-- Membership in joined and reversed lists.
use Prim.Native.Nat.{ℕ}
use mathlib.Core.Logic.{◌⊎◌, ◌↔◌, inl, inr}
use mathlib.Core.List.{List, [], ◌∷◌, ◌++◌, reverse, reverse-cons}
use native.Mathlib.Omega.{arith}
use cielo.Prelude.Lists.{Elem}

pub Elem-append : (y : ℕ) (xs ys : List ℕ) → Elem y (xs ++ ys) → Elem y xs ⊎ Elem y ys
Elem-append y [] ys h = inr h
Elem-append y (x ∷ xs) ys h = ground (arith, Elem-append y xs ys)

pub Elem-append_left : (y : ℕ) (xs ys : List ℕ) → Elem y xs → Elem y (xs ++ ys)
Elem-append_left y [] ys h = absurd h
Elem-append_left y (x ∷ xs) ys h = ground (arith, Elem-append_left y xs ys)

pub Elem-append_right : (y : ℕ) (xs ys : List ℕ) → Elem y ys → Elem y (xs ++ ys)
Elem-append_right y [] ys h = h
Elem-append_right y (x ∷ xs) ys h = inr (Elem-append_right y xs ys h)

pub Elem-reverse : (y : ℕ) (xs : List ℕ) → Elem y (reverse xs) ↔ Elem y xs
Elem-reverse y [] = (λ m. m, λ m. m)
Elem-reverse y (x ∷ xs) = rw (reverse-cons x xs) (
  λ m. elim (Elem-append y (reverse xs) (x ∷ []) m) [
    | inl old ↦ inr ((Elem-reverse y xs).0 old)
    | inr last ↦ ground arith
  ],
  λ m. elim m [
    | inl e ↦ Elem-append_right y (reverse xs) (x ∷ []) (inl e)
    | inr old ↦ Elem-append_left y (reverse xs) (x ∷ []) ((Elem-reverse y xs).1 old)
  ],
)
